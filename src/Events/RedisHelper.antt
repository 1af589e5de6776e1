-- ===== src/Events/RedisHelper.antt =====
-- AD_REDIS_HELPER of src/public/event_sc/ad_redis.{h,cpp}: one connection for each call. hiredis is
-- outside: what it gives for a call is the argument Net. The server keeps what HSET and HGET
-- document. The serial is set in the environment, and no text has a zero byte.
pub mod Kept
mod Examples
use auto_drop.Prelude.{
  ℕ, suc, Bool, true, false, if◌then◌else◌, Option, none, some, List, [], ◌∷◌, ◌++◌, Str, codes,
  ◌≡◌, ◌≢◌,
}

-- The hashes of a server.
pub record Server (S : Type 0) : Type 0 where
  pub hset : Str → Str → Str → S → S
  pub hget : Str → Str → S → Option Str
  pub hget-hset : (k f v : Str) (s : S) → hget k f (hset k f v s) ≡ some v
  pub hget-hset_other : (k f g v : Str) (s : S) → f ≢ g → hget k g (hset k f v s) ≡ hget k g s

-- redisConnectWithTimeout: no context, one with an error, or a connection, with the reply to AUTH.
pub data Connect : Type 0 where
  no_context failed no_auth_reply auth_error connected : Connect

-- The reply to the command: none, with the command lost or done; an error; or an answer.
pub data Reply : Type 0 where
  lost lost_after error answered : Reply

pub record Net : Type 0 where
  pub connect : Connect
  pub reply : Reply

-- The server, the connections made and freed so far, and what was published.
pub record World (S : Type 0) : Type 0 where
  pub server : S
  pub opened : ℕ
  pub freed : ℕ
  pub published : List (Str × Str)

abbrev pub ser_key : Str → Str
ser_key self_serial = codes "appliance:" ++ self_serial

-- Whether the server did the command.
abbrev pub is_done : Reply → Bool
is_done lost = false
is_done lost_after = true
is_done error = false
is_done answered = true

-- A reply that is no string leaves the text empty.
abbrev pub text_of : Reply → Option Str → Str
text_of answered (some v) = v
text_of answered none = []
text_of lost o = []
text_of lost_after o = []
text_of error o = []

module _ {S : Type 0} where
  abbrev pub open_context : World S → World S
  open_context w = record w { opened = suc w.opened }

  unfoldable pub redis_free : World S → World S
  redis_free w = record w { freed = suc w.freed }

  -- Whether there is a connection.
  unfoldable pub prepare_redis : Connect → World S → Bool × World S
  unfolding redis_free
  prepare_redis no_context w = (false, w)
  prepare_redis failed w = (false, redis_free (open_context w))
  prepare_redis no_auth_reply w = (false, redis_free (open_context w))
  prepare_redis auth_error w = (false, redis_free (open_context w))
  prepare_redis connected w = (true, open_context w)

  module _ (srv : Server S) (self_serial : Str) where
    unfoldable pub set : Net → Str → Str → World S → World S
    unfolding prepare_redis redis_free
    set net key value w =
        let (connection, w') = prepare_redis net.connect w in
        if connection
        then redis_free (
            if is_done net.reply
            then record w' { server = srv.hset (ser_key self_serial) key value w'.server }
            else w')
        else w'

    unfoldable pub get : Net → Str → World S → Str × World S
    unfolding prepare_redis redis_free
    get net key w =
        let (connection, w') = prepare_redis net.connect w in
        if connection
        then (text_of net.reply (srv.hget (ser_key self_serial) key w'.server), redis_free w')
        else ([], w')

    unfoldable pub publish : Net → Str → Str → World S → World S
    unfolding prepare_redis redis_free
    publish net channel msg w =
        let (connection, w') = prepare_redis net.connect w in
        if connection
        then redis_free (
            if is_done net.reply
            then record w' { published = w'.published ++ (channel ++ self_serial, msg) ∷ [] }
            else w')
        else w'
