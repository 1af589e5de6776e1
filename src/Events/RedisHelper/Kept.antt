-- ===== src/Events/RedisHelper/Kept.antt =====
-- src/public/event_sc/ad_redis.cpp: what a helper writes is read back, and no connection is left.
use auto_drop.Prelude.{suc, ◌≡◌, ◌≢◌, refl, ◌∙◌, ap, some, List, [], ◌∷◌, Str, All, arith}
use auto_drop.Events.RedisHelper.{
  Server, Connect, no_context, failed, no_auth_reply, auth_error, connected, Reply, lost,
  lost_after, error, answered, Net, World, ser_key, text_of, set, get, publish,
}

-- The calls of the helpers, each with what the network does.
pub data HelperCall : Type 0 where
  set_call : Net → Str → Str → HelperCall
  get_call : Net → Str → HelperCall
  publish_call : Net → Str → Str → HelperCall

-- A call that does not write this key.
abbrev pub Leaves : Str → HelperCall → Type 0
Leaves key (set_call net k v) = k ≢ key
Leaves key (get_call net k) = Unit {0}
Leaves key (publish_call net channel msg) = Unit {0}

-- A call that is answered.
abbrev pub good : Net
good = record { connect = connected; reply = answered }

module _ {S : Type 0} (srv : Server S) (self_serial : Str) where
  abbrev pub do_call : HelperCall → World S → World S
  do_call (set_call net k v) w = set srv self_serial net k v w
  do_call (get_call net k) w = (get srv self_serial net k w).1
  do_call (publish_call net channel msg) w = publish srv self_serial net channel msg w

  unfoldable pub do_calls : List HelperCall → World S → World S
  do_calls [] w = w
  do_calls (c ∷ cs) w = do_calls cs (do_call c w)

  -- Every connection made is freed, and the key has the value.
  abbrev Holds : Str → Str → World S → Type 0
  Holds key value w =
      (w.opened ≡ w.freed) × (srv.hget (ser_key self_serial) key w.server ≡ some value)

  set-Holds :
      (c : Connect) (r : Reply) (k v key value : Str) (w : World S)
      → k ≢ key
      → Holds key value w
      → Holds key value (set srv self_serial (record { connect = c; reply = r }) k v w)
  unfolding set
  set-Holds connected lost k v key value w other h = ground arith
  set-Holds connected lost_after k v key value w other h =
      (ap suc h.0, srv.hget-hset_other (ser_key self_serial) k key v w.server other ∙ h.1)
  set-Holds connected error k v key value w other h = ground arith
  set-Holds connected answered k v key value w other h =
      (ap suc h.0, srv.hget-hset_other (ser_key self_serial) k key v w.server other ∙ h.1)
  set-Holds no_context r k v key value w other h = h
  set-Holds failed r k v key value w other h = (ap suc h.0, h.1)
  set-Holds no_auth_reply r k v key value w other h = (ap suc h.0, h.1)
  set-Holds auth_error r k v key value w other h = (ap suc h.0, h.1)

  get-Holds :
      (c : Connect) (r : Reply) (k key value : Str) (w : World S)
      → Holds key value w
      → Holds key value (get srv self_serial (record { connect = c; reply = r }) k w).1
  unfolding get
  get-Holds connected r k key value w h = (ap suc h.0, h.1)
  get-Holds no_context r k key value w h = h
  get-Holds failed r k key value w h = (ap suc h.0, h.1)
  get-Holds no_auth_reply r k key value w h = (ap suc h.0, h.1)
  get-Holds auth_error r k key value w h = (ap suc h.0, h.1)

  publish-Holds :
      (c : Connect) (r : Reply) (channel msg key value : Str) (w : World S)
      → Holds key value w
      → Holds key value (publish srv self_serial (record { connect = c; reply = r }) channel msg w)
  unfolding publish
  publish-Holds connected lost channel msg key value w h = (ap suc h.0, h.1)
  publish-Holds connected lost_after channel msg key value w h = (ap suc h.0, h.1)
  publish-Holds connected error channel msg key value w h = (ap suc h.0, h.1)
  publish-Holds connected answered channel msg key value w h = (ap suc h.0, h.1)
  publish-Holds no_context r channel msg key value w h = h
  publish-Holds failed r channel msg key value w h = (ap suc h.0, h.1)
  publish-Holds no_auth_reply r channel msg key value w h = (ap suc h.0, h.1)
  publish-Holds auth_error r channel msg key value w h = (ap suc h.0, h.1)

  do_calls-Holds :
      (cs : List HelperCall) (key value : Str) (w : World S)
      → All (Leaves key) cs
      → Holds key value w
      → Holds key value (do_calls cs w)
  unfolding do_calls
  do_calls-Holds [] key value w other h = h
  do_calls-Holds (set_call net k v ∷ cs) key value w other h =
      do_calls-Holds cs key value (set srv self_serial net k v w) other.1
        (set-Holds net.connect net.reply k v key value w other.0 h)
  do_calls-Holds (get_call net k ∷ cs) key value w other h =
      do_calls-Holds cs key value (get srv self_serial net k w).1 other.1
        (get-Holds net.connect net.reply k key value w h)
  do_calls-Holds (publish_call net channel msg ∷ cs) key value w other h =
      do_calls-Holds cs key value (publish srv self_serial net channel msg w) other.1
        (publish-Holds net.connect net.reply channel msg key value w h)

  set-good :
      (key value : Str) (w : World S)
      → w.opened ≡ w.freed
      → Holds key value (set srv self_serial good key value w)
  unfolding set
  set-good key value w h = (ap suc h, srv.hget-hset (ser_key self_serial) key value w.server)

  get-good :
      (key : Str) (w : World S)
      → (get srv self_serial good key w).0
        ≡ text_of answered (srv.hget (ser_key self_serial) key w.server)
  unfolding get
  get-good key w = refl

  -- A value that was set in a call that was answered is what a later get of its key returns when it
  -- is answered, whatever calls come between and whatever the network does to them, as long as none
  -- of them sets that key; and after all of them every connection that was made has been freed,
  -- exactly once.
  pub get-set :
      (cs : List HelperCall) (key value : Str) (w : World S)
      → w.opened ≡ w.freed
      → All (Leaves key) cs
      → let w' = do_calls cs (set srv self_serial good key value w) in
        let (text, w'') = get srv self_serial good key w' in
        (text ≡ value) × (w''.opened ≡ w''.freed)
  get-set cs key value w balanced other =
      let w' = do_calls cs (set srv self_serial good key value w) in
      let (freed, kept) =
        do_calls-Holds cs key value (set srv self_serial good key value w) other
          (set-good key value w balanced) in
      (
        get-good key w' ∙ ap (text_of answered) kept,
        (get-Holds connected answered key key value w' (freed, kept)).0,
      )
