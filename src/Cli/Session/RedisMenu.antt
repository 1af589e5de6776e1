-- ===== src/Cli/Session/RedisMenu.antt =====
-- src/cli/main.cpp: what a session does with the lines of make_bdr of src/cli/redis_config.cpp.
use auto_drop.Prelude.{
  ◌≡◌, refl, ◌∙◌, ap, true, false, List, [], ◌∷◌, ◌++◌, Str, codes, str_beq, lookup, str_eq, All,
}
use auto_drop.Cli.SmConfig.{is_empty, reread}
use auto_drop.Cli.RedisConfig.{
  RedisConfig, done, params, get_redis_config, int_to_string, make_bdr_lines,
}
use auto_drop.Cli.RedisConfig.Port.{IsInt, stoi-int_to_string, int_to_string-plain}
use auto_drop.Cli.Words.{plain}
use auto_drop.Cli.Words.Lines.{OneLine}
use auto_drop.Cli.Session.{
  Session, at_menu, Library, Documented, restart_subscriber, params_session, feed_all,
}
use auto_drop.Cli.Session.Feeds.{feed-command}
use auto_drop.Cli.Session.SmLines.{three_words}

-- A connection whose texts are words, and whose port is an `int`.
pub record PlainRedis (node : RedisConfig) : Type 0 where
  pub plain_host : plain node.host ≡ true
  pub int_port : IsInt node.port
  pub plain_password : plain node.password ≡ true

pub plain-some : (s : Str) → plain s ≡ true → is_empty s ≡ false
plain-some [] h = cc h
plain-some (c ∷ s) h = refl

params-saved :
    (node old : RedisConfig)
    → PlainRedis node
    → params (node.host ∷ int_to_string node.port ∷ node.password ∷ []) old ≡ (node, done, true)
unfolding params
params-saved node old h = rw (stoi-int_to_string node.port h.int_port) refl

params_session-saved :
    (stored : Str → Str) (node : RedisConfig) (s : Session)
    → PlainRedis node
    → reread stored s.sm ≡ s.sm
    → params_session stored (node.host ∷ int_to_string node.port ∷ node.password ∷ []) s
      ≡ record s { redis = node; calls = s.calls ++ restart_subscriber ∷ [] }
unfolding params_session
params_session-saved stored node s h same =
    rw (params-saved node s.redis h)
      (λ i. record s { redis = node; calls = s.calls ++ restart_subscriber ∷ []; sm = same i })

module _ (drivers : List Str) (check_lua stored : Str → Str) (edited : List Str → Str)
    (lib : Library) (doc : Documented lib) where
  abbrev line : RedisConfig → Str
  line node =
      codes "params "
      ++ (node.host ++ (codes " " ++ (int_to_string node.port ++ (codes " " ++ node.password))))

  line-words :
      (node : RedisConfig)
      → PlainRedis node
      → (lib.split (line node)
          ≡ codes "params" ∷ node.host ∷ int_to_string node.port ∷ node.password ∷ [])
        × OneLine (line node)
  line-words node h =
      let (is, one) =
        three_words lib doc node.host (int_to_string node.port) node.password h.plain_host
          (int_to_string-plain node.port) h.plain_password in
      (doc.splits.word (codes "params") _ refl ∙ ap (◌∷◌ (codes "params")) is, one)

  make_bdr_lines-one : (node : RedisConfig) → PlainRedis node → make_bdr_lines node ≡ line node ∷ []
  unfolding make_bdr_lines get_redis_config
  make_bdr_lines-one node h = rw (make_bdr_lines, plain-some node.host h.plain_host) refl

  pub redis_lines-OneLine :
      (node : RedisConfig) → PlainRedis node → All OneLine (make_bdr_lines node)
  redis_lines-OneLine node h = rw (make_bdr_lines-one node h) ((line-words node h).1, tt)

  pub feed_all-redis :
      (node : RedisConfig) (s : Session)
      → PlainRedis node
      → reread stored s.sm ≡ s.sm
      → s.place ≡ at_menu (codes "redis")
      → feed_all drivers check_lua stored edited lib (make_bdr_lines node) s
        ≡ record s { redis = node; calls = s.calls ++ restart_subscriber ∷ [] }
  unfolding feed_all lookup str_beq
  feed_all-redis node s h same here =
      let ps = node.host ∷ int_to_string node.port ∷ node.password ∷ [] in
      ap (λ ls. feed_all drivers check_lua stored edited lib ls s) (make_bdr_lines-one node h)
      ∙ feed-command drivers check_lua stored edited lib doc (codes "redis") (codes "params") _ _ ps
          (line node) s refl refl refl here (line-words node h).0
      ∙ params_session-saved stored node s h same
