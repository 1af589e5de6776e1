-- ===== src/Cli/Session/Parts.antt =====
-- src/cli/main.cpp: the four parts of the file that `save` writes, as a session runs them.
use auto_drop.Prelude.{
  ◌≡◌, refl, sym, ◌∙◌, ap, ◌⊎◌, inl, inr, true, ◌||◌, if◌then◌else◌, List, [], ◌∷◌, ◌++◌, Str,
  codes, str_beq, lookup, has, str_eq, All, All-append, append-nil, subst,
}
use auto_drop.Prelude.Int.{pos}
use auto_drop.Cli.Words.{plain}
use auto_drop.Cli.SmConfig as Sm
use auto_drop.Cli.SmConfig.{is_empty, reread, run_commands}
use auto_drop.Cli.SmConfig.Bdr as SmBdr
use auto_drop.Cli.SmConfig.Nodes.{WellFormed}
use auto_drop.Cli.SmConfig.Restore.{bdr_commands}
use auto_drop.Cli.SmConfig.Restore.Cleared.{Writable}
use auto_drop.Cli.SmConfig.Restore.Written.{run_bdr_commands}
use auto_drop.Cli.SmConfig.Stored.Kept.{KeptNode}
use auto_drop.Cli.DeviceConfig as Devices
use auto_drop.Cli.DeviceConfig.Restore.{Distinct, Installed, add_devices-make_bdr, NewTo-nil}
use auto_drop.Cli.RuntimeConfig as Runtime
use auto_drop.Cli.RuntimeConfig.{clear_log}
use auto_drop.Cli.RedisConfig as Redis
use auto_drop.Cli.RedisConfig.{RedisConfig}
use auto_drop.Cli.Words.Lines.{OneLine, unlines, unlines-append}
use auto_drop.Cli.Session.{
  Session, at_root, at_menu, Library, Documented, RemoteCall, restart_daemons, restart_subscriber,
  bdr_part, feed_all,
}
use auto_drop.Cli.Session.Feeds.{
  part_lines, bdr_part-lines, part_lines-OneLine, feed_all-append, feed_all-part,
}
use auto_drop.Cli.Session.SmLines.{PlainNode, make_bdr_lines-say}
use auto_drop.Cli.Session.SmMenu.{feed_all-AllSay}
use auto_drop.Cli.Session.DeviceMenu.{PlainDevice, feed_all-devices}
use auto_drop.Cli.Session.RuntimeMenu.{
  PlainLog, DistinctLogs, FreshLogs, FreshLogs-nil, feed_all-logs,
}
use auto_drop.Cli.Session.RedisMenu.{PlainRedis, plain-some, redis_lines-OneLine, feed_all-redis}

abbrev pub no_redis : RedisConfig
no_redis = Redis.clear (record { host = []; port = pos 0; password = [] })

-- The call that the saved connection leads to.
abbrev pub announced : RedisConfig → List RemoteCall
announced node = if is_empty node.host then [] else restart_subscriber ∷ []

abbrev pub all_lines : Session → List Str
all_lines s =
    part_lines (codes "device") (Devices.make_bdr_lines s.devices)
    ++ (part_lines (codes "state_machine") (SmBdr.make_bdr_lines s.sm)
        ++ (part_lines (codes "runtime") (Runtime.make_bdr_lines s.logs)
            ++ part_lines (codes "redis") (Redis.make_bdr_lines s.redis)))

pub parts_text :
    (a b c d : Str) (p q r t : List Str)
    → All OneLine p
    → All OneLine q
    → All OneLine r
    → All OneLine t
    → bdr_part a p ++ (bdr_part b q ++ (bdr_part c r ++ bdr_part d t))
      ≡ unlines (part_lines a p ++ (part_lines b q ++ (part_lines c r ++ part_lines d t)))
parts_text a b c d p q r t hp hq hr ht =
    let P = part_lines a p in
    let Q = part_lines b q in
    let R = part_lines c r in
    let T = part_lines d t in
    ap (λ x. x ++ (bdr_part b q ++ (bdr_part c r ++ bdr_part d t))) (bdr_part-lines a p hp)
    ∙ ap (λ x. unlines P ++ (x ++ (bdr_part c r ++ bdr_part d t))) (bdr_part-lines b q hq)
    ∙ ap (λ x. unlines P ++ (unlines Q ++ (x ++ bdr_part d t))) (bdr_part-lines c r hr)
    ∙ ap (λ x. unlines P ++ (unlines Q ++ (unlines R ++ x))) (bdr_part-lines d t ht)
    ∙ ap (λ x. unlines P ++ (unlines Q ++ x)) (sym (unlines-append R T))
    ∙ ap (λ x. unlines P ++ x) (sym (unlines-append Q (R ++ T)))
    ∙ sym (unlines-append P (Q ++ (R ++ T)))

pub parts_lines-OneLine :
    (p q r t : List Str)
    → All OneLine p
    → All OneLine q
    → All OneLine r
    → All OneLine t
    → All OneLine (
        part_lines (codes "device") p
        ++ (part_lines (codes "state_machine") q
            ++ (part_lines (codes "runtime") r ++ part_lines (codes "redis") t)))
parts_lines-OneLine p q r t hp hq hr ht =
    let one = λ (m : Str) (ls : List Str) (h : OneLine m) (k : All OneLine ls).
      part_lines-OneLine m ls h k in
    All-append OneLine (part_lines (codes "device") p) _ (one (codes "device") p refl hp) (
      All-append OneLine (part_lines (codes "state_machine") q) _
        (one (codes "state_machine") q refl hq)
        (All-append OneLine (part_lines (codes "runtime") r) _ (one (codes "runtime") r refl hr)
          (one (codes "redis") t refl ht)))

module _ (drivers : List Str) (check_lua stored : Str → Str) (edited : List Str → Str)
    (lib : Library) (doc : Documented lib) where
  abbrev feeds : List Str → Session → Session
  feeds = feed_all drivers check_lua stored edited lib

  pub redis_OneLine :
      (node : RedisConfig)
      → PlainRedis node ⊎ (node ≡ no_redis)
      → All OneLine (Redis.make_bdr_lines node)
  unfolding Redis.make_bdr_lines Redis.clear Redis.get_redis_config
  redis_OneLine node (inl h) = redis_lines-OneLine drivers check_lua stored edited lib doc node h
  redis_OneLine node (inr e) = subst (λ n. All OneLine (Redis.make_bdr_lines n)) (sym e) tt

  announced-plain :
      (node : RedisConfig) → PlainRedis node → announced node ≡ restart_subscriber ∷ []
  announced-plain node h = rw (plain-some node.host h.plain_host) refl

  -- What the redis lines add to a session that has no connection.
  feed_all-any_redis :
      (node : RedisConfig) (s : Session)
      → PlainRedis node ⊎ (node ≡ no_redis)
      → s.redis ≡ no_redis
      → reread stored s.sm ≡ s.sm
      → s.place ≡ at_menu (codes "redis")
      → feeds (Redis.make_bdr_lines node) s
        ≡ record s { redis = node; calls = s.calls ++ announced node }
  unfolding feed_all Redis.make_bdr_lines Redis.clear Redis.get_redis_config
  feed_all-any_redis node s (inl h) old same here =
      feed_all-redis drivers check_lua stored edited lib doc node s h same here
      ∙ ap (λ c. record s { redis = node; calls = s.calls ++ c }) (sym (announced-plain node h))
  feed_all-any_redis node s (inr e) old same here =
      subst
        (λ n.
          feeds (Redis.make_bdr_lines n) s ≡ record s { redis = n; calls = s.calls ++ announced n })
        (sym e) (λ i. record s { redis = old i; calls = sym (append-nil s.calls) i })

  -- Each part of the file, from a session whose own part is empty.
  pub feeds-device_part :
      (ds : List Devices.Device) (s : Session)
      → All PlainDevice ds
      → All (Installed drivers) ds
      → Distinct ds
      → s.place ≡ at_root
      → s.devices ≡ []
      → reread stored s.sm ≡ s.sm
      → feeds (part_lines (codes "device") (Devices.make_bdr_lines ds)) s
        ≡ record s { place = at_root; devices = ds }
  unfolding lookup has str_beq
  feeds-device_part ds s h installed distinct here none_yet same =
      let inside : Session = record s { place = at_menu (codes "device") } in
      feed_all-part drivers check_lua stored edited lib doc (codes "device") _
        (Devices.make_bdr_lines ds) s (record s { devices = ds }) refl refl refl refl refl refl here
        (feed_all-devices drivers check_lua stored edited lib doc ds inside h same refl
          ∙ ap (λ (l : List Devices.Device). record inside { devices = l })
              (ap (Devices.add_devices drivers (Devices.make_bdr ds)) none_yet
                ∙ add_devices-make_bdr drivers ds [] installed distinct (NewTo-nil ds)))

  pub feeds-sm_part :
      (t : Sm.SmTree) (s : Session)
      → WellFormed t
      → All PlainNode t.states
      → All (Writable check_lua) t.states
      → stored [] ≡ []
      → All (KeptNode stored) t.states
      → (is_empty t.init_state || plain t.init_state) ≡ true
      → s.place ≡ at_root
      → s.sm ≡ Sm.clear s.sm
      → feeds (part_lines (codes "state_machine") (SmBdr.make_bdr_lines t)) s
        ≡ record s { place = at_root; sm = t }
  unfolding lookup has str_beq
  feeds-sm_part t s w h full empty_kept kept first here none_yet =
      let inside : Session = record s { place = at_menu (codes "state_machine") } in
      feed_all-part drivers check_lua stored edited lib doc (codes "state_machine") _
        (SmBdr.make_bdr_lines t) s (record s { sm = t }) refl refl refl refl refl refl here
        (feed_all-AllSay drivers check_lua stored edited lib doc (SmBdr.make_bdr_lines t)
            (bdr_commands t) inside (make_bdr_lines-say lib doc t h first) refl
          ∙ ap (λ (u : Sm.SmTree). record inside { sm = u })
              (ap (run_commands check_lua stored (bdr_commands t)) none_yet
                ∙ run_bdr_commands check_lua stored t s.sm w full empty_kept kept))

  pub feeds-runtime_part :
      (cs : List Runtime.LogConfig) (s : Session)
      → All PlainLog cs
      → DistinctLogs cs
      → s.place ≡ at_root
      → s.logs ≡ []
      → feeds (part_lines (codes "runtime") (Runtime.make_bdr_lines cs)) s ≡ record s {
        place = at_root;
        logs = cs;
        calls = s.calls ++ restart_daemons s.devices s.sm.init_state ∷ [];
      }
  unfolding lookup has str_beq
  feeds-runtime_part cs s h distinct here none_yet =
      let inside : Session = record s { place = at_menu (codes "runtime") } in
      let calls = s.calls ++ restart_daemons s.devices s.sm.init_state ∷ [] in
      feed_all-part drivers check_lua stored edited lib doc (codes "runtime") _
        (Runtime.make_bdr_lines cs) s (record s { logs = cs; calls = calls }) refl refl refl refl
        refl refl here
        (feed_all-logs drivers check_lua stored edited lib doc cs inside h
            (subst (λ acc. FreshLogs acc cs) (sym none_yet) (FreshLogs-nil cs)) distinct refl
          ∙ ap (λ (l : List Runtime.LogConfig). record inside { logs = l ++ cs; calls = calls })
              none_yet)

  pub feeds-redis_part :
      (node : RedisConfig) (s : Session)
      → PlainRedis node ⊎ (node ≡ no_redis)
      → s.place ≡ at_root
      → s.redis ≡ no_redis
      → reread stored s.sm ≡ s.sm
      → feeds (part_lines (codes "redis") (Redis.make_bdr_lines node)) s
        ≡ record s { place = at_root; redis = node; calls = s.calls ++ announced node }
  unfolding lookup has str_beq
  feeds-redis_part node s h here none_yet same =
      feed_all-part drivers check_lua stored edited lib doc (codes "redis") _
        (Redis.make_bdr_lines node) s (record s { redis = node; calls = s.calls ++ announced node })
        refl refl refl refl refl refl here
        (feed_all-any_redis node (record s { place = at_menu (codes "redis") }) h none_yet same
          refl)

  pub feed_all-four :
      (p q r t : List Str) (a b c d : Session) {e : Session}
      → feeds p a ≡ b
      → feeds q b ≡ c
      → feeds r c ≡ d
      → feeds t d ≡ e
      → feeds (p ++ (q ++ (r ++ t))) a ≡ e
  feed_all-four p q r t a b c d ab bc cd de =
      let append = feed_all-append drivers check_lua stored edited lib doc in
      append p (q ++ (r ++ t)) a
      ∙ ap (feeds (q ++ (r ++ t))) ab
      ∙ append q (r ++ t) b
      ∙ ap (feeds (r ++ t)) bc
      ∙ append r t c
      ∙ ap (feeds t) cd
      ∙ de
