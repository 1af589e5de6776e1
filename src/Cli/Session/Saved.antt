-- ===== src/Cli/Session/Saved.antt =====
-- src/cli/main.cpp: the file that `save` writes, run by a session whose configuration is cleared.
use auto_drop.Prelude.{
  ◌≡◌, refl, ◌∙◌, ap, ◌⊎◌, true, ◌||◌, List, [], ◌∷◌, ◌++◌, Str, codes, str_eq, All,
}
use auto_drop.Cli.Words.{plain}
use auto_drop.Cli.SmConfig as Sm
use auto_drop.Cli.SmConfig.{is_empty}
use auto_drop.Cli.SmConfig.Bdr as SmBdr
use auto_drop.Cli.SmConfig.Nodes.{WellFormed}
use auto_drop.Cli.SmConfig.Restore.{bdr_commands}
use auto_drop.Cli.SmConfig.Restore.Cleared.{Writable}
use auto_drop.Cli.SmConfig.Stored.Kept.{KeptNode, reread-kept}
use auto_drop.Cli.DeviceConfig as Devices
use auto_drop.Cli.DeviceConfig.Restore.{Distinct, Installed}
use auto_drop.Cli.RuntimeConfig as Runtime
use auto_drop.Cli.RuntimeConfig.{clear_log}
use auto_drop.Cli.RedisConfig as Redis
use auto_drop.Cli.RedisConfig.{RedisConfig}
use auto_drop.Cli.Session.{
  Session, at_root, Library, Documented, restart_daemons, make_bdr_string, clear_session, feed_all,
  run_file,
}
use auto_drop.Cli.Session.Feeds.{part_lines}
use auto_drop.Cli.Session.SmLines.{PlainNode, AllSay-OneLine, make_bdr_lines-say}
use auto_drop.Cli.Session.DeviceMenu.{PlainDevice, device_lines-OneLine}
use auto_drop.Cli.Session.RuntimeMenu.{PlainLog, DistinctLogs, runtime_lines-OneLine}
use auto_drop.Cli.Session.RedisMenu.{PlainRedis}
use auto_drop.Cli.Session.Parts.{
  no_redis, announced, all_lines, parts_text, parts_lines-OneLine, redis_OneLine, feeds-device_part,
  feeds-sm_part, feeds-runtime_part, feeds-redis_part, feed_all-four,
}

-- The names are words, the codes and the arguments can stand between quotes, each part is what its
-- commands can make (installed drivers, distinct names, states in full), and each code comes back
-- from the configuration file as it is.
pub record Saveable (drivers : List Str) (check_lua stored : Str → Str) (s : Session) : Type 0 where
  pub plain_devices : All PlainDevice s.devices
  pub distinct_devices : Distinct s.devices
  pub installed_devices : All (Installed drivers) s.devices
  pub well_formed : WellFormed s.sm
  pub plain_states : All PlainNode s.sm.states
  pub writable_states : All (Writable check_lua) s.sm.states
  pub kept_states : All (KeptNode stored) s.sm.states
  pub plain_init : (is_empty s.sm.init_state || plain s.sm.init_state) ≡ true
  pub plain_logs : All PlainLog s.logs
  pub distinct_logs : DistinctLogs s.logs
  pub plain_redis : PlainRedis s.redis ⊎ (s.redis ≡ no_redis)

module _ (drivers : List Str) (check_lua stored : Str → Str) (edited : List Str → Str)
    (lib : Library) (doc : Documented lib) where
  abbrev feeds : List Str → Session → Session
  feeds = feed_all drivers check_lua stored edited lib

  -- If empty code comes back from the configuration file, and each code of the saved states does: the
  -- file that `save` writes, run by a session with the same drivers and the same compiler after its
  -- configuration is cleared: the session stands in the root menu again and has exactly the
  -- saved devices, states, log filters and redis connection; meanwhile restart was called once, with
  -- the saved devices and the saved initial state, and then, if a connection is saved,
  -- restart_redis_subscriber once.
  pub run_file-make_bdr_string :
      (s old : Session)
      → stored [] ≡ []
      → Saveable drivers check_lua stored s
      → run_file drivers check_lua stored edited lib (make_bdr_string s) (clear_session old)
        ≡ record s {
          place = at_root;
          calls =
              (old.calls ++ restart_daemons s.devices s.sm.init_state ∷ []) ++ announced s.redis;
          saved = old.saved;
        }
  unfolding run_file make_bdr_string clear_session Sm.clear Sm.reread Redis.clear Devices.clear
      clear_log
  run_file-make_bdr_string s old empty_kept h =
      let D = Devices.make_bdr_lines s.devices in
      let S = SmBdr.make_bdr_lines s.sm in
      let R = Runtime.make_bdr_lines s.logs in
      let C = Redis.make_bdr_lines s.redis in
      let D1 =
        device_lines-OneLine drivers check_lua stored edited lib doc s.devices h.plain_devices in
      let S1 =
        AllSay-OneLine lib doc S (bdr_commands s.sm)
          (make_bdr_lines-say lib doc s.sm h.plain_states h.plain_init) in
      let R1 = runtime_lines-OneLine drivers check_lua stored edited lib doc s.logs h.plain_logs in
      let C1 = redis_OneLine drivers check_lua stored edited lib doc s.redis h.plain_redis in
      let s0 : Session = record (clear_session old) { place = at_root } in
      let s1 : Session = record s0 { devices = s.devices } in
      let s2 : Session = record s1 { sm = s.sm } in
      let s3 : Session = record s2 {
        logs = s.logs;
        calls = old.calls ++ restart_daemons s.devices s.sm.init_state ∷ [];
      } in
      ap (λ text. feeds (lib.file_lines text) s0)
        (parts_text (codes "device") (codes "state_machine") (codes "runtime") (codes "redis") D S R
          C D1 S1 R1 C1)
      ∙ ap (λ ls. feeds ls s0) (doc.lines (all_lines s) (parts_lines-OneLine D S R C D1 S1 R1 C1))
      ∙ feed_all-four drivers check_lua stored edited lib doc (part_lines (codes "device") D)
          (part_lines (codes "state_machine") S) (part_lines (codes "runtime") R)
          (part_lines (codes "redis") C) s0 s1 s2 s3
          (feeds-device_part drivers check_lua stored edited lib doc s.devices s0 h.plain_devices
            h.installed_devices h.distinct_devices refl refl refl)
          (feeds-sm_part drivers check_lua stored edited lib doc s.sm s1 h.well_formed
            h.plain_states h.writable_states empty_kept h.kept_states h.plain_init refl refl)
          (feeds-runtime_part drivers check_lua stored edited lib doc s.logs s2 h.plain_logs
            h.distinct_logs refl refl)
          (feeds-redis_part drivers check_lua stored edited lib doc s.redis s3 h.plain_redis refl
            refl (reread-kept stored s.sm h.kept_states))
