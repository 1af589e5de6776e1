-- ===== src/Cli/Session.antt =====
-- src/cli/main.cpp, and common_cli of src/cli/common_cli.h: the menus, saving the configuration as
-- commands, and running a file of commands. What is printed is left aside. The library of the
-- command line is the parameter Library: how it splits a line, finds the command or the menu that
-- the words name, and reads the lines of a file.
pub mod Feeds
pub mod SmLines
pub mod SmMenu
pub mod DeviceMenu
pub mod RuntimeMenu
pub mod RedisMenu
pub mod Parts
pub mod Saved
mod Examples
use auto_drop.Prelude.{
  ◌≡◌, Bool, true, false, ◌||◌, Option, none, some, List, [], ◌∷◌, ◌++◌, map, Str, codes, str_beq,
  Dict, lookup, has, str_eq, All,
}
use auto_drop.Cli.SmConfig as Sm
use auto_drop.Cli.SmConfig.{
  SmTree, Reply, reread, write_config_file, create_state, set_next, set_init, add_event,
  input_action, edit_action,
}
use auto_drop.Cli.SmConfig.Bdr as SmBdr
use auto_drop.Cli.DeviceConfig as Devices
use auto_drop.Cli.DeviceConfig.{
  Device, Message, bad_params, no_driver, device_exists, done, add_device,
}
use auto_drop.Cli.RuntimeConfig as Runtime
use auto_drop.Cli.RuntimeConfig.{LogConfig, enable_log, disable_log, clear_log}
use auto_drop.Cli.RedisConfig as Redis
use auto_drop.Cli.RedisConfig.{RedisConfig}
use auto_drop.Cli.Words.{Splits}
use auto_drop.Cli.Words.Lines.{unlines, getlines_from, OneLine}

-- The calls that reach the configuration daemon: restart with the file as it is, and
-- restart_redis_subscriber.
pub data RemoteCall : Type 0 where
  restart_daemons : List Device → Str → RemoteCall
  restart_subscriber : RemoteCall

pub data Place : Type 0 where
  at_root : Place
  at_menu : Str → Place

-- Where the session stands, the configuration file, g_log_config, the calls made, and the file that
-- `save` writes.
pub record Session : Type 0 where
  pub place : Place
  pub devices : List Device
  pub sm : SmTree
  pub logs : List LogConfig
  pub redis : RedisConfig
  pub calls : List RemoteCall
  pub saved : Str

abbrev pub Handler : Type 0
Handler = List Str → Session → Session

-- A command takes the words after its name, or stands alone.
pub data Entry : Type 0 where
  takes : Handler → Entry
  alone : (Session → Session) → Entry

pub record Menus : Type 0 where
  pub name : Str
  pub commands : Dict Str Entry
  pub menus : Dict Str (Dict Str Entry)

-- What the words of a line name.
pub data Pick : Type 0 where
  go_to : Place → Pick
  run : Handler → List Str → Pick
  wrong : Pick

pub record Library : Type 0 where
  pub split : Str → List Str
  pub pick : Menus → Place → List Str → Pick
  pub file_lines : Str → List Str

-- The commands that each session has.
abbrev pub is_global : Str → Bool
is_global name =
    str_beq name (codes "help") || str_beq name (codes "exit") || str_beq name (codes "history")

-- What the library documents.
pub record Documented (lib : Library) : Type 0 where
  pub splits : Splits lib.split
  pub lines : (ls : List Str) → All OneLine ls → lib.file_lines (unlines ls) ≡ ls
  pub to_menu :
      (m : Menus) (name : Str)
      → is_global name ≡ false
      → has name m.commands ≡ false
      → has name m.menus ≡ true
      → lib.pick m at_root (name ∷ []) ≡ go_to (at_menu name)
  pub to_root :
      (m : Menus) (menu : Str) (cmds : Dict Str Entry)
      → is_global m.name ≡ false
      → lookup menu m.menus ≡ some cmds
      → has m.name cmds ≡ false
      → lib.pick m (at_menu menu) (m.name ∷ []) ≡ go_to at_root
  pub command :
      (m : Menus) (menu name : Str) (cmds : Dict Str Entry) (h : Handler) (ps : List Str)
      → is_global name ≡ false
      → lookup menu m.menus ≡ some cmds
      → lookup name cmds ≡ some (takes h)
      → lib.pick m (at_menu menu) (name ∷ ps) ≡ run h ps
  pub command_alone :
      (m : Menus) (menu name : Str) (cmds : Dict Str Entry) (f : Session → Session)
      → is_global name ≡ false
      → lookup menu m.menus ≡ some cmds
      → lookup name cmds ≡ some (alone f)
      → lib.pick m (at_menu menu) (name ∷ []) ≡ run (λ ps. f) []

unfoldable pub insert_spaces : Str → Str
unfolding getlines_from
insert_spaces str = unlines (map (λ l. codes "  " ++ l) (getlines_from [] str))

-- A part of make_bdr_string: the name of the menu, what its make_bdr writes, and the way back.
unfoldable pub bdr_part : Str → List Str → Str
unfolding insert_spaces
bdr_part menu_name ls = (menu_name ++ codes "\n") ++ (insert_spaces (unlines ls) ++ codes "ad\n")

-- make_bdr_string: the four parts in the order of sub_c.
unfoldable pub make_bdr_string : Session → Str
unfolding bdr_part
make_bdr_string s =
    bdr_part (codes "device") (Devices.make_bdr_lines s.devices)
    ++ (bdr_part (codes "state_machine") (SmBdr.make_bdr_lines s.sm)
        ++ (bdr_part (codes "runtime") (Runtime.make_bdr_lines s.logs)
            ++ bdr_part (codes "redis") (Redis.make_bdr_lines s.redis)))

-- The file is written between these four; when it is read again no state is left in it.
unfoldable pub clear_session : Session → Session
clear_session s = record s {
  devices = Devices.clear s.devices;
  sm = Sm.clear s.sm;
  logs = clear_log s.logs;
  redis = Redis.clear s.redis;
}

-- A command that only prints, or that only calls a device or a state machine.
abbrev pub shows : Entry
shows = takes (λ ps s. s)

abbrev pub shows_alone : Entry
shows_alone = alone (λ s. s)

abbrev pub added : Message → Bool
added bad_params = false
added (no_driver driver) = false
added (device_exists name) = false
added done = true

-- write_config_file writes the whole file, with the code of the states.
abbrev pub after_write : (Str → Str) → Bool → Session → Session
after_write stored true s = record s { sm = reread stored s.sm }
after_write stored false s = s

abbrev pub device_session : (Str → Str) → List Str → Handler
device_session stored drivers ps s =
    let (ds, message) = add_device drivers ps s.devices in
    after_write stored (added message) (record s { devices = ds })

unfoldable pub params_session : (Str → Str) → Handler
params_session stored ps s =
    let (node, _, called) = Redis.params ps s.redis in
    after_write stored called (record s {
      redis = node;
      calls = elim called [ true ↦ s.calls ++ restart_subscriber ∷ [] | false ↦ s.calls ];
    })

-- The drivers that are installed, what check_lua_code answers, how the file gives code back, and what
-- the editor leaves.
module _ (drivers : List Str) (check_lua stored : Str → Str) (edited : List Str → Str) where
  -- A command that edits the states and writes the file.
  abbrev pub edits : (List Str → SmTree → Reply) → Entry
  edits f = takes (λ ps s. record s { sm = (write_config_file stored (f ps s.sm)).0 })

  abbrev pub device_commands : Dict Str Entry
  device_commands =
      (codes "list_driver", shows)
      ∷ (codes "add_device", takes (device_session stored drivers))
      ∷ (codes "bdr", shows_alone)
      ∷ (
        codes "clear",
        alone (λ s. after_write stored true (record s { devices = Devices.clear s.devices })),
      )
      ∷ []

  abbrev pub sm_commands : Dict Str Entry
  sm_commands =
      (codes "create_state", edits create_state)
      ∷ (codes "edit_action", edits (λ ps t. edit_action check_lua ps (edited ps) t))
      ∷ (codes "input_action", edits (input_action check_lua))
      ∷ (codes "set_next", edits set_next)
      ∷ (codes "add_event", edits add_event)
      ∷ (codes "set_init", edits set_init)
      ∷ (codes "test_lua", shows)
      ∷ (codes "bdr", shows_alone)
      ∷ (codes "clear", alone (λ s. record s { sm = reread stored (Sm.clear s.sm) }))
      ∷ []

  abbrev pub runtime_commands : Dict Str Entry
  runtime_commands =
      (
        codes "restart",
        takes (λ ps s. record s {
          calls = s.calls ++ restart_daemons s.devices s.sm.init_state ∷ [];
        }),
      )
      ∷ (codes "list", shows)
      ∷ (codes "mock", shows)
      ∷ (codes "enable_log", takes (λ ps s. record s { logs = enable_log ps s.logs }))
      ∷ (codes "disable_log", takes (λ ps s. record s { logs = disable_log ps s.logs }))
      ∷ (codes "open_log", shows)
      ∷ (codes "close_log", shows)
      ∷ (codes "save_ply", shows)
      ∷ (codes "set_lc_open", shows)
      ∷ (codes "send_sm_event", shows)
      ∷ (codes "show_sm_state", shows)
      ∷ (codes "bdr", shows_alone)
      ∷ (codes "clear", alone (λ s. record s { logs = clear_log s.logs }))
      ∷ []

  abbrev pub redis_commands : Dict Str Entry
  redis_commands =
      (codes "params", takes (params_session stored))
      ∷ (codes "get", shows)
      ∷ (codes "set", shows)
      ∷ (codes "bdr", shows_alone)
      ∷ (
        codes "clear",
        alone (λ s. after_write stored true (record s { redis = Redis.clear s.redis })),
      )
      ∷ []

  abbrev pub root_menu : Menus
  root_menu = record {
    name = codes "ad";
    commands =
        (codes "bdr", shows_alone)
        ∷ (codes "clear", alone clear_session)
        ∷ (codes "save", alone (λ s. record s { saved = make_bdr_string s }))
        ∷ (codes "bash", shows_alone)
        ∷ [];
    menus =
        (codes "device", device_commands)
        ∷ (codes "state_machine", sm_commands)
        ∷ (codes "runtime", runtime_commands)
        ∷ (codes "redis", redis_commands)
        ∷ [];
  }

  module _ (lib : Library) where
    abbrev pub obey : Pick → Session → Session
    obey (go_to p) s = record s { place = p }
    obey (run h ps) s = h ps s
    obey wrong s = s

    abbrev pub obey_words : List Str → Session → Session
    obey_words [] s = s
    obey_words (w ∷ ws) s = obey (lib.pick root_menu s.place (w ∷ ws)) s

    unfoldable pub feed : Str → Session → Session
    feed line s = obey_words (lib.split line) s

    unfoldable pub feed_all : List Str → Session → Session
    feed_all [] s = s
    feed_all (l ∷ ls) s = feed_all ls (feed l s)

    -- un_safe_main with the name of a file: the session starts in the root menu.
    unfoldable pub run_file : Str → Session → Session
    run_file text s = feed_all (lib.file_lines text) (record s { place = at_root })
