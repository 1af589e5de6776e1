-- ===== src/Cli/Session/Examples.antt =====
-- A library of the command line with the documented behaviour, and a small configuration, saved and
-- run.
use auto_drop.Prelude.{
  ◌≡◌, refl, sym, ◌∙◌, ap, inl, Bool, true, false, Option, none, some, List, [], ◌∷◌, ◌++◌, Str,
  codes, str_beq, Dict, lookup, has, is_some, has-lookup, str_beq_iff, str_eq, arith,
}
use auto_drop.Prelude.Int.{pos}
use auto_drop.Cli.SmConfig.{SmTree, event_node, has_trigger}
use auto_drop.Sm.{find_state}
use auto_drop.Cli.DeviceConfig.{lines_from, has_device, installed}
use auto_drop.Cli.SmConfig.Nodes.{WellFormed}
use auto_drop.Cli.RuntimeConfig.{has_config}
use auto_drop.Cli.Words.{body}
use auto_drop.Cli.Words.Lines.{lines_from-unlines}
use auto_drop.Cli.Examples.{clipped}
use auto_drop.Cli.Words.Splitter.{split_words, split_words-Splits}
use auto_drop.Cli.Session.{
  Session, Place, at_root, at_menu, Entry, takes, alone, Menus, Pick, go_to, run, wrong, Library,
  Documented, make_bdr_string, clear_session, run_file, restart_daemons, restart_subscriber,
}
use auto_drop.Cli.Session.Saved.{Saveable, run_file-make_bdr_string}

-- What the commands, then the menus or the name of the root menu, say to a word.
abbrev top_pick : Str → Option Entry → List Str → Bool → Pick
top_pick w (some (takes h)) ws in_menus = run h ws
top_pick w (some (alone f)) [] in_menus = run (λ ps. f) []
top_pick w (some (alone f)) (v ∷ ws) in_menus = wrong
top_pick w none ws true = go_to (at_menu w)
top_pick w none ws false = wrong

abbrev menu_pick : Option Entry → List Str → Bool → Pick
menu_pick (some (takes h)) ws is_root = run h ws
menu_pick (some (alone f)) [] is_root = run (λ ps. f) []
menu_pick (some (alone f)) (v ∷ ws) is_root = wrong
menu_pick none ws true = go_to at_root
menu_pick none ws false = wrong

abbrev found : Menus → Option (Dict Str Entry) → Str → List Str → Pick
found m none w ws = wrong
found m (some cmds) w ws = menu_pick (lookup w cmds) ws (str_beq w m.name)

abbrev pick : Menus → Place → List Str → Pick
pick m p [] = wrong
pick m at_root (w ∷ ws) = top_pick w (lookup w m.commands) ws (has w m.menus)
pick m (at_menu menu) (w ∷ ws) = found m (lookup menu m.menus) w ws

abbrev library : Library
library = record { split = split_words; pick = pick; file_lines = lines_from [] }

lookup-none : (k : Str) (d : Dict Str Entry) → has k d ≡ false → lookup k d ≡ none
lookup-none k d h = missing (lookup k d) (sym (has-lookup k d) ∙ h)
  where
    missing : (o : Option Entry) → is_some o ≡ false → o ≡ none
    missing none e = refl
    missing (some a) e = cc e

library-Documented : Documented library
library-Documented = record {
  splits = split_words-Splits;
  lines = lines_from-unlines;
  to_menu = λ m name g no_command in_menus.
      ap (λ o. top_pick name o [] (has name m.menus)) (lookup-none name m.commands no_command)
      ∙ ap (top_pick name none []) in_menus;
  to_root = λ m menu cmds g in_menus no_command.
      ap (λ o. found m o m.name []) in_menus
      ∙ ap (λ o. menu_pick o [] (str_beq m.name m.name)) (lookup-none m.name cmds no_command)
      ∙ ap (menu_pick none []) ((str_beq_iff m.name m.name).1 refl);
  command = λ m menu name cmds h ps g in_menus in_cmds.
      ap (λ o. found m o name ps) in_menus ∙ ap (λ o. menu_pick o ps (str_beq name m.name)) in_cmds;
  command_alone = λ m menu name cmds f g in_menus in_cmds.
      ap (λ o. found m o name []) in_menus ∙ ap (λ o. menu_pick o [] (str_beq name m.name)) in_cmds;
}

abbrev small_sm : SmTree
small_sm = record {
  init_state = codes "idle";
  states =
      record {
        name = codes "idle";
        enter = some (codes "print(\"hi\")\nstop()\n");
        exit = some [];
        action = some [];
        next = [];
        events = event_node (codes "came") (codes "weigh") ∷ [];
      }
      ∷ record {
        name = codes "weigh";
        enter = some [];
        exit = some (codes "gate('open')");
        action = some [];
        next = codes "idle";
        events = [];
      }
      ∷ [];
}

abbrev small : Session
small = record {
  place = at_root;
  devices =
      record { name = codes "scale"; driver = codes "tastek_driver"; args = codes "10.0.0.2 502" }
      ∷ [];
  sm = small_sm;
  logs = record { log_level = codes "ERROR"; log_module = codes "scale" } ∷ [];
  redis = record { host = codes "db"; port = pos 6379; password = codes "secret" };
  calls = [];
  saved = [];
}

abbrev drivers : List Str
drivers = codes "tastek_driver" ∷ []

-- A compiler that accepts all.
abbrev accepts : Str → Str
accepts code = []

abbrev leaves : List Str → Str
leaves ps = []

small-WellFormed : WellFormed small_sm
unfolding find_state str_beq
small-WellFormed = record {
  nodes = (
    record {
      has_enter = refl;
      has_exit = refl;
      has_action = refl;
      good_next = refl;
      good_events = ((refl, codes "weigh", refl, refl), tt);
    },
    (
      record {
        has_enter = refl;
        has_exit = refl;
        has_action = refl;
        good_next = refl;
        good_events = tt;
      },
      tt,
    ),
  );
  distinct = (refl, (refl, tt));
  good_init = refl;
}

small-Saveable : Saveable drivers accepts clipped small
unfolding str_beq has_device installed body has_trigger has_config
small-Saveable = record {
  plain_devices = (
    record {
      plain_driver = refl;
      plain_name = refl;
      some_args = refl;
      quotable_args = refl;
      one_line = refl;
    },
    tt,
  );
  distinct_devices = (refl, tt);
  installed_devices = (refl, tt);
  well_formed = small-WellFormed;
  plain_states = (
    record {
      plain_name = refl;
      plain_next = refl;
      plain_events = ((refl, refl), tt);
      safe_enter = refl;
      safe_exit = refl;
      safe_action = refl;
    },
    (
      record {
        plain_name = refl;
        plain_next = refl;
        plain_events = tt;
        safe_enter = refl;
        safe_exit = refl;
        safe_action = refl;
      },
      tt,
    ),
  );
  writable_states = (
    record {
      triggers = (refl, tt);
      enter_kept = (refl, refl);
      exit_kept = (refl, refl);
      action_kept = (refl, refl);
    },
    (
      record {
        triggers = tt;
        enter_kept = (refl, refl);
        exit_kept = (refl, refl);
        action_kept = (refl, refl);
      },
      tt,
    ),
  );
  kept_states = ((refl, refl, refl), ((refl, refl, refl), tt));
  plain_init = refl;
  plain_logs = ((refl, refl), tt);
  distinct_logs = (refl, tt);
  plain_redis = inl (record { plain_host = refl; int_port = omega arith; plain_password = refl });
}

run_file-make_bdr_string_example :
    run_file drivers accepts clipped leaves library (make_bdr_string small) (clear_session small)
    ≡ record small {
      place = at_root;
      calls = ([] ++ restart_daemons small.devices (codes "idle") ∷ []) ++ restart_subscriber ∷ [];
      saved = [];
    }
run_file-make_bdr_string_example =
    run_file-make_bdr_string drivers accepts clipped leaves library library-Documented small small
      refl small-Saveable
