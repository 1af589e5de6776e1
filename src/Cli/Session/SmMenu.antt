-- ===== src/Cli/Session/SmMenu.antt =====
-- src/cli/main.cpp: what a session does with the lines of make_bdr of src/cli/sm_config.cpp.
use auto_drop.Prelude.{◌≡◌, refl, ◌∙◌, ap, List, [], ◌∷◌, Str, codes, str_beq, lookup, str_eq}
use auto_drop.Cli.SmConfig.{
  Command, create, next, init, event, action, edit, clear_all, edit_command, write_config_file,
  run_command, run_commands,
}
use auto_drop.Cli.Session.{Session, at_menu, Library, Documented, feed, feed_all}
use auto_drop.Cli.Session.Feeds.{feed-command, feed-alone}
use auto_drop.Cli.Session.SmLines.{Says, AllSay}

module _ (drivers : List Str) (check_lua stored : Str → Str) (edited : List Str → Str)
    (lib : Library) (doc : Documented lib) where
  abbrev feeds : List Str → Session → Session
  feeds = feed_all drivers check_lua stored edited lib

  feed-Says :
      (l : Str) (c : Command) (s : Session)
      → Says lib doc l c
      → s.place ≡ at_menu (codes "state_machine")
      → feed drivers check_lua stored edited lib l s
        ≡ record s { sm = (run_command check_lua stored c s.sm).0 }
  unfolding lookup str_beq run_command edit_command write_config_file
  feed-Says l (create ps) s h here =
      feed-command drivers check_lua stored edited lib doc (codes "state_machine")
        (codes "create_state") _ _ ps l s refl refl refl here h.0
  feed-Says l (next ps) s h here =
      feed-command drivers check_lua stored edited lib doc (codes "state_machine")
        (codes "set_next") _ _ ps l s refl refl refl here h.0
  feed-Says l (init ps) s h here =
      feed-command drivers check_lua stored edited lib doc (codes "state_machine")
        (codes "set_init") _ _ ps l s refl refl refl here h.0
  feed-Says l (event ps) s h here =
      feed-command drivers check_lua stored edited lib doc (codes "state_machine")
        (codes "add_event") _ _ ps l s refl refl refl here h.0
  feed-Says l (action ps) s h here =
      feed-command drivers check_lua stored edited lib doc (codes "state_machine")
        (codes "input_action") _ _ ps l s refl refl refl here h.0
  feed-Says l (edit ps e) s h here = absurd h
  feed-Says l clear_all s h here =
      feed-alone drivers check_lua stored edited lib doc (codes "state_machine") (codes "clear") _ _
        l s refl refl refl here h.0

  -- Lines that say commands, inside the menu of the state machine.
  pub feed_all-AllSay :
      (ls : List Str) (cs : List Command) (s : Session)
      → AllSay lib doc ls cs
      → s.place ≡ at_menu (codes "state_machine")
      → feeds ls s ≡ record s { sm = run_commands check_lua stored cs s.sm }
  unfolding feed_all run_commands
  feed_all-AllSay [] [] s h here = refl
  feed_all-AllSay [] (c ∷ cs) s h here = absurd h
  feed_all-AllSay (l ∷ ls) [] s h here = absurd h
  feed_all-AllSay (l ∷ ls) (c ∷ cs) s h here =
      ap (feeds ls) (feed-Says l c s h.0 here)
      ∙ feed_all-AllSay ls cs (record s { sm = (run_command check_lua stored c s.sm).0 }) h.1 here
