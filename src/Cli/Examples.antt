-- ===== src/Cli/Examples.antt =====
-- The commands of a small state machine.
use auto_drop.Prelude.{◌≡◌, refl, ◌↔◌, List, [], ◌∷◌, Str, codes}
use auto_drop.Sm.{SmState, ok, create_sm_state, find_state}
use auto_drop.Prelude.{some, str_beq, true, false, ◌++◌, ◌==◌, ◌&&◌, if◌then◌else◌}
use auto_drop.Cli.Words.Lines.{has_newline}
use auto_drop.Cli.SmConfig.{
  SmTree, is_empty, Command, create, next, init, event, action, edit_command, write_config_file,
  reread, run_command, run_commands, change_node, action_type, clear,
}
use auto_drop.Cli.SmConfig.Nodes.{WellFormed}
use auto_drop.Cli.SmConfig.Loads.{EventsLead, NextLeads, commands_load}
use auto_drop.Cli.SmConfig.Escape.{marks}
use auto_drop.Cli.Words.Quote.{safe_from}
use auto_drop.Cli.Words.Restored.{read_back, read_back_iff}

abbrev no_tree : SmTree
no_tree = record { init_state = []; states = [] }

no_tree-WellFormed : WellFormed no_tree
no_tree-WellFormed = record { nodes = tt; distinct = tt; good_init = refl }

-- A compiler that accepts all.
abbrev accepts : Str → Str
accepts code = []

abbrev drop_newlines : Str → Str
drop_newlines [] = []
drop_newlines (c ∷ s) =
    let rest = drop_newlines s in if (c == 10) && is_empty rest then [] else c ∷ rest

-- What a literal block gives back: one newline at the end.
abbrev pub clipped : Str → Str
clipped s = if has_newline s then drop_newlines s ++ 10 ∷ [] else s

abbrev commands : List Command
commands =
    create (codes "idle" ∷ [])
    ∷ create (codes "weigh" ∷ [])
    ∷ next (codes "weigh" ∷ codes "idle" ∷ [])
    ∷ event (codes "idle" ∷ codes "vehicle_came" ∷ codes "weigh" ∷ [])
    ∷ action (codes "idle" ∷ codes "enter" ∷ codes "a<>b" ∷ [])
    ∷ init (codes "idle" ∷ [])
    ∷ []

commands_load_example :
    let states = (run_commands accepts clipped commands (clear no_tree)).states in
    (s : SmState) × (create_sm_state states (codes "idle") ≡ ok (some s))
    × EventsLead states s
    × NextLeads states s
unfolding run_commands find_state run_command edit_command write_config_file reread str_beq
    change_node action_type
commands_load_example = commands_load accepts clipped no_tree commands (codes "idle") refl

-- A backslash before a quote is lost, so this code does not come back.
read_back_iff_example :
    (read_back (codes "print(\"a\\\"b\")") ≡ some (codes "print(\"a\\\"b\")")) ↔ (
      (marks (codes "print(\"a\\\"b\")") ≡ 0)
      × (safe_from false (codes "print(\"a\\\"b\")") ≡ true))
read_back_iff_example = read_back_iff (codes "print(\"a\\\"b\")")
