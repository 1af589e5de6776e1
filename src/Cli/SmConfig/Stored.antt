-- ===== src/Cli/SmConfig/Stored.antt =====
-- src/cli/sm_config.cpp with src/cli/common_cli.cpp: what writing the file and reading it again does
-- to a tree.
pub mod Kept
use auto_drop.Prelude.{
  ◌≡◌, refl, sym, ◌∙◌, ap, inl, inr, Bool, true, false, ◌&&◌, ◌||◌, if◌then◌else◌, Option, none,
  some, List, [], ◌∷◌, ◌++◌, map, Str, str_beq, is_some, All, All-append, arith, Bool-cases,
  Option-cases,
}
use auto_drop.Sm.{StateNode, find_state}
use auto_drop.Cli.SmConfig.{
  SmTree, Message, Reply, bad_params, no_state, no_states, event_exists, state_exists,
  bad_action_type, lua_error, done, has_param, param, known, change_node, make_new_state,
  create_state, set_next, set_init, has_trigger, events_of, add_event, action_type, ActionType,
  enter_action, exit_action, do_action, put_action, is_empty, decode_newlines, change_state_action,
  input_action, edit_action, clear, stored_code, reread_node, reread, write_config_file, Command,
  create, next, init, event, action, edit, clear_all, edit_command, edit_commands, run_command,
  run_commands,
}
use auto_drop.Cli.SmConfig.Nodes.{All-GoodEvent, GoodNode, Distinct, WellFormed}

module _ (stored : Str → Str) where
  is_some-stored_code : (o : Option Str) → is_some (stored_code stored o) ≡ is_some o
  is_some-stored_code none = refl
  is_some-stored_code (some code) = refl

  known-reread :
      (a : Str) (ns : List StateNode) → known a (map (reread_node stored) ns) ≡ known a ns
  unfolding find_state
  known-reread a [] = refl
  known-reread a (n ∷ ns) = elim (Bool-cases (str_beq n.name a)) [
    | inl here ↦ rw here refl
    | inr there ↦ rw there (known-reread a ns)
  ]

  GoodNodes-reread :
      (s ns : List StateNode)
      → All (GoodNode s) ns
      → All (GoodNode (map (reread_node stored) s)) (map (reread_node stored) ns)
  GoodNodes-reread s [] g = tt
  GoodNodes-reread s (n ∷ ns) (h, g) = (
    record {
      has_enter = is_some-stored_code n.enter ∙ h.has_enter;
      has_exit = is_some-stored_code n.exit ∙ h.has_exit;
      has_action = is_some-stored_code n.action ∙ h.has_action;
      good_next = ap (λ k. is_empty n.next || k) (known-reread n.next s) ∙ h.good_next;
      good_events =
          All-GoodEvent s (map (reread_node stored) s) n.events (λ a k. known-reread a s ∙ k)
            h.good_events;
    },
    GoodNodes-reread s ns g,
  )

  Distinct-reread : (ns : List StateNode) → Distinct ns → Distinct (map (reread_node stored) ns)
  Distinct-reread [] d = tt
  Distinct-reread (n ∷ ns) (new, d) = (known-reread n.name ns ∙ new, Distinct-reread ns d)

  reread-WellFormed : (t : SmTree) → WellFormed t → WellFormed (reread stored t)
  unfolding reread
  reread-WellFormed t w = record {
    nodes = GoodNodes-reread t.states t.states w.nodes;
    distinct = Distinct-reread t.states w.distinct;
    good_init =
        ap (λ k. is_empty t.init_state || k) (known-reread t.init_state t.states) ∙ w.good_init;
  }

  pub write-WellFormed : (r : Reply) → WellFormed r.0 → WellFormed (write_config_file stored r).0
  unfolding write_config_file
  write-WellFormed (t, done) w = reread-WellFormed t w
  write-WellFormed (t, bad_params) w = w
  write-WellFormed (t, no_state s) w = w
  write-WellFormed (t, no_states s s') w = w
  write-WellFormed (t, event_exists e) w = w
  write-WellFormed (t, state_exists s) w = w
  write-WellFormed (t, bad_action_type a) w = w
  write-WellFormed (t, lua_error e) w = w
