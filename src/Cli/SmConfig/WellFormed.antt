-- ===== src/Cli/SmConfig/WellFormed.antt =====
-- Every command of sm_config.cpp keeps the tree well formed.
use auto_drop.Prelude.{
  ◌≡◌, refl, inl, inr, true, ◌&&◌, List, [], ◌∷◌, ◌++◌, Str, All-append, arith, Bool-cases,
  Option-cases,
}
use auto_drop.Sm.{StateNode, find_state}
use auto_drop.Cli.SmConfig.{
  SmTree, has_param, param, known, change_node, create_state, set_next, set_init, has_trigger,
  events_of, event_node, add_event, ActionType, enter_action, exit_action, do_action, action_type,
  put_action, is_empty, change_state_action, input_action, decode_newlines, clear, Command, create,
  next, init, event, action, edit, edit_action, clear_all, edit_command, run_command, run_commands,
}
use auto_drop.Cli.SmConfig.Stored.{write-WellFormed}
use auto_drop.Cli.SmConfig.Nodes.{
  GoodEvent, GoodNode, WellFormed, KeepsName, change_node-WellFormed, append-WellFormed,
}

create_state-WellFormed :
    (params : List Str) (t : SmTree) → WellFormed t → WellFormed (create_state params t).0
unfolding create_state
create_state-WellFormed params t w = elim (Bool-cases (has_param params 0)) [
  | inr e ↦ rw e w
  | inl e ↦ elim (Bool-cases (known (param params 0) t.states)) [
    | inl old ↦ rw (e, old) w
    | inr new ↦ rw (e, new) (append-WellFormed (param params 0) t new w)
  ]
]

init-WellFormed :
    (name : Str) (t : SmTree)
    → known name t.states ≡ true
    → WellFormed t
    → WellFormed (record t { init_state = name })
init-WellFormed name t k w = record {
  nodes = w.nodes;
  distinct = w.distinct;
  good_init = ground arith;
}

set_init-WellFormed :
    (params : List Str) (t : SmTree) → WellFormed t → WellFormed (set_init params t).0
unfolding set_init
set_init-WellFormed params t w = elim (Bool-cases (has_param params 0)) [
  | inr e ↦ rw e w
  | inl e ↦ elim (Bool-cases (known (param params 0) t.states)) [
    | inr miss ↦ rw (e, miss) w
    | inl hit ↦ rw (e, hit) (init-WellFormed (param params 0) t hit w)
  ]
]

next-WellFormed :
    (name target : Str) (t : SmTree)
    → known target t.states ≡ true
    → WellFormed t
    → WellFormed (record t { states = change_node name (λ n. record n { next = target }) t.states })
next-WellFormed name target t k w =
    change_node-WellFormed name (λ n. record n { next = target }) t (λ n. refl)
      (λ n g. record {
        has_enter = g.has_enter;
        has_exit = g.has_exit;
        has_action = g.has_action;
        good_next = ground arith;
        good_events = g.good_events;
      })
      w

set_next-WellFormed :
    (params : List Str) (t : SmTree) → WellFormed t → WellFormed (set_next params t).0
unfolding set_next
set_next-WellFormed params t w = elim (Bool-cases (has_param params 0 && has_param params 1)) [
  | inr e ↦ rw e w
  | inl e ↦ elim (Bool-cases (known (param params 0) t.states && known (param params 1) t.states)) [
    | inr miss ↦ rw (e, miss) w
    | inl hit ↦
        rw (e, hit) (next-WellFormed (param params 0) (param params 1) t (ground (arith, hit)) w)
  ]
]

event-WellFormed :
    (name e target : Str) (t : SmTree)
    → known target t.states ≡ true
    → WellFormed t
    → WellFormed (record t {
      states =
          change_node name
            (λ n. record n { events = n.events ++ event_node e target ∷ [] })
            t.states;
    })
event-WellFormed name e target t k w =
    change_node-WellFormed name (λ n. record n { events = n.events ++ event_node e target ∷ [] }) t
      (λ n. refl)
      (λ n g. record {
        has_enter = g.has_enter;
        has_exit = g.has_exit;
        has_action = g.has_action;
        good_next = g.good_next;
        good_events =
            All-append (GoodEvent t.states) n.events (event_node e target ∷ []) g.good_events
              ((refl, target, refl, k), tt);
      })
      w

add_event-WellFormed :
    (params : List Str) (t : SmTree) → WellFormed t → WellFormed (add_event params t).0
unfolding add_event
add_event-WellFormed params t w =
    let s = param params 0 in
    let e = param params 1 in
    let target = param params 2 in
    elim (Bool-cases (has_param params 0 && has_param params 1 && has_param params 2)) [
      | inr short ↦ rw short w
      | inl enough ↦ elim (Bool-cases (known s t.states && known target t.states)) [
        | inr miss ↦ rw (enough, miss) w
        | inl hit ↦ elim (Bool-cases (has_trigger e (events_of (find_state s t.states)))) [
          | inl old ↦ rw (enough, hit, old) w
          | inr new ↦ rw (enough, hit, new) (event-WellFormed s e target t (ground (arith, hit)) w)
        ]
      ]
    ]

put_action-KeepsName : (a : ActionType) (code : Str) → KeepsName (put_action a code)
put_action-KeepsName enter_action code n = refl
put_action-KeepsName exit_action code n = refl
put_action-KeepsName do_action code n = refl

put_action-GoodNode :
    (a : ActionType) (code : Str) (s : List StateNode) (n : StateNode)
    → GoodNode s n
    → GoodNode s (put_action a code n)
put_action-GoodNode enter_action code s n g = record {
  has_enter = refl;
  has_exit = g.has_exit;
  has_action = g.has_action;
  good_next = g.good_next;
  good_events = g.good_events;
}
put_action-GoodNode exit_action code s n g = record {
  has_enter = g.has_enter;
  has_exit = refl;
  has_action = g.has_action;
  good_next = g.good_next;
  good_events = g.good_events;
}
put_action-GoodNode do_action code s n g = record {
  has_enter = g.has_enter;
  has_exit = g.has_exit;
  has_action = refl;
  good_next = g.good_next;
  good_events = g.good_events;
}

action-WellFormed :
    (name code : Str) (a : ActionType) (t : SmTree)
    → WellFormed t
    → WellFormed (record t { states = change_node name (put_action a code) t.states })
action-WellFormed name code a t w =
    change_node-WellFormed name (put_action a code) t (put_action-KeepsName a code)
      (put_action-GoodNode a code t.states) w

module _ (check_lua : Str → Str) where
  change_state_action-WellFormed :
      (name kind code : Str) (t : SmTree)
      → WellFormed t
      → WellFormed (change_state_action check_lua name kind code t).0
  unfolding change_state_action
  change_state_action-WellFormed name kind code t w = elim (Bool-cases (known name t.states)) [
    | inr miss ↦ rw miss w
    | inl hit ↦ elim (Option-cases (action_type kind)) [
      | inl none_of ↦ rw (hit, none_of) w
      | inr (a, is_a) ↦ elim (Bool-cases (is_empty (check_lua code))) [
        | inr bad ↦ rw (hit, is_a, bad) w
        | inl good ↦ rw (hit, is_a, good) (action-WellFormed name code a t w)
      ]
    ]
  ]

  input_action-WellFormed :
      (params : List Str) (t : SmTree)
      → WellFormed t
      → WellFormed (input_action check_lua params t).0
  unfolding input_action
  input_action-WellFormed params t w =
      elim (Bool-cases (has_param params 0 && has_param params 1 && has_param params 2)) [
        | inr short ↦ rw short w
        | inl enough ↦ rw enough (
            change_state_action-WellFormed (param params 0) (param params 1)
              (decode_newlines (param params 2)) t w)
      ]

  edit_action-WellFormed :
      (params : List Str) (edited : Str) (t : SmTree)
      → WellFormed t
      → WellFormed (edit_action check_lua params edited t).0
  unfolding edit_action
  edit_action-WellFormed params edited t w =
      elim (Bool-cases (has_param params 0 && has_param params 1)) [
        | inr short ↦ rw short w
        | inl enough ↦
            rw enough (change_state_action-WellFormed (param params 0) (param params 1) edited t w)
      ]

  command-WellFormed :
      (cmd : Command) (t : SmTree) → WellFormed t → WellFormed (edit_command check_lua cmd t).0
  unfolding edit_command clear
  command-WellFormed (create ps) t w = create_state-WellFormed ps t w
  command-WellFormed (next ps) t w = set_next-WellFormed ps t w
  command-WellFormed (init ps) t w = set_init-WellFormed ps t w
  command-WellFormed (event ps) t w = add_event-WellFormed ps t w
  command-WellFormed (action ps) t w = input_action-WellFormed ps t w
  command-WellFormed (edit ps e) t w = edit_action-WellFormed ps e t w
  command-WellFormed clear_all t w = record { nodes = tt; distinct = tt; good_init = refl }

  -- After any commands on a well-formed tree, whatever their parameters, whatever the Lua compiler
  -- answers and whatever the file makes of the code: names are distinct, each state has the keys that the state machine reads,
  -- each event has its trigger and its target, and the initial state, each `next` and each target
  -- that is set names a state of the tree.
  pub run_commands-WellFormed :
      (stored : Str → Str) (cmds : List Command) (t : SmTree)
      → WellFormed t
      → WellFormed (run_commands check_lua stored cmds t)
  unfolding run_commands run_command
  run_commands-WellFormed stored [] t w = w
  run_commands-WellFormed stored (c ∷ cs) t w =
      run_commands-WellFormed stored cs (run_command check_lua stored c t).0
        (write-WellFormed stored (edit_command check_lua c t) (command-WellFormed c t w))
