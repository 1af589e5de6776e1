-- ===== src/Cli/SmConfig/Loads.antt =====
-- What the state machine of sm.h finds in a file that the commands of sm_config.cpp wrote.
use auto_drop.Prelude.{
  ◌≡◌, refl, ◌⊎◌, inl, inr, true, ◌||◌, none, some, List, [], ◌∷◌, Str, str_beq, str_eq, All, Dict,
  lookup, insert, lookup-insert, arith, Bool-cases, Option-cases,
}
use auto_drop.Sm.{
  EventNode, StateNode, SmState, ok, find_state, add_events, make_state, create_sm_state,
  get_event_state,
}
use auto_drop.Cli.SmConfig.{SmTree, known, is_empty, Command, run_commands, clear}
use auto_drop.Cli.SmConfig.Nodes.{GoodEvent, GoodNode, WellFormed}
use auto_drop.Cli.SmConfig.WellFormed.{run_commands-WellFormed}

-- Every target in the map names a state.
abbrev Targets : List StateNode → Dict Str Str → Type 0
Targets states m = (e t : Str) → lookup e m ≡ some t → known t states ≡ true

insert-Targets :
    (states : List StateNode) (e t : Str) (m : Dict Str Str)
    → known t states ≡ true
    → Targets states m
    → Targets states (insert e t m)
insert-Targets states e t m k h e' t' l = ground (arith, lookup-insert e e' t m, h e' t')

add_events-Targets :
    (states : List StateNode) (es : List EventNode) (m : Dict Str Str)
    → All (GoodEvent states) es
    → Targets states m
    → (m' : Dict Str Str) × (add_events es m ≡ ok m') × Targets states m'
unfolding add_events
add_events-Targets states [] m g h = (m, refl, h)
add_events-Targets states (e ∷ es) m ((a, t, b, k), g) h = elim (Option-cases e.trigger) [
  | inl gone ↦ absurd (ground arith)
  | inr (trig, is) ↦
      let (m', x, y) =
        add_events-Targets states es (insert trig t m) g (insert-Targets states trig t m k h) in
      (m', rw (is, b) x, y)
]

-- The state was made of a node all of whose references are good.
abbrev pub Sound : List StateNode → SmState → Type 0
Sound states s =
    ((is_empty s.next_state || known s.next_state states) ≡ true)
    × ((e t : Str) → lookup e s.event_state_map ≡ some t → known t states ≡ true)

make_state-Sound :
    (states : List StateNode) (n : StateNode)
    → GoodNode states n
    → (s : SmState) × (make_state n ≡ ok s) × Sound states s
unfolding make_state lookup
make_state-Sound states n g =
    let (m, x, y) = add_events-Targets states n.events [] g.good_events (λ e t h. cc) in
    elim (Option-cases n.enter) [
      | inl gone ↦ absurd (ground (arith, g.has_enter))
      | inr (enter, a) ↦ elim (Option-cases n.exit) [
        | inl gone ↦ absurd (ground (arith, g.has_exit))
        | inr (exit, b) ↦ elim (Option-cases n.action) [
          | inl gone ↦ absurd (ground (arith, g.has_action))
          | inr (action, d) ↦ (
            record {
              state_name = n.name;
              before_enter_lua_func = enter;
              after_exit_lua_func = exit;
              do_lua_func = action;
              next_state = n.next;
              event_state_map = m;
            },
            ground (arith, a, b, d, x),
            (g.good_next, y),
          )
        ]
      ]
    ]

find_state-GoodNode :
    (states ns : List StateNode) (name : Str) (n : StateNode)
    → All (GoodNode states) ns
    → find_state name ns ≡ some n
    → GoodNode states n
unfolding find_state
find_state-GoodNode states [] name n g h = cc
find_state-GoodNode states (m ∷ ns) name n g h = elim (Bool-cases (str_beq m.name name)) [
  | inl e ↦ ground (arith, g.0)
  | inr e ↦ find_state-GoodNode states ns name n g.1 (ground arith)
]

create_sm_state-Sound :
    (t : SmTree) (name : Str)
    → WellFormed t
    → known name t.states ≡ true
    → (s : SmState) × (create_sm_state t.states name ≡ ok (some s)) × Sound t.states s
unfolding create_sm_state
create_sm_state-Sound t name w k = elim (Option-cases (find_state name t.states)) [
  | inl gone ↦ absurd (ground arith)
  | inr (n, e) ↦
      let (s, x, y) =
        make_state-Sound t.states n (find_state-GoodNode t.states t.states name n w.nodes e) in
      (s, ground (arith, e, x), y)
]

clear-WellFormed : (t : SmTree) → WellFormed (clear t)
unfolding clear
clear-WellFormed t = record { nodes = tt; distinct = tt; good_init = refl }

-- An event of the state is either unknown to it, or leads to a state that exists.
abbrev pub EventsLead : List StateNode → SmState → Type 0
EventsLead states s =
    (e : Str)
    → (get_event_state states s e ≡ ok none)
      ⊎ ((t : SmState) × (get_event_state states s e ≡ ok (some t)))

Sound-EventsLead :
    (t : SmTree) (s : SmState) → WellFormed t → Sound t.states s → EventsLead t.states s
unfolding get_event_state
Sound-EventsLead t s w v e = elim (Option-cases (lookup e s.event_state_map)) [
  | inl gone ↦ inl (ground (arith, gone))
  | inr (name, is) ↦
      let (u, x, y) = create_sm_state-Sound t name w (v.1 e name is) in
      inr (u, ground (arith, is, x))
]

-- The state names no successor, or one that exists.
abbrev pub NextLeads : List StateNode → SmState → Type 0
NextLeads states s =
    (is_empty s.next_state ≡ true)
    ⊎ ((t : SmState) × (create_sm_state states s.next_state ≡ ok (some t)))

-- After the file is cleared and any commands are given, whatever it makes of the code, the state machine can load every state that
-- the file holds: none of its keys is missing, each of its events leads to a state that exists,
-- and so does its `next` if it has one.
pub commands_load :
    (check_lua stored : Str → Str) (t : SmTree) (cmds : List Command) (name : Str)
    → known name (run_commands check_lua stored cmds (clear t)).states ≡ true
    → let states = (run_commands check_lua stored cmds (clear t)).states in
      (s : SmState) × (create_sm_state states name ≡ ok (some s))
      × EventsLead states s
      × NextLeads states s
commands_load check_lua stored t cmds name k =
    let u = run_commands check_lua stored cmds (clear t) in
    let w = run_commands-WellFormed check_lua stored cmds (clear t) (clear-WellFormed t) in
    let (s, x, v) = create_sm_state-Sound u name w k in
    (
      s,
      x,
      Sound-EventsLead u s w v,
      elim (Bool-cases (is_empty s.next_state)) [
        | inl e ↦ inl e
        | inr e ↦
            let (n, y, z) = create_sm_state-Sound u s.next_state w (ground (arith, v.0)) in
            inr (n, y)
      ],
    )
