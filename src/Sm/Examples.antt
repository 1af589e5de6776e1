-- ===== src/Sm/Examples.antt =====
-- State machines of two states and of one.
use auto_drop.Prelude.{
  ℕ, ◌<◌, ◌≡◌, refl, inl, inr, if◌then◌else◌, some, List, [], ◌∷◌, ◌++◌, Str, codes, str_beq,
  insert, str_eq, arith, Bool-cases, ◌⊎◌,
}
use auto_drop.Sm.{
  EventNode, StateNode, SmState, ok, running, ◌>>=◌, find_state, add_events, make_state,
  create_sm_state, Machine, trigger_from, init_machine, begin, proc_events,
}
use auto_drop.Sm.Chains.{Leads, last_of, hooks, trigger_follows, trigger_cycles}
use auto_drop.Sm.Settle.{Complete, IsFrom, Descends, Rests, events_rest}

abbrev node : Str → Str → List EventNode → StateNode
node name next events = record {
  name = name;
  enter = some (codes "E");
  exit = some (codes "X");
  action = some (codes "D");
  next = next;
  events = events;
}

abbrev came : EventNode
came = record { trigger = some (codes "came"); next = some (codes "work") }

abbrev conf : List StateNode
conf = node (codes "idle") [] (came ∷ []) ∷ node (codes "work") (codes "idle") [] ∷ []

-- The interpreter's state is what has run.
abbrev log : Str → Str → Str
log code l = l ++ code

abbrev idle : SmState
idle = record {
  state_name = codes "idle";
  before_enter_lua_func = codes "E";
  after_exit_lua_func = codes "X";
  do_lua_func = codes "D";
  next_state = [];
  event_state_map = (codes "came", codes "work") ∷ [];
}

abbrev work : SmState
work = record {
  state_name = codes "work";
  before_enter_lua_func = codes "E";
  after_exit_lua_func = codes "X";
  do_lua_func = codes "D";
  next_state = codes "idle";
  event_state_map = [];
}

makes_idle : create_sm_state conf (codes "idle") ≡ ok (some idle)
unfolding create_sm_state find_state make_state add_events insert str_beq
makes_idle = refl

makes_work : create_sm_state conf (codes "work") ≡ ok (some work)
unfolding create_sm_state find_state make_state add_events insert str_beq
makes_work = refl

trigger_follows_example :
    trigger_from log 2 conf work []
    ≡ ok (record { current = some (last_of work (idle ∷ [])); lua = hooks log work (idle ∷ []) [] })
trigger_follows_example =
    trigger_follows log conf (idle ∷ []) 2 work [] ((refl, makes_idle), inl refl) (omega arith)

-- A state that is its own successor.
abbrev loop_conf : List StateNode
loop_conf = node (codes "loop") (codes "loop") [] ∷ []

abbrev loop_state : SmState
loop_state = record {
  state_name = codes "loop";
  before_enter_lua_func = codes "E";
  after_exit_lua_func = codes "X";
  do_lua_func = codes "D";
  next_state = codes "loop";
  event_state_map = [];
}

abbrev IsLoop : SmState → Type 0
IsLoop s = s ≡ loop_state

makes_loop : create_sm_state loop_conf (codes "loop") ≡ ok (some loop_state)
unfolding create_sm_state find_state make_state add_events str_beq
makes_loop = refl

loops : (s : SmState) → IsLoop s → (t : SmState) × Leads loop_conf s t × IsLoop t
loops s e = (loop_state, rw e (refl, makes_loop), refl)

trigger_cycles_example : trigger_from log 1000 loop_conf loop_state [] ≡ running
trigger_cycles_example = trigger_cycles log loop_conf IsLoop loops 1000 loop_state [] refl

abbrev rank : Str → ℕ
rank name = if str_beq (codes "work") name then 1 else 0

conf-Complete : Complete conf
unfolding find_state make_state add_events insert
conf-Complete name n h = elim (Bool-cases (str_beq (codes "idle") name)) [
  | inl e ↦ (idle, ground arith)
  | inr e ↦ elim (Bool-cases (str_beq (codes "work") name)) [
    | inl e' ↦ (work, ground arith)
    | inr e' ↦ absurd (ground arith)
  ]
]

from_cases : (s : SmState) → IsFrom conf s → (s ≡ idle) ⊎ (s ≡ work)
unfolding create_sm_state find_state make_state add_events insert
from_cases s v = elim (Bool-cases (str_beq (codes "idle") s.state_name)) [
  | inl e ↦ inl (ground arith)
  | inr e ↦ elim (Bool-cases (str_beq (codes "work") s.state_name)) [
    | inl e' ↦ inr (ground arith)
    | inr e' ↦ absurd (ground arith)
  ]
]

conf-Descends : Descends conf rank
unfolding str_beq
conf-Descends s t v (a, b) = elim (from_cases s v) [
  | inl e ↦ absurd (ground arith)
  | inr e ↦ ground (arith, makes_idle)
]

rank_small : (s : SmState) → IsFrom conf s → rank s.state_name < 2
rank_small s v = ground arith

events_rest_example :
    (m : Machine Str) × ((init_machine log conf (codes "idle") []
        >>= begin log 2 conf (λ l. l)
        >>= proc_events log 2 conf (codes "came" ∷ codes "gone" ∷ []))
      ≡ ok m)
    × Rests conf m
events_rest_example =
    events_rest log conf rank 2 conf-Complete conf-Descends rank_small (codes "idle") idle (λ l. l)
      [] (codes "came" ∷ codes "gone" ∷ []) makes_idle makes_idle
