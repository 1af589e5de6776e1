-- ===== src/Sm.antt =====
-- src/sm/lib/sm.{h,cpp}: the state machine that runs Lua code on entering, in, and on leaving a
-- state. The Lua interpreter is the parameter `run`: what running a text does to the interpreter and
-- to everything the text can reach; its errors are logged and change nothing else here. lock_sm and
-- unlock_sm, between which each text runs, are those of Events.Mutex.
pub mod Chains
pub mod Settle
mod Examples
use auto_drop.Prelude.{
  ℕ, zero, suc, Bool, true, false, if◌then◌else◌, Option, none, some, List, [], ◌∷◌, Str, Dict,
  lookup, insert, str_eq, str_beq,
}

-- An entry of `events`, and of `states`: `none` is a key that is absent or no scalar, at which
-- as<std::string>() throws; where the source gives a default, the text is the default.
pub record EventNode : Type 0 where
  pub trigger : Option Str
  pub next : Option Str

pub record StateNode : Type 0 where
  pub name : Str
  pub enter : Option Str
  pub exit : Option Str
  pub action : Option Str
  pub next : Str
  pub events : List EventNode

-- SM_STATE; the factory is the configuration, an argument below.
pub record SmState : Type 0 where
  pub state_name : Str
  pub before_enter_lua_func : Str
  pub after_exit_lua_func : Str
  pub do_lua_func : Str
  pub next_state : Str
  pub event_state_map : Dict Str Str

-- `crash` is a call on a null m_current_state, `throws` an exception of yaml-cpp that is not caught
-- here, and `running` an end of fuel.
pub data Result {ℓ} (A : Type ℓ) : Type ℓ where
  ok : A → Result A
  crash : Result A
  throws : Result A
  running : Result A

infixl 5 ◌>>=◌
abbrev pub ◌>>=◌ {ℓ κ} : {A : Type ℓ} {B : Type κ} → Result A → (A → Result B) → Result B
ok a >>= f = f a
crash >>= f = crash
throws >>= f = throws
running >>= f = running

abbrev pub or_throw {ℓ} : {A : Type ℓ} → Option A → Result A
or_throw none = throws
or_throw (some a) = ok a

-- The `for` over the states, up to its `break`.
unfoldable pub find_state : Str → List StateNode → Option StateNode
find_state name [] = none
find_state name (n ∷ ns) = if str_beq n.name name then some n else find_state name ns

-- add_event for each entry; a repeated trigger overwrites.
unfoldable pub add_events : List EventNode → Dict Str Str → Result (Dict Str Str)
add_events [] m = ok m
add_events (e ∷ es) m = do t ← or_throw e.trigger; n ← or_throw e.next; add_events es (insert t n m)

unfoldable pub make_state : StateNode → Result SmState
make_state n = do
  enter ← or_throw n.enter
  exit ← or_throw n.exit
  action ← or_throw n.action
  events ← add_events n.events []
  ok (record {
    state_name = n.name;
    before_enter_lua_func = enter;
    after_exit_lua_func = exit;
    do_lua_func = action;
    next_state = n.next;
    event_state_map = events;
  })

-- SM_STATE_FACTORY::create_sm_state; `none` is the null pointer.
unfoldable pub create_sm_state : List StateNode → Str → Result (Option SmState)
create_sm_state conf name = elim (find_state name conf) [
  | none ↦ ok none
  | some n ↦ (do s ← make_state n; ok (some s))
]

unfoldable pub get_event_state : List StateNode → SmState → Str → Result (Option SmState)
get_event_state conf s event = elim (lookup event s.event_state_map) [
  | none ↦ ok none
  | some name ↦ create_sm_state conf name
]

-- DYNAMIC_SM: m_current_state, which is null if the initial state is not configured, and what the
-- Lua code works on.
pub record Machine (L : Type 0) : Type 0 where
  pub current : Option SmState
  pub lua : L

abbrev pub is_empty : Str → Bool
is_empty [] = true
is_empty (c ∷ s) = false

module _ {L : Type 0} (run : Str → L → L) where
  unfoldable pub call_lua_func : Str → L → L
  call_lua_func [] l = l
  call_lua_func (c ∷ code) l = run (c ∷ code) l

  unfoldable pub before_enter : SmState → L → L
  before_enter s l = call_lua_func s.before_enter_lua_func l

  unfoldable pub after_exit : SmState → L → L
  after_exit s l = call_lua_func s.after_exit_lua_func l

  -- The next state, and the interpreter after the action.
  unfoldable pub do_action : List StateNode → SmState → L → Result (Option SmState × L)
  do_action conf s l =
      let l' = call_lua_func s.do_lua_func l in
      if is_empty s.next_state
      then ok (none, l')
      else (do next ← create_sm_state conf s.next_state; ok (next, l'))

  -- The interpreter after the old state is left and the new one entered.
  unfoldable pub change_state : SmState → SmState → L → L
  change_state old next l = before_enter next (after_exit old l)

  -- DYNAMIC_SM::trigger on a current state that is not null; its recursion takes fuel.
  unfoldable pub trigger_from : ℕ → List StateNode → SmState → L → Result (Machine L)
  trigger_from zero conf s l = running
  trigger_from (suc f) conf s l = do_action conf s l >>= λ r. elim r.0 [
    | none ↦ ok (record { current = some s; lua = r.1 })
    | some next ↦ trigger_from f conf next (change_state s next r.1)
  ]

  unfoldable pub init_machine : List StateNode → Str → L → Result (Machine L)
  init_machine conf init l = do s ← create_sm_state conf init; ok (record { current = s; lua = l })

  -- `prepare` is luaL_openlibs, the registration of the functions and setGlobal.
  unfoldable pub begin : ℕ → List StateNode → (L → L) → Machine L → Result (Machine L)
  begin f conf prepare m = elim m.current [
    | none ↦ crash
    | some s ↦ trigger_from f conf s (before_enter s (prepare m.lua))
  ]

  unfoldable pub proc_event : ℕ → List StateNode → Str → Machine L → Result (Machine L)
  proc_event f conf event m = elim m.current [
    | none ↦ crash
    | some s ↦ get_event_state conf s event >>= λ r. elim r [
      | none ↦ ok m
      | some next ↦ trigger_from f conf next (change_state s next m.lua)
    ]
  ]

  unfoldable pub proc_events : ℕ → List StateNode → List Str → Machine L → Result (Machine L)
  proc_events f conf [] m = ok m
  proc_events f conf (e ∷ es) m = proc_event f conf e m >>= proc_events f conf es
