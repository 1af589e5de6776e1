-- ===== src/Sm/Chains.antt =====
-- The chain of states that DYNAMIC_SM::trigger of sm.h follows, and the Lua code it runs on the way.
use auto_drop.Prelude.{
  ℕ, zero, suc, ◌<◌, ◌≡◌, refl, ap, ◌⊎◌, inl, inr, true, false, none, some, List, [], ◌∷◌, length,
  Str, arith, ◌∙◌,
}
use auto_drop.Sm.{
  StateNode, SmState, ok, running, is_empty, create_sm_state, call_lua_func, before_enter,
  after_exit, do_action, change_state, trigger_from,
}

-- The state has no successor: it names none, or one that is not configured.
abbrev pub IsSettled : List StateNode → SmState → Type 0
IsSettled conf s = (is_empty s.next_state ≡ true) ⊎ (create_sm_state conf s.next_state ≡ ok none)

-- The state's successor is t.
abbrev pub Leads : List StateNode → SmState → SmState → Type 0
Leads conf s t = (is_empty s.next_state ≡ false) × (create_sm_state conf s.next_state ≡ ok (some t))

-- From s the successors are `ts`, in order, and the last of them is settled.
abbrev pub Linked : List StateNode → SmState → List SmState → Type 0
Linked conf s [] = IsSettled conf s
Linked conf s (t ∷ ts) = Leads conf s t × Linked conf t ts

abbrev pub last_of : SmState → List SmState → SmState
last_of s [] = s
last_of s (t ∷ ts) = last_of t ts

-- Code that is not empty is run.
abbrev runs_code : {L : Type 0} → (Str → L → L) → Str → L → L
runs_code run [] l = l
runs_code run (c ∷ code) l = run (c ∷ code) l

-- Each state's action, then its exit code, then the successor's enter code, and so on.
abbrev pub hooks : {L : Type 0} → (Str → L → L) → SmState → List SmState → L → L
hooks run s [] l = runs_code run s.do_lua_func l
hooks run s (t ∷ ts) l = hooks run t ts (
    runs_code run t.before_enter_lua_func
      (runs_code run s.after_exit_lua_func (runs_code run s.do_lua_func l)))

call_lua_func_lem :
    {L : Type 0} (run : Str → L → L) (code : Str) (l : L)
    → call_lua_func run code l ≡ runs_code run code l
unfolding call_lua_func
call_lua_func_lem run [] l = refl
call_lua_func_lem run (c ∷ code) l = refl

module _ {L : Type 0} (run : Str → L → L) (conf : List StateNode) where
  trigger_stops :
      (f : ℕ) (s : SmState) (l : L)
      → IsSettled conf s
      → trigger_from run (suc f) conf s l
        ≡ ok (record { current = some s; lua = call_lua_func run s.do_lua_func l })
  unfolding trigger_from do_action
  trigger_stops f s l (inl e) = rw e
  trigger_stops f s l (inr e) = ground arith

  trigger_goes_on :
      (f : ℕ) (s t : SmState) (l : L)
      → Leads conf s t
      → trigger_from run (suc f) conf s l
        ≡ trigger_from run f conf t (change_state run s t (call_lua_func run s.do_lua_func l))
  unfolding trigger_from do_action
  trigger_goes_on f s t l (a, b) = rw (a, b)

  -- If the successors of s are `ts` and the last of them is settled, then trigger, with more fuel than
  -- there are successors, ends in the last one, and the Lua code that has run is, for each state on
  -- the way, its action, its exit code and the enter code of the next, and at last the action of the
  -- last.
  pub trigger_follows :
      (ts : List SmState) (f : ℕ) (s : SmState) (l : L)
      → Linked conf s ts
      → length ts < f
      → trigger_from run f conf s l
        ≡ ok (record { current = some (last_of s ts); lua = hooks run s ts l })
  unfolding change_state before_enter after_exit
  trigger_follows ts zero s l k h = absurd (omega arith)
  trigger_follows [] (suc f) s l k h =
      trigger_stops f s l k
      ∙ ap (λ m. ok (record { current = some s; lua = m })) (call_lua_func_lem run s.do_lua_func l)
  trigger_follows (t ∷ ts) (suc f) s l k h =
      trigger_goes_on f s t l k.0
      ∙ ap (trigger_from run f conf t) (
          call_lua_func_lem run t.before_enter_lua_func _
          ∙ ap (runs_code run t.before_enter_lua_func) (
              call_lua_func_lem run s.after_exit_lua_func _
              ∙ ap (runs_code run s.after_exit_lua_func) (call_lua_func_lem run s.do_lua_func l)))
      ∙ trigger_follows ts f t _ k.1 (omega arith)

  -- If every state of a set P has a successor in P, trigger never ends from a state of P: no fuel is
  -- enough. So a cycle of `next` never returns.
  pub trigger_cycles :
      (P : SmState → Type 0)
      → ((s : SmState) → P s → (t : SmState) × Leads conf s t × P t)
      → (f : ℕ) (s : SmState) (l : L) → P s
      → trigger_from run f conf s l ≡ running
  unfolding trigger_from
  trigger_cycles P go zero s l p = refl
  trigger_cycles P go (suc f) s l p =
      let (t, k, q) = go s p in trigger_goes_on f s t l k ∙ trigger_cycles P go f t _ q
