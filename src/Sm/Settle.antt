-- ===== src/Sm/Settle.antt =====
-- Events of sm.h on a configuration without missing keys and without a cycle of `next`.
use auto_drop.Prelude.{
  ℕ, zero, suc, ◌≤◌, ◌<◌, ◌≡◌, refl, ◌⊎◌, inl, inr, ◌∙◌, none, some, List, [], ◌∷◌, length, Str,
  str_beq_iff, arith, Bool-cases, Option-cases, lookup, str_eq,
}
use auto_drop.Sm.{
  StateNode, SmState, ok, ◌>>=◌, is_empty, find_state, make_state, create_sm_state, get_event_state,
  Machine, before_enter, change_state, trigger_from, init_machine, begin, proc_event, proc_events,
}
use auto_drop.Sm.Chains.{IsSettled, Leads, Linked, last_of, hooks, trigger_follows}

-- Every configured state parses: no key that create_sm_state needs is missing.
abbrev pub Complete : List StateNode → Type 0
Complete conf =
    (name : Str) (n : StateNode)
    → find_state name conf ≡ some n
    → (s : SmState) × (make_state n ≡ ok s)

-- s is what create_sm_state makes of the entry of its name.
abbrev pub IsFrom : List StateNode → SmState → Type 0
IsFrom conf s = create_sm_state conf s.state_name ≡ ok (some s)

find_state-name :
    (name : Str) (conf : List StateNode) (n : StateNode)
    → find_state name conf ≡ some n
    → n.name ≡ name
unfolding find_state
find_state-name name [] n h = cc
find_state-name name (m ∷ conf) n h =
    ground (arith, str_beq_iff m.name name, find_state-name name conf n)

make_state-name : (n : StateNode) (s : SmState) → make_state n ≡ ok s → s.state_name ≡ n.name
unfolding make_state
make_state-name n s h = ground arith

create_cases :
    (conf : List StateNode) (name : Str)
    → Complete conf
    → (create_sm_state conf name ≡ ok none)
      ⊎ ((s : SmState) × (create_sm_state conf name ≡ ok (some s))
          × IsFrom conf s
          × (s.state_name ≡ name))
unfolding create_sm_state
create_cases conf name c = elim (Option-cases (find_state name conf)) [
  | inl e ↦ inl (ground arith)
  | inr (n, e) ↦
      let (s, m) = c name n e in
      let same = make_state-name n s m ∙ find_state-name name conf n e in
      inr (s, ground arith, rw same (ground arith), same)
]

-- A measure that falls along `next`, so that no chain of successors comes back.
abbrev pub Descends : List StateNode → (Str → ℕ) → Type 0
Descends conf rank =
    (s t : SmState) → IsFrom conf s → Leads conf s t → rank t.state_name < rank s.state_name

next_cases :
    (conf : List StateNode) (s : SmState)
    → Complete conf
    → IsSettled conf s ⊎ ((t : SmState) × Leads conf s t × IsFrom conf t)
next_cases conf s c = elim (Bool-cases (is_empty s.next_state)) [
  | inl e ↦ inl (inl e)
  | inr e ↦ elim (create_cases conf s.next_state c) [
    | inl x ↦ inl (inr x)
    | inr (t, x, w, same) ↦ inr (t, (e, x), w)
  ]
]

module _ (conf : List StateNode) (rank : Str → ℕ) (c : Complete conf) (d : Descends conf rank) where
  abbrev Chain : ℕ → SmState → Type 0
  Chain n s =
      (ts : List SmState) × Linked conf s ts
      × (length ts ≤ n)
      × IsFrom conf (last_of s ts)
      × IsSettled conf (last_of s ts)

  Chain-exists : (n : ℕ) (s : SmState) → IsFrom conf s → rank s.state_name ≤ n → Chain n s
  Chain-exists zero s v h = elim (next_cases conf s c) [
    | inl e ↦ ([], e, omega arith, v, e)
    | inr (t, k, w) ↦ absurd (omega (arith, d s t v k))
  ]
  Chain-exists (suc n) s v h = elim (next_cases conf s c) [
    | inl e ↦ ([], e, omega arith, v, e)
    | inr (t, k, w) ↦
        let (ts, l, b, f, e) = Chain-exists n t w (omega (arith, d s t v k)) in
        (t ∷ ts, (k, l), omega arith, f, e)
  ]

event_cases :
    (conf : List StateNode) (s : SmState) (event : Str)
    → Complete conf
    → (get_event_state conf s event ≡ ok none)
      ⊎ ((t : SmState) × (get_event_state conf s event ≡ ok (some t)) × IsFrom conf t)
unfolding get_event_state
event_cases conf s event c = elim (Option-cases (lookup event s.event_state_map)) [
  | inl e ↦ inl (ground arith)
  | inr (name, e) ↦ elim (create_cases conf name c) [
    | inl x ↦ inl (ground arith)
    | inr (t, x, w, same) ↦ inr (t, ground arith, w)
  ]
]

module _ {L : Type 0} (run : Str → L → L) (f : ℕ) (conf : List StateNode) (event : Str) where
  proc_event_ignored :
      (s : SmState) (m : Machine L)
      → m.current ≡ some s
      → get_event_state conf s event ≡ ok none
      → proc_event run f conf event m ≡ ok m
  unfolding proc_event
  proc_event_ignored s m e x = ground arith

  proc_event_taken :
      (s t : SmState) (m : Machine L)
      → m.current ≡ some s
      → get_event_state conf s event ≡ ok (some t)
      → proc_event run f conf event m ≡ trigger_from run f conf t (change_state run s t m.lua)
  unfolding proc_event
  proc_event_taken s t m e x = ground arith

-- The machine rests in a configured state that has no successor.
abbrev pub Rests : {L : Type 0} → List StateNode → Machine L → Type 0
Rests conf m = (s : SmState) × (m.current ≡ some s) × IsFrom conf s × IsSettled conf s

module _ {L : Type 0} (run : Str → L → L) (conf : List StateNode) (rank : Str → ℕ) (f : ℕ)
    (c : Complete conf) (d : Descends conf rank)
    (enough : (s : SmState) → IsFrom conf s → rank s.state_name < f) where
  trigger-Rests :
      (s : SmState) (l : L)
      → IsFrom conf s
      → (m : Machine L) × (trigger_from run f conf s l ≡ ok m) × Rests conf m
  trigger-Rests s l v =
      let (ts, k, b, w, e) = Chain-exists conf rank c d (rank s.state_name) s v (omega arith) in
      (
        record { current = some (last_of s ts); lua = hooks run s ts l },
        trigger_follows run conf ts f s l k (omega (arith, enough s v)),
        (last_of s ts, refl, w, e),
      )

  proc_event-Rests :
      (event : Str) (m : Machine L)
      → Rests conf m
      → (m' : Machine L) × (proc_event run f conf event m ≡ ok m') × Rests conf m'
  proc_event-Rests event m (s, e, v, w) = elim (event_cases conf s event c) [
    | inl x ↦ (m, proc_event_ignored run f conf event s m e x, (s, e, v, w))
    | inr (t, x, u) ↦
        let (m', y, z) = trigger-Rests t (change_state run s t m.lua) u in
        (m', proc_event_taken run f conf event s t m e x ∙ y, z)
  ]

  proc_events-Rests :
      (es : List Str) (m : Machine L)
      → Rests conf m
      → (m' : Machine L) × (proc_events run f conf es m ≡ ok m') × Rests conf m'
  unfolding proc_events
  proc_events-Rests [] m r = (m, refl, r)
  proc_events-Rests (e ∷ es) m r =
      let (m1, x, r1) = proc_event-Rests e m r in
      let (m2, y, r2) = proc_events-Rests es m1 r1 in (m2, rw x y, r2)

  -- Let every configured state have its keys, a measure fall along `next`, and the initial state be
  -- configured. Then, with fuel above the measure, the machine starts and handles any sequence of
  -- events without a crash, an exception or an end of fuel, and rests in a configured state that has
  -- no successor.
  pub events_rest :
      (init : Str) (s : SmState) (prepare : L → L) (l : L) (es : List Str)
      → create_sm_state conf init ≡ ok (some s)
      → IsFrom conf s
      → (m : Machine L) × ((init_machine run conf init l
            >>= begin run f conf prepare
            >>= proc_events run f conf es)
          ≡ ok m)
        × Rests conf m
  unfolding init_machine begin
  events_rest init s prepare l es e v =
      let (m1, x, r1) = trigger-Rests s (before_enter run s (prepare l)) v in
      let (m2, y, r2) = proc_events-Rests es m1 r1 in (m2, rw (e, x) y, r2)
