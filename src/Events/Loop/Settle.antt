-- ===== src/Events/Loop/Settle.antt =====
-- When the coroutines of runEventLoop come to rest, and what a dispatched event starts.
use auto_drop.Prelude.{
  ℕ, zero, suc, ◌<◌, ◌≡◌, refl, ◌∙◌, true, false, some, List, [], ◌∷◌, ◌++◌, All, has, nat_eq,
  arith, Bool-cases, inl, inr,
}
use auto_drop.Events.Loop.{
  CoState, is_ready, is_dead, Loop, add_co, filter_ready, ready_co, filter_alive, reap, dispatch,
  is_nil, resume_all, round, run_ready, rounds,
}

-- The coroutine is neither ready nor dead.
abbrev pub AtRest : (ℕ → CoState) → ℕ → Type 0
AtRest st c = (is_ready (st c) ≡ false) × (is_dead (st c) ≡ false)

filter_alive-AtRest :
    (st : ℕ → CoState) (cs : List ℕ)
    → is_nil (filter_ready st cs) ≡ true
    → All (AtRest st) (filter_alive st cs)
unfolding filter_ready filter_alive
filter_alive-AtRest st [] h = tt
filter_alive-AtRest st (c ∷ cs) h = ground (arith, filter_alive-AtRest st cs)

is_nil_lem : (cs : List ℕ) → is_nil cs ≡ true → cs ≡ []
is_nil_lem [] h = refl
is_nil_lem (c ∷ cs) h = cc

module _ {W : Type 0} (body : ℕ → Loop W → Loop W) where
  round_idle : (l : Loop W) → is_nil (ready_co l) ≡ true → round body l ≡ reap l
  unfolding round resume_all
  round_idle l h = rw (is_nil_lem (ready_co l) h)

  -- If after n rounds no coroutine is ready, the inner loop of runEventLoop ends within n + 1 rounds,
  -- and then every coroutine that it still keeps is neither ready nor dead.
  pub run_ready-AtRest :
      (n : ℕ) (l : Loop W)
      → is_nil (ready_co (rounds body n l)) ≡ true
      → (l' : Loop W) × (run_ready body (suc n) l ≡ some l')
        × All (AtRest l'.co_state) l'.co_routines
  unfolding run_ready rounds reap
  run_ready-AtRest zero l h =
      (reap l, rw h (rw (round_idle l h)), filter_alive-AtRest l.co_state l.co_routines h)
  run_ready-AtRest (suc n) l h = elim (Bool-cases (is_nil (ready_co l))) [
    | inl idle ↦ (
      reap l,
      rw idle (rw (round_idle l idle)),
      filter_alive-AtRest l.co_state l.co_routines idle,
    )
    | inr busy ↦ let (l', e, a) = run_ready-AtRest n (round body l) h in (l', rw busy e, a)
  ]

filter_ready-same :
    (f g : ℕ → CoState) (cs : List ℕ)
    → All (λ c. f c ≡ g c) cs
    → filter_ready f cs ≡ filter_ready g cs
unfolding filter_ready
filter_ready-same f g [] h = refl
filter_ready-same f g (c ∷ cs) h = ground (arith, filter_ready-same f g cs h.1)

filter_ready-snoc :
    (f : ℕ → CoState) (cs : List ℕ) (c : ℕ)
    → is_ready (f c) ≡ true
    → filter_ready f (cs ++ c ∷ []) ≡ filter_ready f cs ++ c ∷ []
unfolding filter_ready
filter_ready-snoc f [] c h = ground arith
filter_ready-snoc f (d ∷ cs) c h = ground (arith, filter_ready-snoc f cs c h)

old_states :
    {W : Type 0} (l : Loop W) (cs : List ℕ)
    → All (λ c. c < l.next_co) cs
    → All (λ c. (add_co l).co_state c ≡ l.co_state c) cs
unfolding add_co
old_states l [] h = tt
old_states l (c ∷ cs) h = (ground (arith, h.0), old_states l cs h.1)

-- If all coroutines have numbers below the next one, an event on a watched descriptor adds its
-- handler's coroutine behind those that are ready, and changes none of them; an event on another
-- descriptor changes nothing.
pub dispatch-ready_co :
    {W : Type 0} (fd : ℕ) (l : Loop W)
    → All (λ c. c < l.next_co) l.co_routines
    → (has fd l.fd_to_node ≡ true → ready_co (dispatch fd l) ≡ ready_co l ++ l.next_co ∷ [])
      × (has fd l.fd_to_node ≡ false → dispatch fd l ≡ l)
unfolding dispatch add_co
dispatch-ready_co fd l h = (
  λ on.
      let st = (add_co l).co_state in
      rw on (
        filter_ready-snoc st l.co_routines l.next_co (ground arith)
        ∙ rw (filter_ready-same st l.co_state l.co_routines (old_states l l.co_routines h))),
  λ off. rw off,
)
