-- ===== src/Events/Loop/Examples.antt =====
-- Two coroutines: one waits, one ends.
use auto_drop.Prelude.{ℕ, zero, suc, ◌<◌, ◌≡◌, refl, true, [], ◌∷◌, All, nat_eq, arith}
use auto_drop.Events.Loop.{
  ready, suspended, dead, Loop, set_co_state, ready_co, filter_ready, is_nil, round, rounds, reap,
  filter_alive, resume_all, resume_co,
}

-- The world counts the resumptions.
abbrev body : ℕ → Loop ℕ → Loop ℕ
body zero l = set_co_state 0 suspended (record l { world = suc l.world })
body (suc n) l = set_co_state (suc n) dead (record l { world = suc l.world })

abbrev two : Loop ℕ
two = record {
  co_routines = 0 ∷ 1 ∷ [];
  co_state = λ c. ready;
  next_co = 2;
  fd_to_node = (5, 0) ∷ [];
  world = 0;
}

two_rest : is_nil (ready_co (rounds body 1 two)) ≡ true
unfolding rounds set_co_state filter_ready filter_alive reap resume_all resume_co round
two_rest = refl

two_below : All (λ c. c < 2) (0 ∷ 1 ∷ [])
two_below = ground arith
