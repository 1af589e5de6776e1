-- ===== src/Events/Examples.antt =====
-- Two coroutines and one lock.
use auto_drop.Prelude.{ℕ, suc, ◌≡◌, refl, ◌⊎◌}
use auto_drop.Events.Mutex.{
  System, at_depth, woken, start, call_lock, resume_lock, Reach, here, next, locks,
}
use auto_drop.Events.Mutex.Safety.{mutual_exclusion, no_lost_wakeup}

abbrev first : ℕ
first = 0

-- Coroutine 0 has the lock twice, and coroutine 1 waits for it.
abbrev once : System
once = call_lock 0 0 start

abbrev twice : System
twice = call_lock 0 1 once

abbrev contended : System
contended = call_lock 1 0 twice

reaches_contended : Reach start contended
unfolding call_lock start
reaches_contended = next (next (next here (locks 0 0 refl)) (locks 0 1 refl)) (locks 1 0 refl)

mutual_exclusion_example : (first ≡ first) × (contended.mutex.self_count ≡ 1)
unfolding call_lock start
mutual_exclusion_example = mutual_exclusion contended first first 1 1 reaches_contended refl refl

no_lost_wakeup_example :
    ((j : ℕ) × (d : ℕ) × (contended.phase j ≡ at_depth (suc d)))
    ⊎ ((j : ℕ) × (contended.phase j ≡ woken) × ((resume_lock j contended).phase j ≡ at_depth 1))
unfolding call_lock start
no_lost_wakeup_example = no_lost_wakeup contended 1 reaches_contended refl
