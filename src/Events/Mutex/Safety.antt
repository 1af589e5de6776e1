-- ===== src/Events/Mutex/Safety.antt =====
-- What holds of the mutex after any steps of its coroutines.
use auto_drop.Prelude.{
  ℕ, zero, suc, ◌+◌, ◌≡◌, refl, ◌⊎◌, inl, inr, ◌≢◌, if◌then◌else◌, ◌==◌, none, some, List, [], ◌∷◌,
  ◌++◌, arith, Option-cases,
}
use auto_drop.Events.Mutex.{
  Phase, at_depth, waiting, woken, System, Step, locks, resumes, unlocks, Reach, here, next, start,
  call_lock, resume_lock, call_unlock,
}

abbrev pub count : ℕ → List ℕ → ℕ
count i [] = 0
count i (x ∷ xs) = let rest = count i xs in if x == i then suc rest else rest

abbrev pub waits : Phase → ℕ
waits (at_depth d) = 0
waits waiting = 1
waits woken = 0

pub record Inv (s : System) : Type 0 where
  pub held :
      (i d : ℕ)
      → s.phase i ≡ at_depth (suc d)
      → (s.mutex.holder ≡ some i) × (s.mutex.self_count ≡ d)
  pub holds : (i : ℕ) → s.mutex.holder ≡ some i → s.phase i ≡ at_depth (suc s.mutex.self_count)
  pub free : s.mutex.holder ≡ none → s.mutex.self_count ≡ 0
  pub queued : (i : ℕ) → count i s.mutex.wait_co ≡ waits (s.phase i)
  pub wakes : s.mutex.holder ≡ none → (s.mutex.wait_co ≡ []) ⊎ ((i : ℕ) × (s.phase i ≡ woken))

count-snoc :
    (i j : ℕ) (xs : List ℕ) → count i (xs ++ j ∷ []) ≡ count i xs + (if j == i then 1 else 0)
count-snoc i j [] = ground arith
count-snoc i j (x ∷ xs) = ground (arith, count-snoc i j xs)

start-Inv : Inv start
unfolding start
start-Inv = record {
  held = λ i d h. cc;
  holds = λ i h. cc;
  free = λ h. refl;
  queued = λ i. refl;
  wakes = λ h. inl refl;
}

own :
    (i d : ℕ) (s : System)
    → s.phase i ≡ at_depth d
    → Inv s
    → ((s.mutex.holder ≡ some i) × (d ≡ suc s.mutex.self_count))
      ⊎ ((s.mutex.holder ≢ some i) × (d ≡ 0))
own i zero s h v = inr (λ e. ground (arith, v.holds i e), refl)
own i (suc d) s h v = let (a, b) = v.held i d h in inl (a, omega arith)

call_lock-Inv : (i d : ℕ) (s : System) → s.phase i ≡ at_depth d → Inv s → Inv (call_lock i d s)
unfolding call_lock
call_lock-Inv i d s h v =
    let o = own i d s h v in
    record {
      held = λ j e p. ground (arith, v.held j e, o);
      holds = λ j p. ground (arith, v.holds j, o, v.free);
      free = λ p. ground (arith, v.free);
      queued = λ j. ground (arith, v.queued j, v.queued i, count-snoc j i s.mutex.wait_co);
      wakes = λ p. ground arith;
    }

resume_lock-Inv : (i : ℕ) (s : System) → s.phase i ≡ woken → Inv s → Inv (resume_lock i s)
unfolding resume_lock
resume_lock-Inv i s h v = record {
  held = λ j e p. ground (arith, v.held j e, v.free);
  holds = λ j p. ground (arith, v.holds j, v.free);
  free = λ p. ground (arith, v.free);
  queued = λ j. ground (arith, v.queued j, v.queued i, count-snoc j i s.mutex.wait_co);
  wakes = λ p. ground arith;
}

call_unlock-Inv :
    (i d : ℕ) (s : System) (w : List ℕ)
    → s.mutex.wait_co ≡ w
    → s.phase i ≡ at_depth (suc d)
    → Inv s
    → Inv (call_unlock i d s)
unfolding call_unlock
call_unlock-Inv i d s [] q h v =
    let (a, b) = v.held i d h in
    record {
      held = λ j e p. ground (arith, v.held j e, a, b, q);
      holds = λ j p. ground (arith, v.holds j, a, b, q);
      free = λ p. ground (arith, a, b, q);
      queued = λ j. ground (arith, v.queued j, v.queued i, q);
      wakes = λ p. inl (ground (arith, a, b, q));
    }
call_unlock-Inv i d s (co ∷ rest) q h v =
    let (a, b) = v.held i d h in
    record {
      held = λ j e p. ground (arith, v.held j e, a, b, q);
      holds = λ j p. ground (arith, v.holds j, a, b, q, v.queued co);
      free = λ p. ground (arith, a, b, q);
      queued = λ j. ground (arith, v.queued j, v.queued i, v.queued co, q);
      wakes = λ p. inr (co, ground (arith, a, b, q));
    }

Step-Inv : {s t : System} → Step s t → Inv s → Inv t
Step-Inv {s} (locks i d h) v = call_lock-Inv i d s h v
Step-Inv {s} (resumes i h) v = resume_lock-Inv i s h v
Step-Inv {s} (unlocks i d h) v = call_unlock-Inv i d s s.mutex.wait_co refl h v

Reach-Inv : {s t : System} → Inv s → Reach s t → Inv t
Reach-Inv v here = v
Reach-Inv v (next r st) = Step-Inv st (Reach-Inv v r)

-- After any steps from the start, two coroutines that have both locked the mutex are one coroutine,
-- and self_count is the number of its locks beyond the first.
pub mutual_exclusion :
    (s : System) (i j d e : ℕ)
    → Reach start s
    → s.phase i ≡ at_depth (suc d)
    → s.phase j ≡ at_depth (suc e)
    → (i ≡ j) × (s.mutex.self_count ≡ d)
mutual_exclusion s i j d e r p q =
    let v = Reach-Inv start-Inv r in ground (arith, v.held i d p, v.held j e q)

-- After any steps from the start, whenever a coroutine waits in lock, the mutex is held by one that
-- has locked it, or it is free and some coroutine was made ready in lock, which gets the lock if it
-- is the next to run. So no wakeup is lost.
pub no_lost_wakeup :
    (s : System) (i : ℕ)
    → Reach start s
    → s.phase i ≡ waiting
    → ((j : ℕ) × (d : ℕ) × (s.phase j ≡ at_depth (suc d)))
      ⊎ ((j : ℕ) × (s.phase j ≡ woken) × ((resume_lock j s).phase j ≡ at_depth 1))
unfolding resume_lock
no_lost_wakeup s i r w =
    let v = Reach-Inv start-Inv r in
    elim (Option-cases s.mutex.holder) [
      | inr (j, e) ↦ inl (j, s.mutex.self_count, v.holds j e)
      | inl e ↦ elim (v.wakes e) [
        | inl none_waits ↦ absurd (ground (arith, v.queued i, none_waits))
        | inr (j, p) ↦ inr (j, p, ground (arith, e))
      ]
    ]
