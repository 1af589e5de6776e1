-- ===== src/Events/Timer/Wakes.antt =====
-- src/public/event_sc/ad_event_sc.cpp: which times a timer can be set to.
use auto_drop.Prelude.{
  ℕ, ◌+◌, ◌*◌, ◌/◌, ◌%◌, ◌≤◌, ◌<◌, none, some, ◌≡◌, ◌≢◌, ◌↔◌, sym, ap, ◌∙◌, arith,
}
use auto_drop.Prelude.Int.{ℤ, pos, negsuc}
use native.Mathlib.Decide.{dec_lt}
use auto_drop.Events.Timer.{
  Armed, disarmed, invalid, every, Timerfd, signed32, start_timer, ready_after, yield_by_timer,
  start_timer_ms,
}

signed32-small : (ms : ℕ) → ms < 1000 → signed32 (ms * 1000 * 1000) ≡ pos (ms * 1000000)
unfolding signed32
signed32-small ms lt = ground arith

expiry : Armed → ℕ
expiry disarmed = 0
expiry invalid = 0
expiry (every n) = n

invalid-not_every : (n : ℕ) → invalid ≢ every n
invalid-not_every n e = cc e

disarmed-not_every : (n : ℕ) → disarmed ≢ every n
disarmed-not_every n e = cc e

-- No value of tv_nsec stands for a second or more.
settime-below :
    (settime : ℤ → ℤ → Armed)
    → Timerfd settime
    → (s : ℕ) (z : ℤ) (n : ℕ) → 1000000000 ≤ n
    → settime (pos s) z ≢ every (s * 1000000000 + n)
unfolding expiry
settime-below settime t s (negsuc k) n ge e = invalid-not_every _ (sym (t.negative s k) ∙ e)
settime-below settime t s (pos k) n ge e = elim (dec_lt k 1000000000) [
  | no large ↦ invalid-not_every _ (sym (t.too_large s k (omega arith)) ∙ e)
  | yes small ↦ elim (dec_lt 0 (s + k)) [
    | yes nz ↦
        let same : s * 1000000000 + k ≡ s * 1000000000 + n =
          ap expiry (sym (t.in_range s k small nz) ∙ e) in
        omega (arith, same)
    | no z ↦
        let es : 0 ≡ s = omega arith in
        let ek : 0 ≡ k = omega arith in
        disarmed-not_every _ (
          sym t.zeros
          ∙ ap (λ a. settime (pos a) (pos 0)) es
          ∙ ap (λ a. settime (pos s) (pos a)) ek
          ∙ e)
  ]
]

module _ (settime : ℤ → ℤ → Armed) (t : Timerfd settime) where
  start_timer-every :
      (s ms : ℕ)
      → ms < 1000
      → 0 < s + ms
      → start_timer settime s ms ≡ every (s * 1000000000 + ms * 1000000)
  unfolding start_timer
  start_timer-every s ms lt nz =
      ap (settime (pos s)) (signed32-small ms lt)
      ∙ t.in_range s (ms * 1000000) (omega arith) (omega arith)

  -- From 1000 on the nanoseconds are not those asked for.
  start_timer-wrong :
      (s ms : ℕ) → 1000 ≤ ms → start_timer settime s ms ≢ every (s * 1000000000 + ms * 1000000)
  unfolding start_timer
  start_timer-wrong s ms ge = settime-below settime t s _ (ms * 1000000) (omega arith)

  ready_after-every : (a : Armed) (n : ℕ) → ready_after settime a ≡ some n → a ≡ every n
  ready_after-every disarmed n e = cc e
  ready_after-every invalid n e = cc e
  ready_after-every (every m) n e = cc e

  never-zero : yield_by_timer settime 0 0 ≡ none
  unfolding yield_by_timer start_timer signed32
  never-zero = ap (ready_after settime) t.zeros

  some-not_none : (n : ℕ) → some n ≢ none
  some-not_none n e = cc e

  possible :
      (s ms : ℕ)
      → yield_by_timer settime s ms ≡ some (s * 1000000000 + ms * 1000000)
      → (0 < s + ms) × (ms < 1000)
  unfolding yield_by_timer
  possible s ms e = elim (dec_lt ms 1000) [
    | no ge ↦
        absurd
          (start_timer-wrong s ms (omega arith) (ready_after-every (start_timer settime s ms) _ e))
    | yes lt ↦ elim (dec_lt 0 (s + ms)) [
      | yes nz ↦ (nz, lt)
      | no z ↦
          let es : 0 ≡ s = omega arith in
          let em : 0 ≡ ms = omega arith in
          absurd (
            some-not_none _ (
              sym e
              ∙ sym (ap (λ a. yield_by_timer settime a ms) es)
              ∙ sym (ap (λ a. yield_by_timer settime 0 a) em)
              ∙ never-zero))
    ]
  ]

  -- With timerfd_settime as documented: a coroutine that waits by yield_by_timer(timeout, micro_sec)
  -- is made ready after just that time exactly when the time is not zero and micro_sec, which counts
  -- milliseconds, is below 1000. start_timer_ms arms its timer with the time asked for, for every
  -- number of milliseconds above 0.
  pub yield_by_timer-ready_iff :
      (timeout micro_sec ms : ℕ)
      → 0 < ms
      → ((yield_by_timer settime timeout micro_sec
            ≡ some (timeout * 1000000000 + micro_sec * 1000000))
          ↔ ((0 < timeout + micro_sec) × (micro_sec < 1000)))
        × (start_timer_ms settime ms ≡ every (ms * 1000000))
  unfolding yield_by_timer start_timer_ms
  yield_by_timer-ready_iff timeout micro_sec ms nz = (
    (
      λ e. possible timeout micro_sec e,
      λ h. ap (ready_after settime) (start_timer-every timeout micro_sec h.1 h.0),
    ),
    start_timer-every (ms / 1000) (ms % 1000) (omega arith) (omega arith) ∙ ap every (omega arith),
  )
