-- ===== src/Events/Timer.antt =====
-- AD_EVENT_SC_TIMER_NODE, startTimer and yield_by_timer of src/public/event_sc/ad_event_sc.{h,cpp},
-- start_timer_ms of src/core/rpc_imp_lib/runner.h and sleep_wait of runner.cpp: what a timer is set
-- to. timerfd_settime is a parameter; arguments are at least 0, and an `int` product wraps around.
pub mod Wakes
mod Examples
use auto_drop.Prelude.{
  ℕ, ◌+◌, ◌-◌, ◌*◌, ◌/◌, ◌%◌, ◌≤◌, ◌<◌, if◌then◌else◌, ltb, Option, none, some, ◌≡◌,
}
use auto_drop.Prelude.Int.{ℤ, pos, negsuc}

-- What timerfd_settime leaves: no expiry, an error, or one after so many nanoseconds, and again
-- after each such time.
pub data Armed : Type 0 where
  disarmed invalid : Armed
  every : ℕ → Armed

-- timerfd_settime as documented: both fields zero disarm the timer, and tv_nsec outside
-- [0, 999999999] is an error.
pub record Timerfd (settime : ℤ → ℤ → Armed) : Type 0 where
  pub zeros : settime (pos 0) (pos 0) ≡ disarmed
  pub in_range :
      (s n : ℕ) → n < 1000000000 → 0 < s + n → settime (pos s) (pos n) ≡ every (s * 1000000000 + n)
  pub too_large : (s n : ℕ) → 1000000000 ≤ n → settime (pos s) (pos n) ≡ invalid
  pub negative : (s n : ℕ) → settime (pos s) (negsuc n) ≡ invalid

-- The value of an int that n wraps around to.
unfoldable pub signed32 : ℕ → ℤ
signed32 n =
    let r = n % 4294967296 in if ltb r 2147483648 then pos r else negsuc (4294967296 - r - 1)

module _ (settime : ℤ → ℤ → Armed) where
  unfoldable pub start_timer : ℕ → ℕ → Armed
  unfolding signed32
  start_timer timeout micro_sec = settime (pos timeout) (signed32 (micro_sec * 1000 * 1000))

  -- The nanoseconds after which the coroutine is ready again; `none` is never.
  abbrev pub ready_after : Armed → Option ℕ
  ready_after disarmed = none
  ready_after invalid = none
  ready_after (every n) = some n

  unfoldable pub yield_by_timer : ℕ → ℕ → Option ℕ
  unfolding start_timer
  yield_by_timer timeout micro_sec = ready_after (start_timer timeout micro_sec)

  unfoldable pub sleep_wait : ℕ → ℕ → Option ℕ
  unfolding yield_by_timer
  sleep_wait sec micro_sec = yield_by_timer sec micro_sec

  unfoldable pub start_timer_ms : ℕ → Armed
  unfolding start_timer
  start_timer_ms ms_sec = start_timer (ms_sec / 1000) (ms_sec % 1000)
