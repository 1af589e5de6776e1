-- ===== src/Events/Timer/Examples.antt =====
-- A timer as documented, and waits of half a second and of one and a half.
use auto_drop.Prelude.{
  ◌+◌, ◌*◌, ◌<◌, if◌then◌else◌, ltb, ◌==◌, ◌&&◌, some, none, ◌≡◌, ◌↔◌, refl, arith,
}
use auto_drop.Prelude.Int.{ℤ, pos, negsuc}
use auto_drop.Events.Timer.{
  Armed, disarmed, invalid, every, Timerfd, signed32, start_timer, yield_by_timer, start_timer_ms,
}
use auto_drop.Events.Timer.Wakes.{yield_by_timer-ready_iff}

abbrev settime : ℤ → ℤ → Armed
settime (pos s) (pos n) =
    if ltb n 1000000000
    then (if (s == 0) && (n == 0) then disarmed else every (s * 1000000000 + n))
    else invalid
settime (pos s) (negsuc n) = invalid
settime (negsuc s) (pos n) = invalid
settime (negsuc s) (negsuc n) = invalid

settime-Timerfd : Timerfd settime
settime-Timerfd = record {
  zeros = refl;
  in_range = λ s n lt nz. ground (arith, lt, nz);
  too_large = λ s n ge. ground (arith, ge);
  negative = λ s n. refl;
}

never_ready : yield_by_timer settime 0 1500 ≡ none
unfolding yield_by_timer start_timer signed32
never_ready = refl

yield_by_timer-ready_iff_example :
    ((yield_by_timer settime 0 500 ≡ some (0 * 1000000000 + 500 * 1000000))
      ↔ ((0 < 0 + 500) × (500 < 1000)))
    × (start_timer_ms settime 1500 ≡ every (1500 * 1000000))
yield_by_timer-ready_iff_example =
    yield_by_timer-ready_iff settime settime-Timerfd 0 500 1500 (omega arith)
