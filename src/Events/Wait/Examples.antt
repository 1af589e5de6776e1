-- ===== src/Events/Wait/Examples.antt =====
-- A coroutine that waits for descriptor 5 with the timer 6, while another waits for descriptor 9.
use auto_drop.Prelude.{◌≡◌, refl, true, false, none, [], ◌∷◌, lookup, has, nat_eq, arith}
use auto_drop.Events.Wait.{WaitLoop, on_fd, yield_by_fd, event_on, events_on}
use auto_drop.Events.Wait.Results.{FreeFor, limited, EndsWith, yield_by_fd-EndsWith}

abbrev other_waits : WaitLoop
other_waits = record {
  fd_to_node = (9, on_fd (record { co = 2; fd = 9; timer = none })) ∷ [];
  ready = λ j. false;
  yield_result = λ j. true;
}

other_waits-FreeFor : FreeFor 1 5 6 other_waits
unfolding lookup has
other_waits-FreeFor = record {
  fd_free = refl;
  timer_free = refl;
  two = refl;
  others = λ j n e. ground (arith, e);
}

yield_by_fd-EndsWith_example :
    let l' = events_on (9 ∷ []) (yield_by_fd (limited 1 5 6) other_waits) in
    (l'.ready 1 ≡ false)
    × EndsWith 1 5 6 true (event_on 5 l')
    × EndsWith 1 5 6 false (event_on 6 l')
yield_by_fd-EndsWith_example =
    yield_by_fd-EndsWith 1 5 6 (9 ∷ []) other_waits other_waits-FreeFor ((refl, refl), tt)
