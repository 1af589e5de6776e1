-- ===== src/Events/Wait/Results.antt =====
-- src/public/event_sc/ad_event_sc.cpp: what a wait for a descriptor with a time limit ends with.
use auto_drop.Prelude.{
  ℕ, ◌≡◌, refl, ◌∙◌, ap, Bool, true, false, if◌then◌else◌, ◌==◌, Option, none, some, List, [], ◌∷◌,
  lookup, has, nat_eq, arith, All,
}
use auto_drop.Events.Wait.{
  Wait, WaitNode, on_fd, on_timer, WaitLoop, register_node, yield_by_fd, handle_wait, handle_node,
  event_on, events_on,
}
use auto_drop.Events.Wait.Nodes.{
  register_node-lookup, register_node-has, is_timer, handle_wait-lookup, handle_wait-flags,
}

abbrev pub wait_of : WaitNode → Wait
wait_of (on_fd w) = w
wait_of (on_timer w) = w

-- A wait of another coroutine for other descriptors.
abbrev pub Apart : ℕ → ℕ → ℕ → Wait → Type 0
Apart co fd tfd w =
    ((w.co == co) ≡ false)
    × ((w.fd == fd) ≡ false)
    × ((w.fd == tfd) ≡ false)
    × (is_timer w.timer fd ≡ false)
    × (is_timer w.timer tfd ≡ false)

-- The two descriptors are free and differ, and whoever waits is another coroutine, for others.
pub record FreeFor (co fd tfd : ℕ) (l : WaitLoop) : Type 0 where
  pub fd_free : has fd l.fd_to_node ≡ false
  pub timer_free : has tfd l.fd_to_node ≡ false
  pub two : (tfd == fd) ≡ false
  pub others : (j : ℕ) (n : WaitNode) → lookup j l.fd_to_node ≡ some n → Apart co fd tfd (wait_of n)

abbrev pub limited : ℕ → ℕ → ℕ → Wait
limited co fd tfd = record { co = co; fd = fd; timer = some tfd }

-- The coroutine sleeps, and both descriptors lead to its wait.
record Waiting (co fd tfd : ℕ) (l : WaitLoop) : Type 0 where
  at_fd : lookup fd l.fd_to_node ≡ some (on_fd (limited co fd tfd))
  at_timer : lookup tfd l.fd_to_node ≡ some (on_timer (limited co fd tfd))
  two : (tfd == fd) ≡ false
  asleep : l.ready co ≡ false
  others :
      (j : ℕ) (n : WaitNode)
      → (fd == j) ≡ false
      → (tfd == j) ≡ false
      → lookup j l.fd_to_node ≡ some n
      → Apart co fd tfd (wait_of n)

yield_by_fd-lookup :
    (co fd tfd j : ℕ) (l : WaitLoop)
    → FreeFor co fd tfd l
    → lookup j (yield_by_fd (limited co fd tfd) l).fd_to_node ≡ (
        if fd == j
        then some (on_fd (limited co fd tfd))
        else if tfd == j
        then some (on_timer (limited co fd tfd))
        else lookup j l.fd_to_node)
unfolding yield_by_fd
yield_by_fd-lookup co fd tfd j l f =
    let w = limited co fd tfd in
    let l1 = register_node tfd (on_timer w) l in
    let still_free : has fd l1.fd_to_node ≡ false =
      register_node-has tfd fd (on_timer w) l f.timer_free ∙ rw (f.two, f.fd_free) refl in
    register_node-lookup fd j (on_fd w) l1 still_free
    ∙ ap (λ o. if fd == j then some (on_fd w) else o)
        (register_node-lookup tfd j (on_timer w) l f.timer_free)

yield_by_fd-asleep :
    (co fd tfd : ℕ) (l : WaitLoop) → (yield_by_fd (limited co fd tfd) l).ready co ≡ false
unfolding yield_by_fd
yield_by_fd-asleep co fd tfd l = ground arith

yield_by_fd-Waiting :
    (co fd tfd : ℕ) (l : WaitLoop)
    → FreeFor co fd tfd l
    → Waiting co fd tfd (yield_by_fd (limited co fd tfd) l)
yield_by_fd-Waiting co fd tfd l f =
    let at = λ (j : ℕ). yield_by_fd-lookup co fd tfd j l f in
    record {
      at_fd = ground (arith, at fd);
      at_timer = ground (arith, at tfd, f.two);
      two = f.two;
      asleep = ground (arith, yield_by_fd-asleep co fd tfd l);
      others = λ j n a b e. f.others j n (ground (arith, at j, a, b, e));
    }

handle_wait-Waiting :
    (co fd tfd : ℕ) (w : Wait) (l : WaitLoop)
    → Apart co fd tfd w
    → Waiting co fd tfd l
    → Waiting co fd tfd (handle_wait w l)
handle_wait-Waiting co fd tfd w l (other, a, b, c, d) v = record {
  at_fd = handle_wait-lookup w fd l ∙ rw (a, c) v.at_fd;
  at_timer = handle_wait-lookup w tfd l ∙ rw (b, d) v.at_timer;
  two = v.two;
  asleep = (handle_wait-flags w co l).0 ∙ rw other v.asleep;
  others = λ j n p q e. v.others j n p q (ground (arith, handle_wait-lookup w j l, e));
}

-- An event on another descriptor leaves the wait as it is.
event_on-Waiting :
    (co fd tfd j : ℕ) (l : WaitLoop)
    → (fd == j) ≡ false
    → (tfd == j) ≡ false
    → Waiting co fd tfd l
    → Waiting co fd tfd (event_on j l)
unfolding event_on
event_on-Waiting co fd tfd j l a b v = handled (lookup j l.fd_to_node) (λ n e. v.others j n a b e)
  where
    handled :
        (o : Option WaitNode)
        → ((n : WaitNode) → o ≡ some n → Apart co fd tfd (wait_of n))
        → Waiting co fd tfd (handle_node o l)
    handled none apart = v
    handled (some (on_fd w)) apart = handle_wait-Waiting co fd tfd w l (apart (on_fd w) refl) v
    handled (some (on_timer w)) apart =
        let m = handle_wait-Waiting co fd tfd w l (apart (on_timer w) refl) v in
        record {
          at_fd = m.at_fd;
          at_timer = m.at_timer;
          two = m.two;
          asleep = m.asleep;
          others = m.others;
        }

events_on-Waiting :
    (co fd tfd : ℕ) (js : List ℕ) (l : WaitLoop)
    → All (λ j. ((fd == j) ≡ false) × ((tfd == j) ≡ false)) js
    → Waiting co fd tfd l
    → Waiting co fd tfd (events_on js l)
unfolding events_on
events_on-Waiting co fd tfd [] l h v = v
events_on-Waiting co fd tfd (j ∷ js) l h v =
    events_on-Waiting co fd tfd js (event_on j l) h.1 (event_on-Waiting co fd tfd j l h.0.0 h.0.1 v)

-- The coroutine goes on with this result, and neither descriptor is watched any more.
abbrev pub EndsWith : ℕ → ℕ → ℕ → Bool → WaitLoop → Type 0
EndsWith co fd tfd result l =
    (l.ready co ≡ true)
    × (l.yield_result co ≡ result)
    × (lookup fd l.fd_to_node ≡ none)
    × (lookup tfd l.fd_to_node ≡ none)

handle_wait-EndsWith :
    (co fd tfd : ℕ) (l : WaitLoop) → EndsWith co fd tfd true (handle_wait (limited co fd tfd) l)
handle_wait-EndsWith co fd tfd l =
    let w = limited co fd tfd in
    let (r, y) = handle_wait-flags w co l in
    (
      ground (arith, r),
      ground (arith, y),
      ground (arith, handle_wait-lookup w fd l),
      ground (arith, handle_wait-lookup w tfd l),
    )

-- A coroutine calls yield_by_fd with a time limit; its descriptor and the one of the timer are free
-- and differ, and all who wait are other coroutines, for other descriptors. Then it sleeps, whatever
-- events come on other descriptors, until one comes on its descriptor or on its timer: then it goes
-- on, with the result true in the first case and false in the second, and neither of the two
-- descriptors is watched any more.
pub yield_by_fd-EndsWith :
    (co fd tfd : ℕ) (js : List ℕ) (l : WaitLoop)
    → FreeFor co fd tfd l
    → All (λ j. ((fd == j) ≡ false) × ((tfd == j) ≡ false)) js
    → let l' = events_on js (yield_by_fd (limited co fd tfd) l) in
      (l'.ready co ≡ false)
      × EndsWith co fd tfd true (event_on fd l')
      × EndsWith co fd tfd false (event_on tfd l')
unfolding event_on
yield_by_fd-EndsWith co fd tfd js l f h =
    let w = limited co fd tfd in
    let l' = events_on js (yield_by_fd w l) in
    let v =
      events_on-Waiting co fd tfd js (yield_by_fd w l) h (yield_by_fd-Waiting co fd tfd l f) in
    let (r, y, a, b) = handle_wait-EndsWith co fd tfd l' in
    (v.asleep, rw v.at_fd (r, y, a, b), rw v.at_timer (r, ground arith, a, b))
