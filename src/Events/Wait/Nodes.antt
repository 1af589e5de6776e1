-- ===== src/Events/Wait/Nodes.antt =====
-- src/public/event_sc/ad_event_sc.cpp: what the handler of a wait does to the map and to the flags.
use auto_drop.Prelude.{
  ℕ, ◌≡◌, refl, ◌∙◌, ap, inl, inr, Bool, true, false, ◌||◌, if◌then◌else◌, ◌==◌, ==_iff, Option,
  none, some, lookup, has, nat_eq, arith, Bool-cases, is_some, sym, lookup-insert, lookup-erase,
  has-insert, has-lookup,
}
use auto_drop.Events.Wait.{
  Wait, WaitNode, WaitLoop, set_ready, set_yield_result, stop_limit, register_node, unregister_node,
  handle_wait,
}

pub register_node-lookup :
    (fd j : ℕ) (n : WaitNode) (l : WaitLoop)
    → has fd l.fd_to_node ≡ false
    → lookup j (register_node fd n l).fd_to_node
      ≡ (if fd == j then some n else lookup j l.fd_to_node)
unfolding register_node
register_node-lookup fd j n l free = rw free (lookup-insert fd j n l.fd_to_node)

pub register_node-has :
    (fd j : ℕ) (n : WaitNode) (l : WaitLoop)
    → has fd l.fd_to_node ≡ false
    → has j (register_node fd n l).fd_to_node ≡ (fd == j) || has j l.fd_to_node
unfolding register_node
register_node-has fd j n l free = rw free (has-insert fd j n l.fd_to_node)

pub unregister_node-lookup :
    (fd j : ℕ) (l : WaitLoop)
    → lookup j (unregister_node fd l).fd_to_node ≡ (if fd == j then none else lookup j l.fd_to_node)
unfolding unregister_node
unregister_node-lookup fd j l = elim (Bool-cases (has fd l.fd_to_node)) [
  | inl watched ↦ rw watched (lookup-erase fd j l.fd_to_node)
  | inr free ↦ rw free (elim (Bool-cases (fd == j)) [
    | inl same ↦ rw same (
        ap (λ k. lookup k l.fd_to_node) (sym ((==_iff fd j).0 same))
        ∙ has-none (lookup fd l.fd_to_node) (sym (has-lookup fd l.fd_to_node) ∙ free))
    | inr other ↦ rw other refl
  ])
]
  where
    has-none : (o : Option WaitNode) → is_some o ≡ false → o ≡ none
    has-none none e = refl
    has-none (some n) e = cc e

abbrev pub is_timer : Option ℕ → ℕ → Bool
is_timer none j = false
is_timer (some t) j = t == j

stop_limit-lookup :
    (o : Option ℕ) (j : ℕ) (l : WaitLoop)
    → lookup j (stop_limit o l).fd_to_node ≡ (if is_timer o j then none else lookup j l.fd_to_node)
stop_limit-lookup none j l = refl
stop_limit-lookup (some t) j l = unregister_node-lookup t j l

pub handle_wait-lookup :
    (w : Wait) (j : ℕ) (l : WaitLoop)
    → lookup j (handle_wait w l).fd_to_node
      ≡ (if w.fd == j then none else if is_timer w.timer j then none else lookup j l.fd_to_node)
unfolding handle_wait
handle_wait-lookup w j l = ground (
  arith,
  unregister_node-lookup w.fd j
      (set_yield_result w.co true (set_ready w.co true (stop_limit w.timer l))),
  stop_limit-lookup w.timer j l,
)

unregister_node-flags :
    (fd : ℕ) (l : WaitLoop)
    → ((unregister_node fd l).ready ≡ l.ready)
      × ((unregister_node fd l).yield_result ≡ l.yield_result)
unfolding unregister_node
unregister_node-flags fd l = elim (Bool-cases (has fd l.fd_to_node)) [
  | inl e ↦ rw e (refl, refl)
  | inr e ↦ rw e (refl, refl)
]

stop_limit-flags :
    (o : Option ℕ) (l : WaitLoop)
    → ((stop_limit o l).ready ≡ l.ready) × ((stop_limit o l).yield_result ≡ l.yield_result)
stop_limit-flags none l = (refl, refl)
stop_limit-flags (some t) l = unregister_node-flags t l

pub handle_wait-flags :
    (w : Wait) (j : ℕ) (l : WaitLoop)
    → ((handle_wait w l).ready j ≡ (if w.co == j then true else l.ready j))
      × ((handle_wait w l).yield_result j ≡ (if w.co == j then true else l.yield_result j))
unfolding handle_wait
handle_wait-flags w j l =
    let l1 = set_yield_result w.co true (set_ready w.co true (stop_limit w.timer l)) in
    let (r, y) = unregister_node-flags w.fd l1 in
    let (r', y') = stop_limit-flags w.timer l in
    (
      ap (λ f. f j) r ∙ ap (λ f. if w.co == j then true else f j) r',
      ap (λ f. f j) y ∙ ap (λ f. if w.co == j then true else f j) y',
    )
