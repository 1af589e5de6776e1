-- ===== src/Cli/SmConfig/Restore/Cleared.antt =====
-- src/cli/sm_config.cpp: the commands that make_bdr writes, run on the cleared tree.
use auto_drop.Prelude.{
  ◌≡◌, refl, sym, ◌∙◌, ap, Bool, true, false, ◌||◌, some, List, [], ◌∷◌, ◌++◌, map, Str, str_beq,
  All, append_assoc, arith, if◌then◌else◌, Option, none, is_some,
}
use auto_drop.Sm.{EventNode, StateNode, find_state}
use auto_drop.Cli.SmConfig.{
  SmTree, known, set_init, has_trigger, is_empty, or_empty, clear, next, edit_command,
  edit_commands,
}
use auto_drop.Cli.SmConfig.Nodes.{WellFormed, GoodNode, GoodEvent, Distinct}
use auto_drop.Cli.SmConfig.Restore.{
  state_commands, event_command, trans_commands, each, init_command, bdr_commands, tree,
  known-append, Fresh, Fresh-snoc,
}
use auto_drop.Cli.SmConfig.Restore.States.{
  strip, strip_all, edit_commands-append, SavedNode, Restorable, run-each_state,
}
use auto_drop.Cli.SmConfig.Restore.Transitions.{
  stands, DistinctTriggers, FreshTriggers, as_written, run-set_next, run-add_events,
}

-- The transitions of a state are read back: its next and its targets stand in the tree.
abbrev Transitions : (Str → Bool) → StateNode → Type 0
Transitions here n =
    ((is_empty n.next || here n.next) ≡ true)
    × All (λ e. (as_written e ≡ e) × (here (or_empty e.next) ≡ true)) n.events
    × DistinctTriggers n.events

FreshTriggers-nil : (es : List EventNode) → FreshTriggers [] es
unfolding has_trigger
FreshTriggers-nil [] = tt
FreshTriggers-nil (e ∷ es) = (refl, FreshTriggers-nil es)

known-cons :
    (a : Str) (n : StateNode) (ns : List StateNode)
    → known a (n ∷ ns) ≡ (str_beq n.name a || known a ns)
unfolding find_state
known-cons a n ns = ground arith

known-strip_all : (a : Str) (ns : List StateNode) → known a (strip_all ns) ≡ known a ns
unfolding find_state
known-strip_all a [] = refl
known-strip_all a (n ∷ ns) = ground (arith, known-strip_all a ns)

Transitions-weaken :
    (here there : Str → Bool) (n : StateNode)
    → ((a : Str) → here a ≡ true → there a ≡ true)
    → Transitions here n
    → Transitions there n
Transitions-weaken here there n k (next_here, events_here, d) =
    (ground (arith, k n.next), targets n.events events_here, d)
  where
    targets :
        (es : List EventNode)
        → All (λ e. (as_written e ≡ e) × (here (or_empty e.next) ≡ true)) es
        → All (λ e. (as_written e ≡ e) × (there (or_empty e.next) ≡ true)) es
    targets [] h = tt
    targets (e ∷ es) h = ((h.0.0, k (or_empty e.next) h.0.1), targets es h.1)

module _ (check_lua : Str → Str) (first : Str) where
  run-trans_commands :
      (n : StateNode) (done rest : List StateNode)
      → known n.name done ≡ false
      → Transitions (λ a. stands a done n rest) n
      → edit_commands check_lua (trans_commands n) (tree first (done ++ strip n ∷ rest))
        ≡ tree first (done ++ n ∷ rest)
  run-trans_commands n done rest new (good_next, good_events, d) =
      edit_commands-append check_lua
        (if is_empty n.next then [] else next (n.name ∷ n.next ∷ []) ∷ [])
        (map (event_command n.name) n.events) (tree first (done ++ strip n ∷ rest))
      ∙ ap (edit_commands check_lua (map (event_command n.name) n.events))
          (run-set_next check_lua first done rest n.next (strip n) new good_next refl)
      ∙ run-add_events check_lua first done rest n.events (record n { events = [] }) new good_events
          (FreshTriggers-nil n.events) d

  run-each_trans :
      (ns done : List StateNode)
      → Fresh done ns
      → Distinct ns
      → All (Transitions (λ a. known a done || known a ns)) ns
      → edit_commands check_lua (each trans_commands ns) (tree first (done ++ strip_all ns))
        ≡ tree first (done ++ ns)
  unfolding edit_commands
  run-each_trans [] done f d g = refl
  run-each_trans (n ∷ ns) done f d g =
      edit_commands-append check_lua (trans_commands n) (each trans_commands ns)
        (tree first (done ++ strip n ∷ strip_all ns))
      ∙ ap (edit_commands check_lua (each trans_commands ns)) (
          run-trans_commands n done (strip_all ns) f.0 (
            Transitions-weaken (λ a. known a done || known a (n ∷ ns))
              (λ a. stands a done n (strip_all ns)) n (λ a h. to_stands a h) g.0))
      ∙ ap (λ l. edit_commands check_lua (each trans_commands ns) (tree first l))
          (sym (append_assoc done (n ∷ []) (strip_all ns)))
      ∙ run-each_trans ns (done ++ n ∷ []) (Fresh-snoc n done ns d.0 f.1) d.1 (later ns g.1)
      ∙ ap (tree first) (append_assoc done (n ∷ []) ns)
    where
      to_stands :
          (a : Str)
          → (known a done || known a (n ∷ ns)) ≡ true
          → stands a done n (strip_all ns) ≡ true
      to_stands a h = ground (arith, known-cons a n ns, known-strip_all a ns, h)

      later :
          (ms : List StateNode)
          → All (Transitions (λ a. known a done || known a (n ∷ ns))) ms
          → All (Transitions (λ a. known a (done ++ n ∷ []) || known a ns)) ms
      later [] h = tt
      later (m ∷ ms) h = (
        Transitions-weaken (λ a. known a done || known a (n ∷ ns))
            (λ a. known a (done ++ n ∷ []) || known a ns) m
            (λ a k.
              ground (arith, known-cons a n ns, known-cons a n [], known-append a done (n ∷ []), k))
            h.0,
        later ms h.1,
      )

Fresh-nil : (ns : List StateNode) → Fresh [] ns
unfolding find_state
Fresh-nil [] = tt
Fresh-nil (n ∷ ns) = (refl, Fresh-nil ns)

some-or_empty : (o : Option Str) → is_some o ≡ true → some (or_empty o) ≡ o
some-or_empty none h = cc h
some-or_empty (some a) h = refl

set_init-known :
    (first : Str) (ns : List StateNode)
    → known first ns ≡ true
    → (set_init (first ∷ []) (tree [] ns)).0 ≡ tree first ns
unfolding set_init
set_init-known first ns k = rw k refl

-- A state that make_bdr writes in full: no trigger stands twice, no "<>" stands in the code, and the
-- code compiles.
pub record Writable (check_lua : Str → Str) (n : StateNode) : Type 0 where
  pub triggers : DistinctTriggers n.events
  pub enter_kept : Restorable check_lua (or_empty n.enter)
  pub exit_kept : Restorable check_lua (or_empty n.exit)
  pub action_kept : Restorable check_lua (or_empty n.action)

module _ (check_lua : Str → Str) where
  saved_nodes :
      (s ns : List StateNode)
      → All (GoodNode s) ns
      → All (Writable check_lua) ns
      → All (SavedNode check_lua) ns
  saved_nodes s [] g w = tt
  saved_nodes s (n ∷ ns) g w = (
    record {
      has_enter = g.0.has_enter;
      has_exit = g.0.has_exit;
      has_action = g.0.has_action;
      enter_kept = w.0.enter_kept;
      exit_kept = w.0.exit_kept;
      action_kept = w.0.action_kept;
    },
    saved_nodes s ns g.1 w.1,
  )

  events_written :
      (s : List StateNode) (es : List EventNode)
      → All (GoodEvent s) es
      → All (λ e. (as_written e ≡ e) × (known (or_empty e.next) s ≡ true)) es
  events_written s [] g = tt
  events_written s (e ∷ es) ((has, target, is_target, k), g) = (
    (written e has is_target, ap (λ o. known (or_empty o) s) is_target ∙ k),
    events_written s es g,
  )
    where
      written :
          (e : EventNode) {target : Str}
          → is_some e.trigger ≡ true
          → e.next ≡ some target
          → as_written e ≡ e
      written e has is_target = cc (some-or_empty e.trigger has, is_target)

  transitions :
      (s ns : List StateNode)
      → All (GoodNode s) ns
      → All (Writable check_lua) ns
      → All (Transitions (λ a. known a s)) ns
  transitions s [] g w = tt
  transitions s (n ∷ ns) g w = (
    (g.0.good_next, events_written s n.events g.0.good_events, w.0.triggers),
    transitions s ns g.1 w.1,
  )

  run-init_command :
      (first : Str) (ns : List StateNode)
      → (is_empty first || known first ns) ≡ true
      → edit_commands check_lua (init_command first) (tree [] ns) ≡ tree first ns
  unfolding edit_commands edit_command
  run-init_command [] ns k = refl
  run-init_command (c ∷ first) ns k = set_init-known (c ∷ first) ns k

  -- The commands that make_bdr writes for a well-formed tree, run on the cleared tree, give the tree
  -- again, if each of its states is written in full.
  pub restore-bdr_commands :
      (t old : SmTree)
      → WellFormed t
      → All (Writable check_lua) t.states
      → edit_commands check_lua (bdr_commands t) (clear old) ≡ t
  unfolding clear find_state
  restore-bdr_commands t old w full =
      let states = each state_commands t.states in
      let moves = each trans_commands t.states in
      let init = init_command t.init_state in
      edit_commands-append check_lua states (moves ++ init) (tree [] [])
      ∙ ap (edit_commands check_lua (moves ++ init)) (
          run-each_state check_lua t.states [] [] (saved_nodes t.states t.states w.nodes full)
            (Fresh-nil t.states) w.distinct)
      ∙ edit_commands-append check_lua moves init (tree [] (strip_all t.states))
      ∙ ap (edit_commands check_lua init) (
          run-each_trans check_lua [] t.states [] (Fresh-nil t.states) w.distinct
            (transitions t.states t.states w.nodes full))
      ∙ run-init_command t.init_state t.states w.good_init
