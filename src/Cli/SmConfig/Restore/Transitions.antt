-- ===== src/Cli/SmConfig/Restore/Transitions.antt =====
-- src/cli/sm_config.cpp: the commands of the transitions of one state, run on a tree.
use auto_drop.Prelude.{
  ◌≡◌, refl, sym, ◌∙◌, ap, Bool, true, false, ◌||◌, List, [], ◌∷◌, ◌++◌, map, Str, str_beq,
  str_beq_iff, All, append_assoc, append-nil, arith, if◌then◌else◌,
}
use auto_drop.Sm.{EventNode, StateNode, find_state}
use auto_drop.Cli.SmConfig.{
  SmTree, known, set_next, has_trigger, event_node, add_event, is_empty, or_empty, next,
  edit_command, edit_commands,
}
use auto_drop.Cli.SmConfig.Restore.{
  event_command, tree, known-append, change_node-behind, find_state-behind,
}

-- A name of the states before, of the node, or of the states after.
abbrev pub stands : Str → List StateNode → StateNode → List StateNode → Bool
stands a done m rest = known a done || (str_beq m.name a || known a rest)

known-stands :
    (a : Str) (done : List StateNode) (m : StateNode) (rest : List StateNode)
    → known a (done ++ m ∷ rest) ≡ stands a done m rest
unfolding find_state
known-stands a done m rest = ground (arith, known-append a done (m ∷ rest))

known_self :
    (done : List StateNode) (m : StateNode) (rest : List StateNode)
    → known m.name (done ++ m ∷ rest) ≡ true
known_self done m rest = ground (arith, known-stands m.name done m rest, str_beq_iff m.name m.name)

-- No trigger stands twice.
abbrev pub DistinctTriggers : List EventNode → Type 0
DistinctTriggers [] = Unit {0}
DistinctTriggers (e ∷ es) = (has_trigger (or_empty e.trigger) es ≡ false) × DistinctTriggers es

abbrev pub FreshTriggers : List EventNode → List EventNode → Type 0
FreshTriggers acc es = All (λ (e : EventNode). has_trigger (or_empty e.trigger) acc ≡ false) es

has_trigger-append :
    (t : Str) (es fs : List EventNode)
    → has_trigger t (es ++ fs) ≡ (has_trigger t es || has_trigger t fs)
unfolding has_trigger
has_trigger-append t [] fs = refl
has_trigger-append t (e ∷ es) fs = ground (arith, has_trigger-append t es fs)

FreshTriggers-snoc :
    (e : EventNode) (acc es : List EventNode)
    → has_trigger (or_empty e.trigger) es ≡ false
    → FreshTriggers acc es
    → FreshTriggers (acc ++ e ∷ []) es
unfolding has_trigger
FreshTriggers-snoc e acc [] d f = tt
FreshTriggers-snoc e acc (g ∷ es) d f = (
  ground (
    arith,
    has_trigger-append (or_empty g.trigger) acc (e ∷ []),
    str_beq_iff (or_empty e.trigger) (or_empty g.trigger),
    str_beq_iff (or_empty g.trigger) (or_empty e.trigger),
    f.0,
  ),
  FreshTriggers-snoc e acc es (ground (arith, d)) f.1,
)

-- What add_event would write.
abbrev pub as_written : EventNode → EventNode
as_written e = event_node (or_empty e.trigger) (or_empty e.next)

module _ (check_lua : Str → Str) (first : Str) (done rest : List StateNode) where
  abbrev pub t : StateNode → SmTree
  t m = tree first (done ++ m ∷ rest)

  run-next :
      (target : Str) (m : StateNode)
      → known m.name done ≡ false
      → stands target done m rest ≡ true
      → (edit_command check_lua (next (m.name ∷ target ∷ [])) (t m)).0
        ≡ t (record m { next = target })
  unfolding edit_command set_next
  run-next target m new known_target =
      rw (known_self done m rest, known-stands target done m rest ∙ known_target)
        (ap (tree first)
          (change_node-behind m.name (λ n. record n { next = target }) done m rest new refl))

  pub run-set_next :
      (target : Str) (m : StateNode)
      → known m.name done ≡ false
      → (is_empty target || stands target done m rest) ≡ true
      → record m { next = [] } ≡ m
      → edit_commands check_lua
          (if is_empty target then [] else next (m.name ∷ target ∷ []) ∷ [])
          (t m)
        ≡ t (record m { next = target })
  unfolding edit_commands
  run-set_next [] m new known_target old = ap t (sym old)
  run-set_next (c ∷ target) m new known_target old = run-next (c ∷ target) m new known_target

  run-add_event :
      (e : EventNode) (m : StateNode)
      → known m.name done ≡ false
      → as_written e ≡ e
      → stands (or_empty e.next) done m rest ≡ true
      → has_trigger (or_empty e.trigger) m.events ≡ false
      → (edit_command check_lua (event_command m.name e) (t m)).0
        ≡ t (record m { events = m.events ++ e ∷ [] })
  unfolding edit_command add_event
  run-add_event e m new written known_target new_trigger =
      rw
        (
          known_self done m rest,
          known-stands (or_empty e.next) done m rest ∙ known_target,
          find_state-behind m.name done m rest new refl,
          new_trigger,
        )
        (ap (tree first) (
          change_node-behind m.name (λ n. record n { events = n.events ++ as_written e ∷ [] }) done
            m rest new refl
          ∙ ap (λ g. done ++ record m { events = m.events ++ g ∷ [] } ∷ rest) written))

  pub run-add_events :
      (es : List EventNode) (m : StateNode)
      → known m.name done ≡ false
      → All (λ e. (as_written e ≡ e) × (stands (or_empty e.next) done m rest ≡ true)) es
      → FreshTriggers m.events es
      → DistinctTriggers es
      → edit_commands check_lua (map (event_command m.name) es) (t m)
        ≡ t (record m { events = m.events ++ es })
  unfolding edit_commands
  run-add_events [] m new good f d =
      ap (λ l. t (record m { events = l })) (sym (append-nil m.events))
  run-add_events (e ∷ es) m new good f d =
      let m' : StateNode = record m { events = m.events ++ e ∷ [] } in
      ap (edit_commands check_lua (map (event_command m.name) es))
        (run-add_event e m new good.0.0 good.0.1 f.0)
      ∙ run-add_events es m' new good.1 (FreshTriggers-snoc e m.events es d.0 f.1) d.1
      ∙ ap (λ l. t (record m { events = l })) (append_assoc m.events (e ∷ []) es)
