-- ===== src/Cli/SmConfig/Nodes.antt =====
-- The trees that sm_config.cpp builds: names are distinct, the keys that the state machine needs
-- are there, and every target names a state. Lemmas on the changes of one node.
use auto_drop.Prelude.{
  ◌≡◌, refl, ◌∙◌, inl, inr, true, false, ◌||◌, some, List, [], ◌∷◌, ◌++◌, Str, str_beq, str_beq_iff,
  is_some, All, All-append, arith, Bool-cases,
}
use auto_drop.Sm.{EventNode, StateNode, find_state}
use auto_drop.Cli.SmConfig.{SmTree, known, change_node, make_new_state, is_empty}

-- An event has its two keys, and its target is a state.
abbrev pub GoodEvent : List StateNode → EventNode → Type 0
GoodEvent states e =
    (is_some e.trigger ≡ true) × (t : Str) × (e.next ≡ some t) × (known t states ≡ true)

pub record GoodNode (states : List StateNode) (n : StateNode) : Type 0 where
  pub has_enter : is_some n.enter ≡ true
  pub has_exit : is_some n.exit ≡ true
  pub has_action : is_some n.action ≡ true
  pub good_next : (is_empty n.next || known n.next states) ≡ true
  pub good_events : All (GoodEvent states) n.events

abbrev pub Distinct : List StateNode → Type 0
Distinct [] = Unit {0}
Distinct (n ∷ ns) = (known n.name ns ≡ false) × Distinct ns

pub record WellFormed (t : SmTree) : Type 0 where
  pub nodes : All (GoodNode t.states) t.states
  pub distinct : Distinct t.states
  pub good_init : (is_empty t.init_state || known t.init_state t.states) ≡ true

-- More states known, the same nodes good.
abbrev pub Grows : List StateNode → List StateNode → Type 0
Grows s s' = (a : Str) → known a s ≡ true → known a s' ≡ true

pub All-GoodEvent :
    (s s' : List StateNode) (es : List EventNode)
    → Grows s s'
    → All (GoodEvent s) es
    → All (GoodEvent s') es
All-GoodEvent s s' [] g h = tt
All-GoodEvent s s' (e ∷ es) g ((a, t, b, k), h) = ((a, t, b, g t k), All-GoodEvent s s' es g h)

GoodNode-Grows : (s s' : List StateNode) (n : StateNode) → Grows s s' → GoodNode s n → GoodNode s' n
GoodNode-Grows s s' n g h = record {
  has_enter = h.has_enter;
  has_exit = h.has_exit;
  has_action = h.has_action;
  good_next = ground (arith, g n.next, h.good_next);
  good_events = All-GoodEvent s s' n.events g h.good_events;
}

All-GoodNode : (s s' ns : List StateNode) → Grows s s' → All (GoodNode s) ns → All (GoodNode s') ns
All-GoodNode s s' [] g h = tt
All-GoodNode s s' (n ∷ ns) g h = (GoodNode-Grows s s' n g h.0, All-GoodNode s s' ns g h.1)

known-append : (a : Str) (ns ms : List StateNode) → known a (ns ++ ms) ≡ (known a ns || known a ms)
unfolding find_state
known-append a [] ms = refl
known-append a (n ∷ ns) ms = ground (arith, known-append a ns ms)

known-one : (a : Str) (n : StateNode) → known a (n ∷ []) ≡ str_beq n.name a
unfolding find_state
known-one a n = ground arith

-- A change of a node that keeps its name.
abbrev pub KeepsName : (StateNode → StateNode) → Type 0
KeepsName f = (n : StateNode) → (f n).name ≡ n.name

known-change_node :
    (a name : Str) (f : StateNode → StateNode) (ns : List StateNode)
    → KeepsName f
    → known a (change_node name f ns) ≡ known a ns
unfolding find_state change_node
known-change_node a name f [] k = refl
known-change_node a name f (n ∷ ns) k = ground (arith, k n, known-change_node a name f ns k)

Distinct-change_node :
    (name : Str) (f : StateNode → StateNode) (ns : List StateNode)
    → KeepsName f
    → Distinct ns
    → Distinct (change_node name f ns)
unfolding change_node
Distinct-change_node name f [] k d = tt
Distinct-change_node name f (n ∷ ns) k d =
    ground (arith, k n, known-change_node n.name name f ns k, Distinct-change_node name f ns k d.1)

Distinct-append :
    (ns : List StateNode) (m : StateNode)
    → Distinct ns
    → known m.name ns ≡ false
    → Distinct (ns ++ m ∷ [])
unfolding find_state
Distinct-append [] m d h = (refl, tt)
Distinct-append (n ∷ ns) m d h = ground (
  arith,
  known-append n.name ns (m ∷ []),
  known-one n.name m,
  str_beq_iff n.name m.name,
  str_beq_iff m.name n.name,
  Distinct-append ns m d.1,
)

All-change_node :
    (s : List StateNode) (name : Str) (f : StateNode → StateNode) (ns : List StateNode)
    → ((n : StateNode) → GoodNode s n → GoodNode s (f n))
    → All (GoodNode s) ns
    → All (GoodNode s) (change_node name f ns)
unfolding change_node
All-change_node s name f [] g h = tt
All-change_node s name f (n ∷ ns) g h = elim (Bool-cases (str_beq n.name name)) [
  | inl e ↦ rw e (g n h.0, h.1)
  | inr e ↦ rw e (h.0, All-change_node s name f ns g h.1)
]

-- A change of one node that keeps names and keeps nodes good keeps the tree well formed.
pub change_node-WellFormed :
    (name : Str) (f : StateNode → StateNode) (t : SmTree)
    → KeepsName f
    → ((n : StateNode) → GoodNode t.states n → GoodNode t.states (f n))
    → WellFormed t
    → WellFormed (record t { states = change_node name f t.states })
change_node-WellFormed name f t k g w =
    let grows : Grows t.states (change_node name f t.states) =
      λ a h. known-change_node a name f t.states k ∙ h in
    record {
      nodes =
          All-GoodNode t.states (change_node name f t.states) (change_node name f t.states) grows
            (All-change_node t.states name f t.states g w.nodes);
      distinct = Distinct-change_node name f t.states k w.distinct;
      good_init = rw (known-change_node t.init_state name f t.states k) w.good_init;
    }

pub append-WellFormed :
    (name : Str) (t : SmTree)
    → known name t.states ≡ false
    → WellFormed t
    → WellFormed (record t { states = t.states ++ make_new_state name ∷ [] })
unfolding make_new_state
append-WellFormed name t new w =
    let m = make_new_state name in
    let grows : Grows t.states (t.states ++ m ∷ []) =
      λ a h. known-append a t.states (m ∷ []) ∙ rw h in
    let good : GoodNode (t.states ++ m ∷ []) m = record {
      has_enter = refl;
      has_exit = refl;
      has_action = refl;
      good_next = refl;
      good_events = tt;
    } in
    record {
      nodes =
          All-append (GoodNode (t.states ++ m ∷ [])) t.states (m ∷ [])
            (All-GoodNode t.states (t.states ++ m ∷ []) t.states grows w.nodes) (good, tt);
      distinct = Distinct-append t.states m w.distinct new;
      good_init = ground (arith, grows t.init_state, w.good_init);
    }
