-- ===== src/Cli/SmConfig/Restore.antt =====
-- src/cli/sm_config.cpp: the commands that make_bdr writes, and trees whose states come one by one.
pub mod States
pub mod Transitions
pub mod Cleared
pub mod Written
use auto_drop.Prelude.{
  ◌≡◌, refl, sym, ◌∙◌, ap, inl, inr, Bool, true, false, ◌&&◌, ◌||◌, if◌then◌else◌, some, List, [],
  ◌∷◌, ◌++◌, map, Str, str_beq, str_beq_iff, codes, is_some, All, append_assoc, append-nil, arith,
  Bool-cases, Option, none,
}
use auto_drop.Sm.{EventNode, StateNode, find_state}
use auto_drop.Cli.SmConfig.{
  SmTree, known, change_node, make_new_state, create_state, set_next, set_init, has_trigger,
  events_of, event_node, add_event, ActionType, enter_action, exit_action, do_action, action_type,
  put_action, is_empty, or_empty, change_state_action, input_action, decode_newlines,
  encode_newlines, Command, create, next, init, event, action, edit_command, edit_commands,
}
use auto_drop.Cli.SmConfig.Nodes.{Distinct}
use auto_drop.Cli.SmConfig.Escape.{marks, decode-encode_iff}

abbrev pub action_command : Str → Str → Str → List Command
action_command name kind code =
    if is_empty code then [] else action (name ∷ kind ∷ encode_newlines code ∷ []) ∷ []

abbrev pub state_commands : StateNode → List Command
state_commands n =
    create (n.name ∷ [])
    ∷ (action_command n.name (codes "enter") (or_empty n.enter)
        ++ (action_command n.name (codes "exit") (or_empty n.exit)
            ++ action_command n.name (codes "do") (or_empty n.action)))

abbrev pub event_command : Str → EventNode → Command
event_command name e = event (name ∷ or_empty e.trigger ∷ or_empty e.next ∷ [])

abbrev pub trans_commands : StateNode → List Command
trans_commands n =
    (if is_empty n.next then [] else next (n.name ∷ n.next ∷ []) ∷ [])
    ++ map (event_command n.name) n.events

abbrev pub each {ℓ κ} : {A : Type ℓ} {B : Type κ} → (A → List B) → List A → List B
each f [] = []
each f (x ∷ xs) = f x ++ each f xs

abbrev pub init_command : Str → List Command
init_command s = if is_empty s then [] else init (s ∷ []) ∷ []

abbrev pub bdr_commands : SmTree → List Command
bdr_commands t =
    each state_commands t.states ++ (each trans_commands t.states ++ init_command t.init_state)

abbrev pub tree : Str → List StateNode → SmTree
tree first states = record { init_state = first; states = states }

pub known-append :
    (a : Str) (ns ms : List StateNode) → known a (ns ++ ms) ≡ (known a ns || known a ms)
unfolding find_state
known-append a [] ms = refl
known-append a (n ∷ ns) ms = ground (arith, known-append a ns ms)

-- The node of that name behind others.
pub change_node-behind :
    (name : Str) (f : StateNode → StateNode) (acc : List StateNode) (m : StateNode)
    (rest : List StateNode)
    → known name acc ≡ false
    → m.name ≡ name
    → change_node name f (acc ++ m ∷ rest) ≡ acc ++ f m ∷ rest
unfolding change_node find_state
change_node-behind name f [] m rest k e = ground (arith, str_beq_iff m.name name)
change_node-behind name f (n ∷ acc) m rest k e =
    ground (arith, change_node-behind name f acc m rest)

pub find_state-behind :
    (name : Str) (acc : List StateNode) (m : StateNode) (rest : List StateNode)
    → known name acc ≡ false
    → m.name ≡ name
    → find_state name (acc ++ m ∷ rest) ≡ some m
unfolding find_state
find_state-behind name [] m rest k e = ground (arith, str_beq_iff m.name name)
find_state-behind name (n ∷ acc) m rest k e = ground (arith, find_state-behind name acc m rest)

-- Names that do not stand before.
abbrev pub Fresh : List StateNode → List StateNode → Type 0
Fresh acc ns = All (λ n. known n.name acc ≡ false) ns

pub Fresh-snoc :
    (n : StateNode) (acc ns : List StateNode)
    → known n.name ns ≡ false
    → Fresh acc ns
    → Fresh (acc ++ n ∷ []) ns
unfolding find_state
Fresh-snoc n acc [] d f = tt
Fresh-snoc n acc (m ∷ ns) d f = (
  ground (
    arith,
    known-append m.name acc (n ∷ []),
    str_beq_iff n.name m.name,
    str_beq_iff m.name n.name,
    f.0,
  ),
  Fresh-snoc n acc ns (ground (arith, d)) f.1,
)
