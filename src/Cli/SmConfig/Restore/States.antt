-- ===== src/Cli/SmConfig/Restore/States.antt =====
-- src/cli/sm_config.cpp: the commands that make_bdr writes for the states and their code, run on a tree.
use auto_drop.Prelude.{
  ◌≡◌, refl, sym, ◌∙◌, ap, true, false, ◌||◌, some, List, [], ◌∷◌, ◌++◌, Str, str_beq, codes,
  is_some, All, append_assoc, append-nil, Option, none,
}
use auto_drop.Sm.{StateNode}
use auto_drop.Cli.SmConfig.{
  SmTree, known, make_new_state, create_state, ActionType, enter_action, exit_action, do_action,
  action_type, put_action, is_empty, or_empty, change_state_action, input_action, Command,
  edit_command, edit_commands,
}
use auto_drop.Cli.SmConfig.Nodes.{Distinct}
use auto_drop.Cli.SmConfig.Escape.{marks, decode-encode_iff}
use auto_drop.Cli.SmConfig.Restore.{
  action_command, state_commands, each, tree, change_node-behind, find_state-behind, Fresh,
  Fresh-snoc,
}

-- A state without its transitions.
abbrev pub strip : StateNode → StateNode
strip n = record n { next = []; events = [] }

abbrev pub strip_all : List StateNode → List StateNode
strip_all [] = []
strip_all (n ∷ ns) = strip n ∷ strip_all ns

module _ (check_lua : Str → Str) where
  pub edit_commands-append :
      (cs ds : List Command) (t : SmTree)
      → edit_commands check_lua (cs ++ ds) t
        ≡ edit_commands check_lua ds (edit_commands check_lua cs t)
  unfolding edit_commands
  edit_commands-append [] ds t = refl
  edit_commands-append (c ∷ cs) ds t = edit_commands-append cs ds (edit_command check_lua c t).0

  -- Code that is read back: it compiles, and "<>" does not stand in it.
  abbrev pub Restorable : Str → Type 0
  Restorable code = (marks code ≡ 0) × ((is_empty code || is_empty (check_lua code)) ≡ true)

  change_state_action-behind :
      (name kind code : Str) (a : ActionType) (first : Str) (acc : List StateNode) (m : StateNode)
      → action_type kind ≡ some a
      → known name acc ≡ false
      → m.name ≡ name
      → is_empty (check_lua code) ≡ true
      → (change_state_action check_lua name kind code (tree first (acc ++ m ∷ []))).0
        ≡ tree first (acc ++ put_action a code m ∷ [])
  unfolding change_state_action
  change_state_action-behind name kind code a first acc m is_a new same compiles =
      let found = find_state-behind name acc m [] new same in
      rw (found, is_a, compiles)
        (ap (tree first) (change_node-behind name (put_action a code) acc m [] new same))

  run-action_command :
      (name kind code : Str) (a : ActionType) (first : Str) (acc : List StateNode) (m : StateNode)
      → action_type kind ≡ some a
      → known name acc ≡ false
      → m.name ≡ name
      → put_action a [] m ≡ m
      → Restorable code
      → edit_commands check_lua (action_command name kind code) (tree first (acc ++ m ∷ []))
        ≡ tree first (acc ++ put_action a code m ∷ [])
  unfolding edit_commands edit_command input_action
  run-action_command name kind [] a first acc m is_a new same old r =
      ap (λ n. tree first (acc ++ n ∷ [])) (sym old)
  run-action_command name kind (c ∷ code) a first acc m is_a new same old (no_marks, compiles) =
      ap (λ s. (change_state_action check_lua name kind s (tree first (acc ++ m ∷ []))).0)
        ((decode-encode_iff (c ∷ code)).1 no_marks)
      ∙ change_state_action-behind name kind (c ∷ code) a first acc m is_a new same compiles

  -- The state has its keys, and its code is read back.
  pub record SavedNode (n : StateNode) : Type 0 where
    pub has_enter : is_some n.enter ≡ true
    pub has_exit : is_some n.exit ≡ true
    pub has_action : is_some n.action ≡ true
    pub enter_kept : Restorable (or_empty n.enter)
    pub exit_kept : Restorable (or_empty n.exit)
    pub action_kept : Restorable (or_empty n.action)

  run-create :
      (name first : Str) (acc : List StateNode)
      → known name acc ≡ false
      → (create_state (name ∷ []) (tree first acc)).0 ≡ tree first (acc ++ make_new_state name ∷ [])
  unfolding create_state
  run-create name first acc new = rw new refl

  abbrev with_code : Str → Str → Str → Str → StateNode
  with_code name e x d = record {
    name = name;
    enter = some e;
    exit = some x;
    action = some d;
    next = [];
    events = [];
  }

  run-state_commands :
      (n : StateNode) (first : Str) (acc : List StateNode)
      → SavedNode n
      → known n.name acc ≡ false
      → edit_commands check_lua (state_commands n) (tree first acc)
        ≡ tree first (acc ++ strip n ∷ [])
  unfolding edit_commands edit_command make_new_state action_type str_beq
  run-state_commands n first acc s new =
      let name = n.name in
      let e = or_empty n.enter in
      let x = or_empty n.exit in
      let d = or_empty n.action in
      let enter = action_command name (codes "enter") e in
      let exit = action_command name (codes "exit") x in
      let act = action_command name (codes "do") d in
      let t : StateNode → SmTree = λ m. tree first (acc ++ m ∷ []) in
      ap (edit_commands check_lua (enter ++ (exit ++ act))) (run-create name first acc new)
      ∙ edit_commands-append enter (exit ++ act) (t (with_code name [] [] []))
      ∙ ap (edit_commands check_lua (exit ++ act)) (
          run-action_command name (codes "enter") e enter_action first acc (with_code name [] [] [])
            refl new refl refl s.enter_kept)
      ∙ edit_commands-append exit act (t (with_code name e [] []))
      ∙ ap (edit_commands check_lua act) (
          run-action_command name (codes "exit") x exit_action first acc (with_code name e [] [])
            refl new refl refl s.exit_kept)
      ∙ run-action_command name (codes "do") d do_action first acc (with_code name e x []) refl new
          refl refl s.action_kept
      ∙ ap t (same_node n s)
    where
      some-or_empty : (o : Option Str) → is_some o ≡ true → some (or_empty o) ≡ o
      some-or_empty none h = cc h
      some-or_empty (some a) h = refl

      same_node :
          (n : StateNode)
          → SavedNode n
          → with_code n.name (or_empty n.enter) (or_empty n.exit) (or_empty n.action) ≡ strip n
      same_node n s = cc (
        some-or_empty n.enter s.has_enter,
        some-or_empty n.exit s.has_exit,
        some-or_empty n.action s.has_action,
      )

  pub run-each_state :
      (ns : List StateNode) (first : Str) (acc : List StateNode)
      → All SavedNode ns
      → Fresh acc ns
      → Distinct ns
      → edit_commands check_lua (each state_commands ns) (tree first acc)
        ≡ tree first (acc ++ strip_all ns)
  unfolding edit_commands
  run-each_state [] first acc s f d = ap (tree first) (sym (append-nil acc))
  run-each_state (n ∷ ns) first acc s f d =
      edit_commands-append (state_commands n) (each state_commands ns) (tree first acc)
      ∙ ap (edit_commands check_lua (each state_commands ns))
          (run-state_commands n first acc s.0 f.0)
      ∙ run-each_state ns first (acc ++ strip n ∷ []) s.1 (Fresh-snoc (strip n) acc ns d.0 f.1) d.1
      ∙ ap (tree first) (append_assoc acc (strip n ∷ []) (strip_all ns))
