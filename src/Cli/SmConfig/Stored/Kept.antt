-- ===== src/Cli/SmConfig/Stored/Kept.antt =====
-- src/cli/sm_config.cpp on a file from which every code comes back as it was written.
use auto_drop.Prelude.{
  ◌≡◌, refl, ◌∙◌, ap, inl, inr, ◌&&◌, Option, none, some, List, [], ◌∷◌, map, Str, str_beq, All,
  All-append, Bool-cases, Option-cases,
}
use auto_drop.Sm.{StateNode, find_state}
use auto_drop.Cli.SmConfig.{
  SmTree, Reply, bad_params, no_state, no_states, event_exists, state_exists, bad_action_type,
  lua_error, done, has_param, param, known, change_node, make_new_state, create_state, set_next,
  set_init, has_trigger, events_of, add_event, action_type, ActionType, enter_action, exit_action,
  do_action, put_action, is_empty, decode_newlines, change_state_action, input_action, edit_action,
  clear, stored_code, reread_node, reread, write_config_file, Command, create, next, init, event,
  action, edit, clear_all, edit_command, edit_commands, run_command, run_commands,
}

module _ (stored : Str → Str) where
  -- The code comes back from the file as it was written.
  abbrev pub KeptCode : Option Str → Type 0
  KeptCode none = Unit {0}
  KeptCode (some code) = stored code ≡ code

  abbrev pub KeptNode : StateNode → Type 0
  KeptNode n = KeptCode n.enter × KeptCode n.exit × KeptCode n.action

  stored_code-kept : (o : Option Str) → KeptCode o → stored_code stored o ≡ o
  stored_code-kept none h = refl
  stored_code-kept (some code) h = ap some h

  reread-nodes : (ns : List StateNode) → All KeptNode ns → map (reread_node stored) ns ≡ ns
  reread-nodes [] h = refl
  reread-nodes (n ∷ ns) ((e, x, a), h) = λ i.
      record n {
        enter = stored_code-kept n.enter e i;
        exit = stored_code-kept n.exit x i;
        action = stored_code-kept n.action a i;
      }
      ∷ reread-nodes ns h i

  pub reread-kept : (t : SmTree) → All KeptNode t.states → reread stored t ≡ t
  unfolding reread
  reread-kept t h = λ i. record t { states = reread-nodes t.states h i }

  write-kept : (r : Reply) → All KeptNode r.0.states → (write_config_file stored r).0 ≡ r.0
  unfolding write_config_file
  write-kept (t, done) h = reread-kept t h
  write-kept (t, bad_params) h = refl
  write-kept (t, no_state s) h = refl
  write-kept (t, no_states s s') h = refl
  write-kept (t, event_exists e) h = refl
  write-kept (t, state_exists s) h = refl
  write-kept (t, bad_action_type a) h = refl
  write-kept (t, lua_error e) h = refl

  change_node-kept :
      (name : Str) (f : StateNode → StateNode) (ns : List StateNode)
      → ((n : StateNode) → KeptNode n → KeptNode (f n))
      → All KeptNode ns
      → All KeptNode (change_node name f ns)
  unfolding change_node
  change_node-kept name f [] g h = tt
  change_node-kept name f (n ∷ ns) g (k, h) = elim (Bool-cases (str_beq n.name name)) [
    | inl here ↦ rw here (g n k, h)
    | inr there ↦ rw there (k, change_node-kept name f ns g h)
  ]

  put_action-kept :
      (a : ActionType) (code : Str) (n : StateNode)
      → stored code ≡ code
      → KeptNode n
      → KeptNode (put_action a code n)
  put_action-kept enter_action code n c (e, x, d) = (c, x, d)
  put_action-kept exit_action code n c (e, x, d) = (e, c, d)
  put_action-kept do_action code n c (e, x, d) = (e, x, c)

  -- The code that the command writes comes back as it was.
  abbrev pub KeptCommand : Command → Type 0
  KeptCommand (create ps) = Unit {0}
  KeptCommand (next ps) = Unit {0}
  KeptCommand (init ps) = Unit {0}
  KeptCommand (event ps) = Unit {0}
  KeptCommand (action ps) = stored (decode_newlines (param ps 2)) ≡ decode_newlines (param ps 2)
  KeptCommand (edit ps edited) = stored edited ≡ edited
  KeptCommand clear_all = Unit {0}

  module _ (check_lua : Str → Str) (empty_kept : stored [] ≡ []) where
    create_state-kept :
        (ps : List Str) (t : SmTree)
        → All KeptNode t.states
        → All KeptNode (create_state ps t).0.states
    unfolding create_state make_new_state
    create_state-kept ps t h = elim (Bool-cases (has_param ps 0)) [
      | inr short ↦ rw short h
      | inl enough ↦ elim (Bool-cases (known (param ps 0) t.states)) [
        | inl there ↦ rw (enough, there) h
        | inr new ↦
            rw (enough, new)
              (All-append KeptNode t.states _ h ((empty_kept, empty_kept, empty_kept), tt))
      ]
    ]

    set_next-kept :
        (ps : List Str) (t : SmTree) → All KeptNode t.states → All KeptNode (set_next ps t).0.states
    unfolding set_next
    set_next-kept ps t h = elim (Bool-cases (has_param ps 0 && has_param ps 1)) [
      | inr short ↦ rw short h
      | inl enough ↦
          elim (Bool-cases (known (param ps 0) t.states && known (param ps 1) t.states)) [
            | inr missing ↦ rw (enough, missing) h
            | inl both ↦ rw (enough, both) (change_node-kept (param ps 0) _ t.states (λ n k. k) h)
          ]
    ]

    set_init-kept :
        (ps : List Str) (t : SmTree) → All KeptNode t.states → All KeptNode (set_init ps t).0.states
    unfolding set_init
    set_init-kept ps t h = elim (Bool-cases (has_param ps 0)) [
      | inr short ↦ rw short h
      | inl enough ↦ elim (Bool-cases (known (param ps 0) t.states)) [
        | inl there ↦ rw (enough, there) h
        | inr missing ↦ rw (enough, missing) h
      ]
    ]

    add_event-kept :
        (ps : List Str) (t : SmTree)
        → All KeptNode t.states
        → All KeptNode (add_event ps t).0.states
    unfolding add_event
    add_event-kept ps t h = elim (Bool-cases (has_param ps 0 && has_param ps 1 && has_param ps 2)) [
      | inr short ↦ rw short h
      | inl enough ↦
          elim (Bool-cases (known (param ps 0) t.states && known (param ps 2) t.states)) [
            | inr missing ↦ rw (enough, missing) h
            | inl both ↦
                elim (Bool-cases
                  (has_trigger (param ps 1) (events_of (find_state (param ps 0) t.states)))) [
                    | inl there ↦ rw (enough, both, there) h
                    | inr new ↦
                        rw (enough, both, new)
                          (change_node-kept (param ps 0) _ t.states (λ n k. k) h)
                  ]
          ]
    ]

    change_state_action-kept :
        (name kind code : Str) (t : SmTree)
        → stored code ≡ code
        → All KeptNode t.states
        → All KeptNode (change_state_action check_lua name kind code t).0.states
    unfolding change_state_action
    change_state_action-kept name kind code t c h = elim (Bool-cases (known name t.states)) [
      | inr miss ↦ rw miss h
      | inl hit ↦ elim (Option-cases (action_type kind)) [
        | inl none_of ↦ rw (hit, none_of) h
        | inr (a, is_a) ↦ elim (Bool-cases (is_empty (check_lua code))) [
          | inr bad ↦ rw (hit, is_a, bad) h
          | inl good ↦
              rw (hit, is_a, good)
                (change_node-kept name (put_action a code) t.states
                  (λ n k. put_action-kept a code n c k) h)
        ]
      ]
    ]

    edit_command-kept :
        (c : Command) (t : SmTree)
        → KeptCommand c
        → All KeptNode t.states
        → All KeptNode (edit_command check_lua c t).0.states
    unfolding edit_command input_action edit_action clear
    edit_command-kept (create ps) t c h = create_state-kept ps t h
    edit_command-kept (next ps) t c h = set_next-kept ps t h
    edit_command-kept (init ps) t c h = set_init-kept ps t h
    edit_command-kept (event ps) t c h = add_event-kept ps t h
    edit_command-kept (action ps) t c h =
        elim (Bool-cases (has_param ps 0 && has_param ps 1 && has_param ps 2)) [
          | inr short ↦ rw short h
          | inl enough ↦ rw enough (
              change_state_action-kept (param ps 0) (param ps 1) (decode_newlines (param ps 2)) t c
                h)
        ]
    edit_command-kept (edit ps edited) t c h =
        elim (Bool-cases (has_param ps 0 && has_param ps 1)) [
          | inr short ↦ rw short h
          | inl enough ↦ rw enough (change_state_action-kept (param ps 0) (param ps 1) edited t c h)
        ]
    edit_command-kept clear_all t c h = tt

    -- Where every code comes back as it was, the file changes nothing.
    pub run_commands-kept :
        (cs : List Command) (t : SmTree)
        → All KeptCommand cs
        → All KeptNode t.states
        → run_commands check_lua stored cs t ≡ edit_commands check_lua cs t
    unfolding run_commands edit_commands run_command
    run_commands-kept [] t c h = refl
    run_commands-kept (c ∷ cs) t (k, ks) h =
        let r = edit_command check_lua c t in
        let h' = edit_command-kept c t k h in
        ap (run_commands check_lua stored cs) (write-kept r h') ∙ run_commands-kept cs r.0 ks h'
