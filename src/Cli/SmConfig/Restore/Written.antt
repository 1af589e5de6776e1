-- ===== src/Cli/SmConfig/Restore/Written.antt =====
-- src/cli/sm_config.cpp: the commands that make_bdr writes, run with the file between them.
use auto_drop.Prelude.{
  ◌≡◌, sym, ◌∙◌, ap, inl, inr, Option, none, some, List, [], ◌∷◌, map, Str, codes, All, All-append,
  Bool-cases,
}
use auto_drop.Sm.{EventNode, StateNode}
use auto_drop.Cli.SmConfig.{SmTree, is_empty, or_empty, clear, run_commands}
use auto_drop.Cli.SmConfig.Nodes.{WellFormed}
use auto_drop.Cli.SmConfig.Escape.{marks, decode-encode_iff}
use auto_drop.Cli.SmConfig.Restore.{
  action_command, state_commands, event_command, trans_commands, each, init_command, bdr_commands,
}
use auto_drop.Cli.SmConfig.Restore.Cleared.{Writable, restore-bdr_commands}
use auto_drop.Cli.SmConfig.Stored.Kept.{KeptCode, KeptNode, KeptCommand, run_commands-kept}

module _ (check_lua stored : Str → Str) where
  or_empty-kept :
      (o : Option Str) → stored [] ≡ [] → KeptCode stored o → stored (or_empty o) ≡ or_empty o
  or_empty-kept none e k = e
  or_empty-kept (some code) e k = k

  action_command-kept :
      (name kind code : Str)
      → marks code ≡ 0
      → stored code ≡ code
      → All (KeptCommand stored) (action_command name kind code)
  action_command-kept name kind code r c = elim (Bool-cases (is_empty code)) [
    | inl nothing ↦ rw nothing tt
    | inr some_code ↦
        let same = (decode-encode_iff code).1 r in rw some_code (ap stored same ∙ c ∙ sym same, tt)
  ]

  state_commands-kept :
      (ns : List StateNode)
      → All (Writable check_lua) ns
      → stored [] ≡ []
      → All (KeptNode stored) ns
      → All (KeptCommand stored) (each state_commands ns)
  state_commands-kept [] w e k = tt
  state_commands-kept (n ∷ ns) (f, w) e ((en, ex, ac), k) = (
    tt,
    All-append (KeptCommand stored) _ _
        (All-append (KeptCommand stored) (action_command n.name (codes "enter") (or_empty n.enter))
          _
          (action_command-kept n.name (codes "enter") (or_empty n.enter) f.enter_kept.0
            (or_empty-kept n.enter e en))
          (All-append (KeptCommand stored) (action_command n.name (codes "exit") (or_empty n.exit))
            _
            (action_command-kept n.name (codes "exit") (or_empty n.exit) f.exit_kept.0
              (or_empty-kept n.exit e ex))
            (action_command-kept n.name (codes "do") (or_empty n.action) f.action_kept.0
              (or_empty-kept n.action e ac))))
        (state_commands-kept ns w e k),
  )

  events-kept :
      (name : Str) (es : List EventNode) → All (KeptCommand stored) (map (event_command name) es)
  events-kept name [] = tt
  events-kept name (e ∷ es) = (tt, events-kept name es)

  trans_commands-kept : (ns : List StateNode) → All (KeptCommand stored) (each trans_commands ns)
  trans_commands-kept [] = tt
  trans_commands-kept (n ∷ ns) =
      All-append (KeptCommand stored) (trans_commands n) _
        (elim (Bool-cases (is_empty n.next)) [
          | inl last ↦ rw last (events-kept n.name n.events)
          | inr more ↦ rw more (tt, events-kept n.name n.events)
        ])
        (trans_commands-kept ns)

  init_command-kept : (first : Str) → All (KeptCommand stored) (init_command first)
  init_command-kept [] = tt
  init_command-kept (c ∷ first) = (tt, tt)

  -- The commands that make_bdr writes for a well-formed tree, run on the cleared file, give the tree
  -- again, if each of its states is written in full and each code comes back from the file.
  pub run_bdr_commands :
      (t old : SmTree)
      → WellFormed t
      → All (Writable check_lua) t.states
      → stored [] ≡ []
      → All (KeptNode stored) t.states
      → run_commands check_lua stored (bdr_commands t) (clear old) ≡ t
  unfolding clear
  run_bdr_commands t old w full empty_kept kept =
      run_commands-kept stored check_lua empty_kept (bdr_commands t) (clear old)
        (All-append (KeptCommand stored) (each state_commands t.states) _
          (state_commands-kept t.states full empty_kept kept)
          (All-append (KeptCommand stored) (each trans_commands t.states) _
            (trans_commands-kept t.states) (init_command-kept t.init_state)))
        tt
      ∙ restore-bdr_commands check_lua t old w full
