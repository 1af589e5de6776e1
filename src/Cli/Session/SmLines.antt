-- ===== src/Cli/Session/SmLines.antt =====
-- The lines that make_bdr of src/cli/sm_config.cpp writes, as a session reads them.
use auto_drop.Prelude.{
  ◌≡◌, refl, sym, ◌∙◌, ap, true, false, ◌||◌, some, List, [], ◌∷◌, ◌++◌, map, Str, codes, str_eq,
  All, append_assoc, if◌then◌else◌,
}
use auto_drop.Sm.{EventNode, StateNode}
use auto_drop.Cli.SmConfig.{
  SmTree, Command, create, next, init, event, action, edit, clear_all, is_empty, or_empty,
  encode_newlines, replace_newlines_and_quotes,
}
use auto_drop.Cli.SmConfig.Bdr.{
  action_line, state_lines, event_line, trans_lines, all_state_lines, all_trans_lines, init_line,
  make_bdr_lines,
}
use auto_drop.Cli.SmConfig.Restore.{
  action_command, state_commands, event_command, trans_commands, each, init_command, bdr_commands,
}
use auto_drop.Cli.Words.{plain}
use auto_drop.Cli.Words.Lines.{OneLine, OneLine-append, plain-OneLine}
use auto_drop.Cli.Words.Quote.{safe_from, body-replace, replace-OneLine, encode-cons}
use auto_drop.Cli.Session.{Library, Documented}

-- A state whose names are words, and whose code can stand between quotes.
pub record PlainNode (n : StateNode) : Type 0 where
  pub plain_name : plain n.name ≡ true
  pub plain_next : (is_empty n.next || plain n.next) ≡ true
  pub plain_events :
      All (λ e. (plain (or_empty e.trigger) ≡ true) × (plain (or_empty e.next) ≡ true)) n.events
  pub safe_enter : safe_from false (or_empty n.enter) ≡ true
  pub safe_exit : safe_from false (or_empty n.exit) ≡ true
  pub safe_action : safe_from false (or_empty n.action) ≡ true

module _ (lib : Library) (doc : Documented lib) where
  -- The line has these words, and is one line.
  abbrev pub HasWords : Str → List Str → Type 0
  HasWords l ws = (lib.split l ≡ ws) × OneLine l

  -- The line says the command.
  abbrev pub Says : Str → Command → Type 0
  Says l (create ps) = HasWords l (codes "create_state" ∷ ps)
  Says l (next ps) = HasWords l (codes "set_next" ∷ ps)
  Says l (init ps) = HasWords l (codes "set_init" ∷ ps)
  Says l (event ps) = HasWords l (codes "add_event" ∷ ps)
  Says l (action ps) = HasWords l (codes "input_action" ∷ ps)
  Says l (edit ps s) = ⊥
  Says l clear_all = HasWords l (codes "clear" ∷ [])

  Says-OneLine : (l : Str) (c : Command) → Says l c → OneLine l
  Says-OneLine l (create ps) h = h.1
  Says-OneLine l (next ps) h = h.1
  Says-OneLine l (init ps) h = h.1
  Says-OneLine l (event ps) h = h.1
  Says-OneLine l (action ps) h = h.1
  Says-OneLine l (edit ps s) h = absurd h
  Says-OneLine l clear_all h = h.1

  abbrev pub AllSay : List Str → List Command → Type 0
  AllSay [] [] = Unit {0}
  AllSay [] (c ∷ cs) = ⊥
  AllSay (l ∷ ls) [] = ⊥
  AllSay (l ∷ ls) (c ∷ cs) = Says l c × AllSay ls cs

  AllSay-append :
      (ls ms : List Str) (cs ds : List Command)
      → AllSay ls cs
      → AllSay ms ds
      → AllSay (ls ++ ms) (cs ++ ds)
  AllSay-append [] ms [] ds h k = k
  AllSay-append [] ms (c ∷ cs) ds h k = absurd h
  AllSay-append (l ∷ ls) ms [] ds h k = absurd h
  AllSay-append (l ∷ ls) ms (c ∷ cs) ds h k = (h.0, AllSay-append ls ms cs ds h.1 k)

  pub AllSay-OneLine : (ls : List Str) (cs : List Command) → AllSay ls cs → All OneLine ls
  AllSay-OneLine [] cs h = tt
  AllSay-OneLine (l ∷ ls) [] h = absurd h
  AllSay-OneLine (l ∷ ls) (c ∷ cs) h = (Says-OneLine l c h.0, AllSay-OneLine ls cs h.1)

  -- A word and a last word; a word, and the rest.
  pub two_words :
      (w v : Str)
      → plain w ≡ true
      → plain v ≡ true
      → (lib.split (w ++ 32 ∷ v) ≡ w ∷ v ∷ []) × OneLine (w ++ 32 ∷ v)
  two_words w v p q = (
    doc.splits.word w v p ∙ ap (◌∷◌ w) (doc.splits.last_word v q),
    OneLine-append w (32 ∷ v) (plain-OneLine w p) (plain-OneLine v q),
  )

  code_words :
      (name kind code : Str)
      → plain name ≡ true
      → plain kind ≡ true
      → is_empty code ≡ false
      → safe_from false code ≡ true
      → let l =
          codes "input_action "
          ++ (name
              ++ ((32 ∷ (kind ++ 32 ∷ 34 ∷ []))
                  ++ (replace_newlines_and_quotes code ++ codes "\""))) in
        (lib.split l ≡ codes "input_action" ∷ name ∷ kind ∷ encode_newlines code ∷ []) × OneLine l
  code_words name kind [] p q some_code safe = cc some_code
  code_words name kind (c ∷ code) p q some_code safe =
      let rep = replace_newlines_and_quotes (c ∷ code) in
      let quoted = 34 ∷ (rep ++ 34 ∷ []) in
      let (d, t, is) = encode-cons c code in
      let regroup = append_assoc kind (32 ∷ 34 ∷ []) (rep ++ 34 ∷ []) in
      (
        doc.splits.word (codes "input_action") _ refl
            ∙ ap (◌∷◌ (codes "input_action")) (
                doc.splits.word name _ p
                ∙ ap (◌∷◌ name) (
                    ap lib.split regroup
                    ∙ doc.splits.word kind quoted q
                    ∙ ap (◌∷◌ kind) (
                        doc.splits.sentence 34 d rep t refl
                          (body-replace (c ∷ code) safe ∙ ap some is)
                        ∙ ap (λ s. s ∷ []) (sym is)))),
        OneLine-append name _ (plain-OneLine name p) (
            OneLine-append (kind ++ 32 ∷ 34 ∷ []) (rep ++ 34 ∷ [])
              (OneLine-append kind (32 ∷ 34 ∷ []) (plain-OneLine kind q) refl)
              (OneLine-append rep (34 ∷ []) (replace-OneLine (c ∷ code)) refl)),
      )

  action_line-Says :
      (name kind code : Str)
      → plain name ≡ true
      → plain kind ≡ true
      → safe_from false code ≡ true
      → AllSay (action_line name (32 ∷ (kind ++ 32 ∷ 34 ∷ [])) code) (action_command name kind code)
  unfolding action_line
  action_line-Says name kind [] p q safe = tt
  action_line-Says name kind (c ∷ code) p q safe =
      (code_words name kind (c ∷ code) p q refl safe, tt)

  state_lines-say : (n : StateNode) → PlainNode n → AllSay (state_lines n) (state_commands n)
  unfolding state_lines
  state_lines-say n h =
      let act = λ (kind code : Str) (q : plain kind ≡ true) (safe : safe_from false code ≡ true).
        action_line-Says n.name kind code h.plain_name q safe in
      (
        two_words (codes "create_state") n.name refl h.plain_name,
        AllSay-append (action_line n.name (codes " enter \"") (or_empty n.enter)) _
            (action_command n.name (codes "enter") (or_empty n.enter)) _
            (act (codes "enter") (or_empty n.enter) refl h.safe_enter)
            (AllSay-append (action_line n.name (codes " exit \"") (or_empty n.exit)) _
              (action_command n.name (codes "exit") (or_empty n.exit)) _
              (act (codes "exit") (or_empty n.exit) refl h.safe_exit)
              (act (codes "do") (or_empty n.action) refl h.safe_action)),
      )

  pub three_words :
      (u w v : Str)
      → plain u ≡ true
      → plain w ≡ true
      → plain v ≡ true
      → (lib.split (u ++ 32 ∷ (w ++ 32 ∷ v)) ≡ u ∷ w ∷ v ∷ []) × OneLine (u ++ 32 ∷ (w ++ 32 ∷ v))
  three_words u w v o p q =
      let (is, one) = two_words w v p q in
      (
        doc.splits.word u (w ++ 32 ∷ v) o ∙ ap (◌∷◌ u) is,
        OneLine-append u (32 ∷ (w ++ 32 ∷ v)) (plain-OneLine u o) one,
      )

  event_line-Says :
      (name : Str) (e : EventNode)
      → plain name ≡ true
      → plain (or_empty e.trigger) ≡ true
      → plain (or_empty e.next) ≡ true
      → Says (event_line name e) (event_command name e)
  unfolding event_line
  event_line-Says name e p q r =
      let t = or_empty e.trigger in
      let (is, one) = three_words name t (or_empty e.next) p q r in
      (doc.splits.word (codes "add_event") _ refl ∙ ap (◌∷◌ (codes "add_event")) is, one)

  events_say :
      (name : Str) (es : List EventNode)
      → plain name ≡ true
      → All (λ e. (plain (or_empty e.trigger) ≡ true) × (plain (or_empty e.next) ≡ true)) es
      → AllSay (map (event_line name) es) (map (event_command name) es)
  events_say name [] p h = tt
  events_say name (e ∷ es) p h = (event_line-Says name e p h.0.0 h.0.1, events_say name es p h.1)

  next_says :
      (name target : Str)
      → plain name ≡ true
      → (is_empty target || plain target) ≡ true
      → AllSay
          (if is_empty target
            then []
            else (codes "set_next " ++ (name ++ (codes " " ++ target))) ∷ [])
          (if is_empty target then [] else next (name ∷ target ∷ []) ∷ [])
  next_says name [] p q = tt
  next_says name (c ∷ target) p q = (three_words (codes "set_next") name (c ∷ target) refl p q, tt)

  trans_lines-say : (n : StateNode) → PlainNode n → AllSay (trans_lines n) (trans_commands n)
  unfolding trans_lines
  trans_lines-say n h =
      AllSay-append _ (map (event_line n.name) n.events) _ (map (event_command n.name) n.events)
        (next_says n.name n.next h.plain_name h.plain_next)
        (events_say n.name n.events h.plain_name h.plain_events)

  plain-name : (s : Str) → plain s ≡ true → is_empty s ≡ false
  plain-name [] h = cc h
  plain-name (c ∷ s) h = refl

  each_state_say :
      (ns : List StateNode)
      → All PlainNode ns
      → AllSay (all_state_lines ns) (each state_commands ns)
  unfolding all_state_lines
  each_state_say [] h = tt
  each_state_say (n ∷ ns) h = rw (plain-name n.name h.0.plain_name) (
      AllSay-append (state_lines n) (all_state_lines ns) (state_commands n) (each state_commands ns)
        (state_lines-say n h.0) (each_state_say ns h.1))

  each_trans_say :
      (ns : List StateNode)
      → All PlainNode ns
      → AllSay (all_trans_lines ns) (each trans_commands ns)
  unfolding all_trans_lines
  each_trans_say [] h = tt
  each_trans_say (n ∷ ns) h = rw (plain-name n.name h.0.plain_name) (
      AllSay-append (trans_lines n) (all_trans_lines ns) (trans_commands n) (each trans_commands ns)
        (trans_lines-say n h.0) (each_trans_say ns h.1))

  init_says :
      (first : Str)
      → (is_empty first || plain first) ≡ true
      → AllSay (init_line first) (init_command first)
  unfolding init_line
  init_says [] h = tt
  init_says (c ∷ first) h = (two_words (codes "set_init") (c ∷ first) refl h, tt)

  pub make_bdr_lines-say :
      (t : SmTree)
      → All PlainNode t.states
      → (is_empty t.init_state || plain t.init_state) ≡ true
      → AllSay (make_bdr_lines t) (bdr_commands t)
  unfolding make_bdr_lines
  make_bdr_lines-say t h first =
      AllSay-append (all_state_lines t.states) _ (each state_commands t.states) _
        (each_state_say t.states h)
        (AllSay-append (all_trans_lines t.states) (init_line t.init_state)
          (each trans_commands t.states) (init_command t.init_state) (each_trans_say t.states h)
          (init_says t.init_state first))
