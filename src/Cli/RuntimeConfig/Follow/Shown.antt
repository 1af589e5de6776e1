-- ===== src/Cli/RuntimeConfig/Follow/Shown.antt =====
-- Which lines of the log src/cli/runtime_config.cpp prints.
use auto_drop.Prelude.{
  ℕ, ◌≡◌, refl, sym, ◌∙◌, ap, subst, ◌↔◌, ◌⊎◌, inl, inr, List, [], ◌∷◌, ◌++◌, Str, length,
  drop-append_length, All, append_assoc, append-nil, Bool-cases,
}
use auto_drop.Cli.Words.Lines.{
  unlines, OneLine, getlines_from, getlines_from-unlines, unlines-append,
}
use auto_drop.Cli.RuntimeConfig.{LogConfig, enable_log}
use auto_drop.Cli.RuntimeConfig.Follow.{
  log_has_keyword, keyword_lines, read_new_content, LogEvent, modified, print_events,
}
use auto_drop.Cli.RuntimeConfig.Follow.Keyed.{
  StandsIn, Keyed, log_has_keyword-Keyed, Keyed-log_has_keyword, Keyed-enable_log,
}

-- The output is the lines for which P holds, in their order, each with its newline.
abbrev pub Shows : (Str → Type 0) → List Str → Str → Type 0
Shows P [] out = out ≡ []
Shows P (l ∷ ls) out =
    (P l × (rest : Str) × (out ≡ l ++ 10 ∷ rest) × Shows P ls rest) ⊎ ((P l → ⊥) × Shows P ls out)

keyword_lines-Shows :
    (cs : List LogConfig) (ls : List Str) → Shows (Keyed cs) ls (keyword_lines cs ls)
unfolding keyword_lines
keyword_lines-Shows cs [] = refl
keyword_lines-Shows cs (l ∷ ls) = elim (Bool-cases (log_has_keyword l cs)) [
  | inl e ↦ rw e (
      inl (
        log_has_keyword-Keyed l cs e,
        keyword_lines cs ls,
        append_assoc l (10 ∷ []) (keyword_lines cs ls),
        keyword_lines-Shows cs ls,
      ))
  | inr e ↦
      rw e (inr (λ k. absurd (cc (e, Keyed-log_has_keyword l cs k)), keyword_lines-Shows cs ls))
]

keyword_lines-append :
    (cs : List LogConfig) (ls ms : List Str)
    → keyword_lines cs (ls ++ ms) ≡ keyword_lines cs ls ++ keyword_lines cs ms
unfolding keyword_lines
keyword_lines-append cs [] ms = refl
keyword_lines-append cs (l ∷ ls) ms = elim (Bool-cases (log_has_keyword l cs)) [
  | inl e ↦ rw e (
      ap ((l ++ 10 ∷ []) ++◌) (keyword_lines-append cs ls ms)
      ∙ sym (append_assoc (l ++ 10 ∷ []) (keyword_lines cs ls) (keyword_lines cs ms)))
  | inr e ↦ rw e (keyword_lines-append cs ls ms)
]

-- The file grows by some lines before each event, and no more until the event is served.
abbrev pub events_of : Str → List (List Str) → List LogEvent
events_of file [] = []
events_of file (ls ∷ more) =
    let file' = file ++ unlines ls in modified file' file' ∷ events_of file' more

abbrev pub concat : List (List Str) → List Str
concat [] = []
concat (ls ∷ more) = ls ++ concat more

print_events-lines :
    (cs : List LogConfig) (chunks : List (List Str)) (file : Str)
    → All (All OneLine) chunks
    → print_events cs (events_of file chunks) (length file)
      ≡ (keyword_lines cs (concat chunks), length (file ++ unlines (concat chunks)))
unfolding print_events read_new_content
print_events-lines cs [] file h = ap (λ t. ([], length t)) (sym (append-nil file))
print_events-lines cs (ls ∷ more) file h =
    ap (λ r. (keyword_lines cs r ++ rest.0, rest.1))
      (ap (getlines_from []) (drop-append_length file (unlines ls)) ∙ getlines_from-unlines ls h.0)
    ∙ ap (λ r. (keyword_lines cs ls ++ r.0, r.1))
        (print_events-lines cs more (file ++ unlines ls) h.1)
    ∙ with_length (sym (keyword_lines-append cs ls (concat more))) (
        append_assoc file (unlines ls) (unlines (concat more))
        ∙ ap (file ++◌) (sym (unlines-append ls (concat more))))
  where
    rest : Str × ℕ
    rest = print_events cs (events_of (file ++ unlines ls) more) (length (file ++ unlines ls))

    with_length : {a b s t : Str} → a ≡ b → s ≡ t → ◌≡◌ {A = Str × ℕ} (a, length s) (b, length t)
    with_length p q i = (p i, length (q i))

Shows-map :
    (P Q : Str → Type 0) (ls : List Str) (out : Str)
    → ((line : Str) → P line ↔ Q line)
    → Shows P ls out
    → Shows Q ls out
Shows-map P Q [] out same h = h
Shows-map P Q (l ∷ ls) out same (inl (is, rest, eq, more)) =
    inl ((same l).0 is, rest, eq, Shows-map P Q ls rest same more)
Shows-map P Q (l ∷ ls) out same (inr (hidden, more)) =
    inr (λ q. hidden ((same l).1 q), Shows-map P Q ls out same more)

-- After enable_log with a module and a level, from the end of the file on: as the file grows by whole
-- lines before each event, and not between the last line read and the jump to its end, the events
-- print, in order and once each, just those of the new lines in which the module and the level of
-- some filter stand, those of a filter from before or the new ones; and the end is where it stands.
pub print_events-Shows :
    (m l : Str) (cs : List LogConfig) (chunks : List (List Str)) (file : Str)
    → All (All OneLine) chunks
    → let (out, at_end) =
        print_events (enable_log (m ∷ l ∷ []) cs) (events_of file chunks) (length file) in
      Shows (λ line. Keyed cs line ⊎ (StandsIn m line × StandsIn l line)) (concat chunks) out
      × (at_end ≡ length (file ++ unlines (concat chunks)))
print_events-Shows m l cs chunks file h =
    let cs' = enable_log (m ∷ l ∷ []) cs in
    let is = print_events-lines cs' chunks file h in
    (
      subst (Shows _ (concat chunks)) (ap (λ r. r.0) (sym is)) (
          Shows-map _ _ (concat chunks) (keyword_lines cs' (concat chunks))
            (Keyed-enable_log m l cs) (keyword_lines-Shows cs' (concat chunks))),
      ap (λ r. r.1) is,
    )
