-- ===== src/Cli/Words/Restored.antt =====
-- Which Lua code comes back from the line that make_bdr of src/cli/sm_config.cpp writes for it, as
-- input_action reads it.
use auto_drop.Prelude.{
  ℕ, suc, ◌≤◌, ◌≡◌, refl, sym, ◌∙◌, ap, subst, ◌↔◌, Bool, true, false, if◌then◌else◌, ◌==◌, Option,
  none, some, [], ◌∷◌, Str, length, arith, Bool-cases, inl, inr,
}
use auto_drop.Cli.SmConfig.{
  decode_newlines, encode_newlines, escape_quotes, replace_newlines_and_quotes,
}
use auto_drop.Cli.SmConfig.Escape.{marks, decode-encode_iff}
use auto_drop.Cli.Words.{is_special, prepend, body}
use auto_drop.Cli.Words.Quote.{safe_from, after, body-replace, encode-OneLine}
use auto_drop.Cli.Words.Lines.{OneLine}

-- The length, where a newline counts twice.
abbrev weight : Str → ℕ
weight [] = 0
weight (c ∷ s) = let rest = weight s in if c == 10 then suc (suc rest) else suc rest

weight-decode : (s : Str) → weight (decode_newlines s) ≡ weight s
unfolding decode_newlines
weight-decode [] = refl
weight-decode (a ∷ []) = refl
weight-decode (a ∷ b ∷ s) = ground (arith, weight-decode (b ∷ s), weight-decode s)

length-encode : (s : Str) → length (encode_newlines s) ≡ weight s
unfolding encode_newlines
length-encode [] = refl
length-encode (c ∷ s) = ground (arith, length-encode s)

weight-OneLine : (s : Str) → OneLine s → weight s ≡ length s
weight-OneLine [] h = refl
weight-OneLine (c ∷ s) h = ground (arith, weight-OneLine s)

safe-encode :
    (escaped : Bool) (s : Str)
    → safe_from escaped (encode_newlines s) ≡ true
    → safe_from escaped s ≡ true
unfolding encode_newlines
safe-encode true [] h = h
safe-encode false [] h = h
safe-encode true (c ∷ s) h = ground (arith, safe-encode false s)
safe-encode false (c ∷ s) h = ground (arith, safe-encode false s, safe-encode true s)

-- What is read is no longer than what was written, and as long only if no backslash was lost.
abbrev Shorter : Bool → Str → Option Str → Type 0
Shorter escaped e none = Unit {0}
Shorter escaped e (some t) =
    (length t ≤ length (after escaped e))
    × OneLine t
    × (length t ≡ length (after escaped e) → safe_from escaped e ≡ true)

Shorter-escaped :
    (c : ℕ) (e : Str) (o : Option Str)
    → OneLine (c ∷ e)
    → Shorter false e o
    → Shorter true (c ∷ e) (prepend (if is_special c then c ∷ [] else 92 ∷ c ∷ []) o)
Shorter-escaped c e none one h = tt
Shorter-escaped c e (some t) one (short, line, full) = elim (Bool-cases (is_special c)) [
  | inl special ↦ rw special (omega (arith, short), ground (arith, line), λ h. absurd (omega arith))
  | inr common ↦
      rw common (omega (arith, short), ground (arith, line), λ h. full (omega (arith, h)))
]

Shorter-plain :
    (c : ℕ) (e : Str) (o : Option Str)
    → OneLine (c ∷ e)
    → (c == 92) ≡ false
    → Shorter false e o
    → Shorter false (c ∷ e) (prepend (c ∷ []) o)
Shorter-plain c e none one plain h = tt
Shorter-plain c e (some t) one plain (short, line, full) =
    (omega (arith, short), ground (arith, line), λ h. rw plain (full (omega (arith, h))))

Shorter-slash :
    (c : ℕ) (e : Str) (o : Option Str)
    → (c == 92) ≡ true
    → Shorter true e o
    → Shorter false (c ∷ e) o
Shorter-slash c e none slash h = tt
Shorter-slash c e (some t) slash (short, line, full) =
    (omega (arith, short), line, λ h. rw slash (full (omega (arith, h))))

body-Shorter :
    (escaped : Bool) (e : Str) → OneLine e → Shorter escaped e (body 34 escaped (escape_quotes e))
unfolding body escape_quotes
body-Shorter true [] one = tt
body-Shorter false [] one = (omega arith, refl, λ h. refl)
body-Shorter true (c ∷ e) one = elim (Bool-cases (c == 34)) [
  | inl quote ↦ rw quote tt
  | inr common ↦ rw common (
      Shorter-escaped c e (body 34 false (escape_quotes e)) one
        (body-Shorter false e (ground (arith, one))))
]
body-Shorter false (c ∷ e) one =
    let rest : OneLine e = ground (arith, one) in
    elim (Bool-cases (c == 34)) [
      | inl quote ↦
          let no_slash : (c == 92) ≡ false = ground (arith, quote) in
          let is : c ≡ 34 = ground (arith, quote) in
          rw quote (
            subst (λ d. Shorter false (c ∷ e) (prepend (d ∷ []) (body 34 false (escape_quotes e))))
              is
              (Shorter-plain c e (body 34 false (escape_quotes e)) one no_slash
                (body-Shorter false e rest)))
      | inr common ↦ elim (Bool-cases (c == 92)) [
        | inl slash ↦
            rw (common, slash)
              (Shorter-slash c e (body 34 true (escape_quotes e)) slash (body-Shorter true e rest))
        | inr no_slash ↦
            rw (common, no_slash, common)
              (Shorter-plain c e (body 34 false (escape_quotes e)) one no_slash
                (body-Shorter false e rest))
      ]
    ]

-- What input_action makes of the line: the library reads what stands between the quotes (`none`
-- where the quotes end before), and each "<>" becomes a newline.
abbrev decoded : Option Str → Option Str
decoded none = none
decoded (some t) = some (decode_newlines t)

abbrev pub read_back : Str → Option Str
read_back s = decoded (body 34 false (replace_newlines_and_quotes s))

full_length :
    (s : Str) (o : Option Str)
    → Shorter false (encode_newlines s) o
    → decoded o ≡ some s
    → safe_from false (encode_newlines s) ≡ true
full_length s none h e = cc e
full_length s (some t) (short, line, full) e =
    let same : decode_newlines t ≡ s = cc e in
    full
      (sym (weight-OneLine t line) ∙ sym (weight-decode t) ∙ ap weight same ∙ sym (length-encode s))

-- Lua code comes back from the line that make_bdr writes for it exactly if "<>" does not stand in it,
-- it has no backslash before a quote or a backslash, and it does not end in a backslash.
pub read_back_iff :
    (s : Str) → (read_back s ≡ some s) ↔ ((marks s ≡ 0) × (safe_from false s ≡ true))
unfolding replace_newlines_and_quotes
read_back_iff s = (forth, λ (h : (marks s ≡ 0) × (safe_from false s ≡ true)). back h.0 h.1)
  where
    back : marks s ≡ 0 → safe_from false s ≡ true → read_back s ≡ some s
    back no_marks safe =
        ap decoded (body-replace s safe) ∙ ap some ((decode-encode_iff s).1 no_marks)

    forth : read_back s ≡ some s → (marks s ≡ 0) × (safe_from false s ≡ true)
    forth e =
        let safe : safe_from false s ≡ true = safe-encode false s (
          full_length s (body 34 false (escape_quotes (encode_newlines s)))
            (body-Shorter false (encode_newlines s) (encode-OneLine s)) e) in
        let same : some (decode_newlines (encode_newlines s)) ≡ some s =
          ap decoded (sym (body-replace s safe)) ∙ e in
        ((decode-encode_iff s).0 (cc same), safe)
