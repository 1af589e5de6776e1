-- ===== src/Cli/Words/Quote.antt =====
-- Lua code between double quotes, as make_bdr of src/cli/sm_config.cpp writes it.
use auto_drop.Prelude.{
  ℕ, ◌≡◌, refl, ap, Bool, true, false, not, ◌&&◌, some, [], ◌∷◌, Str, ◌==◌, arith, Bool-cases, inl,
  inr,
}
use auto_drop.Cli.SmConfig.{encode_newlines, escape_quotes, replace_newlines_and_quotes}
use auto_drop.Cli.Words.{is_special, body}
use auto_drop.Cli.Words.Lines.{OneLine}

-- No backslash before a quote or a backslash, nor at the end. The flag: a backslash was just read.
abbrev pub safe_from : Bool → Str → Bool
safe_from escaped [] = not escaped
safe_from true (c ∷ s) = not (is_special c) && safe_from false s
safe_from false (c ∷ s) = safe_from (c == 92) s

abbrev pub after : Bool → Str → Str
after true s = 92 ∷ s
after false s = s

body-escape :
    (escaped : Bool) (s : Str)
    → safe_from escaped s ≡ true
    → body 34 escaped (escape_quotes (encode_newlines s)) ≡ some (after escaped (encode_newlines s))
unfolding body escape_quotes encode_newlines
body-escape true [] h = cc h
body-escape false [] h = refl
body-escape true (c ∷ s) h =
    let common : is_special c ≡ false = ground (arith, h) in
    let ih = body-escape false s (ground (arith, h)) in
    elim (Bool-cases (c == 10)) [
      | inl e ↦ rw (e, ih) refl
      | inr e ↦
          let no_quote : (c == 34) ≡ false = ground (arith, common) in
          rw (e, no_quote, common, ih) refl
    ]
body-escape false (c ∷ s) h = elim (Bool-cases (c == 10)) [
  | inl e ↦
      let no_slash : (c == 92) ≡ false = ground (arith, e) in
      rw (e, body-escape false s (rw no_slash at h)) refl
  | inr e ↦ elim (Bool-cases (c == 34)) [
    | inl quote ↦
        let no_slash : (c == 92) ≡ false = ground (arith, quote) in
        let is : 34 ≡ c = ground (arith, quote) in
        rw (e, quote, body-escape false s (rw no_slash at h))
          (ap (λ x. some (x ∷ encode_newlines s)) is)
    | inr no_quote ↦ elim (Bool-cases (c == 92)) [
      | inl slash ↦
          let is : 92 ≡ c = ground (arith, slash) in
          rw (e, no_quote, slash, body-escape true s (rw slash at h))
            (ap (λ x. some (x ∷ encode_newlines s)) is)
      | inr no_slash ↦
          rw (e, no_quote, no_slash, no_quote, body-escape false s (rw no_slash at h)) refl
    ]
  ]
]

-- Between double quotes the code is read back, with "<>" for its newlines.
pub body-replace :
    (s : Str)
    → safe_from false s ≡ true
    → body 34 false (replace_newlines_and_quotes s) ≡ some (encode_newlines s)
unfolding replace_newlines_and_quotes
body-replace s h = body-escape false s h

pub encode-OneLine : (s : Str) → OneLine (encode_newlines s)
unfolding encode_newlines
encode-OneLine [] = refl
encode-OneLine (c ∷ s) = ground (arith, encode-OneLine s)

escape-OneLine : (s : Str) → OneLine s → OneLine (escape_quotes s)
unfolding escape_quotes
escape-OneLine [] h = refl
escape-OneLine (c ∷ s) h = ground (arith, escape-OneLine s)

-- The code stands on one line.
pub replace-OneLine : (s : Str) → OneLine (replace_newlines_and_quotes s)
unfolding replace_newlines_and_quotes
replace-OneLine s = escape-OneLine (encode_newlines s) (encode-OneLine s)

-- Code that is not empty is not empty on one line.
pub encode-cons : (c : ℕ) (s : Str) → (d : ℕ) × (t : Str) × (encode_newlines (c ∷ s) ≡ d ∷ t)
unfolding encode_newlines
encode-cons c s = elim (Bool-cases (c == 10)) [
  | inl e ↦ (b'<', b'>' ∷ encode_newlines s, rw e refl)
  | inr e ↦ (c, encode_newlines s, rw e refl)
]
