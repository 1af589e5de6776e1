-- ===== src/Cli/Words/Splitter.antt =====
-- A splitting of lines with the documented behaviour, for runs on concrete lines.
use auto_drop.Prelude.{
  ℕ, ◌≡◌, refl, ◌∙◌, ap, Bool, true, false, if◌then◌else◌, ◌==◌, Option, none, some, List, [], ◌∷◌,
  ◌++◌, Str, append_assoc, append-nil, arith, Bool-cases, inl, inr,
}
use auto_drop.Cli.Words.{is_blank, is_special, plain_chars, plain, prepend, body, is_quote, Splits}

-- Between words, in a word, between quotes, and after a backslash between quotes.
data Mode : Type 0 where
  space : Mode
  in_word : Str → Mode
  in_quotes escaped : ℕ → Str → Mode

-- The words that are finished, and the next mode.
step : Mode → ℕ → List Str × Mode
step space c =
    if is_blank c
    then ([], space)
    else if is_quote c
    then ([], in_quotes c [])
    else ([], in_word (c ∷ []))
step (in_word w) c = if is_blank c then (w ∷ [], space) else ([], in_word (w ++ c ∷ []))
step (in_quotes q w) c =
    if c == 92
    then ([], escaped q w)
    else if c == q
    then (w ∷ [], space)
    else ([], in_quotes q (w ++ c ∷ []))
step (escaped q w) c = ([], in_quotes q (w ++ (if is_special c then c ∷ [] else 92 ∷ c ∷ [])))

scan : Mode → Str → List Str
scan space [] = []
scan (in_word w) [] = w ∷ []
scan (in_quotes q w) [] = w ∷ []
scan (escaped q w) [] = w ∷ []
scan m (c ∷ s) = let (out, m') = step m c in out ++ scan m' s

pub split_words : Str → List Str
unfolding scan step
split_words s = scan space s

scan-word :
    (acc w s : Str)
    → plain_chars w ≡ true
    → scan (in_word acc) (w ++ 32 ∷ s) ≡ (acc ++ w) ∷ scan space s
unfolding scan step
scan-word acc [] s h = ground (arith, append-nil acc)
scan-word acc (c ∷ w) s h =
    ground (arith, scan-word (acc ++ c ∷ []) w s, append_assoc acc (c ∷ []) w)

scan-last : (acc w : Str) → plain_chars w ≡ true → scan (in_word acc) w ≡ (acc ++ w) ∷ []
unfolding scan step
scan-last acc [] h = ground (arith, append-nil acc)
scan-last acc (c ∷ w) h = ground (arith, scan-last (acc ++ c ∷ []) w, append_assoc acc (c ∷ []) w)

prepend-eq-some :
    (s : Str) (o : Option Str) (t : Str)
    → prepend s o ≡ some t
    → (u : Str) × (o ≡ some u) × (s ++ u ≡ t)
prepend-eq-some s none t h = cc h
prepend-eq-some s (some u) t h = (u, refl, cc h)

abbrev mode : ℕ → Bool → Str → Mode
mode q true acc = escaped q acc
mode q false acc = in_quotes q acc

scan-quotes :
    (q : ℕ) (after : Bool) (acc b t : Str)
    → is_quote q ≡ true
    → body q after b ≡ some t
    → scan (mode q after acc) (b ++ q ∷ []) ≡ (acc ++ t) ∷ []
unfolding scan step body
scan-quotes q true acc [] t qu h = cc h
scan-quotes q false acc [] t qu h =
    let no_slash : (q == 92) ≡ false = ground (arith, qu) in
    let own : (q == q) ≡ true = ground arith in
    rw (no_slash, own) (ground (arith, append-nil acc, h))
scan-quotes q true acc (c ∷ b) t qu h =
    let read = if is_special c then c ∷ [] else 92 ∷ c ∷ [] in
    let (u, ends, is) = prepend-eq-some read (body q false b) t h in
    scan-quotes q false (acc ++ read) b u qu ends
    ∙ ap (λ w. w ∷ []) (append_assoc acc read u ∙ ap (λ r. acc ++ r) is)
scan-quotes q false acc (c ∷ b) t qu h = elim (Bool-cases (c == 92)) [
  | inl slash ↦ rw slash (scan-quotes q true acc b t qu (rw slash at h))
  | inr no_slash ↦ elim (Bool-cases (c == q)) [
    | inl ends ↦ absurd (cc (rw (no_slash, ends) at h))
    | inr goes_on ↦
        let (u, more, is) =
          prepend-eq-some (c ∷ []) (body q false b) t (rw (no_slash, goes_on) at h) in
        rw (no_slash, goes_on)
          (scan-quotes q false (acc ++ c ∷ []) b u qu more
            ∙ ap (λ w. w ∷ []) (append_assoc acc (c ∷ []) u ∙ ap (λ r. acc ++ r) is))
  ]
]

-- It behaves as documented.
pub split_words-Splits : Splits split_words
unfolding split_words scan step
split_words-Splits = record {
  blank = λ s. refl;
  word = first_word;
  last_word = only_word;
  sentence = λ q c b t qu h. first_quote q (c ∷ t) b qu h;
}
  where
    first_word : (w s : Str) → plain w ≡ true → scan space (w ++ 32 ∷ s) ≡ w ∷ scan space s
    first_word [] s h = cc h
    first_word (c ∷ w) s h = ground (arith, scan-word (c ∷ []) w s)

    only_word : (w : Str) → plain w ≡ true → scan space w ≡ w ∷ []
    only_word [] h = cc h
    only_word (c ∷ w) h = ground (arith, scan-last (c ∷ []) w)

    first_quote :
        (q : ℕ) (t b : Str)
        → is_quote q ≡ true
        → body q false b ≡ some t
        → scan space (q ∷ (b ++ q ∷ [])) ≡ t ∷ []
    first_quote q t b qu h =
        let visible : is_blank q ≡ false = ground (arith, qu) in
        rw (visible, qu) (scan-quotes q false [] b t qu h)
