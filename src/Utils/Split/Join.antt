-- ===== src/Utils/Split/Join.antt =====
-- src/public/utils/ad_utils.cpp: the pieces of a split text, put together again.
use auto_drop.Prelude.{
  ℕ, zero, suc, ◌+◌, ◌<◌, ◌≤◌, true, false, if◌then◌else◌, ==_iff, Bool-cases, Option-cases, inl,
  inr, none, some, List, [], ◌∷◌, ◌++◌, Str, length, take, drop, length-drop, All, ◌≡◌, ◌≢◌, refl,
  sym, ap, subst, ◌∙◌, arith,
}
use auto_drop.Prelude.Loops.{Ok, Ok-bind}
use auto_drop.Utils.Split.{is_prefix, shift, find, next_piece, split_rest, ad_utils_split_string}

-- The pieces with the delimiter between them.
abbrev pub join : Str → List Str → Str
join d [] = []
join d (p ∷ []) = p
join d (p ∷ q ∷ ps) = p ++ d ++ join d (q ∷ ps)

pub is_prefix-append : (d s : Str) → is_prefix d s ≡ true → s ≡ d ++ drop (length d) s
is_prefix-append [] s h = refl
is_prefix-append (d ∷ ds) [] h = cc h
is_prefix-append (d ∷ ds) (c ∷ s) h = ground (arith, h, ==_iff d c, is_prefix-append ds s)

is_prefix-take : (d s : Str) (n : ℕ) → is_prefix d (take n s) ≡ true → is_prefix d s ≡ true
is_prefix-take [] s n h = refl
is_prefix-take (d ∷ ds) s zero h = cc h
is_prefix-take (d ∷ ds) [] (suc n) h = h
is_prefix-take (d ∷ ds) (c ∷ s) (suc n) h = ground (arith, h, is_prefix-take ds s n)

no_prefix-take : (d s : Str) (n : ℕ) → is_prefix d s ≡ false → is_prefix d (take n s) ≡ false
no_prefix-take d s n h = elim (Bool-cases (is_prefix d (take n s))) [
  | inl e ↦ absurd (cc (h, is_prefix-take d s n e))
  | inr e ↦ e
]

-- The first place: the text falls into what is before it, which has no delimiter, and the rest.
Splits : Str → Str → ℕ → Type 0
Splits d s i =
    (s ≡ take i s ++ d ++ drop (i + length d) s)
    × (find d (take i s) ≡ none)
    × (i + length d ≤ length s)

find-none_prefix : (d s : Str) → find d s ≡ none → is_prefix d s ≡ false
unfolding find
find-none_prefix d [] h = ground (arith, h)
find-none_prefix d (c ∷ s) h = ground (arith, h)

is_prefix-length : (d s : Str) → is_prefix d s ≡ true → length d ≤ length s
is_prefix-length [] s h = omega arith
is_prefix-length (d ∷ ds) [] h = cc h
is_prefix-length (d ∷ ds) (c ∷ s) h = ground (arith, h, is_prefix-length ds s)

Splits-here : (x : ℕ) (d s : Str) → is_prefix (x ∷ d) s ≡ true → Splits (x ∷ d) s 0
unfolding Splits find
Splits-here x d s h =
    let n = length (x ∷ d) in
    let e : n ≡ 0 + n = omega arith in
    (
      is_prefix-append (x ∷ d) s h ∙ ap (λ k. (x ∷ d) ++ drop k s) e,
      refl,
      omega (arith, is_prefix-length (x ∷ d) s h),
    )

Splits-later :
    (x : ℕ) (d : Str) (c : ℕ) (s : Str) (j : ℕ)
    → is_prefix (x ∷ d) (c ∷ s) ≡ false
    → Splits (x ∷ d) s j
    → Splits (x ∷ d) (c ∷ s) (suc j)
unfolding Splits find
Splits-later x d c s j no_prefix (split, none_in, le) =
    let n = length (x ∷ d) in
    let e : suc (j + n) ≡ suc j + n = omega arith in
    (
      ap (◌∷◌ c) split ∙ ap (λ k. c ∷ take j s ++ (x ∷ d) ++ drop k (c ∷ s)) e,
      ap (λ b. if b then some 0 else shift (find (x ∷ d) (take j s)))
            (no_prefix-take (x ∷ d) (c ∷ s) (suc j) no_prefix)
          ∙ ap shift none_in,
      omega (arith, le),
    )

find-Splits : (d s : Str) (i : ℕ) → d ≢ [] → find d s ≡ some i → Splits d s i
unfolding find
find-Splits [] s i ne h = absurd (ne refl)
find-Splits (x ∷ d) [] i ne h = cc h
find-Splits (x ∷ d) (c ∷ s) i ne h = elim (Bool-cases (is_prefix (x ∷ d) (c ∷ s))) [
  | inl here ↦
      let e : 0 ≡ i = ground (arith, h, here) in
      subst (Splits (x ∷ d) (c ∷ s)) e (Splits-here x d (c ∷ s) here)
  | inr later ↦ elim (Option-cases (find (x ∷ d) s)) [
    | inl never ↦ absurd (ground (arith, h, later, never))
    | inr (j, found) ↦
        let e : suc j ≡ i = ground (arith, h, later, found) in
        subst (Splits (x ∷ d) (c ∷ s)) e
          (Splits-later x d c s j later (find-Splits (x ∷ d) s j ne found))
  ]
]

-- What a finished loop has made of `rest`.
abbrev pub Pieces : Str → Str → List Str → Type 0
Pieces d rest ps = (join d ps ≡ rest) × All (λ p. find d p ≡ none) ps × (0 < length ps)

cons-Pieces :
    (d rest : Str) (end : ℕ) (ps : List Str)
    → Splits d rest end
    → Pieces d (drop (end + length d) rest) ps
    → Pieces d rest (take end rest ∷ ps)
unfolding Splits
cons-Pieces d rest end [] s (j, a, l) = absurd (omega arith)
cons-Pieces d rest end (p ∷ ps) (split, none_in, le) (j, a, l) =
    (ap (λ t. take end rest ++ d ++ t) j ∙ sym split, (none_in, a), omega arith)

shorter :
    (d rest : Str) (end n : ℕ)
    → d ≢ []
    → Splits d rest end
    → length rest < suc n
    → length (drop (end + length d) rest) < n
unfolding Splits
shorter [] rest end n ne s lt = absurd (ne refl)
shorter (x ∷ d) rest end n ne (split, none_in, le) lt =
    omega (arith, length-drop (end + length (x ∷ d)) rest, le)

never_ends : (n : ℕ) (s : Str) → split_rest n [] s ≡ none
unfolding split_rest find
never_ends zero s = refl
never_ends (suc n) [] = rw (never_ends n []) refl
never_ends (suc n) (c ∷ s) = rw (never_ends n (c ∷ s)) refl

split_rest-Pieces :
    (n : ℕ) (d rest : Str) → d ≢ [] → length rest < n → Ok (Pieces d rest) (split_rest n d rest)
unfolding split_rest
split_rest-Pieces zero d rest ne lt = absurd (omega arith)
split_rest-Pieces (suc n) d rest ne lt = elim (Option-cases (find d rest)) [
  | inl never ↦
      subst (λ o. Ok (Pieces d rest) (next_piece d rest (split_rest n d) o)) (sym never)
        (refl, (never, tt), omega arith)
  | inr (end, found) ↦
      let s = find-Splits d rest end ne found in
      subst (λ o. Ok (Pieces d rest) (next_piece d rest (split_rest n d) o)) (sym found)
        (Ok-bind _ _ (split_rest n d (drop (end + length d) rest)) _
          (split_rest-Pieces n d (drop (end + length d) rest) ne (shorter d rest end n ne s lt))
          λ ps k. cons-Pieces d rest end ps s k)
]

-- For a delimiter that is not empty (x, then d) the loop ends, within as many rounds as the text has
-- characters and one more; the pieces with the delimiter between them are the text again, and no
-- piece has the delimiter in it. For an empty delimiter it never ends.
pub ad_utils_split_string-Pieces :
    (str : Str) (x : ℕ) (d : Str)
    → Ok (Pieces (x ∷ d) str) (ad_utils_split_string (suc (length str)) str (x ∷ d))
      × ((fuel : ℕ) → ad_utils_split_string fuel str [] ≡ none)
unfolding ad_utils_split_string
ad_utils_split_string-Pieces str x d = (
  split_rest-Pieces (suc (length str)) (x ∷ d) str (λ e. cc e) (omega arith),
  λ fuel. never_ends fuel str,
)
