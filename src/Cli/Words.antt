-- ===== src/Cli/Words.antt =====
-- How a line of the command line becomes words. The splitting is done by the library of the command
-- line, and is a parameter here: Splits states its documented behaviour as far as the lines that
-- make_bdr writes need it.
pub mod Quote
pub mod Lines
pub mod Splitter
pub mod Restored
use auto_drop.Prelude.{
  ℕ, ◌≡◌, Bool, true, false, not, ◌&&◌, ◌||◌, if◌then◌else◌, ◌==◌, Option, none, some, List, [],
  ◌∷◌, ◌++◌, Str,
}

abbrev pub is_blank : ℕ → Bool
is_blank c = (c == 32) || (c == 9) || (c == 10)

-- What a backslash changes: the two quotes and the backslash.
abbrev pub is_special : ℕ → Bool
is_special c = (c == 34) || (c == 39) || (c == 92)

abbrev pub plain_chars : Str → Bool
plain_chars [] = true
plain_chars (c ∷ s) = not (is_blank c) && not (is_special c) && plain_chars s

-- A word that needs no quotes.
abbrev pub plain : Str → Bool
plain [] = false
plain (c ∷ s) = plain_chars (c ∷ s)

abbrev pub prepend : Str → Option Str → Option Str
prepend s none = none
prepend s (some t) = some (s ++ t)

-- What stands between two quotes q stands for: a backslash with a quote or a backslash is the latter,
-- any other is itself; `none` where the quotes end before. The flag: a backslash was just read.
unfoldable pub body : ℕ → Bool → Str → Option Str
body q true [] = none
body q false [] = some []
body q true (c ∷ s) = prepend (if is_special c then c ∷ [] else 92 ∷ c ∷ []) (body q false s)
body q false (c ∷ s) =
    let plainly = prepend (c ∷ []) (body q false s) in
    let escaped = body q true s in if c == 92 then escaped else if c == q then none else plainly

abbrev pub is_quote : ℕ → Bool
is_quote q = (q == 34) || (q == 39)

pub record Splits (split : Str → List Str) : Type 0 where
  pub blank : (s : Str) → split (32 ∷ s) ≡ split s
  pub word : (w s : Str) → plain w ≡ true → split (w ++ 32 ∷ s) ≡ w ∷ split s
  pub last_word : (w : Str) → plain w ≡ true → split w ≡ w ∷ []
  pub sentence :
      (q c : ℕ) (b t : Str)
      → is_quote q ≡ true
      → body q false b ≡ some (c ∷ t)
      → split (q ∷ (b ++ q ∷ [])) ≡ (c ∷ t) ∷ []
