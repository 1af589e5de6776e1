-- ===== src/Cli/RedisConfig/Port.antt =====
-- The port of src/cli/redis_config.cpp: written by std::to_string and read by std::stoi.
use auto_drop.Prelude.{
  ℕ, zero, suc, ◌+◌, ◌/◌, ◌%◌, ◌<◌, ◌≡◌, refl, ◌∙◌, ap, Bool, true, false, ◌&&◌, ◌==◌, some, [],
  ◌∷◌, Str, arith, lt→ltb,
}
use auto_drop.Prelude.Decimal.{digits_onto, to_string, digits_from, stoul, stoul-to_string}
use auto_drop.Prelude.Int.{ℤ, pos, negsuc}
use auto_drop.Cli.Words.{plain_chars, plain}
use auto_drop.Cli.RedisConfig.{
  is_digit, magnitude, in_int, signed, skip_spaces, stoi, positive, negative, is_space,
  int_to_string,
}

abbrev all_digits : Str → Bool
all_digits [] = true
all_digits (c ∷ s) = is_digit c && all_digits s

abbrev starts_with_digit : Str → Bool
starts_with_digit [] = false
starts_with_digit (c ∷ s) = is_digit c

digits_onto-digits :
    (f n : ℕ) (rest : Str)
    → n < f
    → all_digits rest ≡ true
    → (all_digits (digits_onto f n rest) ≡ true) × (starts_with_digit (digits_onto f n rest) ≡ true)
unfolding digits_onto
digits_onto-digits zero n rest h d = absurd (omega arith)
digits_onto-digits (suc f) n rest h d =
    ground (arith, digits_onto-digits f (n / 10) ((48 + n % 10) ∷ rest))

to_string-digits :
    (n : ℕ) → (all_digits (to_string n) ≡ true) × (starts_with_digit (to_string n) ≡ true)
unfolding to_string
to_string-digits n = digits_onto-digits (suc n) n [] (omega arith) refl

magnitude-starts : (s : Str) → starts_with_digit s ≡ true → magnitude s ≡ some (digits_from 0 s)
unfolding magnitude
magnitude-starts [] h = cc h
magnitude-starts (c ∷ s) h = rw h refl

magnitude-to_string : (n : ℕ) → magnitude (to_string n) ≡ some n
unfolding stoul
magnitude-to_string n =
    magnitude-starts (to_string n) (to_string-digits n).1 ∙ ap some (stoul-to_string n)

-- A text that begins with a digit has no sign and no space before it.
signed-starts :
    (s : Str) → starts_with_digit s ≡ true → signed (skip_spaces s) ≡ positive (magnitude s)
unfolding magnitude
signed-starts [] h = refl
signed-starts (c ∷ s) h =
    let no_space : is_space c ≡ false = ground (arith, h) in
    let no_minus : (c == b'-') ≡ false = ground (arith, h) in
    let no_plus : (c == b'+') ≡ false = ground (arith, h) in rw (no_space, no_minus, no_plus) refl

-- The values of a 32-bit `int`.
abbrev pub IsInt : ℤ → Type 0
IsInt (pos n) = n < 2147483648
IsInt (negsuc n) = n < 2147483648

in_int-IsInt : (z : ℤ) → IsInt z → in_int (some z) ≡ some z
in_int-IsInt (pos n) h = rw (lt→ltb n 2147483648 h) refl
in_int-IsInt (negsuc n) h = rw (lt→ltb n 2147483648 h) refl

pub stoi-int_to_string : (z : ℤ) → IsInt z → stoi (int_to_string z) ≡ some z
unfolding stoi int_to_string
stoi-int_to_string (pos n) h =
    ap in_int
      (signed-starts (to_string n) (to_string-digits n).1 ∙ ap positive (magnitude-to_string n))
    ∙ in_int-IsInt (pos n) h
stoi-int_to_string (negsuc n) h =
    ap in_int (ap negative (magnitude-to_string (suc n))) ∙ in_int-IsInt (negsuc n) h

digits-plain : (s : Str) → all_digits s ≡ true → plain_chars s ≡ true
digits-plain [] h = refl
digits-plain (c ∷ s) h = ground (arith, digits-plain s)

-- It is a word.
pub int_to_string-plain : (z : ℤ) → plain (int_to_string z) ≡ true
unfolding int_to_string
int_to_string-plain (pos n) = starts (to_string n) (to_string-digits n)
  where
    starts : (s : Str) → (all_digits s ≡ true) × (starts_with_digit s ≡ true) → plain s ≡ true
    starts [] h = cc h.1
    starts (c ∷ s) h = digits-plain (c ∷ s) h.0
int_to_string-plain (negsuc n) = digits-plain (to_string (suc n)) (to_string-digits (suc n)).0
