-- ===== src/Prelude/Decimal.antt =====
-- std::to_string and std::stoul on natural numbers.
use auto_drop.Prelude.{
  ℕ, zero, suc, ◌+◌, ◌-◌, ◌*◌, ◌/◌, ◌%◌, ◌<◌, ◌≡◌, refl, ◌&&◌, if◌then◌else◌, ltb, leb, [], ◌∷◌,
  arith, Str, codes,
}

-- The digits of n before the text `rest`; the fuel bounds their number.
unfoldable pub digits_onto : ℕ → ℕ → Str → Str
digits_onto zero n rest = rest
digits_onto (suc f) n rest =
    let more = digits_onto f (n / 10) ((48 + n % 10) ∷ rest) in
    if ltb n 10 then (48 + n) ∷ rest else more

unfoldable pub to_string : ℕ → Str
unfolding digits_onto
to_string n = digits_onto (suc n) n []

-- Reads the leading digits; anything else ends the number.
unfoldable pub digits_from : ℕ → Str → ℕ
digits_from acc [] = acc
digits_from acc (c ∷ s) =
    let more = digits_from (acc * 10 + (c - 48)) s in if leb 48 c && leb c 57 then more else acc

unfoldable pub stoul : Str → ℕ
unfolding digits_from
stoul s = digits_from 0 s

-- Reading digits_onto gives what reading the rest after n would give.
digits_from-digits_onto :
    (f n : ℕ) (rest : Str) → n < f → digits_from 0 (digits_onto f n rest) ≡ digits_from n rest
unfolding digits_onto digits_from
digits_from-digits_onto zero n rest h = absurd (omega arith)
digits_from-digits_onto (suc f) n rest h =
    ground (arith, digits_from-digits_onto f (n / 10) ((48 + n % 10) ∷ rest))

pub stoul-to_string : (n : ℕ) → stoul (to_string n) ≡ n
unfolding stoul to_string
stoul-to_string n = digits_from-digits_onto (suc n) n [] (omega arith)

to_string_50110 : to_string 50110 ≡ codes "50110"
unfolding to_string
to_string_50110 = refl
