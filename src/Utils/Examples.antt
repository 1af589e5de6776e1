-- ===== src/Utils/Examples.antt =====
-- Splits of short texts.
use auto_drop.Prelude.{ℕ, none, some, [], ◌∷◌, codes, ◌≡◌, refl}
use auto_drop.Prelude.Loops.{Ok}
use auto_drop.Utils.Split.{
  find, split_rest, ad_utils_split_string, info, error, level_to_string, log,
}
use auto_drop.Utils.Split.Join.{Pieces, ad_utils_split_string-Pieces}

comma_splits :
    ad_utils_split_string 5 (codes "a,,b") (codes ",") ≡ some (codes "a" ∷ [] ∷ codes "b" ∷ [])
unfolding ad_utils_split_string split_rest find
comma_splits = refl

ad_utils_split_string-Pieces_example :
    Ok
      (Pieces (codes ", ") (codes "a, b,c"))
      (ad_utils_split_string 7 (codes "a, b,c") (codes ", "))
    × ((fuel : ℕ) → ad_utils_split_string fuel (codes "a, b,c") [] ≡ none)
ad_utils_split_string-Pieces_example =
    ad_utils_split_string-Pieces (codes "a, b,c") (b',') (codes " ")

two_lines :
    log 9 info (codes "M") (codes "T") error (codes "x\ny")
    ≡ some (codes "[T] [ERROR] [M] x" ∷ codes "[T] [ERROR] [M] y" ∷ [])
unfolding log ad_utils_split_string split_rest find level_to_string
two_lines = refl
