-- ===== src/Driver/Rd/SgFilter/Order.antt =====
-- src/driver/rd_driver/pg.h: the orders that the constructor accepts.
use auto_drop.Prelude.{
  ℕ, suc, ◌-◌, ◌/◌, ◌%◌, ◌≤◌, ◌<◌, Option, none, some, List, length, ◌≡◌, ◌≢◌, ◌↔◌, ◌⊎◌, inl, inr,
  refl, sym, ap, ◌∙◌, arith,
}
use native.Mathlib.Decide.{dec_lt}
use auto_drop.Prelude.Loops.{◌>>=◌, Ok, Ok-bind, bind-none}
use auto_drop.Driver.Rd.{FloatOps}
use auto_drop.Driver.Rd.SgFilter.{
  extract_column, design_matrix, gram_matrix, calculate_coefficients, with_coefficients,
  make_filter,
}
use auto_drop.Driver.Rd.SgFilter.Construction.{invalid_argument, out_of_range}
use auto_drop.Driver.Rd.SgFilter.Solve.{
  Ok-design_matrix, Ok-gram_matrix, Ok-extract_column, extract_column-none, solve_system-Ok,
}

module _ {F : Type 0} (ops : FloatOps F) where
  pub coefficients-Ok :
      (w p : ℕ)
      → w % 2 ≢ 0
      → p < w
      → (w - 1) / 2 ≤ p
      → Ok (λ c. length c ≡ suc p) (calculate_coefficients ops w p)
  unfolding calculate_coefficients
  coefficients-Ok w p odd lt le =
      Ok-bind _ _ (design_matrix ops w p) _ (Ok-design_matrix ops w p odd) λ a sa.
        Ok-bind _ _ (gram_matrix ops w p a) _ (Ok-gram_matrix ops w p a sa) λ g sg.
          Ok-bind _ _ (extract_column a ((w - 1) / 2)) _
            (Ok-extract_column ops w (suc p) a ((w - 1) / 2) sa (omega arith))
            λ b e. solve_system-Ok ops (suc p) g b sg (omega (arith, e))

  pub coefficients-none :
      (w p : ℕ) → w % 2 ≢ 0 → p < (w - 1) / 2 → calculate_coefficients ops w p ≡ none
  unfolding calculate_coefficients
  coefficients-none w p odd lt =
      none-after (design_matrix ops w p) (Ok-design_matrix ops w p odd) λ a sa.
        bind-none (gram_matrix ops w p a) _
          λ g. rw (extract_column-none ops w (suc p) a ((w - 1) / 2) sa (omega arith) (omega arith))
    where
      none-after :
          {A B : Type 0} {P : A → Type 0} {f : A → Option B} (o : Option A)
          → Ok P o
          → ((a : A) → P a → f a ≡ none)
          → (o >>= f) ≡ none
      none-after none h k = refl
      none-after (some a) h k = k a h

  pub make_filter-accepted :
      (w p : ℕ)
      → w % 2 ≢ 0
      → p < w
      → make_filter ops w p ≡ with_coefficients ops w p (calculate_coefficients ops w p)
  unfolding make_filter
  make_filter-accepted w p odd lt = ground arith

  pub make_filter-cases :
      (w p : ℕ)
      → ((w % 2 ≢ 0) × (p < w))
        ⊎ ((make_filter ops w p ≡ invalid_argument) × ((w % 2 ≡ 0) ⊎ (w ≤ p)))
  unfolding make_filter
  make_filter-cases w p = ground arith

  Ok-constructed :
      (w p : ℕ) (P : List F → Type 0) (o : Option (List F))
      → Ok P o
      → with_coefficients ops w p o ≢ out_of_range
  Ok-constructed w p P none h e = h
  Ok-constructed w p P (some c) h e = cc e

  -- The constructor, for a window of w values and an order p: it reads out of range exactly when its
  -- arguments are accepted (w is odd and p below w) and p is below half the window, (w - 1) / 2.
  pub make_filter-out_of_range_iff :
      (w p : ℕ) → (make_filter ops w p ≡ out_of_range) ↔ ((w % 2 ≢ 0) × (p < w) × (p < (w - 1) / 2))
  unfolding make_filter
  make_filter-out_of_range_iff w p = (
    only (make_filter-cases w p),
    λ h.
        make_filter-accepted w p h.0 h.1
        ∙ ap (with_coefficients ops w p) (coefficients-none w p h.0 h.2),
  )
    where
      only :
          ((w % 2 ≢ 0) × (p < w))
            ⊎ ((make_filter ops w p ≡ invalid_argument) × ((w % 2 ≡ 0) ⊎ (w ≤ p)))
          → make_filter ops w p ≡ out_of_range
          → (w % 2 ≢ 0) × (p < w) × (p < (w - 1) / 2)
      only (inr (e, why)) out = absurd (cc (e, out))
      only (inl (odd, lt)) out = elim (dec_lt p ((w - 1) / 2)) [
        | yes below ↦ (odd, lt, below)
        | no above ↦ absurd (
            Ok-constructed w p _ _ (coefficients-Ok w p odd lt (omega arith))
              (sym (make_filter-accepted w p odd lt) ∙ out))
      ]
