-- ===== src/Driver/Rd/SgFilter/Window.antt =====
-- src/driver/rd_driver/pg.h: the orders and windows for which the filter can be used.
use auto_drop.Prelude.{
  ℕ, suc, ◌+◌, ◌-◌, ◌/◌, ◌≤◌, ◌<◌, Option, none, some, List, [], ◌∷◌, ◌++◌, length, length-append,
  get_elem?, get_elem?-none, length-drop, ◌≡◌, ◌≢◌, ◌↔◌, ◌⊎◌, inl, inr, refl, sym, ap, subst, ◌∙◌,
  arith,
}
use native.Mathlib.Decide.{dec_lt}
use auto_drop.Prelude.Loops.{◌>>=◌, Ok, Ok-bind, Ok-for_each, for_each-none}
use auto_drop.Driver.Rd.{FloatOps, slide}
use auto_drop.Driver.Rd.SgFilter.{
  RealTimeSgFilter, with_coefficients, make_filter, apply_filter, process, process_all,
}
use auto_drop.Driver.Rd.SgFilter.Construction.{constructed}
use auto_drop.Driver.Rd.SgFilter.Access.{Ok-get}
use auto_drop.Driver.Rd.SgFilter.Order.{
  coefficients-Ok, coefficients-none, make_filter-accepted, make_filter-cases,
}

module _ {F : Type 0} (ops : FloatOps F) where
  length-slide :
      (n : ℕ) (xs : List F) (x : F)
      → length xs ≤ n
      → ((suc (length xs) ≤ n) × (length (slide n xs x) ≡ suc (length xs)))
        ⊎ ((length xs ≡ n) × (length (slide n xs x) ≡ n))
  unfolding slide
  length-slide n xs x le = ground (arith, length-append xs (x ∷ []), length-drop 1 (xs ++ x ∷ []))

  apply_filter-none :
      (f : RealTimeSgFilter F) → length f.coefficients < f.window_size → apply_filter ops f ≡ none
  unfolding apply_filter
  apply_filter-none f lt =
      for_each-none _ (length f.coefficients) 0 f.window_size _ (omega arith) (omega arith)
        λ a. rw (get_elem?-none f.coefficients (length f.coefficients) (omega arith))

  apply_filter-Ok :
      (f : RealTimeSgFilter F)
      → f.window_size ≤ length f.coefficients
      → f.window_size ≤ length f.data_window
      → Ok (λ y. Unit {0}) (apply_filter ops f)
  unfolding apply_filter
  apply_filter-Ok f lc ld =
      Ok-for_each (λ y. Unit {0}) _ 0 f.window_size _ tt
        λ i r ge lt u.
          Ok-bind _ _ (get_elem? f.coefficients i) _ (Ok-get f.coefficients i (omega arith)) λ c u.
            Ok-bind _ _ (get_elem? f.data_window i) _ (Ok-get f.data_window i (omega arith))
              λ d u. tt

  abbrev slid : RealTimeSgFilter F → F → RealTimeSgFilter F
  slid f x = record f { data_window = slide f.window_size f.data_window x }

  process-early :
      (x : F) (f : RealTimeSgFilter F)
      → suc (length f.data_window) < f.window_size
      → process ops x f ≡ some (x, slid f x)
  unfolding process
  process-early x f lt = ground (arith, length-slide f.window_size f.data_window x (omega arith))

  process-filled :
      (x : F) (f : RealTimeSgFilter F)
      → length f.data_window ≤ f.window_size
      → f.window_size ≤ suc (length f.data_window)
      → process ops x f ≡ (apply_filter ops (slid f x) >>= λ y. some (y, slid f x))
  unfolding process
  process-filled x f le ge = ground (arith, length-slide f.window_size f.data_window x le)

  -- Once the window is filled, too few coefficients are read out of range.
  process_all-none :
      (xs : List F) (f : RealTimeSgFilter F)
      → length f.coefficients < f.window_size
      → length f.data_window < f.window_size
      → f.window_size ≤ length f.data_window + length xs
      → process_all ops xs f ≡ none
  unfolding process_all
  process_all-none [] f lc ld ge = absurd (omega arith)
  process_all-none (x ∷ xs) f lc ld ge = elim (dec_lt (suc (length f.data_window)) f.window_size) [
    | yes early ↦
        let e = length-slide f.window_size f.data_window x (omega arith) in
        rw (process-early x f early)
          (process_all-none xs (slid f x) lc (omega (arith, e)) (omega (arith, e)))
    | no filled ↦
        rw (process-filled x f (omega arith) (omega arith)) (rw (apply_filter-none (slid f x) lc))
  ]

  -- With enough coefficients a value is always returned, and the window is the slid one.
  process-Ok :
      (x : F) (f : RealTimeSgFilter F)
      → f.window_size ≤ length f.coefficients
      → length f.data_window ≤ f.window_size
      → Ok (λ r. r.1 ≡ slid f x) (process ops x f)
  process-Ok x f lc ld = elim (dec_lt (suc (length f.data_window)) f.window_size) [
    | yes early ↦ subst (Ok (λ r. r.1 ≡ slid f x)) (sym (process-early x f early)) refl
    | no filled ↦
        let e = length-slide f.window_size f.data_window x ld in
        subst (Ok (λ r. r.1 ≡ slid f x)) (sym (process-filled x f ld (omega arith))) (
          Ok-bind _ _ (apply_filter ops (slid f x)) _
            (apply_filter-Ok (slid f x) lc (omega (arith, e))) λ y u. refl)
  ]

  process_all-Ok :
      (xs : List F) (f : RealTimeSgFilter F)
      → f.window_size ≤ length f.coefficients
      → length f.data_window ≤ f.window_size
      → Ok (λ g. Unit {0}) (process_all ops xs f)
  unfolding process_all
  process_all-Ok [] f lc ld = tt
  process_all-Ok (x ∷ xs) f lc ld = Ok-bind _ _ (process ops x f) _ (process-Ok x f lc ld) λ r e.
      subst (λ g. Ok (λ h. Unit {0}) (process_all ops xs g)) (sym e)
        (process_all-Ok xs (slid f x) lc
          (let l = length-slide f.window_size f.data_window x ld in omega (arith, l)))

  Ok-returns : {A : Type 0} (o : Option A) → Ok (λ a. Unit {0}) o → o ≢ none
  Ok-returns none h e = h
  Ok-returns (some a) h e = cc e

  -- What the constructor leaves.
  abbrev Made : ℕ → ℕ → RealTimeSgFilter F → Type 0
  Made w p f = (length f.coefficients ≡ suc p) × (f.window_size ≡ w) × (f.data_window ≡ [])

  constructed-Made :
      (w p : ℕ) (o : Option (List F)) (f : RealTimeSgFilter F)
      → Ok (λ c. length c ≡ suc p) o
      → with_coefficients ops w p o ≡ constructed f
      → Made w p f
  constructed-Made w p none f h e = absurd h
  constructed-Made w p (some c) f h e =
      let g : RealTimeSgFilter F = record {
        data_window = [];
        coefficients = c;
        window_size = w;
        poly_order = p;
      } in
      let same : g ≡ f = cc e in subst (Made w p) same (h, refl, refl)

  make_filter-Made :
      (w p : ℕ) (f : RealTimeSgFilter F)
      → make_filter ops w p ≡ constructed f
      → (p < w) × Made w p f
  make_filter-Made w p f made = elim (make_filter-cases ops w p) [
    | inr (e, why) ↦ absurd (cc (e, made))
    | inl (odd, lt) ↦
        let e = sym (make_filter-accepted ops w p odd lt) ∙ made in
        elim (dec_lt p ((w - 1) / 2)) [
          | yes below ↦ absurd (cc (e, coefficients-none ops w p odd below))
          | no above ↦
              (lt, constructed-Made w p _ f (coefficients-Ok ops w p odd lt (omega arith)) e)
        ]
  ]

  -- A filter that the constructor accepted for a window of w values and the order p, given at least
  -- w values one after another: every value is returned without a read out of range exactly when
  -- w = p + 1, that is when the polynomial goes through all the points and nothing is smoothed.
  pub process_all-returns_iff :
      (w p : ℕ) (f : RealTimeSgFilter F) (xs : List F)
      → make_filter ops w p ≡ constructed f
      → w ≤ length xs
      → (process_all ops xs f ≢ none) ↔ (w ≡ suc p)
  process_all-returns_iff w p f xs made long =
      let (lt, (lc, ws, dw)) = make_filter-Made w p f made in
      let empty : length f.data_window ≡ 0 = ap length dw in
      (
        λ ok. elim (dec_lt (suc p) w) [
          | yes few ↦ absurd (
              ok (
                process_all-none xs f (omega (arith, lc, ws)) (omega (arith, empty, ws))
                  (omega (arith, empty, ws))))
          | no enough ↦ omega arith
        ],
        λ e. Ok-returns _ (process_all-Ok xs f (omega (arith, lc, ws)) (omega (arith, empty, ws))),
      )
