-- ===== src/Driver/Rd/Offsets/Mean.antt =====
-- src/driver/rd_driver/pc_opt.cpp: the mean of the last offsets.
use auto_drop.Prelude.{
  ℕ, suc, ◌-◌, ◌≤◌, true, false, ltb, Option, none, some, List, [], ◌∷◌, ◌++◌, length, drop, last,
  length-append, length-drop, drop-append, drop-drop, append_assoc, append-nil, ◌≡◌, refl, sym, ap,
  subst, ◌∙◌, arith,
}
use auto_drop.Prelude.Int.{pos}
use auto_drop.Prelude.Loops.{◌>>=◌, Ok, Ok-bind}
use native.Mathlib.Decide.{dec_lt}
use auto_drop.Driver.Rd.{FloatOps, slide}
use auto_drop.Driver.Rd.Offsets.{
  Filters, sum, mean, calc_filtered_full_offset, reset_both, run_filters,
}

abbrev pub offsets : {F : Type 0} → List (Option F) → List F
offsets [] = []
offsets (none ∷ xs) = offsets xs
offsets (some x ∷ xs) = x ∷ offsets xs

module _ {F : Type 0} where
  slide-last : (n : ℕ) (xs : List F) (x : F) → 1 ≤ n → slide n (last n xs) x ≡ last n (xs ++ x ∷ [])
  unfolding slide
  slide-last n xs x le =
      let k = length xs - n in
      let grown : last n xs ++ x ∷ [] ≡ drop k (xs ++ x ∷ []) =
        sym (drop-append k xs (x ∷ []) (omega arith)) in
      let l = length-append (last n xs) (x ∷ []) in
      let m = length-drop k xs in
      let t = length-append xs (x ∷ []) in
      elim (dec_lt (length xs) n) [
        | yes few ↦
            let test : ltb n (length (last n xs ++ x ∷ [])) ≡ false = ground (arith, l, m) in
            let same : k ≡ length (xs ++ x ∷ []) - n = omega (arith, t) in
            rw test (grown ∙ ap (λ j. drop j (xs ++ x ∷ [])) same)
        | no many ↦
            let test : ltb n (length (last n xs ++ x ∷ [])) ≡ true = ground (arith, l, m) in
            let same : suc k ≡ length (xs ++ x ∷ []) - n = omega (arith, t) in
            rw test (
              ap (drop 1) grown ∙ drop-drop k (xs ++ x ∷ []) ∙ ap (λ j. drop j (xs ++ x ∷ [])) same)
      ]

nothing_last : {A : Type 0} (n : ℕ) → [] ≡ last {A = A} n []
nothing_last {A} n = ap (λ k. drop {A = A} k []) (let e : 0 ≡ 0 - n = omega arith in e)

module _ {F : Type 0} (ops : FloatOps F) where
  calc-mean :
      (n : ℕ) (x : F) (s : Filters F)
      → 2 ≤ n
      → calc_filtered_full_offset ops x (pos n) s
        ≡ some (
          mean ops (slide n s.full_offset_array x),
          record s { full_offset_array = slide n s.full_offset_array x },
        )
  unfolding calc_filtered_full_offset
  calc-mean n x s le = ground arith

  run_filters-last :
      (n : ℕ) (xs : List (Option F)) (past : List F) (s : Filters F)
      → 2 ≤ n
      → s.full_offset_array ≡ last n past
      → Ok (λ s'. s'.full_offset_array ≡ last n (past ++ offsets xs)) (run_filters ops (pos n) xs s)
  unfolding run_filters reset_both
  run_filters-last n [] past s le e = e ∙ ap (last n) (sym (append-nil past))
  run_filters-last n (none ∷ xs) past s le e = run_filters-last n xs past (reset_both ops s) le e
  run_filters-last n (some x ∷ xs) past s le e =
      let slid = slide n s.full_offset_array x in
      rw (calc-mean n x s le) (
        subst
          (λ l.
            Ok (λ s'. s'.full_offset_array ≡ last n l)
              (run_filters ops (pos n) xs (record s { full_offset_array = slid })))
          (append_assoc past (x ∷ []) (offsets xs))
          (run_filters-last n xs (past ++ x ∷ []) (record s { full_offset_array = slid }) le
            (ap (λ l. slide n l x) e ∙ slide-last n past x (omega arith))))

  -- The sum of the values, from the left, over their number.
  abbrev add_up : F → List F → F
  add_up total [] = total
  add_up total (x ∷ xs) = add_up (ops.add total x) xs

  abbrev pub average : List F → F
  average xs = ops.div (add_up ops.zero_f xs) (ops.of_int (pos (length xs)))

  sum-add_up : (xs : List F) (total : F) → sum ops xs total ≡ add_up total xs
  sum-add_up [] total = refl
  sum-add_up (x ∷ xs) total = sum-add_up xs (ops.add total x)

  mean-average : (xs : List F) → mean ops xs ≡ average xs
  unfolding mean
  mean-average xs = ap (λ t. ops.div t (ops.of_int (pos (length xs)))) (sum-add_up xs ops.zero_f)

  -- filter_length n of at least 2, starting with no offsets: after any offsets and any resets for
  -- vehicles that are gone, in any order, the next offset x is answered with the mean of the last n
  -- offsets, x and those of the vehicles before included: a reset does not shorten the history.
  pub calc_filtered-mean :
      (n : ℕ) (xs : List (Option F)) (x : F) (s : Filters F)
      → 2 ≤ n
      → s.full_offset_array ≡ []
      → Ok
          (λ r. r.0 ≡ average (last n (offsets xs ++ x ∷ [])))
          (run_filters ops (pos n) xs s >>= calc_filtered_full_offset ops x (pos n))
  calc_filtered-mean n xs x s le e =
      Ok-bind _ _ (run_filters ops (pos n) xs s) _
        (run_filters-last n xs [] s le (e ∙ nothing_last n))
        λ s' k. rw (calc-mean n x s' le) (
          ap (mean ops) (ap (λ l. slide n l x) k ∙ slide-last n (offsets xs) x (omega arith))
          ∙ mean-average (last n (offsets xs ++ x ∷ [])))
