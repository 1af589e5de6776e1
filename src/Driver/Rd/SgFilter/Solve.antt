-- ===== src/Driver/Rd/SgFilter/Solve.antt =====
-- src/driver/rd_driver/pg.h: which accesses of the matrices are in range.
use auto_drop.Prelude.{
  ℕ, suc, ◌+◌, ◌-◌, ◌/◌, ◌%◌, ◌≤◌, ◌<◌, Bool, true, false, if◌then◌else◌, none, List, [], ◌∷◌,
  length, get_elem?, get_elem?-none, ◌≡◌, ◌≢◌, refl, sym, ap, subst, ◌∙◌, arith,
}
use auto_drop.Prelude.Loops.{◌>>=◌, for_each, set_elem?, Ok, Ok-bind, Ok-for_each, length-replicate}
use auto_drop.Driver.Rd.{FloatOps}
use auto_drop.Driver.Rd.SgFilter.{
  Matrix, read, write, swap_rows, extract_column, augment, pivot_row, eliminate_row,
  forward_elimination, back_substitute, solve_system, design_entry, design_row, design_matrix,
  gram_term, gram_row, gram_matrix,
}
use auto_drop.Driver.Rd.SgFilter.Access.{
  Shape, Ok-get, Ok-set, Ok-read, Ok-write, Ok-swap_rows, Shape-zeros,
}

module _ {F : Type 0} (ops : FloatOps F) where
  Ok-augment :
      (n : ℕ) (a : Matrix F) (b : List F)
      → Shape n n a
      → n ≤ length b
      → Ok (Shape n (suc n)) (augment ops a b n)
  unfolding augment
  Ok-augment n a b sh le =
      Ok-for_each (Shape n (suc n)) _ 0 n _ (Shape-zeros n (suc n) _) λ i m ge below sm.
        let lt : i < n = omega arith in
        Ok-bind _ _ (for_each (λ j m. do x ← read a i j; write m i j x) 0 n m) _
          (Ok-for_each (Shape n (suc n)) _ 0 n m sm λ j m ge below sm.
            let lj : j < n = omega arith in
            Ok-bind _ _ (read a i j) _ (Ok-read n n a i j sh lt lj)
              λ x u. Ok-write n (suc n) m i j x sm lt (omega arith))
          λ m' sm'.
            Ok-bind _ _ (get_elem? b i) _ (Ok-get b i (omega arith))
              λ y u. Ok-write n (suc n) m' i n y sm' lt (omega arith)

  Ok-pivot_row :
      (n i : ℕ) (m : Matrix F) → Shape n (suc n) m → i < n → Ok (λ k. k < n) (pivot_row ops n i m)
  unfolding pivot_row
  Ok-pivot_row n i m sh lt =
      Ok-for_each (λ k. k < n) _ (suc i) (n - suc i) i lt
        λ k best ge lk lb.
          Ok-bind _ _ (read m k i) _ (Ok-read n (suc n) m k i sh (omega arith) (omega arith)) λ x u.
            Ok-bind _ _ (read m best i) _ (Ok-read n (suc n) m best i sh lb (omega arith))
              λ y u. below (ops.lt (ops.abs y) (ops.abs x)) (omega arith) lb
    where
      below : {n a b : ℕ} (t : Bool) → a < n → b < n → (if t then a else b) < n
      below true h k = h
      below false h k = k

  Ok-eliminate_row :
      (n i k : ℕ) (m : Matrix F)
      → Shape n (suc n) m
      → i < n
      → k < n
      → Ok (Shape n (suc n)) (eliminate_row ops n i k m)
  unfolding eliminate_row
  Ok-eliminate_row n i k m sh li lk =
      Ok-bind _ _ (read m k i) _ (Ok-read n (suc n) m k i sh lk (omega arith)) λ x u.
        Ok-bind _ _ (read m i i) _ (Ok-read n (suc n) m i i sh li (omega arith)) λ y u.
          Ok-for_each (Shape n (suc n)) _ i (suc n - i) m sh λ j m ge lj sm.
            Ok-bind _ _ (read m k j) _ (Ok-read n (suc n) m k j sm lk (omega arith)) λ v u.
              Ok-bind _ _ (read m i j) _ (Ok-read n (suc n) m i j sm li (omega arith))
                λ w u. Ok-write n (suc n) m k j _ sm lk (omega arith)

  Ok-forward_elimination :
      (n : ℕ) (m : Matrix F)
      → Shape n (suc n) m
      → Ok (Shape n (suc n)) (forward_elimination ops n m)
  unfolding forward_elimination
  Ok-forward_elimination n m sh = Ok-for_each (Shape n (suc n)) _ 0 n m sh λ i m ge below sm.
      let li : i < n = omega arith in
      Ok-bind _ _ (pivot_row ops n i m) _ (Ok-pivot_row n i m sm li) λ k lk.
        Ok-bind _ _ (swap_rows i k m) _ (Ok-swap_rows n (suc n) m i k sm li lk) λ m' sm'.
          Ok-for_each (Shape n (suc n)) _ (suc i) (n - suc i) m' sm'
            λ k m ge lk sm. Ok-eliminate_row n i k m sm li (omega arith)

  Ok-back_substitute :
      (n t : ℕ) (m : Matrix F) (x : List F)
      → Shape n (suc n) m
      → length x ≡ n
      → t < n
      → Ok (λ y. length y ≡ n) (back_substitute ops n m t x)
  unfolding back_substitute
  Ok-back_substitute n t m x sh e lt =
      let i = n - suc t in
      let li : i < n = omega arith in
      Ok-bind _ _ (read m i n) _ (Ok-read n (suc n) m i n sh li (omega arith)) λ v u.
        Ok-bind _ _ (set_elem? x i v) _ (Ok-set n x i v e li) λ x' e'.
          Ok-bind (λ y. length y ≡ n) _ _ _
            (Ok-for_each (λ y. length y ≡ n) _ (suc i) (n - suc i) x' e'
              λ j x ge lj ex. Ok-bind _ _ (get_elem? x i) _ (Ok-get x i (omega (arith, ex))) λ s u.
                Ok-bind _ _ (read m i j) _ (Ok-read n (suc n) m i j sh li (omega arith)) λ w u.
                  Ok-bind _ _ (get_elem? x j) _ (Ok-get x j (omega (arith, ex)))
                    λ y u. Ok-set n x i _ ex li)
            λ x'' e''. Ok-bind _ _ (get_elem? x'' i) _ (Ok-get x'' i (omega (arith, e''))) λ s u.
              Ok-bind _ _ (read m i i) _ (Ok-read n (suc n) m i i sh li (omega arith))
                λ d u. Ok-set n x'' i _ e'' li

  Ok-solve :
      (a : Matrix F) (b : List F)
      → Shape (length a) (length a) a
      → length a ≤ length b
      → Ok (λ x. length x ≡ length a) (solve_system ops a b)
  unfolding solve_system
  Ok-solve a b sh le =
      let n = length a in
      Ok-bind _ _ (augment ops a b n) _ (Ok-augment n a b sh le) λ m sm.
        Ok-bind _ _ (forward_elimination ops n m) _ (Ok-forward_elimination n m sm) λ m' sm'.
          Ok-for_each (λ x. length x ≡ n) _ 0 n _ (length-replicate n _)
            λ t x ge lt ex. Ok-back_substitute n t m' x sm' ex (omega arith)

  -- For n rows of n entries and at least n right-hand sides, no access of solveSystem is out of
  -- range, and it returns n values: the building of the augmented matrix, the choice of pivots with
  -- the swap of rows, the elimination and the substitution backwards, whatever the numbers are.
  pub solve_system-Ok :
      (n : ℕ) (a : Matrix F) (b : List F)
      → Shape n n a
      → n ≤ length b
      → Ok (λ x. length x ≡ n) (solve_system ops a b)
  solve_system-Ok n a b sh le =
      subst (λ n. Ok (λ x. length x ≡ n) (solve_system ops a b)) sh.0
        (Ok-solve a b (subst (λ n. Shape n n a) (sym sh.0) sh) (omega (arith, sh.0)))

module _ {F : Type 0} (ops : FloatOps F) where
  Ok-design_row :
      (w p m k : ℕ) (a : Matrix F)
      → Shape w (suc p) a
      → k < w
      → Ok (Shape w (suc p)) (design_row ops p m k a)
  unfolding design_row design_entry
  Ok-design_row w p m k a sa lt =
      Ok-for_each (Shape w (suc p)) (design_entry ops m k) 0 (suc p) a sa
        λ j a ge lj sa. Ok-write w (suc p) a k j _ sa lt (omega arith)

  pub Ok-design_matrix : (w p : ℕ) → w % 2 ≢ 0 → Ok (Shape w (suc p)) (design_matrix ops w p)
  unfolding design_matrix
  Ok-design_matrix w p odd =
      let m = (w - 1) / 2 in
      Ok-for_each (Shape w (suc p)) (design_row ops p m) 0 (suc (m + m)) _
        (Shape-zeros w (suc p) ops.zero_f) λ k a ge lk sa. Ok-design_row w p m k a sa (omega arith)

  Ok-gram_term :
      (w n : ℕ) (a : Matrix F) (i j k : ℕ) (g : Matrix F)
      → Shape w n a
      → Shape n n g
      → i < n
      → j < n
      → k < w
      → Ok (Shape n n) (gram_term ops a i j k g)
  unfolding gram_term
  Ok-gram_term w n a i j k g sa sg li lj lk =
      Ok-bind _ _ (read g i j) _ (Ok-read n n g i j sg li lj) λ s u.
        Ok-bind _ _ (read a k i) _ (Ok-read w n a k i sa lk li) λ x u.
          Ok-bind _ _ (read a k j) _ (Ok-read w n a k j sa lk lj)
            λ y u. Ok-write n n g i j _ sg li lj

  Ok-gram_row :
      (w p : ℕ) (a : Matrix F) (i : ℕ) (g : Matrix F)
      → Shape w (suc p) a
      → Shape (suc p) (suc p) g
      → i < suc p
      → Ok (Shape (suc p) (suc p)) (gram_row ops w p a i g)
  unfolding gram_row
  Ok-gram_row w p a i g sa sg li =
      Ok-for_each (Shape (suc p) (suc p)) (λ j g. for_each (gram_term ops a i j) 0 w g) 0 (suc p) g
        sg
        λ j g ge lj sg.
          Ok-for_each (Shape (suc p) (suc p)) (gram_term ops a i j) 0 w g sg
            λ k g ge lk sg. Ok-gram_term w (suc p) a i j k g sa sg li (omega arith) (omega arith)

  pub Ok-gram_matrix :
      (w p : ℕ) (a : Matrix F)
      → Shape w (suc p) a
      → Ok (Shape (suc p) (suc p)) (gram_matrix ops w p a)
  unfolding gram_matrix
  Ok-gram_matrix w p a sa =
      Ok-for_each (Shape (suc p) (suc p)) (gram_row ops w p a) 0 (suc p) _
        (Shape-zeros (suc p) (suc p) ops.zero_f)
        λ i g ge li sg. Ok-gram_row w p a i g sa sg (omega arith)

  pub Ok-extract_column :
      (r c : ℕ) (a : Matrix F) (m : ℕ)
      → Shape r c a
      → m < c
      → Ok (λ b. length b ≡ r) (extract_column a m)
  unfolding extract_column
  Ok-extract_column r c [] m sh lt = sh.0
  Ok-extract_column r c (row ∷ rows) m sh lt =
      Ok-bind _ _ (get_elem? row m) _ (Ok-get row m (omega (arith, sh.1.0))) λ x u.
        Ok-bind _ _ (extract_column rows m) _
          (Ok-extract_column (length rows) c rows m (refl, sh.1.1) lt) λ xs e. ap suc e ∙ sh.0

  pub extract_column-none :
      (r c : ℕ) (a : Matrix F) (m : ℕ) → Shape r c a → c ≤ m → 0 < r → extract_column a m ≡ none
  unfolding extract_column
  extract_column-none r c [] m sh le lt = absurd (omega (arith, sh.0))
  extract_column-none r c (row ∷ rows) m sh le lt =
      rw (get_elem?-none row m (omega (arith, sh.1.0)))
