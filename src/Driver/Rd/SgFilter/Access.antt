-- ===== src/Driver/Rd/SgFilter/Access.antt =====
-- src/driver/rd_driver/pg.h: accesses of a matrix within its rows and columns.
use auto_drop.Prelude.{ℕ, ◌<◌, List, All, length, get_elem?, ◌≡◌, ◌∙◌, arith}
use auto_drop.Prelude.Loops.{
  set_elem?, replicate, Ok, Ok-bind, Ok-weaken, Ok-get_elem?, Ok-set_elem?, All-replicate,
  length-replicate, All-unit,
}
use auto_drop.Driver.Rd.SgFilter.{Matrix, read, write, swap_rows}

-- r rows of c entries
abbrev pub Shape : {F : Type 0} → ℕ → ℕ → Matrix F → Type 0
Shape r c m = (length m ≡ r) × All (λ row. length row ≡ c) m

module _ {F : Type 0} where
  pub Ok-get : (xs : List F) (i : ℕ) → i < length xs → Ok (λ x. Unit {0}) (get_elem? xs i)
  Ok-get xs i lt = Ok-get_elem? (λ x. Unit {0}) xs i (All-unit xs) lt

  pub Ok-set :
      (n : ℕ) (xs : List F) (i : ℕ) (v : F)
      → length xs ≡ n
      → i < n
      → Ok (λ ys. length ys ≡ n) (set_elem? xs i v)
  Ok-set n xs i v e lt =
      Ok-weaken _ _ (set_elem? xs i v)
        (Ok-set_elem? (λ x. Unit {0}) xs i v (All-unit xs) tt (omega (arith, e))) λ ys h. h.0 ∙ e

  pub Ok-get_row :
      (r c : ℕ) (m : Matrix F) (i : ℕ)
      → Shape r c m
      → i < r
      → Ok (λ row. length row ≡ c) (get_elem? m i)
  Ok-get_row r c m i sh li = Ok-get_elem? (λ row. length row ≡ c) m i sh.1 (omega (arith, sh.0))

  pub Ok-read :
      (r c : ℕ) (m : Matrix F) (i j : ℕ)
      → Shape r c m
      → i < r
      → j < c
      → Ok (λ x. Unit {0}) (read m i j)
  unfolding read
  Ok-read r c m i j sh li lj =
      Ok-bind _ _ (get_elem? m i) _ (Ok-get_row r c m i sh li)
        λ row e. Ok-get row j (omega (arith, e))

  pub Ok-set_row :
      (r c : ℕ) (m : Matrix F) (i : ℕ) (row : List F)
      → Shape r c m
      → length row ≡ c
      → i < r
      → Ok (Shape r c) (set_elem? m i row)
  Ok-set_row r c m i row sh e li =
      Ok-weaken _ _ (set_elem? m i row)
        (Ok-set_elem? (λ row. length row ≡ c) m i row sh.1 e (omega (arith, sh.0)))
        λ m' h. (h.0 ∙ sh.0, h.1)

  pub Ok-write :
      (r c : ℕ) (m : Matrix F) (i j : ℕ) (x : F)
      → Shape r c m
      → i < r
      → j < c
      → Ok (Shape r c) (write m i j x)
  unfolding write
  Ok-write r c m i j x sh li lj = Ok-bind _ _ (get_elem? m i) _ (Ok-get_row r c m i sh li) λ row e.
      Ok-bind _ _ (set_elem? row j x) _ (Ok-set c row j x e lj)
        λ row' e'. Ok-set_row r c m i row' sh e' li

  pub Ok-swap_rows :
      (r c : ℕ) (m : Matrix F) (i k : ℕ)
      → Shape r c m
      → i < r
      → k < r
      → Ok (Shape r c) (swap_rows i k m)
  unfolding swap_rows
  Ok-swap_rows r c m i k sh li lk = Ok-bind _ _ (get_elem? m i) _ (Ok-get_row r c m i sh li) λ a ea.
      Ok-bind _ _ (get_elem? m k) _ (Ok-get_row r c m k sh lk) λ b eb.
        Ok-bind _ _ (set_elem? m i b) _ (Ok-set_row r c m i b sh eb li)
          λ m' sh'. Ok-set_row r c m' k a sh' ea lk

  pub Shape-zeros : (r c : ℕ) (z : F) → Shape r c (replicate r (replicate c z))
  Shape-zeros r c z = (
    length-replicate r (replicate c z),
    All-replicate (λ row. length row ≡ c) r (replicate c z) (length-replicate c z),
  )
