-- ===== src/Driver/Rd/SgFilter.antt =====
-- src/driver/rd_driver/pg.h: the Savitzky-Golay filter. Every access of a vector is checked: `none`
-- is an index out of range. A polynomial order is taken to be at least 0.
pub mod Access
pub mod Order
pub mod Solve
pub mod Window
use auto_drop.Prelude.{
  ℕ, zero, suc, ◌+◌, ◌-◌, ◌*◌, ◌/◌, ◌%◌, Bool, true, false, if◌then◌else◌, ltb, leb, ◌==◌, Option,
  none, some, List, [], ◌∷◌, length, get_elem?,
}
use auto_drop.Prelude.Int.{ℤ, pos, ◌-ℤ◌}
use auto_drop.Prelude.Loops.{◌>>=◌, for_each, set_elem?, replicate}
use auto_drop.Driver.Rd.{FloatOps, slide}

abbrev pub Matrix : Type 0 → Type 0
Matrix F = List (List F)

module _ {F : Type 0} where
  unfoldable pub read : Matrix F → ℕ → ℕ → Option F
  read m i j = do row ← get_elem? m i; get_elem? row j

  unfoldable pub write : Matrix F → ℕ → ℕ → F → Option (Matrix F)
  write m i j x = do row ← get_elem? m i; row' ← set_elem? row j x; set_elem? m i row'

  unfoldable pub swap_rows : ℕ → ℕ → Matrix F → Option (Matrix F)
  swap_rows i k m = do a ← get_elem? m i; b ← get_elem? m k; m' ← set_elem? m i b; set_elem? m' k a

  -- The loop over the rows that are left.
  unfoldable pub extract_column : Matrix F → ℕ → Option (List F)
  extract_column [] col = some []
  extract_column (row ∷ rows) col = do
    x ← get_elem? row col
    xs ← extract_column rows col
    some (x ∷ xs)

module _ {F : Type 0} (ops : FloatOps F) where
  unfoldable pub augment : Matrix F → List F → ℕ → Option (Matrix F)
  unfolding for_each read write
  augment a b n =
      for_each
        (λ i m. do
          m' ← for_each (λ j m. do x ← read a i j; write m i j x) 0 n m
          y ← get_elem? b i
          write m' i n y)
        0 n (replicate n (replicate (suc n) ops.zero_f))

  unfoldable pub pivot_row : ℕ → ℕ → Matrix F → Option ℕ
  unfolding for_each read
  pivot_row n i m =
      for_each
        (λ k best. do
          x ← read m k i
          y ← read m best i
          some (if ops.lt (ops.abs y) (ops.abs x) then k else best))
        (suc i) (n - suc i) i

  unfoldable pub eliminate_row : ℕ → ℕ → ℕ → Matrix F → Option (Matrix F)
  unfolding for_each read write
  eliminate_row n i k m = do
    x ← read m k i
    y ← read m i i
    let factor = ops.div x y
    for_each (λ j m. do v ← read m k j; w ← read m i j; write m k j (ops.sub v (ops.mul factor w)))
        i (suc n - i) m

  unfoldable pub forward_elimination : ℕ → Matrix F → Option (Matrix F)
  unfolding for_each pivot_row swap_rows eliminate_row
  forward_elimination n m =
      for_each
        (λ i m. do
          max_row ← pivot_row n i m
          m' ← swap_rows i max_row m
          for_each (eliminate_row n i) (suc i) (n - suc i) m')
        0 n m

  -- One round of the last loop, at i = n - 1 - t.
  unfoldable pub back_substitute : ℕ → Matrix F → ℕ → List F → Option (List F)
  unfolding for_each read
  back_substitute n m t x = do
    let i = n - suc t
    v ← read m i n
    x' ← set_elem? x i v
    x'' ←
        for_each
          (λ j x. do
            s ← get_elem? x i
            w ← read m i j
            y ← get_elem? x j
            set_elem? x i (ops.sub s (ops.mul w y)))
          (suc i) (n - suc i) x'
    s ← get_elem? x'' i
    d ← read m i i
    set_elem? x'' i (ops.div s d)

  unfoldable pub solve_system : Matrix F → List F → Option (List F)
  unfolding augment forward_elimination for_each back_substitute
  solve_system a b = do
    let n = length a
    augmented ← augment a b n
    m ← forward_elimination n augmented
    for_each (back_substitute n m) 0 n (replicate n ops.zero_f)

  -- The loop over i from -m to m stands at the row k = i + m.
  unfoldable pub design_entry : ℕ → ℕ → ℕ → Matrix F → Option (Matrix F)
  unfolding write ◌-ℤ◌
  design_entry m k j a = write a k j (ops.pow (ops.of_int (pos k -ℤ pos m)) (ops.of_int (pos j)))

  unfoldable pub design_row : ℕ → ℕ → ℕ → Matrix F → Option (Matrix F)
  unfolding for_each design_entry
  design_row poly_order m k a = for_each (design_entry m k) 0 (suc poly_order) a

  unfoldable pub design_matrix : ℕ → ℕ → Option (Matrix F)
  unfolding for_each design_row
  design_matrix window_size poly_order =
      let m = (window_size - 1) / 2 in
      for_each (design_row poly_order m) 0 (suc (m + m))
        (replicate window_size (replicate (suc poly_order) ops.zero_f))

  unfoldable pub gram_term : Matrix F → ℕ → ℕ → ℕ → Matrix F → Option (Matrix F)
  unfolding read write
  gram_term a i j k g = do
    s ← read g i j
    x ← read a k i
    y ← read a k j
    write g i j (ops.add s (ops.mul x y))

  unfoldable pub gram_row : ℕ → ℕ → Matrix F → ℕ → Matrix F → Option (Matrix F)
  unfolding for_each gram_term
  gram_row window_size poly_order a i g =
      for_each (λ j g. for_each (gram_term a i j) 0 window_size g) 0 (suc poly_order) g

  unfoldable pub gram_matrix : ℕ → ℕ → Matrix F → Option (Matrix F)
  unfolding for_each gram_row
  gram_matrix window_size poly_order a =
      for_each (gram_row window_size poly_order a) 0 (suc poly_order)
        (replicate (suc poly_order) (replicate (suc poly_order) ops.zero_f))

  unfoldable pub calculate_coefficients : ℕ → ℕ → Option (List F)
  unfolding design_matrix gram_matrix extract_column solve_system
  calculate_coefficients window_size poly_order = do
    a ← design_matrix window_size poly_order
    g ← gram_matrix window_size poly_order a
    b ← extract_column a ((window_size - 1) / 2)
    solve_system g b

pub record RealTimeSgFilter (F : Type 0) : Type 0 where
  pub data_window : List F
  pub coefficients : List F
  pub window_size : ℕ
  pub poly_order : ℕ

-- How the constructor ends.
pub data Construction (F : Type 0) : Type 0 where
  invalid_argument : Construction F
  out_of_range : Construction F
  constructed : RealTimeSgFilter F → Construction F

module _ {F : Type 0} (ops : FloatOps F) where
  abbrev pub with_coefficients : ℕ → ℕ → Option (List F) → Construction F
  with_coefficients window_size poly_order none = out_of_range
  with_coefficients window_size poly_order (some c) = constructed (record {
    data_window = [];
    coefficients = c;
    window_size = window_size;
    poly_order = poly_order;
  })

  unfoldable pub make_filter : ℕ → ℕ → Construction F
  unfolding calculate_coefficients
  make_filter window_size poly_order =
      if window_size % 2 == 0
      then invalid_argument
      else if leb window_size poly_order
      then invalid_argument
      else with_coefficients window_size poly_order
          (calculate_coefficients ops window_size poly_order)

  unfoldable pub apply_filter : RealTimeSgFilter F → Option F
  unfolding for_each
  apply_filter f =
      for_each
        (λ i result. do
          c ← get_elem? f.coefficients i
          d ← get_elem? f.data_window i
          some (ops.add result (ops.mul c d)))
        0 f.window_size ops.zero_f

  unfoldable pub process : F → RealTimeSgFilter F → Option (F × RealTimeSgFilter F)
  unfolding slide apply_filter
  process input f =
      let window = slide f.window_size f.data_window input in
      let f' = record f { data_window = window } in
      if ltb (length window) f.window_size
      then some (input, f')
      else do y ← apply_filter f'; some (y, f')

  unfoldable pub reset : RealTimeSgFilter F → RealTimeSgFilter F
  reset f = record f { data_window = [] }

  unfoldable pub is_ready : RealTimeSgFilter F → Bool
  is_ready f = leb f.window_size (length f.data_window)

  -- A sequence of inputs.
  unfoldable pub process_all : List F → RealTimeSgFilter F → Option (RealTimeSgFilter F)
  unfolding process
  process_all [] f = some f
  process_all (x ∷ xs) f = do (y, f') ← process x f; process_all xs f'
