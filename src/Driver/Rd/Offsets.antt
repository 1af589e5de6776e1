-- ===== src/Driver/Rd/Offsets.antt =====
-- src/driver/rd_driver/lp_filter.h and calc_filtered_full_offset of pc_opt.cpp: the filters of the
-- offset by which a vehicle is judged full. g_sg_filter, g_lp_filter and g_full_offset_array live as
-- long as the driver.
pub mod Mean
use auto_drop.Prelude.{
  ℕ, ◌+◌, Bool, true, false, if◌then◌else◌, leb, Option, none, some, List, [], ◌∷◌, length,
}
use auto_drop.Prelude.Int.{ℤ, pos, pos_part, ltb_ℤ, eqb_ℤ}
use auto_drop.Prelude.Loops.{◌>>=◌}
use auto_drop.Driver.Rd.{FloatOps, slide}
use auto_drop.Driver.Rd.SgFilter.{RealTimeSgFilter, process, reset}

pub record LowPassFilter (F : Type 0) : Type 0 where
  pub alpha : F
  pub prev_output : F
  pub initialized : Bool

pub record Filters (F : Type 0) : Type 0 where
  pub sg_filter : RealTimeSgFilter F
  pub lp_filter : LowPassFilter F
  pub full_offset_array : List F

module _ {F : Type 0} (ops : FloatOps F) where
  unfoldable pub filter : F → LowPassFilter F → F × LowPassFilter F
  filter input f =
      let prev = if f.initialized then f.prev_output else input in
      let output =
        ops.add (ops.mul f.alpha input) (ops.mul (ops.sub (ops.of_int (pos 1)) f.alpha) prev) in
      (output, record f { prev_output = output; initialized = true })

  unfoldable pub reset_lp : LowPassFilter F → LowPassFilter F
  reset_lp f = record f { prev_output = ops.zero_f; initialized = false }

  -- filter of a vector
  unfoldable pub filter_all : List F → LowPassFilter F → List F × LowPassFilter F
  unfolding filter
  filter_all [] f = ([], f)
  filter_all (x ∷ xs) f =
      let (y, f') = filter x f in let (ys, f'') = filter_all xs f' in (y ∷ ys, f'')

  abbrev pub sum : List F → F → F
  sum [] s = s
  sum (x ∷ xs) s = sum xs (ops.add s x)

  unfoldable pub mean : List F → F
  mean xs = ops.div (sum xs ops.zero_f) (ops.of_int (pos (length xs)))

  -- filter_length 1 is the low pass, above it the mean of the last ones, below it the polynomial.
  unfoldable pub calc_filtered_full_offset : F → ℤ → Filters F → Option (F × Filters F)
  unfolding filter slide mean process
  calc_filtered_full_offset x filter_length s =
      if eqb_ℤ filter_length (pos 1)
      then some ((filter x s.lp_filter).0, record s { lp_filter = (filter x s.lp_filter).1 })
      else if ltb_ℤ (pos 1) filter_length
      then (let array = slide (pos_part filter_length) s.full_offset_array x in
          some (mean array, record s { full_offset_array = array }))
      else do (y, f) ← process ops x s.sg_filter; some (y, record s { sg_filter = f })

  -- The two calls with which a vehicle that is gone is forgotten.
  unfoldable pub reset_both : Filters F → Filters F
  unfolding reset_lp reset
  reset_both s = record s { lp_filter = reset_lp s.lp_filter; sg_filter = reset ops s.sg_filter }

  -- Offsets one after another; `none` is such a reset.
  unfoldable pub run_filters : ℤ → List (Option F) → Filters F → Option (Filters F)
  unfolding calc_filtered_full_offset reset_both
  run_filters filter_length [] s = some s
  run_filters filter_length (none ∷ xs) s = run_filters filter_length xs (reset_both s)
  run_filters filter_length (some x ∷ xs) s = do
    (y, s') ← calc_filtered_full_offset x filter_length s
    run_filters filter_length xs s'
