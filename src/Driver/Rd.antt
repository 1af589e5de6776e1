-- ===== src/Driver/Rd.antt =====
-- src/driver/rd_driver: what the lidar driver computes itself. The point cloud library, the lidar
-- SDK and the ini reader are not under src/: what is used of them is an argument.
pub mod SgFilter
pub mod Offsets
pub mod Cloud
pub mod Position
pub mod Detect
mod Examples
use auto_drop.Prelude.{ℕ, Bool, if◌then◌else◌, ltb, List, [], ◌∷◌, ◌++◌, length, drop}
use auto_drop.Prelude.Int.{ℤ}

-- float or double: the instructions, and the functions of <cmath>.
pub record FloatOps (F : Type 0) : Type 0 where
  pub zero_f : F
  pub of_int : ℤ → F
  pub add : F → F → F
  pub sub : F → F → F
  pub mul : F → F → F
  pub div : F → F → F
  pub neg : F → F
  pub lt : F → F → Bool
  pub le : F → F → Bool
  pub eq : F → F → Bool
  pub abs : F → F
  pub pow : F → F → F
  pub lowest : F
  pub highest : F

-- push_back, and the first element erased when there are more than n.
unfoldable pub slide : {A : Type 0} → ℕ → List A → A → List A
slide n xs x = let grown = xs ++ x ∷ [] in if ltb n (length grown) then drop 1 grown else grown
