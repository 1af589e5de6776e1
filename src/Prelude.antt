-- ===== src/Prelude.antt =====
-- The names that the other modules share: the libraries' names, passed on, and those of the children.
mod Tests
mod Lists
mod Text
pub mod Decimal
mod Maps
pub mod Int
pub mod Loops
pub use Tests.*
pub use Lists.*
unfoldable pub use Text.{Str, str_beq, codes}
pub use Text.{str_beq_iff}
unfoldable pub use Maps.{◌===◌, nat_eq, str_eq, Dict, lookup, insert, erase, has, keys, is_some}
pub use Maps.{Eq, lookup-insert, lookup-erase, has-insert, has-erase, has-lookup}
pub use Prim.Native.Nat.{ℕ, zero, suc, ◌+◌, ◌-◌, ◌*◌, ◌/◌, ◌%◌, ◌^◌, ◌≤◌, ◌<◌, min}
pub use mathlib.Core.Path.{◌≡◌, refl, sym, ap, subst, ◌∙◌}
pub use mathlib.Core.Logic.{◌≢◌, ◌↔◌, ◌⊎◌, inl, inr}
pub use mathlib.Core.Bool.{Bool, true, false, not, ◌&&◌, ◌||◌}
pub use mathlib.Core.Option.{Option, none, some}
pub use mathlib.Core.List.{List, [], ◌∷◌, ◌++◌, map, append_assoc, append-nil}
pub use mathlib.Core.List.{Permᴰ}
pub use native.Mathlib.Omega.{arith}
