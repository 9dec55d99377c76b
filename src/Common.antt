-- ===== src/Common.antt =====
-- The names that the other modules share: the libraries', passed on, and those of the children.
mod Bools
mod Lists
pub mod Order
pub mod Bits
pub mod Map
pub mod Int
pub mod Positions
pub mod Outcome
pub mod Find
mod Strings
pub use Bools.*
pub use Lists.*
pub use Strings.{Bytes, Avoids, codes, str_eq_iff, str_eq_self, bytes_key, nat_key}
unfoldable pub use Bools.{all_below}
unfoldable pub use Strings.{str_eq, str_below}
pub use Prim.Native.Nat.{ℕ, zero, suc, ◌+◌, ◌-◌, ◌*◌, ◌/◌, ◌%◌, ◌^◌, ◌≤◌, ◌<◌}
pub use mathlib.Core.Path.{◌≡◌, refl, sym, ap, ◌∙◌}
pub use mathlib.Core.Logic.{◌≢◌, ◌↔◌, ◌⊎◌, inl, inr}
pub use mathlib.Core.Bool.{Bool, true, false, not, ◌&&◌, ◌||◌}
pub use mathlib.Core.Option.{Option, none, some}
pub use mathlib.Core.List.{List, [], ◌∷◌, ◌++◌, map}
pub use native.Mathlib.Omega.{arith}
