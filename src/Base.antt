-- ===== src/Base.antt =====
-- The names that the other modules share: the libraries', passed on, and those of the children.
mod Tests
mod Lists
mod Assoc
mod Order
mod ByteString
pub mod Int
pub mod Int64
pub use Tests.*
unfoldable pub use Assoc.{lookup, insert, erase}
pub use Assoc.*
pub use Lists.*
pub use Order.*
unfoldable pub use ByteString.{compare_bytes, bytes_eq}
pub use ByteString.{
  Bytes, codes, compare_bytes-IsTotal, compare_bytes_refl, bytes_eq_iff, bytes_eq_refl, IsWithout,
  split_sep,
}
pub use Prim.Native.Nat.{ℕ, zero, suc, ◌+◌, ◌-◌, ◌*◌, ◌/◌, ◌%◌, ◌^◌, ◌≤◌, ◌<◌, compare, Ordering}
pub use Prim.Native.Nat.Ordering.{lt, eq, gt}
pub use mathlib.Core.Path.{◌≡◌, refl, sym, ap, subst, ◌∙◌}
pub use mathlib.Core.Logic.{◌≢◌, ◌↔◌, ◌⊎◌, inl, inr}
pub use mathlib.Core.Bool.{Bool, true, false, not, ◌&&◌, ◌||◌}
pub use mathlib.Core.Option.{Option, none, some}
pub use mathlib.Core.List.{List, [], ◌∷◌, ◌++◌, map}
pub use native.Mathlib.Omega.{arith}
