-- ===== src/Base.antt =====
-- The names that the other modules share: the libraries', passed on, and those of the children.
mod Tests
mod Lists
mod Text
mod Int
pub mod Outcome
pub mod Table
pub mod Numerals
pub use Tests.*
pub use Lists.*
pub use Text.{Bytes, codes, str_eq_refl, str_eq_iff}
unfoldable pub use Text.{str_eq}
pub use Int.{ℤ, pos, negsuc, IsInt32, to_int32-IsInt32, to_int32_id, to_uint8-pos}
unfoldable pub use Int.{residue, to_uint8, to_uint32, to_int32}
pub use Prim.Native.Nat.{ℕ, zero, suc, ◌+◌, ◌-◌, ◌*◌, ◌/◌, ◌%◌, ◌^◌, ◌≤◌, ◌<◌}
pub use Prim.Native.String.{String}
pub use mathlib.Core.Path.{◌≡◌, refl, sym, ap, ◌∙◌}
pub use mathlib.Core.Logic.{◌≢◌, ◌↔◌, ◌⊎◌, inl, inr}
pub use mathlib.Core.Bool.{Bool, true, false, not, ◌&&◌, ◌||◌}
pub use mathlib.Core.Option.{Option, none, some}
pub use mathlib.Core.List.{List, [], ◌∷◌, ◌++◌, map}
pub use native.Mathlib.Omega.{arith}
