-- ===== src/Base.antt =====
-- The names that every module shares: the libraries', passed on, and those of the children.
mod Tests
mod Lists
mod Errors
mod Cell
mod Pick
mod Std
mod Bits
pub use Tests.*
pub use Lists.*
pub use Errors.*
pub use Cell.*
pub use Pick.*
unfoldable pub use Std.{add_usize, as_c_int}
unfoldable pub use Bits.{has_flag}
pub use Bits.{has_flag-bit_or, has_flag-mask}
pub use Std.*
pub use Prim.Native.Nat.{min, bit_and, bit_or, ℕ, zero, suc, ◌+◌, ◌-◌, ◌*◌, ◌/◌, ◌%◌, ◌^◌, ◌≤◌, ◌<◌}
pub use mathlib.Core.Path.{◌≡◌, refl, sym, ap, ◌∙◌, subst, fun_ext}
pub use mathlib.Core.Logic.{◌≢◌, ◌↔◌, ◌⊎◌, inl, inr}
pub use mathlib.Core.Bool.{Bool, true, false, not, ◌&&◌, ◌||◌}
pub use mathlib.Core.Option.{Option, none, some}
pub use mathlib.Core.List.{List, [], ◌∷◌, ◌++◌, map, append_assoc, append-nil}
pub use native.Mathlib.Omega.{arith}
