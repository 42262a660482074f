-- ===== src/Common.antt =====
-- The names that every module shares: the libraries', passed on, and those of five children. `Refusal`,
-- which has a bind of its own, and `Maps` are used by their paths.
mod Tests
mod Lists
mod Int
mod Monad
mod Sql
pub mod Refusal
pub mod Maps
pub use Tests.*
pub use Lists.*
pub use Int.*
unfoldable pub use Int.{◌+ℤ◌, ◌-ℤ◌, ◌*ℤ◌}
pub use Monad.*
pub use Sql.*
pub use Prim.Native.Nat.{ℕ, zero, suc, ◌+◌, ◌-◌, ◌*◌, ◌/◌, ◌%◌, ◌^◌, ◌≤◌, ◌<◌}
pub use mathlib.Core.Path.{◌≡◌, refl, sym, ap, ap₂, subst, ◌∙◌}
pub use mathlib.Core.Logic.{◌≢◌, ◌↔◌, ◌⊎◌, inl, inr}
pub use mathlib.Core.Bool.{Bool, true, false, not, ◌&&◌, ◌||◌}
pub use mathlib.Core.Option.{Option, none, some}
pub use mathlib.Core.List.{List, [], ◌∷◌, ◌++◌, map}
pub use native.Mathlib.Omega.{arith}
