-- ===== src/Base.antt =====
-- The names that every module shares: the libraries', and those of the children below.
pub mod Tests
pub mod Lists
pub mod Int
pub mod Dict
pub mod Db
pub mod Text
pub mod Decimal
pub mod Redis
pub mod Http
pub use Prim.Native.Nat.{ℕ, zero, suc, ◌+◌, ◌-◌, ◌*◌, ◌/◌, ◌%◌, ◌^◌, ◌≤◌, ◌<◌}
pub use Prim.Native.String.{String}
pub use mathlib.Core.Path.{◌≡◌, refl, sym, ap, ◌∙◌}
pub use mathlib.Core.Logic.{◌≢◌, ◌↔◌, ◌⊎◌, inl, inr}
pub use mathlib.Core.Bool.{Bool, true, false, not, ◌&&◌, ◌||◌}
pub use mathlib.Core.Option.{Option, none, some}
pub use mathlib.Core.List.{List, [], ◌∷◌, ◌++◌, map}
pub use native.Mathlib.Omega.{arith}
pub use Tests.{ltb, leb, if◌then◌else◌, Keyed, ◌==◌, nat_eq, string_eq, Bool-cases, Option-cases}
pub use Lists.*
