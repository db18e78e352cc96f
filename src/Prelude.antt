-- ===== src/Prelude.antt =====
-- The names that every other module shares: the libraries', passed on, and those of its children
-- with Boolean tests, lists under native indices, the order of sorted vectors, signed integers,
-- outcomes, and sorting.
pub mod Tests
pub mod Lists
pub mod Order
pub mod Int
pub mod Outcomes
pub mod Sorting
pub mod Permute
pub use Tests.*
pub use Lists.*
unfoldable pub use Order.*
pub use Int.*
pub use Outcomes.*
pub use Sorting.*
pub use Permute.*
pub use Prim.Native.Nat.{ℕ, zero, suc, ◌+◌, ◌-◌, ◌*◌, ◌/◌, ◌%◌, ◌^◌, ◌≤◌, ◌<◌}
pub use mathlib.Core.Path.{◌≡◌, refl, sym, ap, ◌∙◌, subst, fun_ext}
pub use mathlib.Core.Logic.{◌≢◌, ◌↔◌, ◌⊎◌, inl, inr}
pub use mathlib.Core.Bool.{Bool, true, false, not, ◌&&◌, ◌||◌}
pub use mathlib.Core.Option.{Option, none, some}
pub use mathlib.Core.List.{List, [], ◌∷◌, ◌++◌, map}
pub use native.Mathlib.Omega.{arith}
