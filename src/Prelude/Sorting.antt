-- ===== src/Prelude/Sorting.antt =====
-- `std::sort`, as what its callers rely on: a permutation of the vector in which no element is less
-- than an earlier one. The order of equal elements is left open.
use Prim.Native.Nat.{ℕ}
use mathlib.Core.Bool.{Bool}
use mathlib.Core.List.{List, map, Perm}
use latin_squares_diploma_it.Prelude.Tests.{ltb}
use latin_squares_diploma_it.Prelude.Order.{Ascending}

pub record Sort (A : Type 0) : Type 0 where
  pub sort : (A → A → Bool) → List A → List A
  pub permutes : (less : A → A → Bool) (xs : List A) → Perm (sort less xs) xs
  pub sorts :
      (key : A → ℕ) (xs : List A) → Ascending (map key (sort (λ a b. ltb (key a) (key b)) xs))
