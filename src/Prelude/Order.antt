-- ===== src/Prelude/Order.antt =====
-- Sorted vectors of numbers, and the merge step that the sources write as
-- `while (i < v.size() && v[i] < n) i++`. The position `i` is the rest of the vector from there on.
use Prim.Native.Nat.{ℕ, ◌≤◌, ◌<◌}
use mathlib.Core.Path.{◌≡◌, refl}
use mathlib.Core.Bool.{Bool, false}
use mathlib.Core.List.{List, [], ◌∷◌}
use native.Mathlib.Omega.{arith}
use latin_squares_diploma_it.Prelude.Tests.{ltb, ◌==◌, if◌then◌else◌}
use latin_squares_diploma_it.Prelude.Lists.{All, All-map, has}

abbrev pub Ascending : List ℕ → Type 0
Ascending [] = Unit
Ascending (x ∷ xs) = All (λ y. x ≤ y) xs × Ascending xs

abbrev pub Increasing : List ℕ → Type 0
Increasing [] = Unit
Increasing (x ∷ xs) = All (λ y. x < y) xs × Increasing xs

pub Increasing-Ascending : (xs : List ℕ) → Increasing xs → Ascending xs
Increasing-Ascending [] h = tt
Increasing-Ascending (x ∷ xs) h = (All-map xs (λ y p. omega arith) h.0, Increasing-Ascending xs h.1)

-- The loop that moves the position on.
unfoldable pub skip : ℕ → List ℕ → List ℕ
skip n [] = []
skip n (x ∷ xs) = if ltb x n then skip n xs else x ∷ xs

-- `i < v.size() && v[i] == n`
unfoldable pub is_at : ℕ → List ℕ → Bool
is_at n [] = false
is_at n (x ∷ xs) = x == n

pub has_of_below : (n : ℕ) (xs : List ℕ) → All (λ y. n < y) xs → has n xs ≡ false
has_of_below n [] h = refl
has_of_below n (x ∷ xs) h = ground (arith, has_of_below n xs h.1, h.0)

pub Ascending-skip : (n : ℕ) (xs : List ℕ) → Ascending xs → Ascending (skip n xs)
unfolding skip
Ascending-skip n [] h = tt
Ascending-skip n (x ∷ xs) h = ground (arith, Ascending-skip n xs h.1)

-- Moving on loses no element from the bound upwards.
pub has-skip : (n m : ℕ) (xs : List ℕ) → n ≤ m → has m (skip n xs) ≡ has m xs
unfolding skip
has-skip n m [] h = refl
has-skip n m (x ∷ xs) h = ground (arith, has-skip n m xs h)

-- In a sorted vector the element at the new position tells whether `n` is there.
pub is_at-skip : (n : ℕ) (xs : List ℕ) → Ascending xs → is_at n (skip n xs) ≡ has n xs
unfolding skip is_at
is_at-skip n [] h = refl
is_at-skip n (x ∷ xs) h = ground (
  arith,
  is_at-skip n xs h.1,
  λ (p : n < x). has_of_below n xs (All-map xs (λ y q. omega arith) h.0),
)
