-- ===== src/Utils/Odometer.antt =====
-- `nextArray` of localsearch/utils/utils.cpp: the counter that runs through all choices of one value
-- index for each meta-variable of a bag. Only the sizes of `indices[i]` matter to it.
use latin_squares_diploma_it.Prelude.{
  ℕ, suc, ◌+◌, ◌*◌, ◌<◌, ◌≡◌, arith, Bool, true, false, List, [], ◌∷◌, ◌==◌, if◌then◌else◌, length,
  Bool-cases, inl, inr, ap,
}
use latin_squares_diploma_it.Utils.Word.{u32_mod, add32}

-- The loop from one index on; `indices` shorter than `array` is out of range in the source.
unfoldable pub next_array : List ℕ → List (List ℕ) → List ℕ × Bool
next_array [] indices = ([], false)
next_array (a ∷ array) [] = (a ∷ array, false)
next_array (a ∷ array) (is ∷ indices) =
    let (rest, more) = next_array array indices in
    if add32 a 1 == length is then (0 ∷ rest, more) else (add32 a 1 ∷ array, true)

-- Every digit lies below the size of its index list.
abbrev pub IsDigits : List ℕ → List (List ℕ) → Type 0
IsDigits [] [] = Unit
IsDigits [] (is ∷ indices) = ⊥
IsDigits (a ∷ array) [] = ⊥
IsDigits (a ∷ array) (is ∷ indices) =
    (a < length is) × (length is < u32_mod) × IsDigits array indices

-- The number that the digits stand for, the first digit the lowest.
unfoldable pub number : List ℕ → List (List ℕ) → ℕ
number [] indices = 0
number (a ∷ array) [] = 0
number (a ∷ array) (is ∷ indices) = a + length is * number array indices

unfoldable pub choices : List (List ℕ) → ℕ
choices [] = 1
choices (is ∷ indices) = length is * choices indices

-- Where `nextArray` returns true the digits stay in range and stand for the next number; where it
-- returns false they were the last of all choices, and are all zero again.
pub record Advanced (array : List ℕ) (indices : List (List ℕ)) (out : List ℕ) (more : Bool)
    : Type 0 where
  pub digits : IsDigits out indices
  pub next : more ≡ true → number out indices ≡ suc (number array indices)
  pub last : more ≡ false → suc (number array indices) ≡ choices indices
  pub reset : more ≡ false → number out indices ≡ 0

pub next_array_advances :
    (array : List ℕ) (indices : List (List ℕ))
    → IsDigits array indices
    → Advanced array indices (next_array array indices).0 (next_array array indices).1
unfolding next_array number choices
next_array_advances [] [] v = ground arith
next_array_advances [] (is ∷ indices) v = elim v [ ]
next_array_advances (a ∷ array) [] v = elim v [ ]
next_array_advances (a ∷ array) (is ∷ indices) v =
    let r = next_array_advances array indices v.2 in
    let size = length is in
    let next : add32 a 1 ≡ suc a = omega (arith, v.0, v.1) in
    elim (Bool-cases (add32 a 1 == length is)) [
      | inl carry ↦
          let full : suc a ≡ length is = ground arith in
          rw carry (record {
            digits = (omega arith, v.1, r.digits);
            next = λ e. omega (arith, full, ap (λ (t : ℕ). length is * t) (r.next e));
            last = λ e. omega (arith, full, ap (λ (t : ℕ). length is * t) (r.last e));
            reset = λ e. omega (arith, ap (λ (t : ℕ). length is * t) (r.reset e));
          })
      | inr stay ↦
          let below : suc a < length is = ground (arith, v.0) in
          rw (stay, next)
            (record {
              digits = (below, v.1, v.2);
              next = λ e. omega arith;
              last = λ e. cc;
              reset = λ e. cc;
            })
    ]
