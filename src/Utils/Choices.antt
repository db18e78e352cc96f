-- ===== src/Utils/Choices.antt =====
-- The numbers that the digits of `nextArray` stand for.
use native.Mathlib.Nat.{add-mul-div_left, div-eq_of_lt, mul-suc, mul-le-mul_left}
use latin_squares_diploma_it.Prelude.{
  ℕ, zero, suc, replicate, ◌+◌, ◌*◌, ◌/◌, ◌≤◌, ◌<◌, ◌≡◌, ◌∙◌, refl, sym, ap, arith, List, [], ◌∷◌,
  length,
}
use latin_squares_diploma_it.Utils.Odometer.{IsDigits, number, choices}

-- A digit and the rest are the remainder and the quotient by the size.
digit_unique :
    (size a b m n : ℕ) → a < size → b < size → a + size * m ≡ b + size * n → (a ≡ b) × (m ≡ n)
digit_unique size a b m n h k e =
    let pos : 0 < size = omega arith in
    let left : (a + size * m) / size ≡ m =
      rw (add-mul-div_left a m pos, div-eq_of_lt h) (omega arith) in
    let right : (b + size * n) / size ≡ n =
      rw (add-mul-div_left b n pos, div-eq_of_lt k) (omega arith) in
    let rest : m ≡ n = sym left ∙ ap (λ (x : ℕ). x / size) e ∙ right in
    (omega (arith, e, ap (λ (x : ℕ). size * x) rest), rest)

-- The digits stand for a number below that of all choices.
pub number-choices :
    (array : List ℕ) (indices : List (List ℕ))
    → IsDigits array indices
    → number array indices < choices indices
unfolding number choices
number-choices [] [] v = omega arith
number-choices [] (is ∷ indices) v = elim v [ ]
number-choices (a ∷ array) [] v = elim v [ ]
number-choices (a ∷ array) (is ∷ indices) v =
    let n = number array indices in
    let full : length is * suc n ≤ length is * choices indices =
      mul-le-mul_left (length is) (number-choices array indices v.2) in
    omega (arith, full, mul-suc (length is) n, v.0)

pub number-injective :
    (array other : List ℕ) (indices : List (List ℕ))
    → IsDigits array indices
    → IsDigits other indices
    → number array indices ≡ number other indices
    → array ≡ other
unfolding number
number-injective [] [] [] v w e = refl
number-injective [] (b ∷ other) [] v w e = elim w [ ]
number-injective (a ∷ array) other [] v w e = elim v [ ]
number-injective [] other (is ∷ indices) v w e = elim v [ ]
number-injective (a ∷ array) [] (is ∷ indices) v w e = elim w [ ]
number-injective (a ∷ array) (b ∷ other) (is ∷ indices) v w e =
    let (same, rest) = digit_unique (length is) a b _ _ v.0 w.0 e in
    rw (same, number-injective array other indices v.2 w.2 rest) refl

-- The digits with which the loop begins stand for zero.
pub number-replicate : (k : ℕ) (indices : List (List ℕ)) → number (replicate k 0) indices ≡ 0
unfolding number
number-replicate zero indices = refl
number-replicate (suc k) [] = refl
number-replicate (suc k) (is ∷ indices) =
    omega (arith, ap (λ (x : ℕ). length is * x) (number-replicate k indices))
