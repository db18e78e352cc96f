-- ===== src/Utils/Binomial.antt =====
-- The mathematics that the counting code is held against: binomial coefficients by Pascal's rule,
-- falling factorials and factorials.
use native.Mathlib.Decide.{dec_lt}
use native.Mathlib.Nat.{le_trans}
use latin_squares_diploma_it.Prelude.{ℕ, zero, suc, ◌+◌, ◌-◌, ◌*◌, ◌≤◌, ◌<◌, ◌≡◌, refl, ap, arith}

unfoldable pub binom : ℕ → ℕ → ℕ
binom n zero = 1
binom zero (suc k) = 0
binom (suc n) (suc k) = binom n k + binom n (suc k)

unfoldable pub fall : ℕ → ℕ → ℕ
fall n zero = 1
fall n (suc k) = fall n k * (n - k)

unfoldable pub factorial : ℕ → ℕ
factorial zero = 1
factorial (suc k) = factorial k * suc k

pub binom-zero : (n : ℕ) → binom n 0 ≡ 1
unfolding binom
binom-zero zero = refl
binom-zero (suc n) = refl

pub binom-suc : (n k : ℕ) → binom (suc n) (suc k) ≡ binom n k + binom n (suc k)
unfolding binom
binom-suc n k = refl

pub binom_of_lt : (n k : ℕ) → n < k → binom n k ≡ 0
unfolding binom
binom_of_lt n zero h = absurd (omega arith)
binom_of_lt zero (suc k) h = refl
binom_of_lt (suc n) (suc k) h =
    omega (arith, binom_of_lt n k (omega arith), binom_of_lt n (suc k) (omega arith))

absorb_step :
    (b₀ b₁ b₂ k d : ℕ)
    → b₁ * suc k ≡ b₀ * suc d
    → b₂ * suc (suc k) ≡ b₁ * d
    → (b₁ + b₂) * suc (suc k) ≡ (b₀ + b₁) * suc d
absorb_step b₀ b₁ b₂ k d p q = omega arith

-- The row identity C(n, k + 1) (k + 1) = C(n, k) (n - k).
pub binom_absorb : (n k : ℕ) → binom n (suc k) * suc k ≡ binom n k * (n - k)
unfolding binom
binom_absorb zero zero = refl
binom_absorb zero (suc k) = omega arith
binom_absorb (suc n) zero = omega (arith, binom_absorb n 0, binom-zero n)
binom_absorb (suc n) (suc k) = elim (dec_lt k n) [
  | yes p ↦
      let e : suc n - suc k ≡ suc (n - suc k) = omega arith in
      let e' : n - k ≡ suc (n - suc k) = omega arith in
      rw e (
        absorb_step (binom n k) (binom n (suc k)) (binom n (suc (suc k))) k (n - suc k)
          (rw e' at (binom_absorb n k)) (binom_absorb n (suc k)))
  | no p ↦
      let e : suc n - suc k ≡ 0 = omega arith in
      rw (e, binom_of_lt n (suc k) (omega arith), binom_of_lt n (suc (suc k)) (omega arith))
        (omega arith)
]

pub fall-binom : (n k : ℕ) → fall n k ≡ binom n k * factorial k
unfolding fall factorial
fall-binom n zero = omega (arith, binom-zero n)
fall-binom n (suc k) =
    rw (fall-binom n k) (omega (arith, ap (λ (t : ℕ). t * factorial k) (binom_absorb n k)))

pub fall_mono : (n i rounds k : ℕ) → i + rounds ≡ k → k ≤ n → fall n i ≤ fall n k
unfolding fall
fall_mono n i zero k e h = let e' : i ≡ k = omega arith in rw e' (omega arith)
fall_mono n i (suc rounds) k e h =
    le_trans (grind arith) (fall_mono n (suc i) rounds k (omega arith) h)

pub binom_mono_suc : (n k : ℕ) → binom n k ≤ binom (suc n) k
unfolding binom
binom_mono_suc n zero = omega (arith, binom-zero n)
binom_mono_suc n (suc k) = omega arith

pub binom_mono : (d n m k : ℕ) → n + d ≡ m → binom n k ≤ binom m k
binom_mono zero n m k e = let e' : n ≡ m = omega arith in rw e' (omega arith)
binom_mono (suc d) n m k e =
    omega (arith, binom_mono_suc n k, binom_mono d (suc n) m k (omega arith))
