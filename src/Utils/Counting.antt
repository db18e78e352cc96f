-- ===== src/Utils/Counting.antt =====
-- `get_number_of_combinations` of localsearch/utils/utils.cpp: C(n, k) in 64 bits, or UINT64_MAX
-- where the products grow too large.
use native.Mathlib.Decide.{dec_lt}
use native.Mathlib.Nat.{
  zero-add, le_trans, mul-le-mul_left, le-div_iff_mul-le, mul-div_cancel, mul-le-mul,
}
use latin_squares_diploma_it.Prelude.{
  ℕ, zero, suc, ◌+◌, ◌-◌, ◌*◌, ◌/◌, ◌≤◌, ◌<◌, ◌≡◌, refl, sym, ap, ◌∙◌, arith, true, false, Option,
  none, some, ltb, ◌==◌, if◌then◌else◌, Bool-cases, ◌⊎◌, inl, inr,
}
use latin_squares_diploma_it.Utils.Word.{u32_mod, uint64_max, sub32, mul64}
use latin_squares_diploma_it.Utils.Binomial.{
  binom, binom-zero, fall, factorial, fall-binom, fall_mono,
}

-- What the first loop ends with: a product, the early return, or a division by zero.
pub data Product : Type 0 where
  product : ℕ → Product
  too_large division_by_zero : Product

-- `result *= n - i; if (UINT64_MAX / (n - i) < result) return UINT64_MAX;` for the rounds left.
unfoldable pub multiply : ℕ → ℕ → ℕ → ℕ → Product
multiply zero n i result = product result
multiply (suc rounds) n i result =
    let result' = mul64 result (sub32 n i) in
    let rest = multiply rounds n (suc i) result' in
    if sub32 n i == 0
    then division_by_zero
    else if ltb (uint64_max / sub32 n i) result'
    then too_large
    else rest

-- `for (uint32_t i = 2; i <= k; i++) result /= i;` for the rounds left.
unfoldable pub divide : ℕ → ℕ → ℕ → ℕ
divide zero i result = result
divide (suc rounds) i result = divide rounds (suc i) (result / i)

finish : ℕ → Product → Option ℕ
unfolding divide
finish k (product result) = some (divide (k - 1) 2 result)
finish k too_large = some uint64_max
finish k division_by_zero = none

-- `none` is the fault of a division by zero.
unfoldable pub get_number_of_combinations : ℕ → ℕ → Option ℕ
unfolding multiply finish
get_number_of_combinations n k = finish k (multiply k n 0 1)

-- i (i + 1) … (i + rounds - 1), what the second loop divides by.
rising : ℕ → ℕ → ℕ
rising i zero = 1
rising i (suc rounds) = i * rising (suc i) rounds

divide-rising : (rounds i b : ℕ) → 0 < i → divide rounds i (b * rising i rounds) ≡ b
unfolding divide rising
divide-rising zero i b h = omega arith
divide-rising (suc rounds) i b h =
    let regroup : b * (i * rising (suc i) rounds) ≡ b * rising (suc i) rounds * i = omega arith in
    let e : b * (i * rising (suc i) rounds) / i ≡ b * rising (suc i) rounds =
      ap (λ (t : ℕ). t / i) regroup ∙ mul-div_cancel (b * rising (suc i) rounds) h in
    ap (divide rounds (suc i)) e ∙ divide-rising rounds (suc i) b (omega arith)

rising-factorial : (rounds i : ℕ) → factorial i * rising (suc i) rounds ≡ factorial (i + rounds)
unfolding factorial rising
rising-factorial zero i = let e : i + 0 ≡ i = omega arith in rw e (omega arith)
rising-factorial (suc rounds) i =
    let e : i + suc rounds ≡ suc i + rounds = omega arith in
    rw (e, ← rising-factorial rounds (suc i)) (omega arith)

module _ (rounds n i result : ℕ) (w : n < u32_mod) (below : i < n) where
  -- One round does not wrap around; unless it returns, its check leaves room for one more factor.
  multiply_step :
      result * (n - i) ≤ uint64_max
      → (multiply (suc rounds) n i result ≡ too_large)
        ⊎ (multiply (suc rounds) n i result ≡ multiply rounds n (suc i) (result * (n - i)))
          × (result * (n - i) * (n - i) ≤ uint64_max)
          × (result * (n - i) * (n - suc i) ≤ uint64_max)
  unfolding multiply
  multiply_step room =
      let d : sub32 n i ≡ n - i = omega arith in
      let pos : (n - i == 0) ≡ false = ground arith in
      let wrap : mul64 result (n - i) ≡ result * (n - i) = grind arith in
      elim (Bool-cases (ltb (uint64_max / (n - i)) (result * (n - i)))) [
        | inl large ↦ inl (rw (multiply, d, pos, wrap, large))
        | inr small ↦
            let quotient : result * (n - i) ≤ uint64_max / (n - i) = ground (arith, small) in
            let square = (le-div_iff_mul-le (omega arith)).0 quotient in
            inr (
              rw (d, pos, wrap, small),
              square,
              le_trans (mul-le-mul_left (result * (n - i)) (omega arith)) square,
            )
      ]

  -- With room for the square of the factor the check passes.
  multiply_fits :
      result * (n - i) * (n - i) ≤ uint64_max
      → multiply (suc rounds) n i result ≡ multiply rounds n (suc i) (result * (n - i))
  unfolding multiply
  multiply_fits room =
      let factor : 1 ≤ n - i = omega arith in
      let d : sub32 n i ≡ n - i = omega arith in
      let pos : (n - i == 0) ≡ false = ground arith in
      let product : result * (n - i) ≤ uint64_max =
        omega (arith, mul-le-mul_left (result * (n - i)) factor) in
      let wrap : mul64 result (n - i) ≡ result * (n - i) = grind arith in
      let quotient : result * (n - i) ≤ uint64_max / (n - i) =
        (le-div_iff_mul-le (omega arith)).1 room in
      let small : ltb (uint64_max / (n - i)) (result * (n - i)) ≡ false = ground arith in
      rw (d, pos, wrap, small)

multiply_lem :
    (rounds n i : ℕ)
    → n < u32_mod
    → i + rounds ≤ n
    → fall n i * (n - i) ≤ uint64_max
    → (multiply rounds n i (fall n i) ≡ too_large)
      ⊎ (multiply rounds n i (fall n i) ≡ product (fall n (i + rounds)))
unfolding fall multiply
multiply_lem zero n i w h room = let z : i + 0 ≡ i = omega arith in inr (rw z)
multiply_lem (suc rounds) n i w h room =
    let shift : i + suc rounds ≡ suc i + rounds = omega arith in
    elim (multiply_step rounds n i (fall n i) w (omega arith) room) [
      | inl large ↦ inl large
      | inr (step, _, room') ↦
          rw (shift, step) (multiply_lem rounds n (suc i) w (omega arith) room')
    ]

multiply_faults :
    (rounds n i : ℕ) (result : ℕ)
    → n < u32_mod
    → i ≤ n
    → n < i + rounds
    → result * (n - i) ≤ uint64_max
    → (multiply rounds n i result ≡ too_large) ⊎ (multiply rounds n i result ≡ division_by_zero)
multiply_faults zero n i result w h k room = absurd (omega arith)
multiply_faults (suc rounds) n i result w h k room = elim (dec_lt i n) [
  | yes p ↦ elim (multiply_step rounds n i result w p room) [
    | inl large ↦ inl large
    | inr (step, _, room') ↦
        rw step (multiply_faults rounds n (suc i) (result * (n - i)) w p (omega arith) room')
  ]
  | no p ↦
      let d : sub32 n i ≡ 0 = omega arith in
      let zero? : (0 == 0) ≡ true = refl in inr (unfold multiply in (rw d))
]

multiply_exact :
    (rounds n i k : ℕ)
    → n < u32_mod
    → i + rounds ≡ k
    → k ≤ n
    → fall n k * n ≤ uint64_max
    → multiply rounds n i (fall n i) ≡ product (fall n k)
unfolding fall multiply
multiply_exact zero n i k w e h room = let z : i ≡ k = omega arith in rw z
multiply_exact (suc rounds) n i k w e h room =
    multiply_fits rounds n i (fall n i) w (omega arith)
      (le_trans (mul-le-mul (fall_mono n (suc i) rounds k (omega arith) h) (omega arith)) room)
    ∙ multiply_exact rounds n (suc i) k w (omega arith) h room

finish-fall : (n k : ℕ) → finish k (product (fall n k)) ≡ some (binom n k)
unfolding finish fall factorial
finish-fall n zero = ap some (sym (binom-zero n))
finish-fall n (suc k) =
    let index : suc k - 1 ≡ k = omega arith in
    let one_add : 1 + k ≡ suc k = omega arith in
    let split : factorial (suc k) ≡ rising 2 k =
      ap factorial (sym one_add) ∙ sym (rising-factorial k 1) ∙ (omega arith) in
    rw (index, fall-binom n (suc k), split)
      (ap some (divide-rising k 2 (binom n (suc k)) (omega arith)))

-- For k ≤ n the function returns, and what it returns is C(n, k), or UINT64_MAX where it gave up.
pub get_number_of_combinations_lem :
    (n k : ℕ)
    → n < u32_mod
    → k ≤ n
    → (get_number_of_combinations n k ≡ some uint64_max)
      ⊎ (get_number_of_combinations n k ≡ some (binom n k))
unfolding get_number_of_combinations fall
get_number_of_combinations_lem n k w h = elim (multiply_lem k n 0 w (omega arith) (omega arith)) [
  | inl e ↦ inl (rw e)
  | inr e ↦ inr (rw (e, zero-add k) (finish-fall n k))
]

-- For k > n it gives up with UINT64_MAX or divides by zero; it never returns a count.
pub get_number_of_combinations_faults :
    (n k : ℕ)
    → n < u32_mod
    → n < k
    → (get_number_of_combinations n k ≡ some uint64_max) ⊎ (get_number_of_combinations n k ≡ none)
unfolding get_number_of_combinations
get_number_of_combinations_faults n k w h =
    elim (multiply_faults k n 0 1 w (omega arith) (omega arith) (omega arith)) [
      | inl e ↦ inl (rw e)
      | inr e ↦ inr (rw e)
    ]

-- For k ≤ n it returns C(n, k) whenever n (n - 1) … (n - k + 1) n fits in 64 bits.
pub get_number_of_combinations_exact :
    (n k : ℕ)
    → n < u32_mod
    → k ≤ n
    → fall n k * n ≤ uint64_max
    → get_number_of_combinations n k ≡ some (binom n k)
unfolding get_number_of_combinations fall
get_number_of_combinations_exact n k w h room =
    rw (multiply_exact k n 0 k w (zero-add k) h room) (finish-fall n k)
