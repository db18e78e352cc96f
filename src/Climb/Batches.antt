-- ===== src/Climb/Batches.antt =====
-- How the bags of a round are divided among the threads.
use native.Mathlib.Nat.{suc-mul, div-add-mod, mod-lt}
use latin_squares_diploma_it.Prelude.{
  ℕ, zero, suc, ◌+◌, ◌-◌, ◌*◌, ◌/◌, ◌%◌, ◌≤◌, ◌<◌, ◌≡◌, refl, ap, arith, List, [], ◌∷◌, false,
  Outcome, done, fault, ◌==◌, ◌⊎◌, inl, inr, if◌then◌else◌, length,
}
use latin_squares_diploma_it.Utils.Word.{u32_mod, add32}

-- The loop over the threads, with `left` of them: the ranges from `prev` on.
unfoldable pub batch_loop : ℕ → ℕ → ℕ → ℕ → List (ℕ × ℕ)
batch_loop zero batch_size remains prev = []
batch_loop (suc left) batch_size remains prev =
    let end = if remains == 0 then add32 prev batch_size else add32 (add32 prev batch_size) 1 in
    (prev, end) ∷ batch_loop left batch_size (remains - 1) end

-- Without threads the division is by zero.
unfoldable pub batches : ℕ → ℕ → Outcome (List (ℕ × ℕ))
unfolding batch_loop
batches size zero = fault
batches size (suc threads) =
    done (batch_loop (suc threads) (size / suc threads % u32_mod) (size % suc threads % u32_mod) 0)

-- Ranges that follow one another from `prev` to `n`, each of `size` elements or one more.
abbrev pub IsDivision : ℕ → ℕ → List (ℕ × ℕ) → ℕ → Type 0
IsDivision size prev [] n = prev ≡ n
IsDivision size prev ((start, end) ∷ ranges) n =
    (start ≡ prev)
    × ((end ≡ start + size) ⊎ (end ≡ start + size + 1))
    × IsDivision size end ranges n

batch_loop-IsDivision :
    (left batch_size remains prev n : ℕ)
    → n < u32_mod
    → remains ≤ left
    → prev + left * batch_size + remains ≡ n
    → IsDivision batch_size prev (batch_loop left batch_size remains prev) n
unfolding batch_loop
batch_loop-IsDivision zero b r prev n w h e = omega arith
batch_loop-IsDivision (suc left) b zero prev n w h e =
    let end : add32 prev b ≡ prev + b = omega (arith, suc-mul left b) in
    rw end (
      refl,
      inl refl,
      batch_loop-IsDivision left b 0 (prev + b) n w (omega arith) (omega (arith, suc-mul left b)),
    )
batch_loop-IsDivision (suc left) b (suc r) prev n w h e =
    let end : add32 (add32 prev b) 1 ≡ prev + b + 1 = omega (arith, suc-mul left b) in
    let more : (suc r == 0) ≡ false = ground arith in
    let less : suc r - 1 ≡ r = omega arith in
    rw (more, less, end)
      (
        refl,
        inr refl,
        batch_loop-IsDivision left b r (prev + b + 1) n w (omega arith)
            (omega (arith, suc-mul left b)),
      )

batch_loop-length :
    (left batch_size remains prev : ℕ) → length (batch_loop left batch_size remains prev) ≡ left
unfolding batch_loop
batch_loop-length zero b r prev = refl
batch_loop-length (suc left) b r prev = ap suc (batch_loop-length left b (r - 1) _)

-- The bags are divided among the threads without gaps and without overlap, a range to each thread, and
-- the sizes of the ranges differ by at most one.
pub batches-IsDivision :
    (size threads : ℕ)
    → size < u32_mod
    → 0 < threads
    → (ranges : List (ℕ × ℕ)) × (batches size threads ≡ done ranges)
      × (length ranges ≡ threads)
      × IsDivision (size / threads) 0 ranges size
unfolding batches
batches-IsDivision size zero w h = absurd (omega arith)
batches-IsDivision size (suc threads) w h =
    let b = size / suc threads in
    let r = size % suc threads in
    let whole : suc threads * b + r ≡ size = div-add-mod size (suc threads) in
    let more : b ≤ suc threads * b = omega (arith, suc-mul threads b) in
    let small_b : b % u32_mod ≡ b = omega (arith, whole, more) in
    let small_r : r % u32_mod ≡ r = omega (arith, whole) in
    let r_lt : r < suc threads = mod-lt size h in
    (
      batch_loop (suc threads) (b % u32_mod) (r % u32_mod) 0,
      refl,
      batch_loop-length (suc threads) (b % u32_mod) (r % u32_mod) 0,
      rw (small_b, small_r)
          (batch_loop-IsDivision (suc threads) b r 0 size w (omega (arith, r_lt))
            (omega (arith, whole))),
    )
