-- ===== src/Utils/Combination.antt =====
-- `next_combination` of localsearch/utils/utils.cpp: the successor of a k-element combination of
-- 0 .. n-1 in place, in colexicographic order.
use native.Mathlib.Nat.{zero-add}
use latin_squares_diploma_it.Prelude.{
  ℕ, zero, suc, ◌+◌, ◌-◌, ◌≤◌, ◌<◌, ◌≡◌, refl, sym, ap, arith, Bool, true, false, List, [], ◌∷◌,
  ◌==◌, if◌then◌else◌, length, All, Increasing, All-map, Bool-cases, inl, inr,
}
use latin_squares_diploma_it.Utils.Word.{u32_mod, add32}
use latin_squares_diploma_it.Utils.Binomial.{binom, binom-zero, binom-suc, binom_of_lt, binom_mono}

-- The loop body from index `i` on: `upper_bound` is `n` at the last element, else the next element.
unfoldable pub next_from : ℕ → ℕ → List ℕ → List ℕ × Bool
next_from n i [] = ([], false)
next_from n i (c ∷ []) = if add32 c 1 == n then (i ∷ [], false) else (add32 c 1 ∷ [], true)
next_from n i (c ∷ d ∷ cs) =
    let (rest, more) = next_from n (suc i) (d ∷ cs) in
    if add32 c 1 == d then (i ∷ rest, more) else (add32 c 1 ∷ d ∷ cs, true)

unfoldable pub next_combination : List ℕ → ℕ → List ℕ × Bool
unfolding next_from
next_combination combination n = next_from n 0 combination

-- The elements ascend strictly and lie below `n`.
abbrev pub IsCombination : ℕ → List ℕ → Type 0
IsCombination n cs = Increasing cs × All (λ c. c < n) cs

-- The place of a combination in colexicographic order.
unfoldable pub rank_from : ℕ → List ℕ → ℕ
rank_from i [] = 0
rank_from i (c ∷ cs) = binom c (suc i) + rank_from (suc i) cs

abbrev pub rank : List ℕ → ℕ
rank cs = rank_from 0 cs

-- i, i + 1, …: the elements of the first combination from index `i` on.
unfoldable pub first_from : ℕ → ℕ → List ℕ
first_from i zero = []
first_from i (suc k) = i ∷ first_from (suc i) k

-- A lower bound for the rest of a combination at each index.
pub suffix_bound : (i c d : ℕ) (cs : List ℕ) → i ≤ c → Increasing (c ∷ d ∷ cs) → suc i ≤ d
suffix_bound i c d cs h inc = omega (arith, inc.0.0)

-- What the loop does from index `i` on, where the elements are at least `i`, `i + 1`, ….
record Stepped (n i c : ℕ) (cs out : List ℕ) : Type 0 where
  combination : IsCombination n out
  above : All (λ x. i ≤ x) out
  size : length out ≡ length (c ∷ cs)
  moved : rank_from i out ≡ rank_from i (c ∷ cs) + binom c i

next_from_moves :
    (n i c : ℕ) (cs : List ℕ)
    → n < u32_mod
    → i ≤ c
    → IsCombination n (c ∷ cs)
    → (next_from n i (c ∷ cs)).1 ≡ true
    → Stepped n i c cs (next_from n i (c ∷ cs)).0
unfolding next_from rank_from
next_from_moves n i c [] w h v e = ground (arith, binom-suc c i)
next_from_moves n i c (d ∷ cs) w h v e =
    let next : add32 c 1 ≡ suc c = omega arith in
    elim (Bool-cases (add32 c 1 == d)) [
      | inl carry ↦
          let e' : (next_from n (suc i) (d ∷ cs)).1 ≡ true = rw (carry, next_from) at e in
          let ih =
            next_from_moves n (suc i) d cs w (suffix_bound i c d cs h v.0) (v.0.1, v.1.1) e' in
          let carried : suc c ≡ d = ground arith in
          rw carry (record {
            combination = (
              (All-map _ (λ y p. p) ih.above, ih.combination.0),
              (omega arith, ih.combination.1),
            );
            above = (omega arith, All-map _ (λ y p. omega arith) ih.above);
            size = omega (arith, ih.size);
            moved = omega (
              arith,
              ih.moved,
              binom_of_lt i (suc i) (omega arith),
              binom-suc c i,
              ap (λ (t : ℕ). binom t (suc i)) carried,
            );
          })
      | inr stay ↦
          let below : suc c < d = ground (arith, v.0.0.0) in
          rw (stay, next)
            (record {
              combination =
                  (((below, All-map cs (λ y p. omega arith) v.0.1.0), v.0.1), (omega arith, v.1.1));
              above = (omega arith, (omega arith, All-map cs (λ y p. omega arith) v.0.0.1));
              size = refl;
              moved = omega (arith, binom-suc c i);
            })
    ]

next_from_ends :
    (n i c : ℕ) (cs : List ℕ)
    → n < u32_mod
    → i ≤ c
    → IsCombination n (c ∷ cs)
    → (next_from n i (c ∷ cs)).1 ≡ false
    → ((next_from n i (c ∷ cs)).0 ≡ first_from i (length (c ∷ cs)))
      × (rank_from i (c ∷ cs) + binom c i ≡ binom n (i + length (c ∷ cs)))
unfolding next_from rank_from first_from
next_from_ends n i c [] w h v e = ground (arith, binom-suc c i)
next_from_ends n i c (d ∷ cs) w h v e =
    ground (arith, binom-suc c i, next_from_ends n (suc i) d cs w (suffix_bound i c d cs h v.0))

-- The first combination has place 0.
pub rank_from-first_from : (i k : ℕ) → rank_from i (first_from i k) ≡ 0
unfolding rank_from first_from
rank_from-first_from i zero = refl
rank_from-first_from i (suc k) =
    omega (arith, binom_of_lt i (suc i) (omega arith), rank_from-first_from (suc i) k)

pub record Successor (n : ℕ) (cs out : List ℕ) : Type 0 where
  pub combination : IsCombination n out
  pub size : length out ≡ length cs
  pub moved : rank out ≡ suc (rank cs)

-- Where `next_combination` returns true on a combination of numbers below n, it leaves a combination
-- of the same size whose colexicographic place is one higher.
pub next_combination_moves :
    (n : ℕ) (cs : List ℕ)
    → n < u32_mod
    → IsCombination n cs
    → (next_combination cs n).1 ≡ true
    → Successor n cs (next_combination cs n).0
unfolding next_combination
next_combination_moves n [] w v e = cc
next_combination_moves n (c ∷ cs) w v e =
    let s = next_from_moves n 0 c cs w (omega arith) v e in
    record {
      combination = s.combination;
      size = s.size;
      moved = omega (arith, s.moved, binom-zero c);
    }

-- Where it returns false, the combination was the last of the C(n, k), and the vector is left at the
-- first one, 0, 1, …, k - 1.
pub next_combination_ends :
    (n : ℕ) (cs : List ℕ)
    → n < u32_mod
    → IsCombination n cs
    → (next_combination cs n).1 ≡ false
    → ((next_combination cs n).0 ≡ first_from 0 (length cs)) × (suc (rank cs) ≡ binom n (length cs))
unfolding next_combination rank_from first_from
next_combination_ends n [] w v e = (refl, sym (binom-zero n))
next_combination_ends n (c ∷ cs) w v e =
    let r = next_from_ends n 0 c cs w (omega arith) v e in
    (r.0, omega (arith, binom-zero c, rw zero-add at (r.1)))

rank_from_bound :
    (n i c : ℕ) (cs : List ℕ)
    → IsCombination n (c ∷ cs)
    → rank_from i (c ∷ cs) + binom c i ≤ binom n (i + length (c ∷ cs))
unfolding rank_from
rank_from_bound n i c [] v =
    let e : i + 1 ≡ suc i = omega arith in
    rw e (omega (arith, binom-suc c i, binom_mono (n - suc c) (suc c) n (suc i) (omega arith)))
rank_from_bound n i c (d ∷ cs) v =
    let e : i + length (c ∷ d ∷ cs) ≡ suc i + length (d ∷ cs) = omega arith in
    rw e (
      omega (
        arith,
        binom-suc c i,
        binom_mono (d - suc c) (suc c) d (suc i) (omega arith),
        rank_from_bound n (suc i) d cs (v.0.1, v.1.1),
      ))

-- The places of the combinations lie below their number C(n, k).
pub rank-lt : (n : ℕ) (cs : List ℕ) → IsCombination n cs → rank cs < binom n (length cs)
unfolding rank_from
rank-lt n [] v = omega (arith, binom-zero n)
rank-lt n (c ∷ cs) v = omega (arith, binom-zero c, rw zero-add at (rank_from_bound n 0 c cs v))
