-- ===== src/Utils/Including.antt =====
-- `contains` and `next_combination_including` of localsearch/utils/utils.cpp: the next combination
-- that holds one of the given elements.
use latin_squares_diploma_it.Prelude.{
  ℕ, zero, suc, ◌+◌, ◌≤◌, ◌<◌, ◌≡◌, refl, sym, ap, ◌∙◌, arith, Bool, true, false, ◌||◌, List, [],
  ◌∷◌, Option, none, some, if◌then◌else◌, length, any, has, any_congr, Ascending, skip, is_at,
  All-map, has-skip, is_at-skip, Ascending-skip, Bool-cases, inl, inr, All-map,
}
use latin_squares_diploma_it.Utils.Word.{u32_mod}
use latin_squares_diploma_it.Utils.Binomial.{binom}
use latin_squares_diploma_it.Utils.Combination.{
  next_from, next_combination, IsCombination, rank, first_from, next_combination_moves,
  next_combination_ends, rank-lt,
}

-- The position in `including` is the rest of it from there on.
unfoldable pub contains : List ℕ → List ℕ → Bool
unfolding skip is_at
contains [] including = false
contains (e ∷ combination) including =
    let rest = skip e including in
    let later = contains combination rest in if is_at e rest then true else later

or_if : (a b : Bool) → (if a then true else b) ≡ (a || b)
or_if true b = refl
or_if false b = refl

-- On sorted vectors `contains` returns true exactly when some element of the one is in the other.
pub contains-any :
    (cs including : List ℕ)
    → Ascending cs
    → Ascending including
    → contains cs including ≡ any (λ c. has c including) cs
unfolding contains
contains-any [] including h k = refl
contains-any (c ∷ cs) including h k =
    rw
      (
        is_at-skip c including k,
        contains-any cs (skip c including) h.1 (Ascending-skip c including k),
        any_congr (λ x. has x (skip c including)) (λ x. has x including) cs
            (All-map cs (λ x p. has-skip c x including p) h.0),
      )
      (or_if (has c including) _)

-- The do-while loop on fuel; `none` means that the fuel ran out.
unfoldable pub next_combination_including : ℕ → List ℕ → ℕ → List ℕ → Option (List ℕ × Bool)
unfolding next_combination contains
next_combination_including zero combination n including = none
next_combination_including (suc fuel) combination n including =
    let (next, more) = next_combination combination n in
    let rest = next_combination_including fuel next n including in
    if more
    then (if contains next including then some (next, true) else rest)
    else some (next, false)

-- A combination of k numbers below n that contains one of the elements.
pub record IsIncluding (n k : ℕ) (including out : List ℕ) : Type 0 where
  pub combination : IsCombination n out
  pub size : length out ≡ k
  pub included : any (λ c. has c including) out ≡ true

-- What the loop leaves: a later combination that contains one of the elements, or the first one.
pub record Found (n : ℕ) (including cs out : List ℕ) (more : Bool) : Type 0 where
  pub later :
      more ≡ true → IsCombination n out × (rank cs < rank out) × (contains out including ≡ true)
  pub last : more ≡ false → out ≡ first_from 0 (length cs)

-- From a combination of numbers below n, with sorted elements to look for, C(n, k) rounds less the place of the combination are fuel
-- enough for the loop to return. Where it returns true, the vector is a later combination that
-- contains one of the elements; where it returns false, it is the first combination again.
pub next_combination_including_finds :
    (fuel n : ℕ) (including cs : List ℕ)
    → n < u32_mod
    → IsCombination n cs
    → Ascending including
    → binom n (length cs) ≤ fuel + rank cs
    → (out : List ℕ) × (more : Bool) × (next_combination_including fuel cs n including
        ≡ some (out, more))
      × Found n including cs out more
unfolding next_combination_including
next_combination_including_finds zero n including cs w v a h =
    absurd (omega (arith, rank-lt n cs v))
next_combination_including_finds (suc fuel) n including cs w v a h =
    elim (Bool-cases (next_combination cs n).1) [
      | inl more ↦
          let next = (next_combination cs n).0 in
          let s = next_combination_moves n cs w v more in
          elim (Bool-cases (contains next including)) [
            | inl stop ↦ (
              next,
              true,
              rw (more, stop),
              record { later = λ _. (s.combination, omega (arith, s.moved), stop); last = λ e. cc },
            )
            | inr go ↦
                let bound : binom n (length next) ≤ fuel + rank next =
                  rw s.size (omega (arith, s.moved)) in
                let (out, b, e, f) =
                  next_combination_including_finds fuel n including next w s.combination a bound in
                (
                  out,
                  b,
                  rw (more, go, e),
                  record {
                    later = λ p. let (c, r, q) = f.later p in (c, omega (arith, r, s.moved), q);
                    last = λ p. f.last p ∙ ap (first_from 0) s.size;
                  },
                )
          ]
      | inr ends ↦ (
        (next_combination cs n).0,
        false,
        rw ends,
        record { later = λ e. cc; last = λ e. (next_combination_ends n cs w v ends).0 },
      )
    ]

length-next_from : (n i : ℕ) (cs : List ℕ) → length (next_from n i cs).0 ≡ length cs
unfolding next_from
length-next_from n i [] = refl
length-next_from n i (c ∷ []) = ground arith
length-next_from n i (c ∷ d ∷ cs) = ground (arith, length-next_from n (suc i) (d ∷ cs))

some_eq : {A : Type 0} {a b : A} → some a ≡ some b → a ≡ b
some_eq e = cc

pub next_combination_including-length :
    (fuel n : ℕ) (including cs out : List ℕ) (more : Bool)
    → next_combination_including fuel cs n including ≡ some (out, more)
    → length out ≡ length cs
unfolding next_combination_including next_combination
next_combination_including-length zero n including cs out more e = cc
next_combination_including-length (suc fuel) n including cs out more e =
    let next = next_combination cs n in
    let size : length next.0 ≡ length cs = length-next_from n 0 cs in
    elim (Bool-cases next.1) [
      | inl m ↦ elim (Bool-cases (contains next.0 including)) [
        | inl c ↦
            ap length (sym (ap (λ (p : List ℕ × Bool). p.0) (some_eq (rw (m, c) at e)))) ∙ size
        | inr c ↦
            next_combination_including-length fuel n including next.0 out more (rw (m, c) at e)
            ∙ size
      ]
      | inr m ↦ ap length (sym (ap (λ (p : List ℕ × Bool). p.0) (some_eq (rw m at e)))) ∙ size
    ]
