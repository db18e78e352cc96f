-- ===== src/Utils/Skips.antt =====
-- The combinations between two results of `next_combination_including`.
use native.Mathlib.Decide.{dec_lt}
use latin_squares_diploma_it.Prelude.{
  ℕ, zero, suc, ◌<◌, ◌≡◌, refl, sym, ap, ◌∙◌, subst, arith, Bool, true, false, List, some, length,
  any, has, Ascending, Increasing-Ascending, Bool-cases, inl, inr,
}
use latin_squares_diploma_it.Utils.Binomial.{binom}
use latin_squares_diploma_it.Utils.Word.{u32_mod}
use latin_squares_diploma_it.Utils.Combination.{
  next_combination, IsCombination, rank, next_combination_moves, next_combination_ends, rank-lt,
}
use latin_squares_diploma_it.Utils.Including.{contains, contains-any, next_combination_including}
use latin_squares_diploma_it.Utils.Ranks.{rank-injective}

-- Whether a combination contains one of the elements.
abbrev pub includes : List ℕ → List ℕ → Bool
includes including cs = any (λ c. has c including) cs

result_parts : {p q : List ℕ × Bool} → some p ≡ some q → (p.0 ≡ q.0) × (p.1 ≡ q.1)
result_parts e = (cc, cc)

pub next_combination_including_skips :
    (fuel n : ℕ) (including cs out mid : List ℕ) (more : Bool)
    → n < u32_mod
    → Ascending including
    → IsCombination n cs
    → next_combination_including fuel cs n including ≡ some (out, more)
    → IsCombination n mid
    → length mid ≡ length cs
    → rank cs < rank mid
    → (more ≡ true → rank mid < rank out)
    → includes including mid ≡ false
unfolding next_combination_including
next_combination_including_skips zero n including cs out mid more w a v e c size low high = cc
next_combination_including_skips (suc fuel) n including cs out mid more w a v e c size low high =
    let next = (next_combination cs n).0 in
    elim (Bool-cases (next_combination cs n).1) [
      | inr ends ↦
          let (_, last) = next_combination_ends n cs w v ends in
          let bound : rank mid < binom n (length cs) = rw size at (rank-lt n mid c) in
          absurd (omega (arith, last, bound, low))
      | inl moves ↦
          let s = next_combination_moves n cs w v moves in
          elim (Bool-cases (contains next including)) [
            | inl stops ↦
                let (same, b) = result_parts (rw (moves, stops, next_combination_including) at e) in
                absurd (omega (arith, high (sym b), ap rank same, s.moved, low))
            | inr goes ↦ elim (dec_lt (rank next) (rank mid)) [
              | yes less ↦
                  next_combination_including_skips fuel n including next out mid more w a
                    s.combination (rw (moves, goes, next_combination_including) at e) c
                    (size ∙ sym s.size) less high
              | no at ↦
                  let same : next ≡ mid =
                    rank-injective (length mid) next mid s.combination.0 c.0 (s.size ∙ sym size)
                      refl (omega (arith, s.moved, low)) in
                  subst (λ (x : List ℕ). includes including x ≡ false) same
                    (sym (contains-any next including (Increasing-Ascending next s.combination.0) a)
                      ∙ goes)
            ]
          ]
    ]
