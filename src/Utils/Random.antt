-- ===== src/Utils/Random.antt =====
-- `random_combination_including` of localsearch/utils/utils.cpp, over a list of the values of `rand()`.
use latin_squares_diploma_it.Prelude.{
  ℕ, zero, suc, ◌+◌, ◌-◌, ◌%◌, ◌≤◌, ◌<◌, ◌≡◌, refl, arith, true, false, List, [], ◌∷◌, none, some,
  Outcome, done, fault, stuck, ◌>>=◌, Ensures, Ensures-bind, ◌==◌, length, All, All-map, Increasing,
  Increasing-Ascending, Ascending, sym, ◌∙◌, Bool-cases, inl, inr,
}
use latin_squares_diploma_it.Utils.Word.{u32_mod, add32, sub32}
use latin_squares_diploma_it.Utils.Binomial.{binom}
use latin_squares_diploma_it.Utils.Combination.{IsCombination}
use latin_squares_diploma_it.Utils.Including.{
  IsIncluding, contains-any, next_combination_including, next_combination_including_finds,
  next_combination_including-length,
}

-- The for loop with `left` elements to draw. A remainder by zero is a fault.
unfoldable pub draw_elements : ℕ → ℕ → ℕ → List ℕ → Outcome (List ℕ × List ℕ)
draw_elements zero min max draws = done ([], draws)
draw_elements (suc left) min max [] = stuck
draw_elements (suc left) min max (d ∷ draws) = elim (sub32 max min == 0) [
  | true ↦ fault
  | false ↦
      let c = add32 (d % sub32 max min) min in
      draw_elements left (add32 c 1) (add32 max 1) draws >>= λ r. done (c ∷ r.0, r.1)
]

-- The while loop, on fuel for its rounds and for those of `next_combination_including`.
unfoldable pub random_combination : ℕ → ℕ → ℕ → ℕ → List ℕ → List ℕ → Outcome (List ℕ × List ℕ)
unfolding draw_elements next_combination_including
random_combination fuel zero n k including draws = stuck
random_combination fuel (suc rounds) n k including draws =
    draw_elements k 0 (sub32 n k) draws >>= λ r.
    elim (next_combination_including fuel r.0 n including) [
      | none ↦ stuck
      | some (next, true) ↦ done (next, r.1)
      | some (next, false) ↦ random_combination fuel rounds n k including r.1
    ]

-- What the for loop draws: numbers that rise from `min` and stay below the last `max`.
record IsRising (left min n : ℕ) (cs : List ℕ) : Type 0 where
  size : length cs ≡ left
  rising : Increasing cs
  above : All (λ c. min ≤ c) cs
  below : All (λ c. c + 1 < n) cs

draw_elements-Ensures :
    (n left min max : ℕ) (draws : List ℕ)
    → n < u32_mod
    → min < max
    → max + left ≡ n
    → Ensures (draw_elements left min max draws) (λ r. IsRising left min n r.0)
unfolding draw_elements
draw_elements-Ensures n zero min max draws w p e = record {
  size = refl;
  rising = tt;
  above = tt;
  below = tt;
}
draw_elements-Ensures n (suc left) min max [] w p e = tt
draw_elements-Ensures n (suc left) min max (d ∷ draws) w p e =
    let span : sub32 max min ≡ max - min = omega arith in
    let some_left : (sub32 max min == 0) ≡ false = rw span (ground arith) in
    let c = add32 (d % sub32 max min) min in
    let small : d % (max - min) < max - min = grind arith in
    let low : min ≤ c = rw span (omega (arith, small)) in
    let high : c < max = rw span (omega (arith, small)) in
    let next : add32 c 1 ≡ c + 1 = omega (arith, high) in
    let next_max : add32 max 1 ≡ max + 1 = omega arith in
    rw (some_left, draw_elements)
      (Ensures-bind (draw_elements left (add32 c 1) (add32 max 1) draws) _ _ _
        (draw_elements-Ensures n left (add32 c 1) (add32 max 1) draws w
          (rw (next, next_max) (omega (arith, high))) (rw next_max (omega arith)))
        (λ r h. record {
          size = omega (arith, h.size);
          rising = (All-map r.0 (λ x q. omega (arith, q, next)) h.above, h.rising);
          above = (low, All-map r.0 (λ x q. omega (arith, q, next, low)) h.above);
          below = (omega (arith, high), h.below);
        }))

-- For k below n, elements to include that are sorted, and fuel of C(n, k) for the search, whatever is
-- drawn: nothing is read out of range, no remainder is by zero, and unless the draws or the rounds run
-- out the result is a combination of k numbers below n with one of the elements.
pub random_combination-Ensures :
    (fuel rounds n k : ℕ) (including draws : List ℕ)
    → k < n
    → n < u32_mod
    → Ascending including
    → binom n k ≤ fuel
    → Ensures
        (random_combination fuel rounds n k including draws)
        (λ r. IsIncluding n k including r.0)
unfolding random_combination
random_combination-Ensures fuel zero n k including draws p w a enough = tt
random_combination-Ensures fuel (suc rounds) n k including draws p w a enough =
    let span : sub32 n k ≡ n - k = omega arith in
    Ensures-bind (draw_elements k 0 (sub32 n k) draws) _ _ _
      (draw_elements-Ensures n k 0 (sub32 n k) draws w (rw span (omega arith))
        (rw span (omega arith)))
      (λ r h.
        let c : IsCombination n r.0 = (h.rising, All-map r.0 (λ x q. omega (arith, q)) h.below) in
        let (out, more, e, f) =
          next_combination_including_finds fuel n including r.0 w c a
            (rw h.size (omega (arith, enough))) in
        elim (Bool-cases more) [
          | inl again ↦
              let (moved, later, found) = f.later again in
              rw (e, again)
                (record {
                  combination = moved;
                  size = next_combination_including-length fuel n including r.0 out more e ∙ h.size;
                  included =
                      sym (contains-any out including (Increasing-Ascending out moved.0) a) ∙ found;
                })
          | inr over ↦
              rw (e, over) (random_combination-Ensures fuel rounds n k including r.1 p w a enough)
        ])
