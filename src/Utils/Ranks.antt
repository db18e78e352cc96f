-- ===== src/Utils/Ranks.antt =====
-- The colexicographic places of combinations of the same size.
use native.Mathlib.Decide.{dec_lt}
use native.Mathlib.Nat.{zero-add}
use latin_squares_diploma_it.Prelude.{
  ℕ, zero, suc, ◌+◌, ◌-◌, ◌≤◌, ◌<◌, ◌≡◌, refl, sym, ap, ◌∙◌, subst, arith, List, [], ◌∷◌, ◌++◌,
  length, length-append, All, All-split, Increasing,
}
use latin_squares_diploma_it.Utils.Binomial.{binom, binom-suc, binom_mono}
use latin_squares_diploma_it.Utils.Combination.{rank_from, rank, rank-lt}

-- A list with an element ends with one.
pub record Ended (xs : List ℕ) : Type 0 where
  pub init : List ℕ
  pub last : ℕ
  pub same : xs ≡ init ++ last ∷ []

pub ended : (x : ℕ) (xs : List ℕ) → Ended (x ∷ xs)
ended x [] = record { init = []; last = x; same = refl }
ended x (y ∷ xs) =
    let e = ended y xs in
    record { init = x ∷ e.init; last = e.last; same = ap (λ ys. x ∷ ys) e.same }

pub rank_from-snoc :
    (i : ℕ) (xs : List ℕ) (y : ℕ)
    → rank_from i (xs ++ y ∷ []) ≡ rank_from i xs + binom y (suc (i + length xs))
unfolding rank_from
rank_from-snoc i [] y = let e : i + 0 ≡ i = omega arith in rw e (omega arith)
rank_from-snoc i (x ∷ xs) y =
    let e : suc i + length xs ≡ i + suc (length xs) = omega arith in
    omega (arith, rw e at (rank_from-snoc (suc i) xs y))

pub Increasing-snoc :
    (xs : List ℕ) (y : ℕ) → Increasing (xs ++ y ∷ []) → Increasing xs × All (λ x. x < y) xs
Increasing-snoc [] y h = (tt, tt)
Increasing-snoc (x ∷ xs) y h =
    let (inc, below) = Increasing-snoc xs y h.1 in
    let split = All-split (λ z. x < z) xs (y ∷ []) h.0 in ((split.0, inc), (split.1.0, below))

-- The last element is determined by the place.
last_unique :
    (xs ys : List ℕ) (x y : ℕ)
    → Increasing (xs ++ x ∷ [])
    → Increasing (ys ++ y ∷ [])
    → length xs ≡ length ys
    → rank (xs ++ x ∷ []) ≡ rank (ys ++ y ∷ [])
    → y ≤ x
last_unique xs ys x y h k size e = elim (dec_lt x y) [
  | no more ↦ omega arith
  | yes less ↦
      let (inc, below) = Increasing-snoc xs x h in
      let low : rank xs < binom x (length xs) = rank-lt x xs (inc, below) in
      let high = binom_mono (y - suc x) (suc x) y (suc (length xs)) (omega arith) in
      absurd (
        omega (
          arith,
          low,
          high,
          binom-suc x (length xs),
          e,
          rw zero-add at (rank_from-snoc 0 xs x),
          rw (sym size, zero-add) at (rank_from-snoc 0 ys y),
        ))
]

pub rank-injective :
    (k : ℕ) (xs ys : List ℕ)
    → Increasing xs
    → Increasing ys
    → length xs ≡ k
    → length ys ≡ k
    → rank xs ≡ rank ys
    → xs ≡ ys
rank-injective zero [] [] h i e f r = refl
rank-injective zero [] (y ∷ ys) h i e f r = absurd (omega (arith, f))
rank-injective zero (x ∷ xs) ys h i e f r = absurd (omega (arith, e))
rank-injective (suc k) [] ys h i e f r = absurd (omega (arith, e))
rank-injective (suc k) (x ∷ xs) [] h i e f r = absurd (omega (arith, f))
rank-injective (suc k) (x ∷ xs) (y ∷ ys) h i e f r =
    let a = ended x xs in
    let b = ended y ys in
    let h' = subst Increasing a.same h in
    let i' = subst Increasing b.same i in
    let r' : rank (a.init ++ a.last ∷ []) ≡ rank (b.init ++ b.last ∷ []) =
      ap rank (sym a.same) ∙ r ∙ ap rank b.same in
    let size_a : length a.init ≡ k =
      omega (arith, e, ap length a.same, length-append a.init (a.last ∷ [])) in
    let size_b : length b.init ≡ k =
      omega (arith, f, ap length b.same, length-append b.init (b.last ∷ [])) in
    let last : a.last ≡ b.last = omega (
      arith,
      last_unique a.init b.init a.last b.last h' i' (size_a ∙ sym size_b) r',
      last_unique b.init a.init b.last a.last i' h' (size_b ∙ sym size_a) (sym r'),
    ) in
    let init : a.init ≡ b.init =
      rank-injective k a.init b.init (Increasing-snoc a.init a.last h').0
        (Increasing-snoc b.init b.last i').0 size_a size_b
        (omega (
          arith,
          r',
          rw (zero-add, size_a) at (rank_from-snoc 0 a.init a.last),
          rw (zero-add, size_b) at (rank_from-snoc 0 b.init b.last),
          ap (λ (z : ℕ). binom z (suc k)) last,
        )) in
    a.same ∙ ap (λ zs. zs ++ a.last ∷ []) init ∙ ap (λ z. b.init ++ z ∷ []) last ∙ sym b.same
