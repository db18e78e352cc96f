-- ===== src/Cnf/Propagation.antt =====
-- What the evaluations of a clause compute: the count of true literals, and whether a literal is
-- true under the assignment with the flips applied.
use latin_squares_diploma_it.Prelude.{
  ℕ, ◌+◌, ◌≤◌, ◌≡◌, refl, arith, Bool, List, [], ◌∷◌, map, ◌==◌, count, any, any_congr, has, All,
  Ascending, skip, is_at-skip, has-skip, Ascending-skip,
}
use latin_squares_diploma_it.Cnf.Literal.{Literal, bit, xor_flag, unit_of, holds}
use latin_squares_diploma_it.Cnf.Clause.{propagate_loop, propagate_flipped}

pub propagate_loop-count :
    (units : List ℕ) (ls : List Literal) (n : ℕ)
    → propagate_loop units ls n ≡ n + count (holds units) ls
unfolding propagate_loop
propagate_loop-count units [] n = omega arith
propagate_loop-count units (l ∷ ls) n =
    ground (arith, propagate_loop-count units ls n, propagate_loop-count units ls (n + 1))

-- The literal under the assignment with the variables of `flipped` inverted.
unfoldable pub holds_flipped : List ℕ → List ℕ → Literal → Bool
holds_flipped units flipped l = xor_flag (unit_of units l) (has l.number flipped) == bit l.value

abbrev pub numbers : List Literal → List ℕ
numbers = map (λ l. l.number)

skip-holds :
    (units : List ℕ) (flipped : List ℕ) (n : ℕ) (ls : List Literal)
    → All (λ m. n ≤ m) (numbers ls)
    → All (λ l. holds_flipped units (skip n flipped) l ≡ holds_flipped units flipped l) ls
unfolding holds_flipped
skip-holds units flipped n [] h = tt
skip-holds units flipped n (l ∷ ls) h =
    (rw (has-skip n l.number flipped h.0), skip-holds units flipped n ls h.1)

-- With sorted literals and sorted flips, `propagate(units, flipped)` tells whether some literal is
-- true after the flips.
pub propagate_flipped-any :
    (ls : List Literal) (units flipped : List ℕ)
    → Ascending (numbers ls)
    → Ascending flipped
    → propagate_flipped ls units flipped ≡ any (holds_flipped units flipped) ls
unfolding propagate_flipped holds_flipped
propagate_flipped-any [] units flipped h k = refl
propagate_flipped-any (l ∷ ls) units flipped h k = ground (
  arith,
  is_at-skip l.number flipped k,
  propagate_flipped-any ls units (skip l.number flipped) h.1 (Ascending-skip l.number flipped k),
  any_congr (holds_flipped units (skip l.number flipped)) (holds_flipped units flipped) ls
      (skip-holds units flipped l.number ls h.0),
)
