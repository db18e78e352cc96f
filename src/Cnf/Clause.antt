-- ===== src/Cnf/Clause.antt =====
-- localsearch/cnf/Clause.h and Clause.cpp: a clause and its four evaluations. A position into
-- `flipped` is the rest of that vector from there on, which `skip` and `is_at` move and test.
use latin_squares_diploma_it.Prelude.{
  ℕ, zero, suc, ◌+◌, Bool, true, false, not, List, [], ◌∷◌, ◌==◌, if◌then◌else◌, length, get_or,
  set, skip, is_at, Sort,
}
use latin_squares_diploma_it.Cnf.Literal.{Literal, less, bit, xor_flag, unit_of, holds}

pub record Clause : Type 0 where
  pub literals : List Literal
  pub satisfied : List Bool

-- `Clause(literals)` sorts them by their numbers.
unfoldable pub make_clause : Sort Literal → List Literal → Clause
unfolding less
make_clause sorting literals = record { literals = sorting.sort less literals; satisfied = [] }

-- `propagate(units)`: the number of satisfied literals.
unfoldable pub propagate_loop : List ℕ → List Literal → ℕ → ℕ
propagate_loop units [] count = count
propagate_loop units (l ∷ literals) count =
    propagate_loop units literals (if holds units l then count + 1 else count)

unfoldable pub propagate : Clause → List ℕ → ℕ
unfolding propagate_loop
propagate clause units = propagate_loop units clause.literals 0

-- `satisfied.resize(literals.size())`
unfoldable pub resize : ℕ → List Bool → List Bool
resize zero flags = []
resize (suc n) [] = false ∷ resize n []
resize (suc n) (flag ∷ flags) = flag ∷ resize n flags

-- `propagateSat(units)`: the same number, and the flag of each literal is stored.
unfoldable pub propagate_sat_loop : List ℕ → List Literal → ℕ → ℕ → List Bool → List Bool × ℕ
propagate_sat_loop units [] i count satisfied = (satisfied, count)
propagate_sat_loop units (l ∷ literals) i count satisfied =
    propagate_sat_loop units literals (suc i) (if holds units l then count + 1 else count)
      (set satisfied i (holds units l))

unfoldable pub propagate_sat : Clause → List ℕ → Clause × ℕ
unfolding propagate_sat_loop resize
propagate_sat clause units =
    let (satisfied, count) =
      propagate_sat_loop units clause.literals 0 0
        (resize (length clause.literals) clause.satisfied) in
    (record clause { satisfied = satisfied }, count)

-- `propagate(units, flipped)`: whether some literal holds once the flipped units are inverted.
unfoldable pub propagate_flipped : List Literal → List ℕ → List ℕ → Bool
unfolding skip is_at
propagate_flipped [] units flipped = false
propagate_flipped (l ∷ literals) units flipped =
    let rest = skip l.number flipped in
    let later = propagate_flipped literals units rest in
    if xor_flag (unit_of units l) (is_at l.number rest) == bit l.value then true else later

-- `propagate(flipped)`: the same from the stored flags, for the literals from `index` on.
unfoldable pub propagate_stored : List Literal → ℕ → List Bool → List ℕ → Bool
unfolding skip is_at
propagate_stored [] index satisfied flipped = false
propagate_stored (l ∷ literals) index satisfied flipped =
    let rest = skip l.number flipped in
    let later = propagate_stored literals (suc index) satisfied rest in
    if bit (not (is_at l.number rest)) == bit (get_or satisfied index false) then true else later
