-- ===== src/Tests/Cnf.antt =====
-- Literals and clauses at small inputs.
use latin_squares_diploma_it.Prelude.{
  ℕ, ◌≡◌, refl, arith, true, false, List, [], ◌∷◌, ◌++◌, some, any, pos, negsuc,
}
use latin_squares_diploma_it.Cnf.Literal.{to_dimacs}
use latin_squares_diploma_it.Cnf.Clause.{
  Clause, propagate, propagate_sat, propagate_flipped, propagate_stored,
}
use latin_squares_diploma_it.Cnf.Propagation.{holds_flipped, propagate_flipped-any}
use latin_squares_diploma_it.Cnf.Cached.{propagate_stored-propagate_flipped}
use latin_squares_diploma_it.Cnf.Reading.{read_clause, print_clause, read_clause-print_clause}

-- 1 ∨ ¬2 ∨ 3, under 1 false, 2 true, 3 false.
abbrev sample : Clause
sample = record {
  literals =
      record { number = 1; value = true }
      ∷ record { number = 2; value = false }
      ∷ record { number = 3; value = true }
      ∷ [];
  satisfied = [];
}

abbrev units : List ℕ
units = 2 ∷ 0 ∷ 1 ∷ 0 ∷ []

clause_runs :
    (propagate sample units ≡ 0)
    × (propagate_flipped sample.literals units (2 ∷ []) ≡ true)
    × (print_clause sample.literals ≡ pos 1 ∷ negsuc 1 ∷ pos 3 ∷ pos 0 ∷ [])
unfolding propagate propagate_flipped print_clause to_dimacs
clause_runs = (refl, refl, refl)

-- With the literals out of order, a flip of variable 1 is missed: the position has passed it.
unsorted_misses :
    propagate_flipped
      (record { number = 3; value = true } ∷ record { number = 1; value = true } ∷ [])
      units
      (1 ∷ [])
    ≡ false
unfolding propagate_flipped
unsorted_misses = refl

propagate_flipped-any_example :
    propagate_flipped sample.literals units (1 ∷ 2 ∷ [])
    ≡ any (holds_flipped units (1 ∷ 2 ∷ [])) sample.literals
propagate_flipped-any_example =
    propagate_flipped-any sample.literals units (1 ∷ 2 ∷ []) (omega arith) (omega arith)

propagate_stored-propagate_flipped_example :
    propagate_stored sample.literals 0 (propagate_sat sample units).0.satisfied (2 ∷ [])
    ≡ propagate_flipped sample.literals units (2 ∷ [])
propagate_stored-propagate_flipped_example =
    propagate_stored-propagate_flipped units sample (2 ∷ []) (omega arith)

read_clause-print_clause_example :
    read_clause 4 (pos 9) (print_clause sample.literals ++ pos 5 ∷ [])
    ≡ some (sample.literals, pos 5 ∷ [])
read_clause-print_clause_example =
    read_clause-print_clause sample.literals (pos 5 ∷ []) (pos 9) (omega arith)
