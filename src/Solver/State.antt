-- ===== src/Solver/State.antt =====
-- The members of `HillClimbingSolver` that an assignment and its evaluation consist of.
use latin_squares_diploma_it.Prelude.{ℕ, List, [], get_or}
use latin_squares_diploma_it.Cnf.Clause.{Clause}
use latin_squares_diploma_it.Net.Flips.{Finalized}

pub record Solver : Type 0 where
  pub clauses : List Clause
  pub propagated : List ℕ
  pub satisfied : List ℕ
  pub literal_to_unsat : List ℕ
  pub weights : List ℕ
  pub net : Finalized
  pub clauses_count_satisfied : List ℕ
  pub literal_to_clause_with_positive_value : List (List ℕ)
  pub literal_to_clause_with_negative_value : List (List ℕ)
  pub satisfied_sum : ℕ
  pub satisfied_count : ℕ

abbrev pub no_clause : Clause
no_clause = record { literals = []; satisfied = [] }

abbrev pub clause_at : List Clause → ℕ → Clause
clause_at clauses index = get_or clauses index no_clause
