-- ===== src/Tests/Reducing.antt =====
-- The clauses 1, ¬1 ∨ 2 and 1 ∨ ¬2, of which `reduce` leaves 1, 2 and 1; and a net whose two nodes read
-- each other.
use latin_squares_diploma_it.Prelude.{
  ℕ, zero, suc, ◌<◌, ◌≡◌, refl, arith, Bool, true, false, List, [], ◌∷◌, Option, none, some, done,
  stuck, All, ltb,
}
use latin_squares_diploma_it.Cnf.Literal.{Literal}
use latin_squares_diploma_it.Cnf.Clause.{Clause}
use latin_squares_diploma_it.Net.Node.{Node}
use latin_squares_diploma_it.Net.Finalize.{finalize_node}
use latin_squares_diploma_it.Net.Cycles.{IsChained, finalize_node_loops}
use latin_squares_diploma_it.Solver.State.{Solver, clause_at}
use latin_squares_diploma_it.Solver.Reduce.{Reduction, start_reduction, reduce_loop, reduce}
use latin_squares_diploma_it.Solver.Propagated.{IsSignedIndex, Propagated, reduce_loop-Propagated}
use latin_squares_diploma_it.Tests.Net.{lit, both, net}

abbrev clause : List Literal → Clause
clause ls = record { literals = ls; satisfied = [] }

abbrev solver : Solver
solver = record {
  clauses =
      clause (lit 1 true ∷ [])
      ∷ clause (lit 1 false ∷ lit 2 true ∷ [])
      ∷ clause (lit 1 true ∷ lit 2 false ∷ [])
      ∷ [];
  propagated = 2 ∷ 2 ∷ 2 ∷ [];
  satisfied = 0 ∷ 0 ∷ 0 ∷ [];
  literal_to_unsat = 0 ∷ 0 ∷ 0 ∷ [];
  weights = 1 ∷ 1 ∷ 1 ∷ [];
  net = net;
  clauses_count_satisfied = 0 ∷ 0 ∷ 0 ∷ [];
  literal_to_clause_with_positive_value = [] ∷ (0 ∷ 2 ∷ []) ∷ (1 ∷ []) ∷ [];
  literal_to_clause_with_negative_value = [] ∷ (1 ∷ []) ∷ (2 ∷ []) ∷ [];
  satisfied_sum = 0;
  satisfied_count = 0;
}

reduce_runs :
    reduce 4 (none ∷ none ∷ none ∷ []) solver []
    ≡ done (
      record solver {
        clauses =
            clause (lit 1 true ∷ []) ∷ clause (lit 2 true ∷ []) ∷ clause (lit 1 true ∷ []) ∷ [];
        propagated = 2 ∷ 1 ∷ 1 ∷ [];
        literal_to_clause_with_positive_value = [] ∷ [] ∷ [] ∷ [];
        literal_to_clause_with_negative_value = [] ∷ [] ∷ [] ∷ [];
      },
      [],
    )
unfolding reduce
reduce_runs = refl

solver-IsSignedIndex : IsSignedIndex solver
solver-IsSignedIndex zero true = tt
solver-IsSignedIndex zero false = tt
solver-IsSignedIndex (suc zero) true =
    ((λ e. refl, tt), ((λ e. refl, (λ e. absurd (omega arith), tt)), tt))
solver-IsSignedIndex (suc zero) false = ((λ e. refl, (λ e. absurd (omega arith), tt)), tt)
solver-IsSignedIndex (suc (suc zero)) true = ((λ e. absurd (omega arith), (λ e. refl, tt)), tt)
solver-IsSignedIndex (suc (suc zero)) false = ((λ e. absurd (omega arith), (λ e. refl, tt)), tt)
solver-IsSignedIndex (suc (suc (suc n))) true = tt
solver-IsSignedIndex (suc (suc (suc n))) false = tt

bounded : (c : ℕ) → All (λ l. l.number < 3) (clause_at solver.clauses c).literals
bounded zero = (omega arith, tt)
bounded (suc zero) = (omega arith, (omega arith, tt))
bounded (suc (suc zero)) = (omega arith, (omega arith, tt))
bounded (suc (suc (suc c))) = tt

reduce_loop-Propagated_example :
    (r : Reduction) × (reduce_loop 4 solver (none ∷ none ∷ none ∷ []) (start_reduction solver [])
      ≡ done r)
    × Propagated solver (none ∷ none ∷ none ∷ []) r
reduce_loop-Propagated_example =
    reduce_loop-Propagated 3 4 solver (none ∷ none ∷ none ∷ []) [] solver-IsSignedIndex bounded
      (omega arith)

-- 3 = ∧(4) and 4 = ∧(3).
abbrev ring : List Node
ring =
    record both { variable = 3; args = lit 4 true ∷ []; depth = none }
    ∷ record both { variable = 4; args = lit 3 true ∷ []; depth = none }
    ∷ []

abbrev ring_index : List (Option ℕ)
ring_index = none ∷ none ∷ none ∷ some 0 ∷ some 1 ∷ []

abbrev within : ℕ → Bool
within i = ltb i 2

ring-IsChained : (i : ℕ) → within i ≡ true → IsChained ring ring_index within i
ring-IsChained zero h = record {
  node = record both { variable = 3; args = lit 4 true ∷ []; depth = none };
  at = refl;
  unknown = refl;
  first = lit 4 true;
  others = [];
  args = refl;
  next = 1;
  entry = refl;
  inside = refl;
}
ring-IsChained (suc zero) h = record {
  node = record both { variable = 4; args = lit 3 true ∷ []; depth = none };
  at = refl;
  unknown = refl;
  first = lit 3 true;
  others = [];
  args = refl;
  next = 0;
  entry = refl;
  inside = refl;
}
ring-IsChained (suc (suc i)) h = absurd (ground arith)

finalize_node_loops_example : finalize_node 100 ring_index 0 ring ≡ stuck
finalize_node_loops_example = finalize_node_loops ring ring_index within ring-IsChained 100 0 refl
