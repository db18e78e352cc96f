-- ===== src/Tests/Constructing.antt =====
-- The formula 2 ∨ 3, ¬2 ∨ ¬3 over the net 4 = 1 ∧ 2 and 3 = ¬1 ∨ 4, with one cell that is variable 1 or
-- variable 2.
use latin_squares_diploma_it.Prelude.{
  any, fault, ℕ, zero, suc, ◌<◌, ◌≡◌, refl, arith, true, false, [], ◌∷◌, none, some, done, length,
  get_or, has,
}
use latin_squares_diploma_it.Utils.Word.{u32_mod}
use latin_squares_diploma_it.Cnf.Clause.{propagate_sat}
use latin_squares_diploma_it.Net.Node.{propagate}
use latin_squares_diploma_it.Net.Compute.{compute}
use latin_squares_diploma_it.Solver.State.{clause_at}
use latin_squares_diploma_it.Solver.Bags.{MetaVariable}
use latin_squares_diploma_it.Solver.Formula.{Cnf}
use latin_squares_diploma_it.Solver.Construct.{Search, construct}
use latin_squares_diploma_it.Solver.Constructed.{IsRegular, HasSquares, construct-Constructed}
use latin_squares_diploma_it.Solver.Fresh.{Constructed}
use latin_squares_diploma_it.Solver.Squares.{is_last}
use latin_squares_diploma_it.Solver.Settled.{IsChoosable}
use latin_squares_diploma_it.Tests.Net.{lit, net}

abbrev cell : MetaVariable
cell = record {
  matrix_index = 0;
  row_index = 1;
  column_index = 1;
  variables = (lit 1 true ∷ lit 2 false ∷ []) ∷ (lit 1 false ∷ lit 2 true ∷ []) ∷ [];
  values = 3 ∷ 4 ∷ [];
}

abbrev cnf : Cnf
cnf = record {
  clauses =
      record { literals = lit 2 true ∷ lit 3 true ∷ []; satisfied = [] }
      ∷ record { literals = lit 2 false ∷ lit 3 false ∷ []; satisfied = [] }
      ∷ [];
  literal_count = 4;
  meta_vars = cell ∷ [];
  core_variables = lit 1 true ∷ lit 2 true ∷ [];
  net = net;
  weights = 3 ∷ 5 ∷ [];
  to_compute = 0 ∷ 1 ∷ [];
}

abbrev built : Search
built = record {
  solver = record {
    clauses =
        record { literals = lit 2 true ∷ lit 3 true ∷ []; satisfied = true ∷ true ∷ [] }
        ∷ record { literals = lit 2 false ∷ lit 3 false ∷ []; satisfied = false ∷ false ∷ [] }
        ∷ [];
    propagated = 2 ∷ 0 ∷ 1 ∷ 1 ∷ 0 ∷ [];
    satisfied = 1 ∷ 0 ∷ [];
    literal_to_unsat = 0 ∷ 0 ∷ 1 ∷ 1 ∷ 0 ∷ [];
    weights = 3 ∷ 5 ∷ [];
    net = net;
    clauses_count_satisfied = 2 ∷ 0 ∷ [];
    literal_to_clause_with_positive_value = [] ∷ [] ∷ (0 ∷ []) ∷ (0 ∷ []) ∷ [] ∷ [];
    literal_to_clause_with_negative_value = [] ∷ [] ∷ (1 ∷ []) ∷ (1 ∷ []) ∷ [] ∷ [];
    satisfied_sum = 3;
    satisfied_count = 1;
  };
  meta_variables = cell ∷ [];
  structured_meta_variables = ([] ∷ (none ∷ some 0 ∷ []) ∷ []) ∷ [];
  meta_values = ((1 ∷ 2 ∷ []) ∷ (2 ∷ 4 ∷ []) ∷ []) ∷ [];
  literal_to_meta_variable = none ∷ some 0 ∷ some 0 ∷ none ∷ none ∷ [];
  sum_weights = 8;
  core_size = 2;
}

construct_runs : construct 1 cnf [] (1 ∷ []) ≡ done built
unfolding construct compute propagate propagate_sat
construct_runs = refl

-- The first values take variable 1, and the cell the value that goes with it.
given_runs :
    construct 1 cnf (0 ∷ 1 ∷ 0 ∷ []) (1 ∷ [])
    ≡ done (record built {
      solver = record built.solver {
        clauses =
            record { literals = lit 2 true ∷ lit 3 true ∷ []; satisfied = false ∷ false ∷ [] }
            ∷ record { literals = lit 2 false ∷ lit 3 false ∷ []; satisfied = true ∷ true ∷ [] }
            ∷ [];
        propagated = 2 ∷ 1 ∷ 0 ∷ 0 ∷ 0 ∷ [];
        satisfied = 0 ∷ 1 ∷ [];
        clauses_count_satisfied = 0 ∷ 2 ∷ [];
        satisfied_sum = 5;
      };
      meta_values = ((1 ∷ 2 ∷ []) ∷ (2 ∷ 3 ∷ []) ∷ []) ∷ [];
    })
unfolding construct compute propagate propagate_sat
given_runs = refl

cnf-IsRegular : IsRegular cnf
cnf-IsRegular = record {
  numbers = ((omega arith, (omega arith, tt)), ((omega arith, (omega arith, tt)), tt));
  short = short;
  weights = weights;
  weighted = omega arith;
  inside = λ c h. ground arith;
  several = λ c e. several c e;
  net_numbers = omega arith;
}
  where
    short : (c : ℕ) → length (clause_at cnf.clauses c).literals < u32_mod
    short zero = omega arith
    short (suc zero) = omega arith
    short (suc (suc c)) = omega arith

    weights : (c : ℕ) → get_or cnf.weights c 0 < u32_mod
    weights zero = omega arith
    weights (suc zero) = omega arith
    weights (suc (suc c)) = omega arith

    several : (c : ℕ) → length (clause_at cnf.clauses c).literals ≡ 1 → ⊥
    several zero e = omega arith
    several (suc zero) e = omega arith
    several (suc (suc c)) e = omega arith

cell-IsChoosable : IsChoosable 2 cell
cell-IsChoosable = record { choices = omega arith; values = omega arith; literals = omega arith }

cnf-HasSquares : HasSquares 1 2 cnf
cnf-HasSquares = record {
  core = omega arith;
  choosable = (cell-IsChoosable, tt);
  laid = record { several = omega arith; places = omega arith; last = last };
}
  where
    last : (k r : ℕ) → k < 1 → 0 < r → r < 2 → any (is_last 2 k r) (cell ∷ []) ≡ true
    last zero zero p q l = absurd (omega arith)
    last zero (suc zero) p q l = refl
    last zero (suc (suc r)) p q l = absurd (omega arith)
    last (suc k) r p q l = absurd (omega arith)

-- Without a value for variable 2, or without choices, there is no result.
short_first : construct 1 cnf (0 ∷ 1 ∷ []) (1 ∷ []) ≡ fault
unfolding construct
short_first = refl

no_choices :
    construct 1 (record cnf { meta_vars = record cell { variables = [] } ∷ [] }) [] (1 ∷ []) ≡ fault
unfolding construct
no_choices = refl

construct-Constructed_example :
    (q : Search) × (construct 1 cnf (0 ∷ 1 ∷ 0 ∷ []) (1 ∷ []) ≡ done q)
    × Constructed (0 ∷ 1 ∷ []) (λ c. has c (0 ∷ 1 ∷ [])) q.solver
construct-Constructed_example =
    construct-Constructed cnf cnf-IsRegular 1 2 cnf-HasSquares (0 ∷ 1 ∷ 0 ∷ []) (1 ∷ [])
      (λ e. omega arith) 0
