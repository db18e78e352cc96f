-- ===== src/Solver/Formula.antt =====
-- localsearch/cnf/CNF.h and CNF.cpp: a formula with its net, its meta-variables and its weights.
use latin_squares_diploma_it.Prelude.{ℕ, List, Outcome, done, ◌>>=◌, Sort}
use latin_squares_diploma_it.Cnf.Literal.{Literal}
use latin_squares_diploma_it.Cnf.Clause.{Clause}
use latin_squares_diploma_it.Net.Node.{Node}
use latin_squares_diploma_it.Net.Flips.{Finalized}
use latin_squares_diploma_it.Net.Finalize.{Net, finalize}
use latin_squares_diploma_it.Solver.Bags.{MetaVariable}

pub record Cnf : Type 0 where
  pub clauses : List Clause
  pub literal_count : ℕ
  pub meta_vars : List MetaVariable
  pub core_variables : List Literal
  pub net : Finalized
  pub weights : List ℕ
  pub to_compute : List ℕ

-- The constructor, which finalizes the net.
unfoldable pub make_cnf :
    Sort Node
    → List Clause
    → ℕ
    → List Literal
    → List MetaVariable
    → Net
    → List ℕ
    → List ℕ
    → Outcome Cnf
unfolding finalize
make_cnf sorting clauses literal_count core_variables meta_vars net weights to_compute =
    finalize sorting net >>= λ final. done (record {
      clauses = clauses;
      literal_count = literal_count;
      meta_vars = meta_vars;
      core_variables = core_variables;
      net = final;
      weights = weights;
      to_compute = to_compute;
    })
