-- ===== src/Tests/Incremental.antt =====
-- The clause 1 ∨ 2 with the group ¬1 and then the group ¬2, over a solver that tries the assignments of
-- two variables.
use Prim.Native.String.{String}
use mathlib.Core.List.{flatten}
use latin_squares_diploma_it.Cnf.Literal.{of_dimacs}
use latin_squares_diploma_it.Prelude.{
  ℕ, ◌≡◌, refl, Bool, true, false, List, [], ◌∷◌, ◌++◌, any, all, All, done, if◌then◌else◌, pos,
  negsuc, Bool-cases, inl, inr,
}
use latin_squares_diploma_it.Input.Token.{Token, word, number, is_text}
use latin_squares_diploma_it.Incremental.Reading.{Lit, parse_clauses, parse_literals}
use latin_squares_diploma_it.Incremental.Rounds.{Lbool, l_true, l_false, is_true, SatSolver, run}
use latin_squares_diploma_it.Incremental.Models.{AreModels, run-AreModels}

abbrev lit : ℕ → Bool → Lit
lit v b = record { var = v; inverted = b }

abbrev makes_true : List Lbool → List (List Lit) → Bool
makes_true model clauses = all (any (is_true model)) clauses

abbrev candidates : List (List Lbool)
candidates =
    (l_true ∷ l_true ∷ [])
    ∷ (l_true ∷ l_false ∷ [])
    ∷ (l_false ∷ l_true ∷ [])
    ∷ (l_false ∷ l_false ∷ [])
    ∷ []

-- The first of the models that makes the clauses true.
abbrev find : List (List Lbool) → List (List Lit) → List Lbool × Lbool
find [] clauses = ([], l_false)
find (m ∷ models) clauses = if makes_true m clauses then (m, l_true) else find models clauses

all_true :
    (model : List Lbool) (cs : List (List Lit))
    → makes_true model cs ≡ true
    → All (λ c. any (is_true model) c ≡ true) cs
all_true model [] h = tt
all_true model (c ∷ cs) h = elim (Bool-cases (any (is_true model) c)) [
  | inl e ↦ (e, all_true model cs (rw e at h))
  | inr e ↦ absurd (cc (rw e at h))
]

found_model :
    (models : List (List Lbool)) (cs : List (List Lit))
    → (find models cs).1 ≡ l_true
    → All (λ c. any (is_true (find models cs).0) c ≡ true) cs
found_model [] cs h = cc
found_model (m ∷ models) cs h = elim (Bool-cases (makes_true m cs)) [
  | inl e ↦ rw e (all_true m cs e)
  | inr e ↦ rw e (found_model models cs (rw e at h))
]

abbrev trial : SatSolver (List (List Lit))
trial = record {
  new_vars = λ n. [];
  add_clause = λ c s. s ++ c ∷ [];
  solve = λ s. (s, (find candidates s).1);
  get_model = λ s. (find candidates s).0;
  clauses = λ s. s;
  fresh = λ n. refl;
  added = λ c s. refl;
  kept = λ s. refl;
  models = λ s h. found_model candidates s h;
}

abbrev main_clauses : List (List Lit)
main_clauses = (lit 0 false ∷ lit 1 false ∷ []) ∷ []

abbrev groups : List (List (List Lit))
groups = ((lit 0 true ∷ []) ∷ []) ∷ ((lit 1 true ∷ []) ∷ []) ∷ []

run_runs : run trial (pos 2) main_clauses groups ≡ (0, negsuc 0 ∷ pos 2 ∷ []) ∷ []
unfolding run
run_runs = refl

run-AreModels_example :
    AreModels trial main_clauses 0 groups (run trial (pos 2) main_clauses groups)
run-AreModels_example = run-AreModels trial (pos 2) main_clauses groups

abbrev scan : String → List Token
scan line =
    if is_text line "p cnf 2 1"
    then word "p" ∷ word "cnf" ∷ number (pos 2) ∷ number (pos 1) ∷ []
    else if is_text line "1 2 0"
    then number (pos 1) ∷ number (pos 2) ∷ number (pos 0) ∷ []
    else if is_text line "c -1"
    then word "c" ∷ number (negsuc 0) ∷ []
    else if is_text line "c -2"
    then word "c" ∷ number (negsuc 1) ∷ []
    else []

abbrev file : List String
file = "c incrementalExprs:" ∷ "c expr:" ∷ "c -1" ∷ "c expr:" ∷ "c -2" ∷ "p cnf 2 1" ∷ "1 2 0" ∷ []

parse_runs :
    (parse_clauses scan (pos 0) 20 file ≡ done (pos 2, main_clauses))
    × (parse_literals scan (pos 0) 20 file ≡ done groups)
unfolding parse_clauses parse_literals flatten of_dimacs
parse_runs = (refl, refl)
