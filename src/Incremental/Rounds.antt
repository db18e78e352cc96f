-- ===== src/Incremental/Rounds.antt =====
-- `main` of incremental/incremental.cpp, over the CryptoMiniSat solver as an interface.
use latin_squares_diploma_it.Prelude.{
  ℕ, suc, ◌+◌, ◌≡◌, Bool, true, false, List, [], ◌∷◌, ◌++◌, any, All, get_or, ℤ, pos, negsuc,
}
use latin_squares_diploma_it.Incremental.Reading.{Lit}

-- `lbool`
pub data Lbool : Type 0 where
  l_true l_false l_undef : Lbool

-- A literal is true in a model where its variable has its value.
abbrev pub is_true : List Lbool → Lit → Bool
is_true model l = elim (get_or model l.var l_undef) [
  | l_true ↦ elim l.inverted [ true ↦ false | false ↦ true ]
  | l_false ↦ l.inverted
  | l_undef ↦ false
]

-- The solver's operations, and what is relied on: a state stands for the clauses that were added to it,
-- and when `solve` answers true the model makes each of them true.
pub record SatSolver (S : Type 0) : Type 0 where
  pub new_vars : ℤ → S
  pub add_clause : List Lit → S → S
  pub solve : S → S × Lbool
  pub get_model : S → List Lbool
  pub clauses : S → List (List Lit)
  pub fresh : (n : ℤ) → clauses (new_vars n) ≡ []
  pub added : (c : List Lit) (s : S) → clauses (add_clause c s) ≡ clauses s ++ c ∷ []
  pub kept : (s : S) → clauses (solve s).0 ≡ clauses s
  pub models :
      (s : S)
      → (solve s).1 ≡ l_true
      → All (λ c. any (is_true (get_model (solve s).0)) c ≡ true) (clauses s)

-- The integers that are written for a model, from variable `i` on.
unfoldable pub print_model : ℕ → List Lbool → List ℤ
print_model i [] = []
print_model i (l_true ∷ model) = pos (i + 1) ∷ print_model (suc i) model
print_model i (l_false ∷ model) = negsuc i ∷ print_model (suc i) model
print_model i (l_undef ∷ model) = negsuc i ∷ print_model (suc i) model

module _ {S : Type 0} (sat : SatSolver S) where
  unfoldable pub add_clauses : List (List Lit) → S → S
  add_clauses [] s = s
  add_clauses (c ∷ clauses) s = add_clauses clauses (sat.add_clause c s)

  -- The loop over the groups, from group `i` on: the files that are written, by their number. An answer
  -- that is not true ends the program.
  unfoldable pub run_groups : ℕ → List (List (List Lit)) → S → List (ℕ × List ℤ)
  unfolding add_clauses print_model
  run_groups i [] s = []
  run_groups i (group ∷ groups) s =
      let r = sat.solve (add_clauses group s) in
      let rest = run_groups (suc i) groups r.0 in
      elim r.1 [
        | l_true ↦ (i, print_model 0 (sat.get_model r.0)) ∷ rest
        | l_false ↦ []
        | l_undef ↦ []
      ]

  -- `main` after the two parsers. The answer of the first call of `solve` is not looked at.
  unfoldable pub run : ℤ → List (List Lit) → List (List (List Lit)) → List (ℕ × List ℤ)
  unfolding run_groups
  run literal_count main_clauses groups =
      run_groups 0 groups (sat.solve (add_clauses main_clauses (sat.new_vars literal_count))).0
