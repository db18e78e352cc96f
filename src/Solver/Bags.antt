-- ===== src/Solver/Bags.antt =====
-- localsearch/cnf/MetaVariable.h, and `HillClimbingSolver::satisfyPredicateForMetavars`: which bags of
-- meta-variables are tried.
use latin_squares_diploma_it.Prelude.{
  ℕ, suc, Bool, true, false, ◌&&◌, ◌||◌, List, [], ◌∷◌, ◌++◌, map, all, ltb, ◌==◌, if◌then◌else◌,
  length, get_or, set, replicate,
}
use latin_squares_diploma_it.Cnf.Literal.{Literal}

-- A cell of one of the squares, with the literals and the symbol of each value it can take.
pub record MetaVariable : Type 0 where
  pub matrix_index : ℕ
  pub row_index : ℕ
  pub column_index : ℕ
  pub variables : List (List Literal)
  pub values : List ℕ

abbrev no_cell : MetaVariable
no_cell = record { matrix_index = 0; row_index = 0; column_index = 0; variables = []; values = [] }

abbrev pub cell_at : List MetaVariable → ℕ → MetaVariable
cell_at cells i = get_or cells i no_cell

-- One square: the same row or column; two squares: the same place.
unfoldable pub near : MetaVariable → MetaVariable → Bool
near v f =
    if v.matrix_index == f.matrix_index
    then v.row_index == f.row_index || v.column_index == f.column_index
    else v.row_index == f.row_index && v.column_index == f.column_index

-- The inner loop from index `k` on: the first cell near the one at `j` is marked together with it.
unfoldable pub mark_near : MetaVariable → ℕ → ℕ → List MetaVariable → List ℕ → List ℕ
unfolding near
mark_near v j k [] satisfied = satisfied
mark_near v j k (f ∷ found) satisfied =
    let rest = mark_near v j (suc k) found satisfied in
    if near v f then set (set satisfied j 1) k 1 else rest

-- The outer loop from index `j` on, over the cells that the indices name.
unfoldable pub mark_bag : ℕ → List MetaVariable → List MetaVariable → List ℕ → List ℕ
unfolding mark_near
mark_bag j found [] satisfied = satisfied
mark_bag j found (v ∷ cells) satisfied =
    mark_bag (suc j) (found ++ v ∷ []) cells (mark_near v j 0 found satisfied)

abbrev pub bag : List MetaVariable → List ℕ → List MetaVariable
bag meta_variables indices = map (cell_at meta_variables) indices

abbrev pub marks_of : List MetaVariable → List ℕ → List ℕ
marks_of meta_variables indices =
    mark_bag 0 [] (bag meta_variables indices) (replicate (length indices) 0)

abbrev pub is_open : MetaVariable → Bool
is_open v = ltb 1 (length v.variables)

abbrev pub is_marked : ℕ → Bool
is_marked u = if u == 0 then false else true

unfoldable pub satisfy_predicate_for_metavars : List MetaVariable → List ℕ → Bool
unfolding mark_bag
satisfy_predicate_for_metavars meta_variables indices =
    if all is_open (bag meta_variables indices)
    then (if length indices == 1 then true else all is_marked (marks_of meta_variables indices))
    else false
