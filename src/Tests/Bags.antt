-- ===== src/Tests/Bags.antt =====
-- Bags of three cells: the third is in the row of the first and in the column of the second.
use latin_squares_diploma_it.Prelude.{
  ℕ, zero, suc, ◌<◌, ◌≡◌, refl, arith, length, All, true, false, List, [], ◌∷◌,
}
use latin_squares_diploma_it.Solver.Bags.{MetaVariable, near, bag, satisfy_predicate_for_metavars}
use latin_squares_diploma_it.Solver.Accepting.{IsChained, satisfy_predicate_for_metavars_accepts}
use latin_squares_diploma_it.Solver.Neighbours.{
  IsCandidate, satisfy_predicate_for_metavars-IsCandidate,
}

abbrev cell : ℕ → ℕ → MetaVariable
cell row column = record {
  matrix_index = 0;
  row_index = row;
  column_index = column;
  variables = [] ∷ [] ∷ [];
  values = 1 ∷ 2 ∷ [];
}

abbrev pub cells : List MetaVariable
cells = cell 0 0 ∷ cell 1 1 ∷ cell 0 1 ∷ []

-- The third cell is marked with the first one, and the second, which is near it too, is left out.
corner_last : satisfy_predicate_for_metavars cells (0 ∷ 1 ∷ 2 ∷ []) ≡ false
unfolding satisfy_predicate_for_metavars
corner_last = refl

corner_first : satisfy_predicate_for_metavars cells (2 ∷ 0 ∷ 1 ∷ []) ≡ true
unfolding satisfy_predicate_for_metavars
corner_first = refl

satisfy_predicate_for_metavars-IsCandidate_example : IsCandidate (bag cells (2 ∷ 0 ∷ 1 ∷ []))
satisfy_predicate_for_metavars-IsCandidate_example =
    satisfy_predicate_for_metavars-IsCandidate cells (2 ∷ 0 ∷ 1 ∷ []) corner_first

open_cells : All (λ v. 1 < length v.variables) (bag cells (2 ∷ 0 ∷ 1 ∷ []))
open_cells = (omega arith, (omega arith, (omega arith, tt)))

cells-IsChained : IsChained (bag cells (2 ∷ 0 ∷ 1 ∷ []))
unfolding near
cells-IsChained zero p q = absurd (omega arith)
cells-IsChained (suc zero) p q = (0, omega arith, refl)
cells-IsChained (suc (suc zero)) p q = (0, omega arith, refl)
cells-IsChained (suc (suc (suc j))) p q = absurd (omega arith)

satisfy_predicate_for_metavars_accepts_example :
    satisfy_predicate_for_metavars cells (2 ∷ 0 ∷ 1 ∷ []) ≡ true
satisfy_predicate_for_metavars_accepts_example =
    satisfy_predicate_for_metavars_accepts cells (2 ∷ 0 ∷ 1 ∷ []) open_cells cells-IsChained
