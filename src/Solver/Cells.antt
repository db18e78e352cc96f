-- ===== src/Solver/Cells.antt =====
-- The cells of the squares as the constructor of `HillClimbingSolver` makes them: `metaValues` and
-- `structuredMetaVariables`.
use latin_squares_diploma_it.Prelude.{
  ℕ, zero, suc, List, [], ◌∷◌, none, some, Outcome, done, fault, ◌>>=◌, ltb, ◌==◌, if◌then◌else◌,
  length, get_or, get_elem?, set, grow,
}
use latin_squares_diploma_it.Utils.Word.{add32}
use latin_squares_diploma_it.Solver.Bags.{MetaVariable}

-- Values or meta-variables by matrix, row and column.
abbrev pub Cells : Type 0 → Type 0
Cells A = List (List (List A))

-- The three resizes that make room for a cell. Both members have the same sizes, by which they are
-- tested.
unfoldable pub grow_cells : {A : Type 0} → A → MetaVariable → Cells A → Cells A
grow_cells d v cells =
    let cells' = grow cells v.matrix_index [] in
    let rows = grow (get_or cells' v.matrix_index []) v.row_index [] in
    let columns = grow (get_or rows v.row_index []) v.column_index d in
    set cells' v.matrix_index (set rows v.row_index columns)

-- `cells[v.matrix][v.row][v.column] = a`
unfoldable pub set_cell : {A : Type 0} → A → MetaVariable → Cells A → Cells A
set_cell a v cells =
    let rows = get_or cells v.matrix_index [] in
    set cells v.matrix_index
      (set rows v.row_index (set (get_or rows v.row_index []) v.column_index a))

-- The length of a row; a row that is not there has none.
abbrev pub row_length : {A : Type 0} → Cells A → ℕ → ℕ → ℕ
row_length cells m r = length (get_or (get_or cells m []) r [])

-- The same assignment, where the cell is there.
unfoldable pub write_cell : {A : Type 0} → A → MetaVariable → Cells A → Outcome (Cells A)
unfolding set_cell
write_cell a v cells =
    if ltb v.column_index (row_length cells v.matrix_index v.row_index)
    then done (set_cell a v cells)
    else fault

-- `v.resize(n)`
unfoldable pub resize_row : ℕ → List ℕ → List ℕ
resize_row zero row = []
resize_row (suc n) [] = 0 ∷ resize_row n []
resize_row (suc n) (x ∷ row) = x ∷ resize_row n row

-- `rows[i][0] = i + 1` for all rows, of which none may be empty, and `row[i] = i + 1` for a whole row.
unfoldable pub number_rows : ℕ → List (List ℕ) → Outcome (List (List ℕ))
number_rows i [] = done []
number_rows i ([] ∷ rows) = fault
number_rows i ((x ∷ row) ∷ rows) =
    number_rows (suc i) rows >>= λ numbered. done ((add32 i 1 ∷ row) ∷ numbered)

unfoldable pub number_row : ℕ → List ℕ → List ℕ
number_row i [] = []
number_row i (x ∷ row) = add32 i 1 ∷ number_row (suc i) row

-- The fixed first row and column of each square: the first square has both, the others the column. The
-- first row gets the length of the second, which must be there.
unfoldable pub fix_rows : ℕ → List (List ℕ) → Outcome (List (List ℕ))
unfolding resize_row number_rows number_row
fix_rows k rows = elim (get_elem? rows 1) [
  | none ↦ fault
  | some second ↦
      number_rows 0 (set rows 0 (resize_row (length second) (get_or rows 0 []))) >>= λ numbered.
      done (if k == 0 then set numbered 0 (number_row 0 (get_or numbered 0 [])) else numbered)
]

unfoldable pub fix_cells : ℕ → Cells ℕ → Outcome (Cells ℕ)
unfolding fix_rows
fix_cells k [] = done []
fix_cells k (rows ∷ cells) =
    fix_rows k rows >>= λ fixed. fix_cells (suc k) cells >>= λ rest. done (fixed ∷ rest)
