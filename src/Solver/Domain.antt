-- ===== src/Solver/Domain.antt =====
-- `HillClimbingSolver::satisfyPredicateForDomain`: whether new values for a bag of cells make the
-- squares no worse, by the change of the counts of values in rows and columns and of pairs of values in
-- two squares. A byte is signed where the sources say `int8_t`.
use latin_squares_diploma_it.Prelude.{
  ℕ, zero, suc, ◌+◌, ◌-◌, ◌*◌, ◌/◌, ◌%◌, Bool, List, [], ◌∷◌, ◌++◌, ltb, ◌==◌, if◌then◌else◌,
  length, get_or, set, replicate, ℤ, pos, abs, is_zero, is_positive, not, sub_ℕ, ◌+ℤ◌, ◌-ℤ◌, ◌*ℤ◌,
}
use latin_squares_diploma_it.Utils.Word.{sub32}
use latin_squares_diploma_it.Solver.Bags.{MetaVariable, cell_at}
use latin_squares_diploma_it.Solver.Cells.{Cells}

-- The value of a signed byte, and the bytes before and after a byte.
abbrev pub signed : ℕ → ℤ
signed b = if ltb b 128 then pos b else sub_ℕ b 256

abbrev pub byte_up : ℕ → ℕ
byte_up b = (b + 1) % 256

abbrev pub byte_down : ℕ → ℕ
byte_down b = (b + 255) % 256

-- The local vectors. `values_rows` has one vector of changes for each entry of `changed_rows`.
pub record Changes : Type 0 where
  pub sum : ℤ
  pub values_columns : Cells ℕ
  pub values_rows : Cells ℕ
  pub pairs_index_delta : List (List ℕ)
  pub changed_columns : List (List ℕ)
  pub changed_rows : List (List ℕ)

-- A vector whose position moves on by one.
abbrev pub drop_one {ℓ} : {A : Type ℓ} → List A → List A
drop_one [] = []
drop_one (x ∷ xs) = xs

-- `std::find`, as the index that it stops at.
abbrev pub position : ℕ → List ℕ → ℕ
position x [] = 0
position x (y ∷ ys) = if y == x then 0 else suc (position x ys)

-- `cells[k][i][v]`, read and written.
abbrev pub at3 : Cells ℕ → ℕ → ℕ → ℕ → ℕ
at3 cells k i v = get_or (get_or (get_or cells k []) i []) v 0

abbrev pub change3 : (ℕ → ℕ) → ℕ → ℕ → ℕ → Cells ℕ → Cells ℕ
change3 f k i v cells =
    let lines = get_or cells k [] in
    let line = get_or lines i [] in set cells k (set lines i (set line v (f (get_or line v 0))))

-- The row (or column) of a changed cell: it is entered if it is new, the new value counts one more, the
-- old one less. A value v has the index v - 1, which is out of range for 0.
unfoldable pub change_line : ℕ → ℕ → ℕ → ℕ → ℕ → List (List ℕ) → Cells ℕ → List (List ℕ) × Cells ℕ
change_line size k line new old changed values =
    let entered = get_or changed k [] in
    let index = position line entered in
    let (changed', values') : List (List ℕ) × Cells ℕ =
      (if index == length entered
        then (
          set changed k (entered ++ line ∷ []),
          set values k (get_or values k [] ++ replicate size 0 ∷ []),
        )
        else (changed, values)) in
    (
      changed',
      change3 byte_down k index (sub32 old 1) (change3 byte_up k index (sub32 new 1) values'),
    )

-- One pair loses a place and another one gains one, in the pairs of the squares at `index`.
unfoldable pub change_pair : List (List ℕ) → ℕ → ℕ → ℕ → Changes → Changes
change_pair pairs_index index old new c =
    let deltas = get_or c.pairs_index_delta index [] in
    let prev = get_or pairs_index index [] in
    let lost = byte_down (get_or deltas old 0) in
    let deltas' = set deltas old lost in
    let sum = if is_zero (signed lost +ℤ pos (get_or prev old 0)) then c.sum +ℤ pos 1 else c.sum in
    let gained = byte_up (get_or deltas' new 0) in
    record c {
      pairs_index_delta = set c.pairs_index_delta index (set deltas' new gained);
      sum =
          if is_zero (signed gained +ℤ pos (get_or prev new 0) -ℤ pos 1) then sum -ℤ pos 1 else sum;
    }

module _ (meta_values : Cells ℕ) (pairs_index : List (List ℕ)) where
  abbrev pub size_of : ℕ
  size_of = length (get_or meta_values 0 [])

  -- The body of the loops over two squares, for a cell and its new value.
  unfoldable pub change_squares : MetaVariable → ℕ → ℕ → ℕ → Changes → Changes
  unfolding change_pair
  change_squares v new k1 k2 c =
      let index = k1 + k2 - 1 in
      let at = λ (k : ℕ). byte_down (at3 meta_values k v.row_index v.column_index) in
      if k1 == v.matrix_index
      then change_pair pairs_index index (at k1 * size_of + at k2) (byte_down new * size_of + at k2)
          c
      else if k2 == v.matrix_index
      then change_pair pairs_index index (at k1 * size_of + at k2) (at k1 * size_of + byte_down new)
          c
      else c

  -- The loop over `k2`, with `left` squares from `k2` on, and the loop over `k1`.
  unfoldable pub change_later : MetaVariable → ℕ → ℕ → ℕ → ℕ → Changes → Changes
  unfolding change_squares
  change_later v new k1 k2 zero c = c
  change_later v new k1 k2 (suc left) c =
      change_later v new k1 (suc k2) left (change_squares v new k1 k2 c)

  unfoldable pub change_pairs : MetaVariable → ℕ → ℕ → ℕ → Changes → Changes
  unfolding change_later
  change_pairs v new k1 zero c = c
  change_pairs v new k1 (suc left) c =
      change_pairs v new (suc k1) left (change_later v new k1 (suc k1) left c)

  -- The body of the loop over the bag.
  unfoldable pub change_cell : MetaVariable → ℕ → Changes → Changes
  unfolding change_line change_pairs
  change_cell v new c =
      let k = v.matrix_index in
      let old = at3 meta_values k v.row_index v.column_index in
      let (rows, values_rows) =
        change_line size_of k v.row_index new old c.changed_rows c.values_rows in
      let (columns, values_columns) =
        change_line size_of k v.column_index new old c.changed_columns c.values_columns in
      change_pairs v new 0 (length meta_values) (record c {
        changed_rows = rows;
        values_rows = values_rows;
        changed_columns = columns;
        values_columns = values_columns;
      })

  -- The loop over the bag; the values' indices are in step with it.
  unfoldable pub change_cells : List MetaVariable → List ℕ → List ℕ → Changes → Changes
  unfolding change_cell
  change_cells meta_variables [] values c = c
  change_cells meta_variables (m ∷ indices) values c =
      let v = cell_at meta_variables m in
      change_cells meta_variables indices (drop_one values)
        (change_cell v (get_or v.values (get_or values 0 0) 0) c)

-- `x * (x - 1) / 2`, whose product is never negative.
abbrev pub half_square : ℤ → ℤ
half_square x = pos (abs (x *ℤ (x -ℤ pos 1)) / 2)

abbrev pub zero_flag : ℤ → ℤ
zero_flag x = if is_zero x then pos 1 else pos 0

-- The innermost loop: the changes of one line against the counts before.
unfoldable pub score_line : List ℕ → List ℕ → ℤ → ℤ
score_line [] prev sum = sum
score_line (d ∷ delta) prev sum =
    let p = pos (get_or prev 0 0) in
    let p' = p +ℤ signed d in
    score_line delta (drop_one prev) (
      if d == 0
      then sum
      else sum +ℤ (half_square p' -ℤ half_square p) +ℤ (zero_flag p' -ℤ zero_flag p))

-- The loop over the changed lines of one square.
unfoldable pub score_lines : List (List ℕ) → List ℕ → List (List ℕ) → ℤ → ℤ
unfolding score_line
score_lines distinct [] values sum = sum
score_lines distinct (line ∷ changed) values sum =
    score_lines distinct changed (drop_one values)
      (score_line (get_or values 0 []) (get_or distinct line []) sum)

-- The loop over the squares, with `left` of them from `k` on.
unfoldable pub score_squares : Cells ℕ → Cells ℕ → Changes → ℕ → ℕ → ℤ → ℤ
unfolding score_lines
score_squares rows_distinct columns_distinct c k zero sum = sum
score_squares rows_distinct columns_distinct c k (suc left) sum =
    score_squares rows_distinct columns_distinct c (suc k) left (
      score_lines (get_or columns_distinct k []) (get_or c.changed_columns k [])
        (get_or c.values_columns k [])
        (score_lines (get_or rows_distinct k []) (get_or c.changed_rows k [])
          (get_or c.values_rows k []) sum))

abbrev pub start_changes : Cells ℕ → List (List ℕ) → Changes
start_changes meta_values pairs_index =
    let size = length (get_or meta_values 0 []) in
    let squares = length meta_values in
    record {
      sum = pos 0;
      values_columns = replicate squares [];
      values_rows = replicate squares [];
      pairs_index_delta = replicate (length pairs_index) (replicate (size * size) 0);
      changed_columns = replicate squares [];
      changed_rows = replicate squares [];
    }

unfoldable pub satisfy_predicate_for_domain :
    List MetaVariable → Cells ℕ → List ℕ → List ℕ → Cells ℕ → Cells ℕ → List (List ℕ) → Bool
unfolding change_cells score_squares
satisfy_predicate_for_domain meta_variables meta_values indices values rows_distinct
      columns_distinct pairs_index =
    let c =
      change_cells meta_values pairs_index meta_variables indices values
        (start_changes meta_values pairs_index) in
    not (is_positive (score_squares rows_distinct columns_distinct c 0 (length meta_values) c.sum))
