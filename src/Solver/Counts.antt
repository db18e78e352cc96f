-- ===== src/Solver/Counts.antt =====
-- What a round of `HillClimbingSolver::solve` counts before it tries bags: the values in each row and
-- column, the pairs of values in two squares, and the meta-variables of the false clauses.
use latin_squares_diploma_it.Prelude.{
  ℕ, zero, suc, ◌+◌, ◌-◌, ◌*◌, ◌/◌, ◌≡◌, refl, arith, Bool, false, ◌||◌, ◌&&◌, not, List, [], ◌∷◌,
  Option, none, some, ltb, ◌==◌, if◌then◌else◌, length, get_or, set, replicate, has, Option-cases,
  Bool-cases, inl, inr,
}
use latin_squares_diploma_it.Utils.Word.{sub32}
use latin_squares_diploma_it.Solver.Cells.{Cells}
use latin_squares_diploma_it.Solver.Domain.{at3, change3, byte_up, byte_down}

pub record Counts : Type 0 where
  pub rows_distinct : Cells ℕ
  pub columns_distinct : Cells ℕ
  pub pairs_index : List (List ℕ)

abbrev pub no_counts : Cells ℕ → Counts
no_counts meta_values =
    let squares = length meta_values in
    let size = length (get_or meta_values 0 []) in
    record {
      rows_distinct = replicate squares (replicate size (replicate size 0));
      columns_distinct = replicate squares (replicate size (replicate size 0));
      pairs_index = replicate (squares * (squares - 1) / 2) (replicate (size * size) 0);
    }

module _ (meta_values : Cells ℕ) where
  abbrev rows_of : ℕ → ℕ
  rows_of k = length (get_or meta_values k [])

  -- The three loops over the cells, with so many left: columns, rows and squares.
  unfoldable pub count_columns : ℕ → ℕ → ℕ → ℕ → Counts → Counts
  count_columns k i j zero c = c
  count_columns k i j (suc left) c =
      let v = sub32 (at3 meta_values k i j) 1 in
      count_columns k i (suc j) left (record c {
        columns_distinct = change3 byte_up k j v c.columns_distinct;
        rows_distinct = change3 byte_up k i v c.rows_distinct;
      })

  unfoldable pub count_rows : ℕ → ℕ → ℕ → Counts → Counts
  unfolding count_columns
  count_rows k i zero c = c
  count_rows k i (suc left) c = count_rows k (suc i) left (count_columns k i 0 (rows_of k) c)

  unfoldable pub count_squares : ℕ → ℕ → Counts → Counts
  unfolding count_rows
  count_squares k zero c = c
  count_squares k (suc left) c = count_squares (suc k) left (count_rows k 0 (rows_of k) c)

  -- The four loops over the pairs.
  unfoldable pub pair_columns : ℕ → ℕ → ℕ → ℕ → ℕ → Counts → Counts
  pair_columns k1 k2 i j zero c = c
  pair_columns k1 k2 i j (suc left) c =
      let val1 = byte_down (at3 meta_values k1 i j) in
      let val2 = byte_down (at3 meta_values k2 i j) in
      let index = k1 + k2 - 1 in
      let slot = val1 * rows_of k1 + val2 in
      let pairs = get_or c.pairs_index index [] in
      pair_columns k1 k2 i (suc j) left (record c {
        pairs_index = set c.pairs_index index (set pairs slot (byte_up (get_or pairs slot 0)));
      })

  unfoldable pub pair_rows : ℕ → ℕ → ℕ → ℕ → Counts → Counts
  unfolding pair_columns
  pair_rows k1 k2 i zero c = c
  pair_rows k1 k2 i (suc left) c =
      pair_rows k1 k2 (suc i) left (pair_columns k1 k2 i 0 (rows_of k1) c)

  unfoldable pub pair_later : ℕ → ℕ → ℕ → Counts → Counts
  unfolding pair_rows
  pair_later k1 k2 zero c = c
  pair_later k1 k2 (suc left) c = pair_later k1 (suc k2) left (pair_rows k1 k2 0 (rows_of k1) c)

  unfoldable pub pair_squares : ℕ → ℕ → Counts → Counts
  unfolding pair_later
  pair_squares k1 zero c = c
  pair_squares k1 (suc left) c = pair_squares (suc k1) left (pair_later k1 (suc k1) left c)

  unfoldable pub count_all : Counts
  unfolding count_squares pair_squares
  count_all =
      pair_squares 0 (length meta_values)
        (count_squares 0 (length meta_values) (no_counts meta_values))

-- `vars.insert(n)`, on a set in ascending order.
unfoldable pub set_insert : ℕ → List ℕ → List ℕ
set_insert n [] = n ∷ []
set_insert n (x ∷ xs) =
    if n == x then x ∷ xs else if ltb n x then n ∷ x ∷ xs else x ∷ set_insert n xs

-- The numbers from `i` on, `left` of them, are inserted.
unfoldable pub insert_all : ℕ → ℕ → List ℕ → List ℕ
unfolding set_insert
insert_all i zero vars = vars
insert_all i (suc left) vars = insert_all (suc i) left (set_insert i vars)

-- The loop over `literal_to_unsat`, from literal `i` on: the meta-variables of literals in false
-- clauses, and all of them where such a literal has none.
unfoldable pub suspects : List (Option ℕ) → ℕ → ℕ → List ℕ → List ℕ → List ℕ
unfolding insert_all
suspects links size i [] vars = vars
suspects links size i (u ∷ unsat) vars = suspects links size (suc i) unsat (
    if ltb 0 u
    then (elim (get_or links i none) [ none ↦ insert_all 0 size vars | some m ↦ set_insert m vars ])
    else vars)

has-set_insert : (n m : ℕ) (xs : List ℕ) → has m (set_insert n xs) ≡ (n == m || has m xs)
unfolding set_insert
has-set_insert n m [] = refl
has-set_insert n m (x ∷ xs) = ground (arith, has-set_insert n m xs)

has-insert_all :
    (i left m : ℕ) (xs : List ℕ)
    → has m (insert_all i left xs) ≡ ((not (ltb m i) && ltb m (i + left)) || has m xs)
unfolding insert_all
has-insert_all i zero m xs = ground arith
has-insert_all i (suc left) m xs =
    ground (arith, has-insert_all (suc i) left m (set_insert i xs), has-set_insert i m xs)

-- A literal of a false clause accounts for a meta-variable: it is its own, or it has none.
abbrev pub accounts : List (Option ℕ) → ℕ → ℕ → ℕ → List ℕ → Bool
accounts links size m i [] = false
accounts links size m i (u ∷ unsat) =
    (ltb 0 u && (elim (get_or links i none) [ none ↦ ltb m size | some k ↦ k == m ]))
    || accounts links size m (suc i) unsat

-- A meta-variable is among those that the bags are built around exactly when it was there before, or
-- some literal of a false clause is its own, or it is below their number and some such literal has no
-- meta-variable.
pub suspects-accounts :
    (links : List (Option ℕ)) (size m i : ℕ) (unsat vars : List ℕ)
    → has m (suspects links size i unsat vars) ≡ (has m vars || accounts links size m i unsat)
unfolding suspects
suspects-accounts links size m i [] vars = ground arith
suspects-accounts links size m i (u ∷ unsat) vars = elim (Bool-cases (ltb 0 u)) [
  | inl e ↦ elim (Option-cases (get_or links i none)) [
    | inl f ↦
        rw (e, f, suspects)
          (ground (
            arith,
            suspects-accounts links size m (suc i) unsat (insert_all 0 size vars),
            has-insert_all 0 size m vars,
          ))
    | inr (k, f) ↦
        rw (e, f, suspects)
          (ground (
            arith,
            suspects-accounts links size m (suc i) unsat (set_insert k vars),
            has-set_insert k m vars,
          ))
  ]
  | inr e ↦ rw (e, suspects) (ground (arith, suspects-accounts links size m (suc i) unsat vars))
]
