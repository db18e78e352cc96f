-- ===== src/Solver/Places.antt =====
-- The sizes of the squares while the constructor makes room for the cells.
use latin_squares_diploma_it.Prelude.{
  ℕ, zero, suc, ◌+◌, ◌-◌, ◌≤◌, ◌<◌, ◌≡◌, ◌≢◌, refl, ap, ◌∙◌, arith, List, [], ◌∷◌, ◌++◌, leb, ◌==◌,
  ==_iff, if◌then◌else◌, length, length-append, length-set, length-replicate, get_or,
  get_or-set_self, get_or-set_ne, get_or-replicate, set, grow, replicate, All, Bool-cases, inl, inr,
}
use latin_squares_diploma_it.Solver.Bags.{MetaVariable}
use latin_squares_diploma_it.Solver.Cells.{Cells, grow_cells, set_cell, row_length}

module _ {A : Type 0} where
  -- An entry is replaced by one of the same measure.
  pub set_alike :
      (f : A → ℕ) (xs : List A) (i j : ℕ) (v d : A)
      → f v ≡ f (get_or xs i d)
      → f (get_or (set xs i v) j d) ≡ f (get_or xs j d)
  set_alike f [] i j v d e = refl
  set_alike f (x ∷ xs) zero zero v d e = e
  set_alike f (x ∷ xs) zero (suc j) v d e = refl
  set_alike f (x ∷ xs) (suc i) zero v d e = refl
  set_alike f (x ∷ xs) (suc i) (suc j) v d e = set_alike f xs i j v d e

  get_or-padded : (xs : List A) (n i : ℕ) (d : A) → get_or (xs ++ replicate n d) i d ≡ get_or xs i d
  get_or-padded [] n i d = get_or-replicate n i d
  get_or-padded (x ∷ xs) n zero d = refl
  get_or-padded (x ∷ xs) n (suc i) d = get_or-padded xs n i d

  get_or-grow : (xs : List A) (k i : ℕ) (d : A) → get_or (grow xs k d) i d ≡ get_or xs i d
  get_or-grow xs k i d = elim (Bool-cases (leb (length xs) k)) [
    | inl e ↦ rw e (get_or-padded xs (k + 1 - length xs) i d)
    | inr e ↦ rw e refl
  ]

  length-grow :
      (xs : List A) (k : ℕ) (a : A)
      → length (grow xs k a) ≡ (if leb (length xs) k then suc k else length xs)
  length-grow xs k a = elim (Bool-cases (leb (length xs) k)) [
    | inl e ↦
        let short : length xs ≤ k = ground arith in
        rw e (
          omega (
            arith,
            length-append xs (replicate (k + 1 - length xs) a),
            length-replicate (k + 1 - length xs) a,
          ))
    | inr e ↦ rw e refl
  ]

  grow_reaches : (xs : List A) (k : ℕ) (a : A) → k < length (grow xs k a)
  grow_reaches xs k a = rw (length-grow xs k a) (ground arith)

  grow_keeps : (xs : List A) (k : ℕ) (a : A) → length xs ≤ length (grow xs k a)
  grow_keeps xs k a = rw (length-grow xs k a) (ground arith)

  grow_within :
      (xs : List A) (k : ℕ) (a : A) (n : ℕ) → length xs ≤ n → k < n → length (grow xs k a) ≤ n
  grow_within xs k a n p q = rw (length-grow xs k a) (ground arith)

module _ {A : Type 0} where
  -- A written cell leaves the sizes as they are.
  pub row_length-set_cell :
      (a : A) (v : MetaVariable) (cells : Cells A) (m r : ℕ)
      → row_length (set_cell a v cells) m r ≡ row_length cells m r
  unfolding set_cell
  row_length-set_cell a v cells m r =
      set_alike (λ (rows : List (List A)). length (get_or rows r [])) cells v.matrix_index m _ []
        (set_alike (λ (row : List A). length row) (get_or cells v.matrix_index []) v.row_index r _
          [] (length-set (get_or (get_or cells v.matrix_index []) v.row_index []) v.column_index a))

module _ {A : Type 0} (d : A) (v : MetaVariable) (cells : Cells A) where
  abbrev old_row : List A
  old_row = get_or (get_or cells v.matrix_index []) v.row_index []

  abbrev wide : Cells A
  wide = grow cells v.matrix_index []

  abbrev rows : List (List A)
  rows = grow (get_or wide v.matrix_index []) v.row_index []

  same_square : get_or wide v.matrix_index [] ≡ get_or cells v.matrix_index []
  same_square = get_or-grow cells v.matrix_index v.matrix_index []

  same_row : (r : ℕ) → get_or rows r [] ≡ get_or (get_or cells v.matrix_index []) r []
  same_row r =
      get_or-grow (get_or wide v.matrix_index []) v.row_index r []
      ∙ ap (λ (s : List (List A)). get_or s r []) same_square

  new_square :
      get_or (grow_cells d v cells) v.matrix_index []
      ≡ set rows v.row_index (grow (get_or rows v.row_index []) v.column_index d)
  unfolding grow_cells
  new_square = get_or-set_self wide v.matrix_index _ [] (grow_reaches cells v.matrix_index [])

  other_square :
      (m : ℕ) → v.matrix_index ≢ m → get_or (grow_cells d v cells) m [] ≡ get_or cells m []
  unfolding grow_cells
  other_square m ne =
      get_or-set_ne wide v.matrix_index m _ [] ne ∙ get_or-grow cells v.matrix_index m []

  new_row :
      get_or (get_or (grow_cells d v cells) v.matrix_index []) v.row_index []
      ≡ grow old_row v.column_index d
  new_row =
      ap (λ (s : List (List A)). get_or s v.row_index []) new_square
      ∙ get_or-set_self rows v.row_index _ []
          (grow_reaches (get_or wide v.matrix_index []) v.row_index [])
      ∙ ap (λ (row : List A). grow row v.column_index d) (same_row v.row_index)

  other_row :
      (r : ℕ)
      → v.row_index ≢ r
      → get_or (get_or (grow_cells d v cells) v.matrix_index []) r []
        ≡ get_or (get_or cells v.matrix_index []) r []
  other_row r ne =
      ap (λ (s : List (List A)). get_or s r []) new_square
      ∙ get_or-set_ne rows v.row_index r _ [] ne
      ∙ same_row r

  -- Only the row of the cell changes its length.
  row_length-grow_cells :
      (P : ℕ → ℕ → Type 0) (m r : ℕ)
      → P (length old_row) (length (grow old_row v.column_index d))
      → ((n : ℕ) → P n n)
      → P (row_length cells m r) (row_length (grow_cells d v cells) m r)
  row_length-grow_cells P m r here there = elim (Bool-cases (v.matrix_index == m)) [
    | inl e ↦
        let square : v.matrix_index ≡ m = (==_iff v.matrix_index m).0 e in
        rw (← square) (elim (Bool-cases (v.row_index == r)) [
          | inl f ↦
              let row : v.row_index ≡ r = (==_iff v.row_index r).0 f in rw (← row, new_row) here
          | inr f ↦ let ne : v.row_index ≢ r = ground arith in rw (other_row r ne) (there _)
        ])
    | inr e ↦ let ne : v.matrix_index ≢ m = ground arith in rw (other_square m ne) (there _)
  ]

  pub grow_cells_keeps : (m r : ℕ) → row_length cells m r ≤ row_length (grow_cells d v cells) m r
  grow_cells_keeps m r =
      row_length-grow_cells (λ a b. a ≤ b) m r (grow_keeps old_row v.column_index d)
        (λ n. omega arith)

  -- The cell is there.
  pub grow_cells_reaches :
      v.column_index < row_length (grow_cells d v cells) v.matrix_index v.row_index
  grow_cells_reaches = rw new_row (grow_reaches old_row v.column_index d)

-- At most so many squares, of at most so many rows and columns.
pub record IsBounded {A : Type 0} (squares order : ℕ) (cells : Cells A) : Type 0 where
  pub number : length cells ≤ squares
  pub rows : (m : ℕ) → length (get_or cells m []) ≤ order
  pub columns : (m r : ℕ) → row_length cells m r ≤ order

-- The cell lies within these squares.
abbrev pub IsPlace : ℕ → ℕ → MetaVariable → Type 0
IsPlace squares order v =
    (v.matrix_index < squares) × (v.row_index < order) × (v.column_index < order)

module _ {A : Type 0} (d : A) where
  -- Room for all the cells of the list.
  unfoldable pub grow_all : List MetaVariable → Cells A → Cells A
  grow_all [] cells = cells
  grow_all (v ∷ vs) cells = grow_all vs (grow_cells d v cells)

  pub grow_all_keeps :
      (vs : List MetaVariable) (cells : Cells A) (m r : ℕ)
      → row_length cells m r ≤ row_length (grow_all vs cells) m r
  unfolding grow_all
  grow_all_keeps [] cells m r = omega arith
  grow_all_keeps (v ∷ vs) cells m r =
      omega (arith, grow_cells_keeps d v cells m r, grow_all_keeps vs (grow_cells d v cells) m r)

  -- All of them are there.
  pub grow_all_reaches :
      (vs : List MetaVariable) (cells : Cells A)
      → All (λ v. v.column_index < row_length (grow_all vs cells) v.matrix_index v.row_index) vs
  unfolding grow_all
  grow_all_reaches [] cells = tt
  grow_all_reaches (v ∷ vs) cells = (
    omega (
      arith,
      grow_cells_reaches d v cells,
      grow_all_keeps vs (grow_cells d v cells) v.matrix_index v.row_index,
    ),
    grow_all_reaches vs (grow_cells d v cells),
  )

module _ {A : Type 0} (d : A) (squares order : ℕ) where
  grow_cells-IsBounded :
      (v : MetaVariable) (cells : Cells A)
      → IsPlace squares order v
      → IsBounded squares order cells
      → IsBounded squares order (grow_cells d v cells)
  unfolding grow_cells
  grow_cells-IsBounded v cells p h = record {
    number = number;
    rows = rows_within;
    columns = λ m r.
        row_length-grow_cells d v cells (λ a b. a ≤ order → b ≤ order) m r
          (λ q. grow_within (old_row d v cells) v.column_index d order q p.2) (λ n q. q)
          (h.columns m r);
  }
    where
      number : length (grow_cells d v cells) ≤ squares
      number =
          rw (length-set (wide d v cells) v.matrix_index)
            (grow_within cells v.matrix_index [] squares h.number p.0)

      rows_within : (m : ℕ) → length (get_or (grow_cells d v cells) m []) ≤ order
      rows_within m = elim (Bool-cases (v.matrix_index == m)) [
        | inl e ↦
            let square : v.matrix_index ≡ m = (==_iff v.matrix_index m).0 e in
            rw (← square, new_square d v cells, length-set (rows d v cells) v.row_index)
              (grow_within (get_or (wide d v cells) v.matrix_index []) v.row_index [] order
                (rw (same_square d v cells) (h.rows v.matrix_index)) p.1)
        | inr e ↦
            let ne : v.matrix_index ≢ m = ground arith in
            rw (other_square d v cells m ne) (h.rows m)
      ]

  pub grow_all-IsBounded :
      (vs : List MetaVariable) (cells : Cells A)
      → All (IsPlace squares order) vs
      → IsBounded squares order cells
      → IsBounded squares order (grow_all d vs cells)
  unfolding grow_all
  grow_all-IsBounded [] cells p h = h
  grow_all-IsBounded (v ∷ vs) cells p h =
      grow_all-IsBounded vs (grow_cells d v cells) p.1 (grow_cells-IsBounded v cells p.0 h)
