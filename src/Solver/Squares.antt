-- ===== src/Solver/Squares.antt =====
-- The fixed first rows and columns of the squares in the constructor.
use latin_squares_diploma_it.Prelude.{
  ℕ, zero, suc, ◌+◌, ◌-◌, ◌≤◌, ◌<◌, ◌≡◌, refl, ap, ◌∙◌, arith, Bool, true, List, [], ◌∷◌, any, ◌==◌,
  ◌&&◌, if◌then◌else◌, length, get_or, set, All, Bool-cases, inl, inr, Yields, Yields-bind,
}
use latin_squares_diploma_it.Solver.Bags.{MetaVariable}
use latin_squares_diploma_it.Solver.Cells.{
  Cells, row_length, resize_row, number_rows, number_row, fix_rows, fix_cells,
}
use latin_squares_diploma_it.Solver.Places.{
  set_alike, IsPlace, IsBounded, grow_all, grow_all_reaches, grow_all-IsBounded,
}

-- A square of full rows, and one of which the first row need not be full.
abbrev pub IsSquare : ℕ → List (List ℕ) → Type 0
IsSquare order rows = (r : ℕ) → r < order → length (get_or rows r []) ≡ order

abbrev pub IsFull : ℕ → List (List ℕ) → Type 0
IsFull order rows =
    (length rows ≡ order) × ((r : ℕ) → 0 < r → r < order → length (get_or rows r []) ≡ order)

module _ {A : Type 0} (P : A → Type 0) (d : A) where
  pub All-of_places : (xs : List A) → ((i : ℕ) → i < length xs → P (get_or xs i d)) → All P xs
  All-of_places [] h = tt
  All-of_places (x ∷ xs) h = (h 0 (omega arith), All-of_places xs (λ i p. h (suc i) (omega arith)))

  pub All-get_or : (xs : List A) (i : ℕ) → All P xs → i < length xs → P (get_or xs i d)
  All-get_or [] i h p = absurd (omega arith)
  All-get_or (x ∷ xs) zero h p = h.0
  All-get_or (x ∷ xs) (suc i) h p = All-get_or xs i h.1 (omega arith)

length-resize_row : (n : ℕ) (row : List ℕ) → length (resize_row n row) ≡ n
unfolding resize_row
length-resize_row zero row = refl
length-resize_row (suc n) [] = ap suc (length-resize_row n [])
length-resize_row (suc n) (x ∷ row) = ap suc (length-resize_row n row)

length-number_row : (i : ℕ) (row : List ℕ) → length (number_row i row) ≡ length row
unfolding number_row
length-number_row i [] = refl
length-number_row i (x ∷ row) = ap suc (length-number_row (suc i) row)

abbrev AreAlike : List (List ℕ) → List (List ℕ) → Type 0
AreAlike rows out = (r : ℕ) → length (get_or out r []) ≡ length (get_or rows r [])

AreAlike-cons :
    (x y : ℕ) (row : List ℕ) (rows out : List (List ℕ))
    → AreAlike rows out
    → AreAlike ((x ∷ row) ∷ rows) ((y ∷ row) ∷ out)
AreAlike-cons x y row rows out h zero = refl
AreAlike-cons x y row rows out h (suc r) = h r

number_rows-Yields :
    (i : ℕ) (rows : List (List ℕ))
    → All (λ row. 0 < length row) rows
    → Yields (number_rows i rows) (AreAlike rows)
unfolding number_rows
number_rows-Yields i [] h = λ r. refl
number_rows-Yields i ([] ∷ rows) h = absurd (omega (arith, h.0))
number_rows-Yields i ((x ∷ row) ∷ rows) h =
    Yields-bind (number_rows (suc i) rows) _ _ _ (number_rows-Yields (suc i) rows h.1)
      (λ out k. AreAlike-cons x _ row rows out k)

module _ (order : ℕ) (several : 2 ≤ order) where
  sized-IsSquare :
      (first second : List ℕ) (rest : List (List ℕ))
      → IsFull order (first ∷ second ∷ rest)
      → IsSquare order (resize_row (length second) first ∷ second ∷ rest)
  sized-IsSquare first second rest h zero p =
      length-resize_row (length second) first ∙ h.1 1 (omega arith) (omega arith)
  sized-IsSquare first second rest h (suc r) p = h.1 (suc r) (omega arith) p

  numbered-IsSquare :
      (k : ℕ) (rows out : List (List ℕ))
      → IsSquare order rows
      → AreAlike rows out
      → IsSquare order (if k == 0 then set out 0 (number_row 0 (get_or out 0 [])) else out)
  numbered-IsSquare k rows out h a r p = elim (Bool-cases (k == 0)) [
    | inl e ↦ rw e (
        set_alike (λ (row : List ℕ). length row) out 0 r _ [] (length-number_row 0 _) ∙ a r ∙ h r p)
    | inr e ↦ rw e (a r ∙ h r p)
  ]

  fix_rows-Yields :
      (k : ℕ) (rows : List (List ℕ)) → IsFull order rows → Yields (fix_rows k rows) (IsSquare order)
  unfolding fix_rows
  fix_rows-Yields k [] h = absurd (omega (arith, h.0))
  fix_rows-Yields k (first ∷ []) h = absurd (omega (arith, h.0))
  fix_rows-Yields k (first ∷ second ∷ rest) h =
      let sized = resize_row (length second) first ∷ second ∷ rest in
      let square : IsSquare order sized = sized-IsSquare first second rest h in
      Yields-bind (number_rows 0 sized) _ _ _
        (number_rows-Yields 0 sized (
          All-of_places (λ row. 0 < length row) [] sized
            (λ r p. omega (arith, square r (omega (arith, p, h.0))))))
        (λ out a. numbered-IsSquare k sized out square a)

  -- The fixed cells of full squares are those of full squares again.
  pub fix_cells-Yields :
      (k : ℕ) (cells : Cells ℕ)
      → All (IsFull order) cells
      → Yields (fix_cells k cells) (λ out. (length out ≡ length cells) × All (IsSquare order) out)
  unfolding fix_cells
  fix_cells-Yields k [] h = (refl, tt)
  fix_cells-Yields k (rows ∷ cells) h =
      Yields-bind (fix_rows k rows) _ _ _ (fix_rows-Yields k rows h.0) (λ fixed p.
        Yields-bind (fix_cells (suc k) cells) _ _ _ (fix_cells-Yields (suc k) cells h.1)
          (λ rest q. (ap suc q.0, (p, q.1))))

-- The last cell of a row.
abbrev pub is_last : ℕ → ℕ → ℕ → MetaVariable → Bool
is_last order k r v = v.matrix_index == k && v.row_index == r && v.column_index + 1 == order

-- Cells of squares of one order of at least 2, of which every row but the first has its last cell.
pub record AreSquares (squares order : ℕ) (vs : List MetaVariable) : Type 0 where
  pub several : 2 ≤ order
  pub places : All (IsPlace squares order) vs
  pub last : (k r : ℕ) → k < squares → 0 < r → r < order → any (is_last order k r) vs ≡ true

-- A row that has the last cell is full.
reaches_last :
    (order k r : ℕ) (cells : Cells ℕ) (vs : List MetaVariable)
    → All (λ v. v.column_index < row_length cells v.matrix_index v.row_index) vs
    → any (is_last order k r) vs ≡ true
    → order ≤ row_length cells k r
reaches_last order k r cells [] h e = cc
reaches_last order k r cells (v ∷ vs) h e = elim (Bool-cases (is_last order k r v)) [
  | inl here ↦
      let square : v.matrix_index ≡ k = ground arith in
      let row : v.row_index ≡ r = ground arith in
      let column : v.column_index + 1 ≡ order = ground arith in
      let reach : v.column_index < row_length cells k r = rw (← square, ← row) h.0 in omega arith
  | inr there ↦ reaches_last order k r cells vs h.1 (rw there at e)
]

row_inside : (rows : List (List ℕ)) (r : ℕ) → 0 < length (get_or rows r []) → r < length rows
row_inside [] r p = absurd (omega arith)
row_inside (row ∷ rows) zero p = omega arith
row_inside (row ∷ rows) (suc r) p = omega (arith, row_inside rows r p)

no_cells : (squares order : ℕ) → IsBounded {A = ℕ} squares order []
no_cells squares order = record {
  number = omega arith;
  rows = λ m. omega arith;
  columns = λ m r. omega arith;
}

-- Room for all the cells of such squares makes full squares.
pub grow_all-IsFull :
    (squares order : ℕ) (vs : List MetaVariable)
    → AreSquares squares order vs
    → All (IsFull order) (grow_all 0 vs [])
grow_all-IsFull squares order vs h =
    let cells : Cells ℕ = grow_all 0 vs [] in
    let bounded : IsBounded squares order cells =
      grow_all-IsBounded 0 squares order vs [] h.places (no_cells squares order) in
    let full : (k r : ℕ) → k < length cells → 0 < r → r < order → row_length cells k r ≡ order =
      λ k r p q l. omega (
        arith,
        reaches_last order k r cells vs (grow_all_reaches 0 vs [])
            (h.last k r (omega (arith, p, bounded.number)) q l),
        bounded.columns k r,
      ) in
    All-of_places (IsFull order) [] cells (λ k p.
      let several : 2 ≤ order = h.several in
      (
        omega (
          arith,
          several,
          bounded.rows k,
          row_inside (get_or cells k []) (order - 1) (
              omega
                (arith, full k (order - 1) p (omega (arith, several)) (omega (arith, several)))),
        ),
        λ r q l. full k r p q l,
      ))
