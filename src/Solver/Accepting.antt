-- ===== src/Solver/Accepting.antt =====
-- Which bags `satisfyPredicateForMetavars` is sure to let through.
use native.Mathlib.Nat.{zero-add}
use latin_squares_diploma_it.Prelude.{
  ℕ, zero, suc, ◌+◌, ◌<◌, ◌≡◌, ◌≢◌, refl, sym, ap, ◌∙◌, arith, true, false, List, [], ◌∷◌, ◌++◌,
  inl, inr, ◌==◌, all, length, length-set, length-map, length-replicate, get_or, set, replicate,
  All, Bool-cases,
}
use latin_squares_diploma_it.Solver.Steps.{set-update}
use latin_squares_diploma_it.Solver.Bags.{
  MetaVariable, cell_at, near, mark_near, mark_bag, bag, marks_of, is_open, is_marked,
  satisfy_predicate_for_metavars,
}
use latin_squares_diploma_it.Solver.Pairs.{at_place, IsSplit, next-IsSplit, start-IsSplit}
use latin_squares_diploma_it.Solver.Neighbours.{length-marks_of}

shift_place : (i k : ℕ) → i + suc k ≡ suc i + k
shift_place i k = omega arith

-- A cell with a neighbour among those found is marked, and one of them with it.
mark_near-marks :
    (v : MetaVariable) (j k m : ℕ) (found : List MetaVariable) (satisfied : List ℕ)
    → m < length found
    → near v (cell_at found m) ≡ true
    → (i : ℕ) × (i < length found)
      × (mark_near v j k found satisfied ≡ set (set satisfied j 1) (i + k) 1)
unfolding mark_near
mark_near-marks v j k m [] satisfied p e = absurd (omega arith)
mark_near-marks v j k zero (f ∷ found) satisfied p e = (0, omega arith, rw (e, zero-add k) refl)
mark_near-marks v j k (suc m) (f ∷ found) satisfied p e = elim (Bool-cases (near v f)) [
  | inl here ↦ (0, omega arith, rw (here, zero-add k) refl)
  | inr there ↦
      let (i, q, made) = mark_near-marks v j (suc k) m found satisfied (omega arith) e in
      (
        suc i,
        omega arith,
        rw there (made ∙ ap (λ (x : ℕ). set (set satisfied j 1) x 1) (shift_place i k)),
      )
]

-- All places passed are marked, once there are two of them.
abbrev AreMarked : ℕ → List ℕ → Type 0
AreMarked j satisfied = (k : ℕ) → k < j → 1 < j → get_or satisfied k 0 ≡ 1

set-marked :
    (satisfied : List ℕ) (j i k : ℕ)
    → j < length satisfied
    → i < j
    → ((k ≢ j) → (k ≢ i) → get_or satisfied k 0 ≡ 1)
    → get_or (set (set satisfied j 1) i 1) k 0 ≡ 1
set-marked satisfied j i k inside below h =
    let first = set-update satisfied j 1 k 0 inside in
    let second =
      set-update (set satisfied j 1) i 1 k 0 (rw (length-set satisfied j 1) (omega arith)) in
    elim (Bool-cases (i == k)) [
      | inl at_i ↦ second ∙ rw at_i refl
      | inr off_i ↦ elim (Bool-cases (j == k)) [
        | inl at_j ↦ second ∙ rw off_i (first ∙ rw at_j refl)
        | inr off_j ↦
            second ∙ rw off_i (first ∙ rw off_j (h (λ p. ground arith) (λ p. ground arith)))
      ]
    ]

all-marked_of_ones :
    (satisfied : List ℕ)
    → ((k : ℕ) → k < length satisfied → get_or satisfied k 0 ≡ 1)
    → all is_marked satisfied ≡ true
all-marked_of_ones [] h = refl
all-marked_of_ones (u ∷ satisfied) h =
    rw (h 0 (omega arith)) (all-marked_of_ones satisfied (λ k p. h (suc k) (omega arith)))

-- Every place after the first has a neighbour before it.
abbrev pub IsChained : List MetaVariable → Type 0
IsChained cells =
    (j : ℕ)
    → 0 < j
    → j < length cells
    → (m : ℕ) × (m < j) × (near (cell_at cells j) (cell_at cells m) ≡ true)

pair-AreMarked :
    (satisfied : List ℕ) (j i : ℕ)
    → i < j
    → j < length satisfied
    → AreMarked j satisfied
    → AreMarked (suc j) (set (set satisfied j 1) i 1)
pair-AreMarked satisfied j i below inside a k p q =
    set-marked satisfied j i k inside below (λ n n'. a k (omega arith) (omega arith))

near_here :
    (whole found cells : List MetaVariable) (v : MetaVariable) (j m : ℕ)
    → IsSplit whole found (v ∷ cells) j
    → m < length found
    → near (cell_at whole j) (cell_at whole m) ≡ true
    → near v (cell_at found m) ≡ true
near_here whole found cells v j m h p e =
    ap (λ (x : MetaVariable). near x (cell_at found m))
      (h.rests 0 ∙ ap (cell_at whole) (at_place _ j h.place))
    ∙ ap (near (cell_at whole j)) (h.firsts m p)
    ∙ e

step-AreMarked :
    (whole found cells : List MetaVariable) (v : MetaVariable) (j : ℕ) (satisfied : List ℕ)
    → IsChained whole
    → IsSplit whole found (v ∷ cells) j
    → length satisfied ≡ length whole
    → AreMarked j satisfied
    → AreMarked (suc j) (mark_near v j 0 found satisfied)
      × (length (mark_near v j 0 found satisfied) ≡ length whole)
unfolding mark_near
step-AreMarked whole [] cells v j satisfied chained h size a =
    (λ k p q. absurd (omega (arith, h.place)), size)
step-AreMarked whole (f ∷ found) cells v j satisfied chained h size a =
    let (m, below, e) = chained j (omega (arith, h.place)) (omega (arith, h.place, h.size)) in
    let (i, before, made) =
      mark_near-marks v j 0 m (f ∷ found) satisfied (omega (arith, h.place))
        (near_here whole (f ∷ found) cells v j m h (omega (arith, h.place)) e) in
    (
      rw made (
          pair-AreMarked satisfied j (i + 0) (omega (arith, h.place))
            (omega (arith, h.size, h.place)) a),
      ap length made ∙ length-set (set satisfied j 1) (i + 0) 1 ∙ length-set satisfied j 1 ∙ size,
    )

mark_bag-AreMarked :
    (whole found cells : List MetaVariable) (j : ℕ) (satisfied : List ℕ)
    → IsChained whole
    → IsSplit whole found cells j
    → length satisfied ≡ length whole
    → AreMarked j satisfied
    → AreMarked (length whole) (mark_bag j found cells satisfied)
unfolding mark_bag
mark_bag-AreMarked whole found [] j satisfied chained h size a =
    λ k p q. a k (omega (arith, h.place, h.size)) (omega (arith, h.place, h.size))
mark_bag-AreMarked whole found (v ∷ cells) j satisfied chained h size a =
    let (next, size') = step-AreMarked whole found cells v j satisfied chained h size a in
    mark_bag-AreMarked whole (found ++ v ∷ []) cells (suc j) _ chained
      (next-IsSplit whole found cells v j h) size' next

all-open_of :
    (cells : List MetaVariable) → All (λ v. 1 < length v.variables) cells → all is_open cells ≡ true
all-open_of [] h = refl
all-open_of (v ∷ cells) h = ground (arith, all-open_of cells h.1)

more_than_one : (n k : ℕ) → (n == 1) ≡ false → k < n → 1 < n
more_than_one n k e p = ground arith

-- Where every cell of a bag has more than one value and every place after the first has a neighbour
-- at an earlier place, `satisfyPredicateForMetavars` returns true.
pub satisfy_predicate_for_metavars_accepts :
    (meta_variables : List MetaVariable) (indices : List ℕ)
    → All (λ v. 1 < length v.variables) (bag meta_variables indices)
    → IsChained (bag meta_variables indices)
    → satisfy_predicate_for_metavars meta_variables indices ≡ true
unfolding satisfy_predicate_for_metavars
satisfy_predicate_for_metavars_accepts meta_variables indices opened chained =
    let cells = bag meta_variables indices in
    let size : length cells ≡ length indices = length-map (cell_at meta_variables) indices in
    let marked =
      mark_bag-AreMarked cells [] cells 0 (replicate (length indices) 0) chained
        (start-IsSplit cells) (length-replicate (length indices) 0 ∙ sym size)
        (λ k p q. absurd (omega arith)) in
    elim (Bool-cases (length indices == 1)) [
      | inl single ↦ rw (all-open_of cells opened, single) refl
      | inr several ↦
          rw (all-open_of cells opened, several)
            (all-marked_of_ones (marks_of meta_variables indices) (λ k p.
              let inside : k < length cells = rw (length-marks_of meta_variables indices) at p in
              marked k inside (more_than_one _ k (ap (λ (n : ℕ). n == 1) size ∙ several) inside)))
    ]
