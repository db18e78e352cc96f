-- ===== src/Solver/Neighbours.antt =====
-- A bag that `satisfyPredicateForMetavars` lets through has more than one value for each cell, and each
-- cell of it has a neighbour in the bag.
use mathlib.Core.Bool.{false≢true}
use latin_squares_diploma_it.Prelude.{
  ℕ, zero, suc, ◌+◌, ◌<◌, ◌≡◌, ◌≢◌, refl, sym, ap, ◌∙◌, arith, true, List, [], ◌∷◌, ◌++◌, ◌⊎◌, inl,
  inr, ltb→lt, ◌==◌, ==_iff, all, length, length-map, length-set, length-replicate, get_or, set,
  get_or-replicate, replicate, All, Bool-cases,
}
use latin_squares_diploma_it.Solver.Bags.{
  MetaVariable, cell_at, mark_near, mark_bag, bag, marks_of, is_open, is_marked,
  satisfy_predicate_for_metavars,
}
use latin_squares_diploma_it.Solver.Pairs.{
  IsPaired, mark_near-cases, ArePaired, start-IsSplit, mark_bag-ArePaired,
}

length-mark_near :
    (v : MetaVariable) (j k : ℕ) (found : List MetaVariable) (satisfied : List ℕ)
    → length (mark_near v j k found satisfied) ≡ length satisfied
length-mark_near v j k found satisfied = elim (mark_near-cases v j k found satisfied) [
  | inl same ↦ ap length same
  | inr (m, p, e, made) ↦
      ap length made ∙ length-set (set satisfied j 1) (k + m) 1 ∙ length-set satisfied j 1
]

length-mark_bag :
    (cells found : List MetaVariable) (j : ℕ) (satisfied : List ℕ)
    → length (mark_bag j found cells satisfied) ≡ length satisfied
unfolding mark_bag
length-mark_bag [] found j satisfied = refl
length-mark_bag (v ∷ cells) found j satisfied =
    length-mark_bag cells (found ++ v ∷ []) (suc j) _ ∙ length-mark_near v j 0 found satisfied

all-marked :
    (satisfied : List ℕ) (k : ℕ)
    → all is_marked satisfied ≡ true
    → k < length satisfied
    → get_or satisfied k 0 ≢ 0
all-marked [] k h p = absurd (omega arith)
all-marked (u ∷ satisfied) zero h p = λ z. ground arith
all-marked (u ∷ satisfied) (suc k) h p = all-marked satisfied k (ground arith) (omega arith)

all-open :
    (cells : List MetaVariable) → all is_open cells ≡ true → All (λ v. 1 < length v.variables) cells
all-open [] h = tt
all-open (v ∷ cells) h = elim (Bool-cases (is_open v)) [
  | inl here ↦ (ltb→lt 1 _ here, all-open cells (rw here at h))
  | inr there ↦ absurd (false≢true (rw there at h))
]

-- What a bag that is let through looks like.
pub record IsCandidate (cells : List MetaVariable) : Type 0 where
  pub choices : All (λ v. 1 < length v.variables) cells
  pub neighbours : (length cells ≡ 1) ⊎ ((k : ℕ) → k < length cells → IsPaired cells k)

start-ArePaired : (cells : List MetaVariable) (n : ℕ) → ArePaired cells (replicate n 0)
start-ArePaired cells n k h = absurd (h (get_or-replicate n k 0))

pub length-marks_of :
    (meta_variables : List MetaVariable) (indices : List ℕ)
    → length (marks_of meta_variables indices) ≡ length (bag meta_variables indices)
length-marks_of meta_variables indices =
    length-mark_bag (bag meta_variables indices) [] 0 (replicate (length indices) 0)
    ∙ length-replicate (length indices) 0
    ∙ sym (length-map (cell_at meta_variables) indices)

-- Where `satisfyPredicateForMetavars` returns true, every cell of the bag has more than one value, and
-- the bag is a single cell or each of its places has a neighbour at another place.
pub satisfy_predicate_for_metavars-IsCandidate :
    (meta_variables : List MetaVariable) (indices : List ℕ)
    → satisfy_predicate_for_metavars meta_variables indices ≡ true
    → IsCandidate (bag meta_variables indices)
unfolding satisfy_predicate_for_metavars
satisfy_predicate_for_metavars-IsCandidate meta_variables indices h =
    let cells = bag meta_variables indices in
    elim (Bool-cases (all is_open cells)) [
      | inl opened ↦ record {
        choices = all-open cells opened;
        neighbours = elim (Bool-cases (length indices == 1)) [
          | inl single ↦ inl (length-map (cell_at meta_variables) indices ∙ (==_iff _ 1).0 single)
          | inr several ↦ inr (λ k p.
              mark_bag-ArePaired cells [] cells 0 _ (start-IsSplit cells)
                (start-ArePaired cells (length indices)) k
                (all-marked (marks_of meta_variables indices) k (rw (opened, several) at h)
                  (rw (length-marks_of meta_variables indices) p)))
        ];
      }
      | inr shut ↦ absurd (false≢true (rw shut at h))
    ]
