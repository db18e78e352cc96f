-- ===== src/Climb/Worker.antt =====
-- The task that a round of `solve` gives to each thread, one access to the shared variables at a time.
use latin_squares_diploma_it.Prelude.{
  ℕ, Bool, true, false, ◌||◌, List, [], ◌∷◌, ◌++◌, map, Option, none, some, ltb, ◌==◌,
  if◌then◌else◌, length, get_or, replicate,
}
use latin_squares_diploma_it.Utils.Word.{add32, sub32}
use latin_squares_diploma_it.Utils.Combination.{first_from}
use latin_squares_diploma_it.Utils.Odometer.{next_array}
use latin_squares_diploma_it.Cnf.Literal.{Literal, bit}
use latin_squares_diploma_it.Net.Flips.{SwapOrder}
use latin_squares_diploma_it.Solver.Check.{check_flipped}
use latin_squares_diploma_it.Solver.Bags.{MetaVariable, bag}
use latin_squares_diploma_it.Solver.Construct.{Search}
use latin_squares_diploma_it.Solver.Counts.{Counts}
use latin_squares_diploma_it.Solver.Domain.{satisfy_predicate_for_domain}

-- What the threads only read.
pub record Task : Type 0 where
  pub order : SwapOrder
  pub search : Search
  pub counts : Counts
  pub bags : List (List ℕ)

-- A new value of a cell: the tuple of its matrix, row, column and value.
pub record NewValue : Type 0 where
  pub matrix_index : ℕ
  pub row_index : ℕ
  pub column_index : ℕ
  pub value : ℕ

-- The atomics, and what the mutex guards.
pub record Shared : Type 0 where
  pub is_solution_found : Bool
  pub stopped : Bool
  pub counter : ℕ
  pub solution : List ℕ
  pub new_meta_values : List NewValue

-- Where a thread stands: at the head of the for loop or of the do-while loop, after that loop, after
-- the check has answered true, after it has seen the flag unset, after it has set it, and at the end. A
-- thread has failed when the check read out of range.
pub data Phase : Type 0 where
  enter : ℕ → Phase
  attempt : ℕ → List ℕ → Phase
  leave : ℕ → Phase
  improve claim store : List ℕ → List NewValue → Phase
  finished failed : Phase

pub record Worker : Type 0 where
  pub start : ℕ
  pub end : ℕ
  pub phase : Phase

-- The literals of the chosen values that the assignment does not have, as flips.
unfoldable pub literal_flips : List ℕ → List Literal → List ℕ
literal_flips units [] = []
literal_flips units (l ∷ literals) =
    let rest = literal_flips units literals in
    if get_or units l.number 2 == bit l.value then rest else l.number ∷ rest

unfoldable pub choice_flips : List ℕ → List MetaVariable → List ℕ → List ℕ
unfolding literal_flips
choice_flips units [] digits = []
choice_flips units (v ∷ cells) [] = []
choice_flips units (v ∷ cells) (d ∷ digits) =
    literal_flips units (get_or v.variables d []) ++ choice_flips units cells digits

unfoldable pub new_values : List MetaVariable → List ℕ → List NewValue
new_values [] digits = []
new_values (v ∷ cells) [] = []
new_values (v ∷ cells) (d ∷ digits) =
    record {
      matrix_index = v.matrix_index;
      row_index = v.row_index;
      column_index = v.column_index;
      value = get_or v.values d 0;
    }
    ∷ new_values cells digits

module _ (t : Task) where
  -- `mainPermutationIndices`, its cells, and `indices`.
  abbrev pub bag_at : ℕ → List ℕ
  bag_at index = get_or t.bags index []

  abbrev pub cells_of : ℕ → List MetaVariable
  cells_of index = bag t.search.meta_variables (bag_at index)

  abbrev pub indices_of : ℕ → List (List ℕ)
  indices_of index = map (λ v. first_from 0 (length v.variables)) (cells_of index)

  abbrev pub zeros_of : ℕ → List ℕ
  zeros_of index = replicate (length (indices_of index)) 0

  -- `satisfyPredicateForDomain` and `check_flipped` on a choice of values.
  unfoldable pub fits : ℕ → List ℕ → Bool
  unfolding satisfy_predicate_for_domain
  fits index digits =
      satisfy_predicate_for_domain t.search.meta_variables t.search.meta_values (bag_at index)
        digits t.counts.rows_distinct t.counts.columns_distinct t.counts.pairs_index

  unfoldable pub check : ℕ → List ℕ → Option (Bool × List ℕ)
  unfolding check_flipped choice_flips
  check index digits =
      check_flipped t.order t.search.solver
        (choice_flips t.search.solver.propagated (cells_of index) digits)

  -- The condition of the do-while loop.
  unfoldable pub advance : ℕ → List ℕ → Phase
  unfolding next_array
  advance index digits =
      let (digits', more) = next_array digits (indices_of index) in
      if more then attempt index digits' else leave index

  -- The atomic steps. The two flags that are read after the do-while loop only ever become true, so
  -- that reading them at once is no other behaviour than reading them one after the other.
  unfoldable pub step : Worker → Shared → Phase × Shared
  unfolding fits check advance new_values
  step w s = elim w.phase [
    | enter index ↦
        if ltb index w.end
        then (attempt index (zeros_of index), s)
        else (finished, record s { counter = add32 s.counter (sub32 w.end w.start) })
    | attempt index digits ↦ elim (fits index digits) [
      | false ↦ (advance index digits, s)
      | true ↦ elim (check index digits) [
        | none ↦ (failed, s)
        | some (true, flipped) ↦ (
          improve flipped (new_values (cells_of index) digits),
          record s { counter = add32 s.counter (sub32 (add32 index 1) w.start) },
        )
        | some (false, flipped) ↦ (if s.stopped then leave index else advance index digits, s)
      ]
    ]
    | leave index ↦
        if s.is_solution_found || s.stopped
        then (finished, record s { counter = add32 s.counter (sub32 (add32 index 1) w.start) })
        else (enter (add32 index 1), s)
    | improve flipped values ↦ (if s.is_solution_found then finished else claim flipped values, s)
    | claim flipped values ↦ (store flipped values, record s { is_solution_found = true })
    | store flipped values ↦
        (finished, record s { solution = flipped; new_meta_values = s.new_meta_values ++ values })
    | finished ↦ (finished, s)
    | failed ↦ (failed, s)
  ]
