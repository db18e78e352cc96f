-- ===== src/Solver/Check.antt =====
-- `HillClimbingSolver::check_flipped`: the sum that a trial of flips would lead to, against the
-- present one.
use latin_squares_diploma_it.Prelude.{
  ℕ, Bool, true, false, not, ◌&&◌, List, [], ◌∷◌, Option, none, some, ltb, ◌==◌, if◌then◌else◌,
  length, get_or, set, replicate,
}
use latin_squares_diploma_it.Utils.Word.{add32, sub32}
use latin_squares_diploma_it.Cnf.Clause.{propagate_flipped}
use latin_squares_diploma_it.Net.Flips.{SwapOrder, compute_flipped}
use latin_squares_diploma_it.Solver.State.{Solver, clause_at}
use latin_squares_diploma_it.Solver.Apply.{clauses_with}

-- The local variables; `seen` is `newSatisfiedCountClauses`, which marks the clauses looked at.
pub record Trial : Type 0 where
  pub seen : List ℕ
  pub sum : ℕ
  pub count : ℕ

-- Whether a clause is true once the flips are made.
unfoldable pub would_hold : Solver → List ℕ → ℕ → Bool
would_hold s flipped index =
    propagate_flipped (clause_at s.clauses index).literals s.propagated flipped

-- The body of the two inner loops, which are the same.
unfoldable pub try_clause : Solver → List ℕ → ℕ → Trial → Trial
try_clause s flipped index t =
    if get_or t.seen index 0 == 0
    then (let t' = record t { seen = set t.seen index 1 } in
        let new = would_hold s flipped index in
        let failed = get_or s.satisfied index 2 == 0 in
        if new && failed
        then record t' { sum = add32 t.sum (get_or s.weights index 0); count = add32 t.count 1 }
        else if not new && not failed
        then record t' { sum = sub32 t.sum (get_or s.weights index 0); count = sub32 t.count 1 }
        else t')
    else t

unfoldable pub try_clauses : Solver → List ℕ → List ℕ → Trial → Trial
unfolding try_clause
try_clauses s flipped [] t = t
try_clauses s flipped (index ∷ indices) t =
    try_clauses s flipped indices (try_clause s flipped index t)

-- The outer loop, from some flip on.
unfoldable pub try_all : Solver → List ℕ → List ℕ → Trial → Trial
unfolding try_clauses
try_all s flipped [] t = t
try_all s flipped (i ∷ rest) t = try_all s flipped rest (
    try_clauses s flipped (clauses_with s false i)
      (try_clauses s flipped (clauses_with s true i) t))

abbrev pub start_trial : Solver → Trial
start_trial s = record {
  seen = replicate (length s.clauses_count_satisfied) 0;
  sum = s.satisfied_sum;
  count = s.satisfied_count;
}

-- What follows the evaluation of the net.
unfoldable pub check_computed : Solver → List ℕ → Bool
unfolding try_all
check_computed s flipped = ltb s.satisfied_sum (try_all s flipped flipped (start_trial s)).sum

-- The answer and the flips with those of the net; `none` is the read out of range of the net.
unfoldable pub check_flipped : SwapOrder → Solver → List ℕ → Option (Bool × List ℕ)
unfolding check_computed
check_flipped order s flipped = elim (compute_flipped order s.net s.propagated flipped) [
  | none ↦ none
  | some flipped' ↦ some (check_computed s flipped', flipped')
]
