-- ===== src/Solver/Apply.antt =====
-- `HillClimbingSolver::apply_flipped`: the flips are applied, and the counts, flags and sums over the
-- clauses are brought up to date through the index from literals to clauses.
use latin_squares_diploma_it.Prelude.{
  ℕ, Bool, true, false, List, [], ◌∷◌, ◌++◌, Option, none, some, ◌==◌, if◌then◌else◌, length,
  get_or, set, replicate,
}
use latin_squares_diploma_it.Utils.Word.{add32, sub32}
use latin_squares_diploma_it.Cnf.Literal.{Literal, toggle}
use latin_squares_diploma_it.Cnf.Clause.{Clause, propagate_sat}
use latin_squares_diploma_it.Net.Flips.{SwapOrder, compute_flipped}
use latin_squares_diploma_it.Solver.State.{Solver, clause_at}

-- `for (auto i : flippedLiterals) propagated[i] ^= 1;`, and the same loop over `satisfied`.
unfoldable pub toggle_all : List ℕ → List ℕ → List ℕ
toggle_all bytes [] = bytes
toggle_all bytes (i ∷ indices) = toggle_all (set bytes i (toggle (get_or bytes i 2))) indices

-- What the loops over the clauses change: the local vectors and sums, and the two members.
pub record Tally : Type 0 where
  pub clauses : List Clause
  pub literal_to_unsat : List ℕ
  pub deltas : List ℕ
  pub changed : List ℕ
  pub sum : ℕ
  pub count : ℕ

-- `literal_to_unsat[literal.number]++` and `--` for the literals of a clause.
unfoldable pub each_unsat : (ℕ → ℕ) → List Literal → List ℕ → List ℕ
each_unsat step [] unsat = unsat
each_unsat step (l ∷ literals) unsat =
    each_unsat step literals (set unsat l.number (step (get_or unsat l.number 0)))

-- The bodies of the loops over `to_sub` and `to_add`; `s` is the solver with the flips applied.
unfoldable pub sub_clause : Solver → ℕ → Tally → Tally
unfolding each_unsat
sub_clause s index t =
    let clause = (propagate_sat (clause_at t.clauses index) s.propagated).0 in
    let delta = sub32 (get_or t.deltas index 0) 1 in
    let t' = record t { clauses = set t.clauses index clause; deltas = set t.deltas index delta } in
    if add32 (get_or s.clauses_count_satisfied index 0) delta == 0
    then record t' {
      literal_to_unsat = each_unsat (λ n. add32 n 1) clause.literals t.literal_to_unsat;
      changed = t.changed ++ index ∷ [];
      sum = sub32 t.sum (get_or s.weights index 0);
      count = sub32 t.count 1;
    }
    else t'

unfoldable pub add_clause : Solver → ℕ → Tally → Tally
unfolding each_unsat
add_clause s index t =
    let clause = (propagate_sat (clause_at t.clauses index) s.propagated).0 in
    let delta = add32 (get_or t.deltas index 0) 1 in
    let t' = record t { clauses = set t.clauses index clause; deltas = set t.deltas index delta } in
    if add32 (get_or s.clauses_count_satisfied index 0) delta == 1
    then record t' {
      literal_to_unsat = each_unsat (λ n. sub32 n 1) clause.literals t.literal_to_unsat;
      changed = t.changed ++ index ∷ [];
      sum = add32 t.sum (get_or s.weights index 0);
      count = add32 t.count 1;
    }
    else t'

unfoldable pub sub_clauses : Solver → List ℕ → Tally → Tally
unfolding sub_clause
sub_clauses s [] t = t
sub_clauses s (index ∷ indices) t = sub_clauses s indices (sub_clause s index t)

unfoldable pub add_clauses : Solver → List ℕ → Tally → Tally
unfolding add_clause
add_clauses s [] t = t
add_clauses s (index ∷ indices) t = add_clauses s indices (add_clause s index t)

-- The two lists of a flipped variable, by its new value.
abbrev pub clauses_with : Solver → Bool → ℕ → List ℕ
clauses_with s true i = get_or s.literal_to_clause_with_positive_value i []
clauses_with s false i = get_or s.literal_to_clause_with_negative_value i []

abbrev pub is_set : Solver → ℕ → Bool
is_set s i = if get_or s.propagated i 2 == 0 then false else true

abbrev pub opposite : Bool → Bool
opposite true = false
opposite false = true

-- The body of the loop over the flips, and the loop.
unfoldable pub flip_clauses : Solver → ℕ → Tally → Tally
unfolding sub_clauses add_clauses
flip_clauses s i t =
    add_clauses s (clauses_with s (is_set s i) i)
      (sub_clauses s (clauses_with s (opposite (is_set s i)) i) t)

unfoldable pub flip_all : Solver → List ℕ → Tally → Tally
unfolding flip_clauses
flip_all s [] t = t
flip_all s (i ∷ flipped) t = flip_all s flipped (flip_clauses s i t)

-- `clauses_count_satisfied[i] += newSatisfiedCountClauses[i]`
unfoldable pub add_deltas : List ℕ → List ℕ → List ℕ
add_deltas [] deltas = []
add_deltas (c ∷ counts) [] = c ∷ counts
add_deltas (c ∷ counts) (d ∷ deltas) = add32 c d ∷ add_deltas counts deltas

-- The state before the loops, and the members that are written after them.
abbrev pub start_tally : Solver → Tally
start_tally s = record {
  clauses = s.clauses;
  literal_to_unsat = s.literal_to_unsat;
  deltas = replicate (length s.clauses_count_satisfied) 0;
  changed = [];
  sum = s.satisfied_sum;
  count = s.satisfied_count;
}

unfoldable pub store : Solver → Tally → Solver
unfolding add_deltas toggle_all
store s t = record s {
  clauses = t.clauses;
  literal_to_unsat = t.literal_to_unsat;
  clauses_count_satisfied = add_deltas s.clauses_count_satisfied t.deltas;
  satisfied = toggle_all s.satisfied t.changed;
  satisfied_sum = t.sum;
  satisfied_count = t.count;
}

-- What follows the evaluation of the net.
unfoldable pub apply_computed : Solver → List ℕ → Solver
unfolding toggle_all flip_all store
apply_computed s flipped =
    let s' = record s { propagated = toggle_all s.propagated flipped } in
    store s' (flip_all s' flipped (start_tally s'))

-- `none` is the read out of range of the net.
unfoldable pub apply_flipped : SwapOrder → Solver → List ℕ → Option (Solver × List ℕ)
unfolding apply_computed
apply_flipped order s flipped = elim (compute_flipped order s.net s.propagated flipped) [
  | none ↦ none
  | some flipped' ↦ some (apply_computed s flipped', flipped')
]
