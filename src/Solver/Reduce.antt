-- ===== src/Solver/Reduce.antt =====
-- `HillClimbingSolver::reduce`: unit propagation over the clauses, and the clauses that it settles.
use latin_squares_diploma_it.Prelude.{
  ℕ, zero, suc, Bool, true, false, ◌&&◌, List, [], ◌∷◌, ◌++◌, Option, none, some, Outcome, done,
  fault, stuck, ◌>>=◌, or_fault, ltb, ◌==◌, if◌then◌else◌, length, get_or, set, any, has,
}
use latin_squares_diploma_it.Cnf.Literal.{Literal, bit}
use latin_squares_diploma_it.Cnf.Clause.{Clause}
use latin_squares_diploma_it.Solver.State.{Solver, clause_at}
use latin_squares_diploma_it.Solver.Apply.{clauses_with, opposite}
use latin_squares_diploma_it.Solver.Bags.{MetaVariable, cell_at}

-- What the loops change; `to_delete` is the map in the order of its keys.
pub record Reduction : Type 0 where
  pub clauses : List Clause
  pub propagated : List ℕ
  pub meta_variables : List MetaVariable
  pub cache : List ℕ
  pub to_delete : List (ℕ × ℕ)
  pub changed : Bool

-- `toDelete[k] = x`
unfoldable pub map_insert : ℕ → ℕ → List (ℕ × ℕ) → List (ℕ × ℕ)
map_insert k x [] = (k, x) ∷ []
map_insert k x ((j, y) ∷ m) =
    if k == j
    then (k, x) ∷ m
    else if ltb k j
    then (k, x) ∷ (j, y) ∷ m
    else (j, y) ∷ map_insert k x m

abbrev pub same_literal : Literal → Literal → Bool
same_literal v l = v.number == l.number && bit v.value == bit l.value

-- The choices of a meta-variable that contain the literal, with their values.
unfoldable pub keep_choices :
    Literal → List (List Literal) → ℕ → List ℕ → List (List Literal) × List ℕ
keep_choices l [] index values = ([], [])
keep_choices l (choice ∷ choices) index values =
    let (kept, kept_values) = keep_choices l choices (suc index) values in
    if any (λ v. same_literal v l) choice
    then (choice ∷ kept, get_or values index 0 ∷ kept_values)
    else (kept, kept_values)

-- The meta-variable of the literal, where it has one.
unfoldable pub restrict : List (Option ℕ) → Literal → List MetaVariable → List MetaVariable
unfolding keep_choices
restrict links l meta_variables = elim (get_or links l.number none) [
  | none ↦ meta_variables
  | some m ↦
      let v = cell_at meta_variables m in
      let (kept, kept_values) = keep_choices l v.variables 0 v.values in
      set meta_variables m (record v { variables = kept; values = kept_values })
]

-- The first literal of the variable leaves the clause.
unfoldable pub erase_number : ℕ → List Literal → List Literal
erase_number n [] = []
erase_number n (l ∷ literals) = if l.number == n then literals else l ∷ erase_number n literals

unfoldable pub erase_in : ℕ → List ℕ → List Clause → List Clause
unfolding erase_number
erase_in n [] clauses = clauses
erase_in n (i ∷ indices) clauses =
    let clause = clause_at clauses i in
    erase_in n indices (set clauses i (record clause { literals = erase_number n clause.literals }))

unfoldable pub delete_all : ℕ → List ℕ → List (ℕ × ℕ) → List (ℕ × ℕ)
unfolding map_insert
delete_all n [] to_delete = to_delete
delete_all n (i ∷ indices) to_delete = delete_all n indices (map_insert i n to_delete)

abbrev pub is_empty {ℓ} : {A : Type ℓ} → List A → Bool
is_empty [] = true
is_empty (x ∷ xs) = false

-- A literal that is alone in its clause, met for the first time. It is read before the clauses change:
-- only a clause with both literals of a variable could be changed below it.
unfoldable pub propagate_unit : Solver → List (Option ℕ) → Literal → Reduction → Reduction
unfolding restrict erase_in delete_all
propagate_unit s links l r =
    let to_sat = clauses_with s l.value l.number in
    let to_sub = clauses_with s (opposite l.value) l.number in
    record {
      clauses = erase_in l.number to_sub r.clauses;
      propagated = set r.propagated l.number (bit l.value);
      meta_variables = restrict links l r.meta_variables;
      cache = r.cache ++ l.number ∷ [];
      to_delete = delete_all l.number to_sat r.to_delete;
      changed = if is_empty to_sub then r.changed else true;
    }

-- The body of the loop over the clauses, by the clause's literals.
unfoldable pub visit_literals : Solver → List (Option ℕ) → List Literal → Reduction → Reduction
unfolding propagate_unit
visit_literals s links (l ∷ []) r = if has l.number r.cache then r else propagate_unit s links l r
visit_literals s links [] r = r
visit_literals s links (l ∷ k ∷ literals) r = r

-- The loop over the clauses, with `left` of them from index `i` on.
unfoldable pub reduce_round : Solver → List (Option ℕ) → ℕ → ℕ → Reduction → Reduction
unfolding visit_literals
reduce_round s links zero i r = r
reduce_round s links (suc left) i r =
    reduce_round s links left (suc i) (visit_literals s links (clause_at r.clauses i).literals r)

-- `while (changed)`, on fuel.
unfoldable pub reduce_loop : ℕ → Solver → List (Option ℕ) → Reduction → Outcome Reduction
unfolding reduce_round
reduce_loop zero s links r = stuck
reduce_loop (suc fuel) s links r =
    let r' = reduce_round s links (length r.clauses) 0 (record r { changed = false }) in
    elim r'.changed [ true ↦ reduce_loop fuel s links r' | false ↦ done r' ]

-- `v.erase(std::find(v.begin(), v.end(), i))`, which is out of range where `i` is not there.
unfoldable pub erase_index : ℕ → List ℕ → Outcome (List ℕ)
erase_index i [] = fault
erase_index i (x ∷ xs) = elim (x == i) [
  | true ↦ done xs
  | false ↦ erase_index i xs >>= λ rest. done (x ∷ rest)
]

-- The loop over the literals of a settled clause: the clause leaves their lists.
unfoldable pub unlist : ℕ → List Literal → Solver → Outcome Solver
unfolding erase_index
unlist i [] s = done s
unlist i (l ∷ literals) s = elim l.value [
  | true ↦ erase_index i (get_or s.literal_to_clause_with_positive_value l.number []) >>= λ ks.
      unlist i literals (record s {
        literal_to_clause_with_positive_value =
            set s.literal_to_clause_with_positive_value l.number ks;
      })
  | false ↦ erase_index i (get_or s.literal_to_clause_with_negative_value l.number []) >>= λ ks.
      unlist i literals (record s {
        literal_to_clause_with_negative_value =
            set s.literal_to_clause_with_negative_value l.number ks;
      })
]

-- The last literal of the variable: the one at `k`.
unfoldable pub last_of : ℕ → List Literal → Option Literal → Option Literal
last_of x [] found = found
last_of x (l ∷ literals) found = last_of x literals (if l.number == x then some l else found)

-- The loop over `toDelete`: of a settled clause only the literal that settles it is left. Without one
-- the uninitialised `k` is used as an index.
unfoldable pub trim_clauses : List (ℕ × ℕ) → Solver → Outcome Solver
unfolding unlist last_of
trim_clauses [] s = done s
trim_clauses ((i, x) ∷ to_delete) s =
    let clause = clause_at s.clauses i in
    unlist i clause.literals s >>= λ s'. or_fault (last_of x clause.literals none) >>= λ l.
    trim_clauses to_delete
      (record s' { clauses = set s'.clauses i (record clause { literals = l ∷ [] }) })

unfoldable pub clear_lists : List ℕ → Solver → Solver
clear_lists [] s = s
clear_lists (n ∷ cache) s = clear_lists cache (record s {
  literal_to_clause_with_positive_value = set s.literal_to_clause_with_positive_value n [];
  literal_to_clause_with_negative_value = set s.literal_to_clause_with_negative_value n [];
})

abbrev pub start_reduction : Solver → List MetaVariable → Reduction
start_reduction s meta_variables = record {
  clauses = s.clauses;
  propagated = s.propagated;
  meta_variables = meta_variables;
  cache = [];
  to_delete = [];
  changed = true;
}

-- The whole of `reduce`, on fuel for its rounds.
unfoldable pub reduce :
    ℕ → List (Option ℕ) → Solver → List MetaVariable → Outcome (Solver × List MetaVariable)
unfolding reduce_loop trim_clauses clear_lists
reduce fuel links s meta_variables =
    reduce_loop fuel s links (start_reduction s meta_variables) >>= λ r.
    trim_clauses r.to_delete (record s { clauses = r.clauses; propagated = r.propagated }) >>= λ s'.
    done (clear_lists r.cache s', r.meta_variables)
