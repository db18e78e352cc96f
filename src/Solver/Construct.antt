-- ===== src/Solver/Construct.antt =====
-- The constructor of `HillClimbingSolver`.
use latin_squares_diploma_it.Prelude.{
  get_elem?, fault, leb, or_fault, ℕ, zero, suc, ◌+◌, ◌%◌, ◌&&◌, ◌||◌, not, List, [], ◌∷◌, ◌++◌,
  Option, none, some, Outcome, done, ◌>>=◌, ltb, ◌==◌, if◌then◌else◌, length, get_or, set,
  replicate, any, has,
}
use latin_squares_diploma_it.Utils.Word.{add32}
use latin_squares_diploma_it.Cnf.Literal.{Literal, bit}
use latin_squares_diploma_it.Cnf.Clause.{Clause, propagate_sat}
use latin_squares_diploma_it.Net.Compute.{compute}
use latin_squares_diploma_it.Solver.State.{Solver, clause_at}
use latin_squares_diploma_it.Solver.Apply.{each_unsat}
use latin_squares_diploma_it.Solver.Bags.{MetaVariable}
use latin_squares_diploma_it.Solver.Cells.{Cells, grow_cells, write_cell, fix_cells}
use latin_squares_diploma_it.Solver.Reduce.{reduce, is_empty}
use latin_squares_diploma_it.Solver.Formula.{Cnf}

-- The members of the solver: those that apply_flipped reads and writes, and the others. `none` is the
-- -1 of an index.
pub record Search : Type 0 where
  pub solver : Solver
  pub meta_variables : List MetaVariable
  pub structured_meta_variables : Cells (Option ℕ)
  pub meta_values : Cells ℕ
  pub literal_to_meta_variable : List (Option ℕ)
  pub sum_weights : ℕ
  pub core_size : ℕ

-- `lists[n].push_back(i)`
abbrev pub push_at : List (List ℕ) → ℕ → ℕ → List (List ℕ)
push_at lists n i = set lists n (get_or lists n [] ++ i ∷ [])

-- The loop over the literals of the clause `i`, which is one to compute, and its body.
unfoldable pub index_literal : ℕ → Literal → Solver → Solver
index_literal i l s =
    if l.value
    then record s {
      literal_to_clause_with_positive_value =
          push_at s.literal_to_clause_with_positive_value l.number i;
    }
    else record s {
      literal_to_clause_with_negative_value =
          push_at s.literal_to_clause_with_negative_value l.number i;
    }

unfoldable pub index_literals : ℕ → List Literal → Solver → Solver
unfolding index_literal
index_literals i [] s = s
index_literals i (l ∷ literals) s = index_literals i literals (index_literal i l s)

-- The loop over the clauses, from index `i` on.
unfoldable pub index_clauses : List ℕ → ℕ → List Clause → Solver → Solver
unfolding index_literals
index_clauses to_compute i [] s = s
index_clauses to_compute i (c ∷ clauses) s =
    index_clauses to_compute (suc i) clauses
      (if has i to_compute then index_literals i c.literals s else s)

-- `sum_weights += weights[i]` in that loop, with `left` clauses from index `i` on.
unfoldable pub sum_of_weights : List ℕ → ℕ → ℕ → ℕ → ℕ
sum_of_weights weights zero i sum = sum
sum_of_weights weights (suc left) i sum =
    sum_of_weights weights left (suc i) (add32 sum (get_or weights i 0))

-- The literals of the first choice lead to the meta-variable.
unfoldable pub link_literals : ℕ → List Literal → List (Option ℕ) → Outcome (List (Option ℕ))
link_literals i [] links = done links
link_literals i (l ∷ literals) links =
    if ltb l.number (length links)
    then link_literals i literals (set links l.number (some i))
    else fault

-- The loop over the meta-variables, from index `i` on. Each has a first choice, or it is read out of
-- range.
unfoldable pub place_cells : ℕ → List MetaVariable → Search → Outcome Search
unfolding grow_cells link_literals
place_cells i [] q = done q
place_cells i (v ∷ meta_variables) q = or_fault (get_elem? v.variables 0) >>= λ literals.
    link_literals i literals q.literal_to_meta_variable >>= λ links.
    place_cells (suc i) meta_variables (record q {
      structured_meta_variables = grow_cells none v q.structured_meta_variables;
      meta_values = grow_cells 0 v q.meta_values;
      literal_to_meta_variable = links;
    })

-- The literals of a choice are given their values. They are written to the local vector `core` too,
-- which is never read, but has a place for the core variables alone.
unfoldable pub assign_literals : ℕ → List Literal → List ℕ → Outcome (List ℕ)
assign_literals core_size [] units = done units
assign_literals core_size (l ∷ literals) units =
    if ltb 0 l.number && leb l.number core_size && ltb l.number (length units)
    then assign_literals core_size literals (set units l.number (bit l.value))
    else fault

-- The number of the choice that a draw stands for. Without choices the remainder is by zero.
abbrev pub choice_of : List (List Literal) → ℕ → Outcome ℕ
choice_of [] draw = fault
choice_of (c ∷ choices) draw = done (draw % length (c ∷ choices))

-- The loop that chooses a value for each meta-variable; `draws` are the values of `rand()`.
unfoldable pub choose_values : ℕ → List MetaVariable → List ℕ → Search → Outcome Search
unfolding write_cell assign_literals
choose_values i [] draws q = done q
choose_values i (v ∷ meta_variables) draws q =
    choice_of v.variables (get_or draws i 0) >>= λ choice.
    or_fault (get_elem? v.values choice) >>= λ value.
    write_cell value v q.meta_values >>= λ meta_values.
    write_cell (some i) v q.structured_meta_variables >>= λ structured.
    assign_literals q.core_size (get_or v.variables choice []) q.solver.propagated >>= λ units.
    choose_values (suc i) meta_variables draws (record q {
      meta_values = meta_values;
      structured_meta_variables = structured;
      solver = record q.solver { propagated = units };
    })

-- The first choice that makes the variable true, from index `k` on.
unfoldable pub choice_with : ℕ → ℕ → List (List Literal) → Option ℕ
choice_with i k [] = none
choice_with i k (choice ∷ choices) =
    if any (λ l. l.number == i && l.value) choice then some k else choice_with i (suc k) choices

-- The value of the cell that the variable `i` of the given assignment stands for.
unfoldable pub adopt_link : ℕ → Option ℕ → Search → Outcome Search
unfolding choice_with write_cell
adopt_link i none q = done q
adopt_link i (some m) q = or_fault (get_elem? q.meta_variables m) >>= λ v.
    elim (choice_with i 0 v.variables) [
      | none ↦ done q
      | some k ↦ or_fault (get_elem? v.values k) >>= λ value.
          write_cell value v q.meta_values >>= λ meta_values.
          done (record q { meta_values = meta_values })
    ]

unfoldable pub adopt_cell : ℕ → Search → Outcome Search
unfolding adopt_link
adopt_cell i q = or_fault (get_elem? q.literal_to_meta_variable i) >>= λ link. adopt_link i link q

-- The loop over the core variables of a given assignment, `left` of them from `i` on. The assignment
-- and `propagated` must have a place for each.
unfoldable pub adopt_first : List ℕ → ℕ → ℕ → Search → Outcome Search
unfolding adopt_cell
adopt_first first zero i q = done q
adopt_first first (suc left) i q = or_fault (get_elem? first i) >>= λ u.
    or_fault (get_elem? q.solver.propagated i) >>= λ old.
    let q' = record q { solver = record q.solver { propagated = set q.solver.propagated i u } } in
    (if u == 0 then done q' else adopt_cell i q') >>= λ adopted.
    adopt_first first left (suc i) adopted

-- The body of the last loop: a clause is counted, and one that is false adds to its literals.
unfoldable pub score_clause : List ℕ → ℕ → Solver → Solver
unfolding each_unsat
score_clause to_compute i s =
    let (clause, n) = propagate_sat (clause_at s.clauses i) s.propagated in
    let s' = record s {
      clauses = set s.clauses i clause;
      clauses_count_satisfied = set s.clauses_count_satisfied i n;
    } in
    if ltb 0 n || not (has i to_compute)
    then record s' {
      satisfied = set s.satisfied i 1;
      satisfied_sum = add32 s.satisfied_sum (get_or s.weights i 0);
      satisfied_count = add32 s.satisfied_count 1;
    }
    else record s' {
      literal_to_unsat = each_unsat (λ m. add32 m 1) clause.literals s.literal_to_unsat;
    }

unfoldable pub score_clauses : List ℕ → ℕ → ℕ → Solver → Solver
unfolding score_clause
score_clauses to_compute zero i s = s
score_clauses to_compute (suc left) i s =
    score_clauses to_compute left (suc i) (score_clause to_compute i s)

-- The vectors as they are allocated.
abbrev pub allocate : Cnf → Solver
allocate cnf =
    let size = cnf.literal_count + 1 in
    record {
      clauses = cnf.clauses;
      propagated = replicate size 2;
      satisfied = replicate (length cnf.clauses) 0;
      literal_to_unsat = replicate size 0;
      weights = cnf.weights;
      net = cnf.net;
      clauses_count_satisfied = replicate (length cnf.clauses) 0;
      literal_to_clause_with_positive_value = replicate size [];
      literal_to_clause_with_negative_value = replicate size [];
      satisfied_sum = 0;
      satisfied_count = 0;
    }

-- What follows `reduce`: the fixed cells, the choices, the given assignment, the net and the counts.
unfoldable pub settle : List ℕ → List ℕ → List ℕ → Search → Outcome Search
unfolding fix_cells choose_values adopt_first compute score_clauses
settle to_compute first draws q = fix_cells 0 q.meta_values >>= λ fixed.
    choose_values 0 q.meta_variables draws (record q { meta_values = fixed }) >>= λ chosen.
    (if is_empty first then done chosen else adopt_first first chosen.core_size 1 chosen)
    >>= λ given.
        let computed = record given.solver {
          propagated = compute given.solver.net.finalized given.solver.propagated;
        } in
        done
          (record given { solver = score_clauses to_compute (length computed.clauses) 0 computed })

-- The constructor, on fuel for the rounds of `reduce`.
unfoldable pub construct : ℕ → Cnf → List ℕ → List ℕ → Outcome Search
unfolding index_clauses sum_of_weights place_cells reduce settle
construct fuel cnf first draws =
    let indexed = index_clauses cnf.to_compute 0 cnf.clauses (allocate cnf) in
    place_cells 0 cnf.meta_vars (record {
      solver = indexed;
      meta_variables = cnf.meta_vars;
      structured_meta_variables = [];
      meta_values = [];
      literal_to_meta_variable = replicate (cnf.literal_count + 1) none;
      sum_weights = sum_of_weights cnf.weights (length cnf.clauses) 0 0;
      core_size = length cnf.core_variables;
    })
    >>= λ placed.
        reduce fuel placed.literal_to_meta_variable placed.solver placed.meta_variables >>= λ r.
        settle cnf.to_compute first draws (record placed { solver = r.0; meta_variables = r.1 })
