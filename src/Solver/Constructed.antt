-- ===== src/Solver/Constructed.antt =====
-- The constructor of `HillClimbingSolver` as a whole: the state that it leaves.
use latin_squares_diploma_it.Prelude.{
  ◌∙◌, ◌≤◌, subst, arith, All-map₂, Yields, Yields-bind, Yields-done, ℕ, zero, suc, ◌+◌, ◌<◌, ◌≡◌,
  ◌≢◌, refl, sym, Bool, true, false, List, [], ◌∷◌, Option, none, done, if◌then◌else◌, length,
  get_or, replicate, get_or-replicate, length-replicate, All, All-map, has, Bool-cases, inl, inr,
}
use latin_squares_diploma_it.Utils.Word.{u32_mod}
use latin_squares_diploma_it.Solver.State.{Solver, clause_at}
use latin_squares_diploma_it.Solver.Apply.{clauses_with}
use latin_squares_diploma_it.Solver.Bags.{MetaVariable}
use latin_squares_diploma_it.Solver.Steps.{IsShaped}
use latin_squares_diploma_it.Solver.Reduce.{reduce, is_empty}
use latin_squares_diploma_it.Solver.Formula.{Cnf}
use latin_squares_diploma_it.Solver.Cells.{Cells, row_length, fix_cells}
use latin_squares_diploma_it.Solver.Places.{IsPlace, grow_all, grow_all_reaches}
use latin_squares_diploma_it.Solver.Squares.{
  All-get_or, IsSquare, AreSquares, fix_cells-Yields, grow_all-IsFull,
}
use latin_squares_diploma_it.Solver.Settled.{
  IsChoosable, AreThere, IsLink, IsReached, choose_values-Yields, adopt_first-Yields,
}
use latin_squares_diploma_it.Solver.Placed.{IsPlaced, place_cells-Yields}
use latin_squares_diploma_it.Solver.Construct.{
  Search, index_clauses, sum_of_weights, allocate, place_cells, choose_values, adopt_first, settle,
  construct,
}
use latin_squares_diploma_it.Solver.Indexing.{
  AllHaveLists, index_clauses_keeps, index_clauses-IsIndexed,
}
use latin_squares_diploma_it.Solver.Fresh.{
  IsFresh, IsFresh-blind, reduce_rest, Constructed, scored_lem,
}

-- A formula whose literals are variables, also those of its net, whose weights are 32-bit words, one
-- for each clause, whose clauses to compute are there, and in which no clause is a single literal or has
-- 2^32 or more.
pub record IsRegular (cnf : Cnf) : Type 0 where
  pub numbers : All (λ c. All (λ l. l.number < cnf.literal_count + 1) c.literals) cnf.clauses
  pub short : (c : ℕ) → length (clause_at cnf.clauses c).literals < u32_mod
  pub weights : (c : ℕ) → get_or cnf.weights c 0 < u32_mod
  pub weighted : length cnf.clauses ≤ length cnf.weights
  pub inside : (c : ℕ) → has c cnf.to_compute ≡ true → c < length cnf.clauses
  pub several : (c : ℕ) → length (clause_at cnf.clauses c).literals ≢ 1
  pub net_numbers :
      All
        (λ n.
          (n.variable < cnf.literal_count + 1) × All (λ l. l.number < cnf.literal_count + 1) n.args)
        cnf.net.finalized

-- Its cells are those of squares of one order, with choices over the core variables.
pub record HasSquares (squares order : ℕ) (cnf : Cnf) : Type 0 where
  pub core : length cnf.core_variables ≤ cnf.literal_count
  pub choosable : All (IsChoosable (length cnf.core_variables)) cnf.meta_vars
  pub laid : AreSquares squares order cnf.meta_vars

All-none : (n left : ℕ) → All (IsLink n) (replicate left none)
All-none n zero = tt
All-none n (suc left) = (tt, All-none n left)

-- Where a row has cells, its square is there.
square_inside : (cells : Cells ℕ) (m r : ℕ) {c : ℕ} → c < row_length cells m r → m < length cells
square_inside [] m r p = absurd (omega (arith, p))
square_inside (rows ∷ cells) zero r p = omega arith
square_inside (rows ∷ cells) (suc m) r p = omega (arith, square_inside cells m r p)

module _ (cnf : Cnf) (h : IsRegular cnf) where
  abbrev size : ℕ
  size = cnf.literal_count + 1

  abbrev indexed : Solver
  indexed = index_clauses cnf.to_compute 0 cnf.clauses (allocate cnf)

  empty : (n : ℕ) (b : Bool) → clauses_with (allocate cnf) b n ≡ []
  empty n true = get_or-replicate size n []
  empty n false = get_or-replicate size n []

  lists : AllHaveLists (allocate cnf) cnf.clauses
  lists =
      All-map cnf.clauses
        (λ c. All-map c.literals (λ l p. (
          rw (length-replicate {A = List ℕ} size []) p,
          rw (length-replicate {A = List ℕ} size []) p,
        )))
        h.numbers

  kept :
      (P : Solver → Type 0)
      → ((s : Solver) (xs ys : List (List ℕ))
          → P s
          → P (record s {
            literal_to_clause_with_positive_value = xs;
            literal_to_clause_with_negative_value = ys;
          }))
      → P (allocate cnf)
      → P indexed
  kept P blind p = index_clauses_keeps P blind cnf.to_compute 0 cnf.clauses (allocate cnf) p

  same_clauses : indexed.clauses ≡ cnf.clauses
  same_clauses = kept (λ t. t.clauses ≡ cnf.clauses) (λ t xs ys e. e) refl

  same_units : length indexed.propagated ≡ size
  same_units = kept (λ t. length t.propagated ≡ size) (λ t xs ys e. e) (length-replicate size 2)

  indexed-IsFresh : IsFresh cnf.to_compute (λ c. has c cnf.to_compute) indexed
  indexed-IsFresh = record {
    shaped =
        kept (λ t. IsShaped t (λ c. has c cnf.to_compute))
          (λ t xs ys e. record {
            flags = e.flags;
            within = e.within;
            clauses = e.clauses;
            weights = e.weights;
          })
          (record {
            flags = refl;
            within = λ c w. rw (length-replicate {A = ℕ} (length cnf.clauses) 0) (h.inside c w);
            clauses = sym (length-replicate {A = ℕ} (length cnf.clauses) 0);
            weights = h.weights;
          });
    indexed = index_clauses-IsIndexed cnf.to_compute (allocate cnf) empty lists h.short;
    computed = λ c w. w;
    clear = kept (λ t. t.satisfied ≡ replicate (length t.clauses) 0) (λ t xs ys e. e) refl;
    sum = kept (λ t. t.satisfied_sum ≡ 0) (λ t xs ys e. e) refl;
    number = kept (λ t. t.satisfied_count ≡ 0) (λ t xs ys e. e) refl;
  }

  abbrev start : Search
  start = record {
    solver = indexed;
    meta_variables = cnf.meta_vars;
    structured_meta_variables = [];
    meta_values = [];
    literal_to_meta_variable = replicate size none;
    sum_weights = sum_of_weights cnf.weights (length cnf.clauses) 0 0;
    core_size = length cnf.core_variables;
  }

  abbrev watched : ℕ → Bool
  watched c = has c cnf.to_compute

  reduced :
      (fuel : ℕ) (q : Search)
      → q.solver ≡ indexed
      → reduce (suc fuel) q.literal_to_meta_variable q.solver q.meta_variables
        ≡ done (q.solver, q.meta_variables)
  reduced fuel q e =
      reduce_rest fuel q.literal_to_meta_variable q.solver q.meta_variables
        (λ c. rw (e, same_clauses) (h.several c))

  module _ (squares order : ℕ) (k : HasSquares squares order cnf) (first draws : List ℕ)
      (given : is_empty first ≡ false → length cnf.core_variables < length first) where
    abbrev vs : List MetaVariable
    vs = cnf.meta_vars

    abbrev IsReady : Search → Type 0
    IsReady =
        IsReached (IsFresh cnf.to_compute watched) (IsFresh-blind cnf.to_compute watched)
          (length cnf.core_variables) size (omega (arith, k.core)) vs

    adopted-Yields :
        (q : Search)
        → IsReady q
        → Yields (if is_empty first then done q else adopt_first first q.core_size 1 q) IsReady
    adopted-Yields q r = elim (Bool-cases (is_empty first)) [
      | inl e ↦ rw e r
      | inr e ↦ rw e (
          adopt_first-Yields (IsFresh cnf.to_compute watched) (IsFresh-blind cnf.to_compute watched)
            (length cnf.core_variables) size (omega (arith, k.core)) vs k.choosable first
            q.core_size 1 q (given e) (omega (arith, r.0.same_core)) r)
    ]

    abbrev room : Cells ℕ
    room = grow_all 0 vs []

    abbrev IsFixed : Cells ℕ → Type 0
    IsFixed cells = (length cells ≡ length room) × All (IsSquare order) cells

    -- The fixed cells leave each cell in its place.
    fixed_there : (cells : Cells ℕ) → IsFixed cells → AreThere vs cells
    fixed_there cells p =
        All-map₂ vs
          (λ v (inside : IsPlace squares order v)
              (there : v.column_index < row_length room v.matrix_index v.row_index).
            let square : v.matrix_index < length cells =
              omega (arith, p.0, square_inside room v.matrix_index v.row_index there) in
            let full = All-get_or (IsSquare order) [] cells v.matrix_index p.1 square in
            omega (arith, full v.row_index inside.1, inside.2))
          k.laid.places (grow_all_reaches 0 vs [])

    settle-Yields :
        (q : Search)
        → IsPlaced 0 vs start q
        → Yields
            (settle cnf.to_compute first draws q)
            (λ out. Constructed cnf.to_compute watched out.solver)
    unfolding settle
    settle-Yields q p =
        Yields-bind (fix_cells 0 q.meta_values) _ IsFixed _
          (rw p.cells (
            fix_cells-Yields order k.laid.several 0 room (grow_all-IsFull squares order vs k.laid)))
          (λ cells f.
            let there : AreThere vs cells = fixed_there cells f in
            let structured : AreThere vs q.structured_meta_variables =
              rw p.structured (grow_all_reaches none vs []) in
            Yields-bind (choose_values 0 q.meta_variables draws (record q { meta_values = cells }))
              _ IsReady _
              (subst
                (λ ws. Yields (choose_values 0 ws draws (record q { meta_values = cells })) IsReady)
                (sym p.same)
                (choose_values-Yields (IsFresh cnf.to_compute watched)
                  (IsFresh-blind cnf.to_compute watched) (length cnf.core_variables) size
                  (omega (arith, k.core)) vs 0 vs draws (record q { meta_values = cells })
                  k.choosable there structured
                  (
                    record {
                      cells = there;
                      structured = structured;
                      units = rw p.solver same_units;
                      links = p.links ∙ length-replicate size none;
                      linked = p.linked (length vs) (omega arith) (All-none (length vs) size);
                      same = p.same;
                      same_core = p.core;
                    },
                    rw p.solver indexed-IsFresh,
                  )))
              (λ chosen r.
                Yields-bind
                  (if is_empty first
                    then done chosen
                    else adopt_first first chosen.core_size 1 chosen)
                  _ IsReady _ (adopted-Yields chosen r)
                  (λ out s.
                    scored_lem cnf.to_compute watched _
                      (IsFresh-blind cnf.to_compute watched out.solver _ s.1))))

    -- For a formula whose literals and those of its net are its variables, whose weights are 32-bit
    -- words, one for each clause, whose clauses to compute are there, in which no clause is a
    -- single literal or has 2^32 or more, whose cells lie in squares of one order of at least 2,
    -- where every row but the first has its last cell, and have choices, a value for each, with
    -- core variables as literals, which are variables of the formula, and for first values that are
    -- none or more than the core variables: the constructor returns, whatever is drawn, and reads
    -- and writes nothing out of range; afterwards the index lists exactly the clauses to compute,
    -- the counts, flags and sums describe the assignment, and the other clauses count as true.
    pub construct-Constructed :
        (fuel : ℕ)
        → (q : Search) × (construct (suc fuel) cnf first draws ≡ done q)
          × Constructed cnf.to_compute (λ c. has c cnf.to_compute) q.solver
    unfolding construct
    construct-Constructed fuel = Yields-done (construct (suc fuel) cnf first draws) _ (
        Yields-bind (place_cells 0 vs start) _ _ _
          (place_cells-Yields (length cnf.core_variables) 0 vs start k.choosable
            (rw (length-replicate {A = Option ℕ} size none) (omega (arith, k.core))))
          (λ q p. rw (reduced fuel q p.solver) (settle-Yields q p)))
