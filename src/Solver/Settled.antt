-- ===== src/Solver/Settled.antt =====
-- The choices of the constructor and the adoption of given values: nothing is read or written out of
-- range.
use latin_squares_diploma_it.Prelude.{
  ℕ, zero, suc, ◌+◌, ◌≤◌, ◌<◌, ◌≡◌, refl, ◌∙◌, arith, true, ◌&&◌, List, [], ◌∷◌, Option, none, some,
  ltb, leb, lt→ltb, ◌==◌, if◌then◌else◌, length, length-set, get_or, get_elem?, get_elem?-past, set,
  any, All, All-map, All-map₂, All-get_elem?, Bool-cases, Option-cases, inl, inr, done, or_fault,
  Yields, Yields-bind, Yields-or_fault,
}
use latin_squares_diploma_it.Cnf.Literal.{Literal, bit}
use latin_squares_diploma_it.Solver.State.{Solver}
use latin_squares_diploma_it.Solver.Bags.{MetaVariable}
use latin_squares_diploma_it.Solver.Cells.{Cells, row_length, set_cell, write_cell}
use latin_squares_diploma_it.Solver.Places.{row_length-set_cell}
use latin_squares_diploma_it.Solver.Squares.{All-get_or}
use latin_squares_diploma_it.Solver.Construct.{
  Search, assign_literals, choice_of, choose_values, choice_with, adopt_link, adopt_cell,
  adopt_first,
}

-- A cell with choices, as many values as choices, and core variables as literals.
abbrev pub IsCore : ℕ → Literal → Type 0
IsCore core l = (0 < l.number) × (l.number ≤ core)

pub record IsChoosable (core : ℕ) (v : MetaVariable) : Type 0 where
  pub choices : 0 < length v.variables
  pub values : length v.variables ≤ length v.values
  pub literals : All (All (IsCore core)) v.variables

-- The cells have their places.
abbrev pub AreThere : {A : Type 0} → List MetaVariable → Cells A → Type 0
AreThere vs cells = All (λ v. v.column_index < row_length cells v.matrix_index v.row_index) vs

abbrev IsAble : ℕ → Search → MetaVariable → Type 0
IsAble core q v =
    IsChoosable core v × (v.column_index < row_length q.meta_values v.matrix_index v.row_index)

-- A link leads to one of n meta-variables.
abbrev pub IsLink : ℕ → Option ℕ → Type 0
IsLink n none = Unit
IsLink n (some m) = m < n

AreThere-set_cell :
    {A : Type 0} (a : A) (w : MetaVariable) (cells : Cells A) (vs : List MetaVariable)
    → AreThere vs cells
    → AreThere vs (set_cell a w cells)
AreThere-set_cell a w cells vs h =
    All-map vs (λ v p. rw (row_length-set_cell a w cells v.matrix_index v.row_index) p) h

write_cell-Yields :
    {A : Type 0} (a : A) (v : MetaVariable) (cells : Cells A)
    → v.column_index < row_length cells v.matrix_index v.row_index
    → Yields (write_cell a v cells) (λ out. out ≡ set_cell a v cells)
unfolding write_cell
write_cell-Yields a v cells p =
    rw (lt→ltb v.column_index (row_length cells v.matrix_index v.row_index) p) refl

-- A read in range.
read-Yields :
    {A : Type 0} (P : A → Type 0) (xs : List A) (i : ℕ)
    → All P xs
    → i < length xs
    → Yields (or_fault (get_elem? xs i)) P
read-Yields P xs i h p = elim (Option-cases (get_elem? xs i)) [
  | inl past ↦ absurd (omega (arith, get_elem?-past xs i past, p))
  | inr (x, at) ↦ Yields-or_fault (get_elem? xs i) P (x, at, All-get_elem? P xs i x at h)
]

abbrev Anything : {A : Type 0} → A → Type 0
Anything x = Unit

All-unit : {A : Type 0} (xs : List A) → All Anything xs
All-unit [] = tt
All-unit (x ∷ xs) = (tt, All-unit xs)

choice_of-Yields :
    (choices : List (List Literal)) (draw : ℕ)
    → 0 < length choices
    → Yields (choice_of choices draw) (λ k. k < length choices)
choice_of-Yields [] draw p = absurd (omega (arith, p))
choice_of-Yields (c ∷ choices) draw p = grind arith

choice_with-lt :
    (i k j : ℕ) (choices : List (List Literal))
    → choice_with i k choices ≡ some j
    → j < k + length choices
unfolding choice_with
choice_with-lt i k j [] e = cc
choice_with-lt i k j (c ∷ choices) e = elim (Bool-cases (any (λ l. l.number == i && l.value) c)) [
  | inl here ↦
      let same : some k ≡ some j = rw (here, choice_with) at e in
      let index : k ≡ j = cc in omega arith
  | inr there ↦
      let later : choice_with i (suc k) choices ≡ some j = rw (there, choice_with) at e in
      omega (arith, choice_with-lt i (suc k) j choices later)
]

assign_literals-Yields :
    (core : ℕ) (literals : List Literal) (units : List ℕ)
    → All (IsCore core) literals
    → core < length units
    → Yields (assign_literals core literals units) (λ out. length out ≡ length units)
unfolding assign_literals
assign_literals-Yields core [] units h w = refl
assign_literals-Yields core (l ∷ literals) units h w =
    let positive : 0 < l.number = h.0.0 in
    let small : l.number ≤ core = h.0.1 in
    let inside : (ltb 0 l.number && leb l.number core && ltb l.number (length units)) ≡ true =
      ground arith in
    rw inside (
      rw (← length-set units l.number (bit l.value)) (
        assign_literals-Yields core literals (set units l.number (bit l.value)) h.1
          (omega (arith, w, length-set units l.number (bit l.value)))))

-- The search while the values are chosen: each cell has its places, each variable its byte and its
-- link.
pub record IsLaid (core size : ℕ) (vs : List MetaVariable) (q : Search) : Type 0 where
  pub cells : AreThere vs q.meta_values
  pub structured : AreThere vs q.structured_meta_variables
  pub units : length q.solver.propagated ≡ size
  pub links : length q.literal_to_meta_variable ≡ size
  pub linked : All (IsLink (length vs)) q.literal_to_meta_variable
  pub same : q.meta_variables ≡ vs
  pub same_core : q.core_size ≡ core

-- A property that does not depend on the assignment holds after the choices where it held before.
module _ (P : Solver → Type 0)
    (blind : (s : Solver) (units : List ℕ) → P s → P (record s { propagated = units }))
    (core size : ℕ) (fits : core < size) (vs : List MetaVariable) where
  abbrev pub IsReached : Search → Type 0
  IsReached q = IsLaid core size vs q × P q.solver

  pub choose_values-Yields :
      (i : ℕ) (rest : List MetaVariable) (draws : List ℕ) (q : Search)
      → All (IsChoosable core) rest
      → AreThere rest q.meta_values
      → AreThere rest q.structured_meta_variables
      → IsReached q
      → Yields (choose_values i rest draws q) IsReached
  unfolding choose_values
  choose_values-Yields i [] draws q c m n h = h
  choose_values-Yields i (v ∷ rest) draws q c m n h =
      let able = c.0 in
      let laid = h.0 in
      Yields-bind (choice_of v.variables (get_or draws i 0)) _ _ _
        (choice_of-Yields v.variables (get_or draws i 0) able.choices)
        (λ k p.
          Yields-bind (or_fault (get_elem? v.values k)) _ _ _
            (read-Yields Anything v.values k (All-unit v.values) (omega (arith, p, able.values)))
            (λ value u.
              Yields-bind (write_cell value v q.meta_values) _ _ _
                (write_cell-Yields value v q.meta_values m.0)
                (λ cells e.
                  Yields-bind (write_cell (some i) v q.structured_meta_variables) _ _ _
                    (write_cell-Yields (some i) v q.structured_meta_variables n.0)
                    (λ structured f.
                      Yields-bind
                        (assign_literals q.core_size (get_or v.variables k []) q.solver.propagated)
                        _ _ _
                        (rw laid.same_core (
                          assign_literals-Yields core (get_or v.variables k []) q.solver.propagated
                            (All-get_or (All (IsCore core)) [] v.variables k able.literals p)
                            (rw laid.units fits)))
                        (λ units w.
                          choose_values-Yields (suc i) rest draws _ c.1
                            (rw e (AreThere-set_cell value v q.meta_values rest m.1))
                            (rw f
                              (AreThere-set_cell (some i) v q.structured_meta_variables rest n.1))
                            (
                              record {
                                cells =
                                    rw e (AreThere-set_cell value v q.meta_values vs laid.cells);
                                structured = rw f (
                                    AreThere-set_cell (some i) v q.structured_meta_variables vs
                                      laid.structured);
                                units = w ∙ laid.units;
                                links = laid.links;
                                linked = laid.linked;
                                same = laid.same;
                                same_core = laid.same_core;
                              },
                              blind q.solver units h.1,
                            ))))))

  module _ (choosable : All (IsChoosable core) vs) where
    adopt_value-Yields :
        (i m : ℕ) (q : Search)
        → m < length vs
        → IsReached q
        → Yields (adopt_link i (some m) q) IsReached
    unfolding adopt_link
    adopt_value-Yields i m q p h =
        let laid = h.0 in
        Yields-bind (or_fault (get_elem? q.meta_variables m)) _ (IsAble core q) _
          (rw laid.same (
            read-Yields (IsAble core q) vs m (All-map₂ vs (λ v a b. (a, b)) choosable laid.cells)
              p))
          (λ v able. elim (Option-cases (choice_with i 0 v.variables)) [
            | inl e ↦ rw e h
            | inr (k, e) ↦ rw e (
                Yields-bind (or_fault (get_elem? v.values k)) _ _ _
                  (read-Yields Anything v.values k (All-unit v.values)
                    (omega (arith, choice_with-lt i 0 k v.variables e, able.0.values)))
                  (λ value u.
                    Yields-bind (write_cell value v q.meta_values) _ _ _
                      (write_cell-Yields value v q.meta_values able.1)
                      (λ cells f. (
                        record {
                          cells = rw f (AreThere-set_cell value v q.meta_values vs laid.cells);
                          structured = laid.structured;
                          units = laid.units;
                          links = laid.links;
                          linked = laid.linked;
                          same = laid.same;
                          same_core = laid.same_core;
                        },
                        h.1,
                      ))))
          ])

    adopt_cell-Yields :
        (i : ℕ) (q : Search) → i < size → IsReached q → Yields (adopt_cell i q) IsReached
    unfolding adopt_cell adopt_link
    adopt_cell-Yields i q p h =
        Yields-bind (or_fault (get_elem? q.literal_to_meta_variable i)) _ _ _
          (read-Yields (IsLink (length vs)) q.literal_to_meta_variable i h.0.linked
            (rw h.0.links p))
          (λ link k. go link k)
      where
        go : (link : Option ℕ) → IsLink (length vs) link → Yields (adopt_link i link q) IsReached
        go none k = h
        go (some m) k = adopt_value-Yields i m q k h

    -- A given assignment with a value for each core variable is adopted.
    pub adopt_first-Yields :
        (first : List ℕ) (left i : ℕ) (q : Search)
        → core < length first
        → i + left ≤ core + 1
        → IsReached q
        → Yields (adopt_first first left i q) IsReached
    unfolding adopt_first
    adopt_first-Yields first zero i q w p h = h
    adopt_first-Yields first (suc left) i q w p h =
        let laid = h.0 in
        Yields-bind (or_fault (get_elem? first i)) _ _ _
          (read-Yields Anything first i (All-unit first) (omega arith))
          (λ u t.
            Yields-bind (or_fault (get_elem? q.solver.propagated i)) _ _ _
              (read-Yields Anything q.solver.propagated i (All-unit q.solver.propagated)
                (rw laid.units (omega arith)))
              (λ old t'.
                let q' : Search = record q {
                  solver = record q.solver { propagated = set q.solver.propagated i u };
                } in
                let reached : IsReached q' = (
                  record {
                    cells = laid.cells;
                    structured = laid.structured;
                    units = length-set q.solver.propagated i u ∙ laid.units;
                    links = laid.links;
                    linked = laid.linked;
                    same = laid.same;
                    same_core = laid.same_core;
                  },
                  blind q.solver (set q.solver.propagated i u) h.1,
                ) in
                Yields-bind (if u == 0 then done q' else adopt_cell i q') _ _ _
                  (elim (Bool-cases (u == 0)) [
                    | inl e ↦ rw e reached
                    | inr e ↦ rw e (adopt_cell-Yields i q' (omega arith) reached)
                  ])
                  (λ adopted k. adopt_first-Yields first left (suc i) adopted w (omega arith) k)))
