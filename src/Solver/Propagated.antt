-- ===== src/Solver/Propagated.antt =====
-- The rounds of `reduce` as a whole: they end, they keep the assignments that make all clauses true,
-- and they assign only what those assignments agree on.
use latin_squares_diploma_it.Prelude.{
  ℕ, zero, suc, ◌<◌, ◌≡◌, refl, arith, Bool, true, false, List, [], ◌∷◌, Option, done, length, has,
  All, Bool-cases, inl, inr,
}
use latin_squares_diploma_it.Cnf.Literal.{Literal}
use latin_squares_diploma_it.Solver.State.{Solver, clause_at}
use latin_squares_diploma_it.Solver.Apply.{clauses_with, opposite}
use latin_squares_diploma_it.Solver.Bags.{MetaVariable}
use latin_squares_diploma_it.Solver.Reduce.{
  Reduction, propagate_unit, visit_literals, reduce_round, reduce_loop, start_reduction,
}
use latin_squares_diploma_it.Solver.Erasing.{
  models, IsSigned, models-erase_number-le, erase_in_keeps,
}
use latin_squares_diploma_it.Solver.Units.{IsImplied, reduce_loop-IsImplied, done_eq}
use latin_squares_diploma_it.Solver.Rests.{unmet-nil, reduce_loop-total}

module _ (α : ℕ → Bool) (s : Solver) (links : List (Option ℕ)) where
  -- A clause that is true now was true before.
  abbrev pub IsWeaker : Reduction → Type 0
  IsWeaker r =
      (c : ℕ)
      → models α (clause_at r.clauses c).literals ≡ true
      → models α (clause_at s.clauses c).literals ≡ true

  visit_literals-IsWeaker :
      (ls : List Literal) (r : Reduction) → IsWeaker r → IsWeaker (visit_literals s links ls r)
  unfolding visit_literals propagate_unit
  visit_literals-IsWeaker [] r h = h
  visit_literals-IsWeaker (l ∷ []) r h = elim (Bool-cases (has l.number r.cache)) [
    | inl known ↦ rw known h
    | inr new ↦ rw new (λ c.
        erase_in_keeps (λ ls. models α ls ≡ true → models α (clause_at s.clauses c).literals ≡ true)
          l.number (λ ls q e. q (models-erase_number-le α l.number ls e))
          (clauses_with s (opposite l.value) l.number) r.clauses c (h c))
  ]
  visit_literals-IsWeaker (l ∷ k ∷ ls) r h = h

  reduce_round-IsWeaker :
      (left i : ℕ) (r : Reduction) → IsWeaker r → IsWeaker (reduce_round s links left i r)
  unfolding reduce_round
  reduce_round-IsWeaker zero i r h = h
  reduce_round-IsWeaker (suc left) i r h =
      reduce_round-IsWeaker left (suc i) _
        (visit_literals-IsWeaker (clause_at r.clauses i).literals r h)

  reduce_loop-IsWeaker :
      (fuel : ℕ) (r r' : Reduction)
      → IsWeaker r
      → reduce_loop fuel s links r ≡ done r'
      → IsWeaker r'
  unfolding reduce_loop
  reduce_loop-IsWeaker zero r r' h e = cc
  reduce_loop-IsWeaker (suc fuel) r r' h e =
      let start = record r { changed = false } in
      let next = reduce_round s links (length r.clauses) 0 start in
      let kept = reduce_round-IsWeaker (length r.clauses) 0 start h in
      elim (Bool-cases next.changed) [
        | inl again ↦ reduce_loop-IsWeaker fuel next r' kept (rw (again, reduce_loop) at e)
        | inr over ↦
            let same : next ≡ r' = done_eq (rw (over, reduce_loop) at e) in rw (← same) kept
      ]

-- The index lists a clause under a literal only where it has no other literal of that variable.
abbrev pub IsSignedIndex : Solver → Type 0
IsSignedIndex s =
    (n : ℕ) (b : Bool)
    → All (λ c. IsSigned n b (clause_at s.clauses c).literals) (clauses_with s b n)

-- All clauses are true under the assignment.
abbrev pub IsModel : (ℕ → Bool) → Solver → Type 0
IsModel α s = (c : ℕ) → c < length s.clauses → models α (clause_at s.clauses c).literals ≡ true

-- What the rounds leave of a formula.
pub record Propagated (s : Solver) (links : List (Option ℕ)) (r : Reduction) : Type 0 where
  pub implied : (α : ℕ → Bool) → IsModel α s → IsImplied α s links r
  pub weaker : (α : ℕ → Bool) → IsWeaker α s links r

-- Where the index lists a clause only under the literals whose variables it has with that value alone,
-- and the variables lie below a bound, more rounds than the bound are enough for the loop of `reduce`;
-- a clause that is true after it was true before, and under an assignment that makes all clauses true
-- they are true after it too, the variables that it has met have their values there, and the others
-- are left as they were.
pub reduce_loop-Propagated :
    (bound fuel : ℕ) (s : Solver) (links : List (Option ℕ)) (meta_variables : List MetaVariable)
    → IsSignedIndex s
    → ((c : ℕ) → All (λ l. l.number < bound) (clause_at s.clauses c).literals)
    → bound < fuel
    → (r : Reduction) × (reduce_loop fuel s links (start_reduction s meta_variables) ≡ done r)
      × Propagated s links r
reduce_loop-Propagated bound fuel s links meta_variables signed bounded enough =
    let start = start_reduction s meta_variables in
    let (r, e) =
      reduce_loop-total bound s links fuel start bounded (omega (arith, unmet-nil bound)) in
    (
      r,
      e,
      record {
        implied = λ α model.
            reduce_loop-IsImplied α s links fuel start r
              (record {
                size = refl;
                bytes = refl;
                holds = model;
                signed = signed;
                units = λ n p q. cc;
                rest = λ n p. refl;
              })
              e;
        weaker = λ α. reduce_loop-IsWeaker α s links fuel start r (λ c h. h) e;
      },
    )
