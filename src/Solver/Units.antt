-- ===== src/Solver/Units.antt =====
-- Unit propagation is sound: the values that it assigns hold in every assignment that makes the clauses
-- true, and the clauses stay true there.
use latin_squares_diploma_it.Prelude.{
  ℕ, zero, suc, ◌+◌, ◌<◌, ◌≤◌, ◌≡◌, refl, subst, ◌∙◌, arith, Bool, true, false, ◌||◌, List, [], ◌∷◌,
  ◌++◌, Option, done, ◌==◌, ==_iff, length, length-set, get_or, get_or-set_self, get_or-set_ne, set,
  has, All, All-map, Bool-cases, inl, inr,
}
use latin_squares_diploma_it.Cnf.Literal.{Literal, bit}
use latin_squares_diploma_it.Solver.State.{Solver, clause_at}
use latin_squares_diploma_it.Solver.Apply.{clauses_with, opposite}
use latin_squares_diploma_it.Solver.Reduce.{
  Reduction, propagate_unit, visit_literals, reduce_round, reduce_loop,
}
use latin_squares_diploma_it.Solver.Erasing.{
  is_true, models, IsSigned, erase_number-All, length-erase_in, erase_in_keeps, models-erase_in,
}

pub done_eq : {r r' : Reduction} → done r ≡ done r' → r ≡ r'
done_eq e = cc

module _ (α : ℕ → Bool) (s : Solver) (links : List (Option ℕ)) where
  -- The clauses are true under the assignment, a listed clause has the variable with the listed value
  -- alone, and the variables met so far, and no others, have been given their values.
  pub record IsImplied (r : Reduction) : Type 0 where
    pub size : length r.clauses ≡ length s.clauses
    pub bytes : length r.propagated ≡ length s.propagated
    pub holds : (c : ℕ) → c < length s.clauses → models α (clause_at r.clauses c).literals ≡ true
    pub signed :
        (n : ℕ) (b : Bool)
        → All (λ c. IsSigned n b (clause_at r.clauses c).literals) (clauses_with s b n)
    pub units :
        (n : ℕ)
        → has n r.cache ≡ true
        → n < length s.propagated
        → get_or r.propagated n 2 ≡ bit (α n)
    pub rest : (n : ℕ) → has n r.cache ≡ false → get_or r.propagated n 2 ≡ get_or s.propagated n 2

  has-snoc : (n m : ℕ) (xs : List ℕ) → has n (xs ++ m ∷ []) ≡ (has n xs || m == n)
  has-snoc n m [] = ground arith
  has-snoc n m (x ∷ xs) = ground (arith, has-snoc n m xs)

  other_value : (b c : Bool) → (bit b == bit c) ≡ true → (bit (opposite b) == bit c) ≡ false
  other_value true true e = refl
  other_value true false e = cc
  other_value false true e = cc
  other_value false false e = refl

  propagate_unit-IsImplied :
      (l : Literal) (r : Reduction)
      → is_true α l ≡ true
      → IsImplied r
      → IsImplied (propagate_unit s links l r)
  unfolding propagate_unit
  propagate_unit-IsImplied l r e h =
      let to_sub = clauses_with s (opposite l.value) l.number in
      let wrong = other_value l.value (α l.number) e in
      record {
        size = length-erase_in l.number to_sub r.clauses ∙ h.size;
        bytes = length-set r.propagated l.number (bit l.value) ∙ h.bytes;
        holds = λ c p.
            models-erase_in α l.number (opposite l.value) wrong to_sub r.clauses
              (h.signed l.number (opposite l.value)) c
            ∙ h.holds c p;
        signed = λ n b.
            All-map (clauses_with s b n)
              (λ c p.
                erase_in_keeps (IsSigned n b) l.number (λ ls q. erase_number-All _ l.number ls q)
                  to_sub r.clauses c p)
              (h.signed n b);
        units = λ n p q. elim (Bool-cases (l.number == n)) [
          | inl here ↦
              let same : l.number ≡ n = (==_iff l.number n).0 here in
              subst (λ (m : ℕ). get_or (set r.propagated l.number (bit l.value)) m 2 ≡ bit (α m))
                same
                (get_or-set_self r.propagated l.number (bit l.value) 2
                    (omega (arith, same, h.bytes, q))
                  ∙ (==_iff _ _).0 e)
          | inr there ↦
              get_or-set_ne r.propagated l.number n (bit l.value) 2 (λ z. ground arith)
              ∙ h.units n (ground (arith, has-snoc n l.number r.cache)) q
        ];
        rest = λ n p.
            get_or-set_ne r.propagated l.number n (bit l.value) 2
              (λ z. ground (arith, has-snoc n l.number r.cache))
            ∙ h.rest n (ground (arith, has-snoc n l.number r.cache));
      }

  visit_literals-IsImplied :
      (ls : List Literal) (r : Reduction)
      → models α ls ≡ true
      → IsImplied r
      → IsImplied (visit_literals s links ls r)
  unfolding visit_literals
  visit_literals-IsImplied [] r e h = h
  visit_literals-IsImplied (l ∷ []) r e h = elim (Bool-cases (has l.number r.cache)) [
    | inl known ↦ rw known h
    | inr new ↦ rw new (propagate_unit-IsImplied l r (ground arith) h)
  ]
  visit_literals-IsImplied (l ∷ k ∷ ls) r e h = h

  reduce_round-IsImplied :
      (left i : ℕ) (r : Reduction)
      → i + left ≤ length s.clauses
      → IsImplied r
      → IsImplied (reduce_round s links left i r)
  unfolding reduce_round
  reduce_round-IsImplied zero i r p h = h
  reduce_round-IsImplied (suc left) i r p h =
      reduce_round-IsImplied left (suc i) _ (omega arith)
        (visit_literals-IsImplied (clause_at r.clauses i).literals r (h.holds i (omega arith)) h)

  -- The flag plays no part.
  unflagged : (r : Reduction) → IsImplied r → IsImplied (record r { changed = false })
  unflagged r h = record {
    size = h.size;
    bytes = h.bytes;
    holds = h.holds;
    signed = h.signed;
    units = h.units;
    rest = h.rest;
  }

  pub reduce_loop-IsImplied :
      (fuel : ℕ) (r r' : Reduction)
      → IsImplied r
      → reduce_loop fuel s links r ≡ done r'
      → IsImplied r'
  unfolding reduce_loop
  reduce_loop-IsImplied zero r r' h e = cc
  reduce_loop-IsImplied (suc fuel) r r' h e =
      let next = reduce_round s links (length r.clauses) 0 (record r { changed = false }) in
      let kept =
        reduce_round-IsImplied (length r.clauses) 0 (record r { changed = false })
          (omega (arith, h.size)) (unflagged r h) in
      elim (Bool-cases next.changed) [
        | inl again ↦ reduce_loop-IsImplied fuel next r' kept (rw (again, reduce_loop) at e)
        | inr over ↦
            let same : next ≡ r' = done_eq (rw (over, reduce_loop) at e) in rw (← same) kept
      ]
