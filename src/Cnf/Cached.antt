-- ===== src/Cnf/Cached.antt =====
-- The stored evaluation of a clause: `propagateSat` fills one flag for each literal, and
-- `propagate(flipped)` answers from these flags what `propagate(units, flipped)` computes.
use native.Mathlib.Nat.{add-zero, zero-add}
use mathlib.Core.List.{append_assoc}
use latin_squares_diploma_it.Prelude.{
  ℕ, zero, suc, ◌+◌, ◌<◌, ◌≡◌, refl, ap, ◌∙◌, sym, arith, Bool, false, not, List, [], ◌∷◌, ◌++◌,
  map, ◌==◌, if◌then◌else◌, length, length-append, count, set, get_or, All, skip, is_at,
}
use latin_squares_diploma_it.Cnf.Literal.{Literal, bit, xor_flag, unit_of, holds}
use latin_squares_diploma_it.Cnf.Clause.{
  Clause, propagate, resize, propagate_sat_loop, propagate_sat, propagate_flipped, propagate_stored,
}
use latin_squares_diploma_it.Cnf.Propagation.{propagate_loop-count}

length-resize : (n : ℕ) (flags : List Bool) → length (resize n flags) ≡ n
unfolding resize
length-resize zero flags = refl
length-resize (suc n) [] = ap suc (length-resize n [])
length-resize (suc n) (flag ∷ flags) = ap suc (length-resize n flags)

set-append :
    (pre rest : List Bool) (r v : Bool) → set (pre ++ r ∷ rest) (length pre) v ≡ pre ++ v ∷ rest
set-append [] rest r v = refl
set-append (p ∷ pre) rest r v = ap (◌∷◌ p) (set-append pre rest r v)

module _ (units : List ℕ) where
  propagate_sat_loop_lem :
      (ls : List Literal) (pre rest : List Bool) (n i : ℕ)
      → i ≡ length pre
      → length rest ≡ length ls
      → propagate_sat_loop units ls i n (pre ++ rest)
        ≡ (pre ++ map (holds units) ls, n + count (holds units) ls)
  unfolding propagate_sat_loop
  propagate_sat_loop_lem [] pre [] n i e h = ap (λ (t : ℕ). (pre ++ [], t)) (sym (add-zero n))
  propagate_sat_loop_lem [] pre (r ∷ rest) n i e h = absurd (omega arith)
  propagate_sat_loop_lem (l ∷ ls) pre [] n i e h = absurd (omega arith)
  propagate_sat_loop_lem (l ∷ ls) pre (r ∷ rest) n i e h =
      let v = holds units l in
      let n' = if holds units l then n + 1 else n in
      let shape : (zs : List Bool) → (pre ++ v ∷ []) ++ zs ≡ pre ++ v ∷ zs =
        λ zs. append_assoc pre (v ∷ []) zs in
      let total : n' + count (holds units) ls ≡ n + count (holds units) (l ∷ ls) = ground arith in
      let ih =
        propagate_sat_loop_lem ls (pre ++ v ∷ []) rest n' (suc (length pre))
          (omega (arith, length-append pre (v ∷ []))) (omega arith) in
      rw (e, set-append pre rest r (holds units l))
        (ap (propagate_sat_loop units ls (suc (length pre)) n') (sym (shape rest))
          ∙ ih
          ∙ ap (λ (t : List Bool). (t, n' + count (holds units) ls)) (shape (map (holds units) ls))
          ∙ ap (λ (t : ℕ). (pre ++ v ∷ map (holds units) ls, t)) total)

  -- `propagateSat` returns the number of true literals, as `propagate` does, and stores for each
  -- literal whether it is true.
  pub propagate_sat_lem :
      (clause : Clause)
      → propagate_sat clause units
        ≡ (record clause { satisfied = map (holds units) clause.literals }, propagate clause units)
  unfolding propagate_sat propagate
  propagate_sat_lem clause =
      let ls = clause.literals in
      rw (
        propagate_sat_loop_lem ls [] (resize (length ls) clause.satisfied) 0 0 refl
            (length-resize (length ls) clause.satisfied),
        propagate_loop-count units ls 0,
      )

  stored_step :
      (l : Literal) (flip : Bool)
      → unit_of units l < 2
      → (bit (not flip) == bit (holds units l)) ≡ (xor_flag (unit_of units l) flip == bit l.value)
  stored_step l flip h = ground arith

  stored_from :
      (ls : List Literal) (index : ℕ) (satisfied : List Bool) (flipped : List ℕ)
      → All (λ l. unit_of units l < 2) ls
      → ((j : ℕ) → get_or satisfied (index + j) false ≡ get_or (map (holds units) ls) j false)
      → propagate_stored ls index satisfied flipped ≡ propagate_flipped ls units flipped
  unfolding propagate_stored propagate_flipped
  stored_from [] index satisfied flipped h s = refl
  stored_from (l ∷ ls) index satisfied flipped h s =
      let first : get_or satisfied index false ≡ holds units l =
        ap (λ (t : ℕ). get_or satisfied t false) (sym (add-zero index)) ∙ s 0 in
      rw (
        first,
        stored_step l (is_at l.number (skip l.number flipped)) h.0,
        stored_from ls (suc index) satisfied (skip l.number flipped) h.1
            (λ j. ap (λ (t : ℕ). get_or satisfied t false) (omega arith) ∙ s (suc j)),
      )

  -- After `propagateSat` under an assignment that gives every variable of the clause the value 0 or
  -- 1, `propagate(flipped)` is `propagate(units, flipped)`.
  pub propagate_stored-propagate_flipped :
      (clause : Clause) (flipped : List ℕ)
      → All (λ l. unit_of units l < 2) clause.literals
      → propagate_stored clause.literals 0 (propagate_sat clause units).0.satisfied flipped
        ≡ propagate_flipped clause.literals units flipped
  propagate_stored-propagate_flipped clause flipped h = rw (propagate_sat_lem clause) (
      stored_from clause.literals 0 (map (holds units) clause.literals) flipped h
        (λ j. rw (zero-add j)))
