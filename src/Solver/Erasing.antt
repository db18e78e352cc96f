-- ===== src/Solver/Erasing.antt =====
-- What leaving literals out of clauses keeps: properties of all literals, and the assignments under
-- which a clause is true, where the literals are false.
use latin_squares_diploma_it.Prelude.{
  ℕ, zero, suc, ◌≡◌, refl, sym, ap, subst, ◌∙◌, arith, Bool, true, false, List, [], ◌∷◌, ◌==◌,
  ==_iff, length, length-set, set, any, All, All-map, Bool-cases, inl, inr,
}
use latin_squares_diploma_it.Cnf.Literal.{Literal, bit}
use latin_squares_diploma_it.Cnf.Clause.{Clause}
use latin_squares_diploma_it.Solver.State.{clause_at}
use latin_squares_diploma_it.Solver.Reduce.{erase_number, erase_in}

-- Whether the literal, or some literal of the clause, is true when the variables have these values.
abbrev pub is_true : (ℕ → Bool) → Literal → Bool
is_true α l = bit l.value == bit (α l.number)

abbrev pub models : (ℕ → Bool) → List Literal → Bool
models α ls = any (is_true α) ls

-- The variable stands in the clause with this value alone.
abbrev pub IsSigned : ℕ → Bool → List Literal → Type 0
IsSigned n b ls = All (λ l. l.number ≡ n → l.value ≡ b) ls

pub erase_number-All {κ} :
    (P : Literal → Type κ) (n : ℕ) (ls : List Literal) → All P ls → All P (erase_number n ls)
unfolding erase_number
erase_number-All P n [] h = tt
erase_number-All P n (l ∷ ls) h = elim (Bool-cases (l.number == n)) [
  | inl here ↦ rw here h.1
  | inr there ↦ rw there (h.0, erase_number-All P n ls h.1)
]

models-erase_number :
    (α : ℕ → Bool) (n : ℕ) (ls : List Literal)
    → All (λ l. l.number ≡ n → is_true α l ≡ false) ls
    → models α (erase_number n ls) ≡ models α ls
unfolding erase_number
models-erase_number α n [] h = refl
models-erase_number α n (l ∷ ls) h = elim (Bool-cases (l.number == n)) [
  | inl here ↦ rw (here, h.0 ((==_iff l.number n).0 here)) refl
  | inr there ↦ rw (there, models-erase_number α n ls h.1) refl
]

pub models-erase_number-le :
    (α : ℕ → Bool) (n : ℕ) (ls : List Literal)
    → models α (erase_number n ls) ≡ true
    → models α ls ≡ true
unfolding erase_number
models-erase_number-le α n [] h = h
models-erase_number-le α n (l ∷ ls) h = ground (arith, models-erase_number-le α n ls)

-- A property of the literals of a clause, after one clause has been replaced.
pub clause_at-set {κ} :
    (P : List Literal → Type κ) (clauses : List Clause) (k c : ℕ) (clause : Clause)
    → P (clause_at clauses c).literals
    → (k ≡ c → P clause.literals)
    → P (clause_at (set clauses k clause) c).literals
clause_at-set P [] k c clause h e = h
clause_at-set P (x ∷ clauses) zero zero clause h e = e refl
clause_at-set P (x ∷ clauses) zero (suc c) clause h e = h
clause_at-set P (x ∷ clauses) (suc k) zero clause h e = h
clause_at-set P (x ∷ clauses) (suc k) (suc c) clause h e =
    clause_at-set P clauses k c clause h (λ p. e (ap suc p))

pub length-erase_in :
    (n : ℕ) (indices : List ℕ) (clauses : List Clause)
    → length (erase_in n indices clauses) ≡ length clauses
unfolding erase_in
length-erase_in n [] clauses = refl
length-erase_in n (i ∷ indices) clauses =
    length-erase_in n indices (set clauses i _) ∙ length-set clauses i _

-- A property that outlasts the loss of literals.
pub erase_in_keeps {κ} :
    (P : List Literal → Type κ) (n : ℕ)
    → ((ls : List Literal) → P ls → P (erase_number n ls))
    → (indices : List ℕ) (clauses : List Clause) (c : ℕ) → P (clause_at clauses c).literals
    → P (clause_at (erase_in n indices clauses) c).literals
unfolding erase_in
erase_in_keeps P n keep [] clauses c h = h
erase_in_keeps P n keep (i ∷ indices) clauses c h = erase_in_keeps P n keep indices _ c (
    clause_at-set P clauses i c _ h (λ e.
      keep (clause_at clauses i).literals
        (subst (λ (j : ℕ). P (clause_at clauses j).literals) (sym e) h)))

false_literals :
    (α : ℕ → Bool) (n : ℕ) (b : Bool) (ls : List Literal)
    → (bit b == bit (α n)) ≡ false
    → IsSigned n b ls
    → All (λ l. l.number ≡ n → is_true α l ≡ false) ls
false_literals α n b ls e h = All-map ls (λ l s p. rw (s p, p) e) h

-- Where the listed clauses have the variable with the false value alone, the same assignments make
-- each clause true.
pub models-erase_in :
    (α : ℕ → Bool) (n : ℕ) (b : Bool)
    → (bit b == bit (α n)) ≡ false
    → (indices : List ℕ) (clauses : List Clause)
    → All (λ c. IsSigned n b (clause_at clauses c).literals) indices
    → (c : ℕ)
    → models α (clause_at (erase_in n indices clauses) c).literals
      ≡ models α (clause_at clauses c).literals
unfolding erase_in
models-erase_in α n b e [] clauses h c = refl
models-erase_in α n b e (i ∷ indices) clauses h c =
    let clause = clause_at clauses i in
    let erased = record clause { literals = erase_number n clause.literals } in
    models-erase_in α n b e indices (set clauses i erased)
      (All-map indices
        (λ j s.
          clause_at-set (IsSigned n b) clauses i j erased s
            (λ p. erase_number-All _ n clause.literals h.0))
        h.1)
      c
    ∙ clause_at-set (λ ls. models α ls ≡ models α (clause_at clauses c).literals) clauses i c erased
        refl
        (λ p.
          models-erase_number α n clause.literals (false_literals α n b clause.literals e h.0)
          ∙ ap (λ (j : ℕ). models α (clause_at clauses j).literals) p)
