-- ===== src/Solver/Steps.antt =====
-- One step of the loops over the clauses of a flipped literal: the running counts, flags and sums
-- stay in step with the number of true literals of each clause.
use latin_squares_diploma_it.Prelude.{
  ℕ, zero, suc, ◌+◌, ◌*◌, ◌%◌, ◌<◌, ◌≡◌, refl, sym, ap, ◌∙◌, arith, Bool, true, false, List, [],
  ◌∷◌, ◌==◌, ==_iff, if◌then◌else◌, length, get_or, set, get_or-set_self, get_or-set_ne, Bool-cases,
  inl, inr,
}
use latin_squares_diploma_it.Utils.Word.{u32_mod, add32, sub32}
use latin_squares_diploma_it.Cnf.Clause.{Clause, propagate_sat}
use latin_squares_diploma_it.Cnf.Cached.{propagate_sat_lem}
use latin_squares_diploma_it.Solver.State.{Solver, clause_at}
use latin_squares_diploma_it.Solver.Apply.{toggle_all, Tally}
use latin_squares_diploma_it.Solver.Tally.{weigh, total}

-- A function with one value replaced.
abbrev pub update : (ℕ → ℕ) → ℕ → ℕ → ℕ → ℕ
update r k v c = if k == c then v else r c

-- The flag of a clause with so many true literals.
abbrev pub flag_of : ℕ → ℕ
flag_of n = if n == 0 then 0 else 1

-- The vectors over the clauses have one size, which bounds the watched clauses, and a weight is a
-- 32-bit word.
pub record IsShaped (s : Solver) (watched : ℕ → Bool) : Type 0 where
  pub flags : length s.satisfied ≡ length s.clauses_count_satisfied
  pub within : (c : ℕ) → watched c ≡ true → c < length s.clauses_count_satisfied
  pub clauses : length s.clauses ≡ length s.clauses_count_satisfied
  pub weights : (c : ℕ) → get_or s.weights c 0 < u32_mod

-- The flags as the changes so far leave them.
abbrev pub flags_now : Solver → Tally → List ℕ
flags_now s t = toggle_all s.satisfied t.changed

-- `r` is the number of true literals of each watched clause, as far as the loops have come.
pub record IsRunning (s : Solver) (watched : ℕ → Bool) (r : ℕ → ℕ) (t : Tally) : Type 0 where
  pub size : length t.deltas ≡ length s.clauses_count_satisfied
  pub clauses : length t.clauses ≡ length s.clauses
  pub literals : (c : ℕ) → (clause_at t.clauses c).literals ≡ (clause_at s.clauses c).literals
  pub counts :
      (c : ℕ)
      → watched c ≡ true
      → add32 (get_or s.clauses_count_satisfied c 0) (get_or t.deltas c 0) ≡ r c
  pub flags : (c : ℕ) → watched c ≡ true → get_or (flags_now s t) c 2 ≡ flag_of (r c)
  pub others : (c : ℕ) → watched c ≡ false → get_or (flags_now s t) c 2 ≡ get_or s.satisfied c 2
  pub sum : t.sum ≡ weigh s.weights (flags_now s t) % u32_mod
  pub count : t.count ≡ total (flags_now s t) % u32_mod

pub set-update :
    (xs : List ℕ) (k v c d : ℕ)
    → k < length xs
    → get_or (set xs k v) c d ≡ (if k == c then v else get_or xs c d)
set-update xs k v c d h = elim (Bool-cases (k == c)) [
  | inl e ↦
      let same : k ≡ c = (==_iff k c).0 e in
      rw e (ap (λ (n : ℕ). get_or (set xs k v) n d) (sym same) ∙ get_or-set_self xs k v d h)
  | inr e ↦ rw e (get_or-set_ne xs k c v d (λ p. ground arith))
]

pub literals-set :
    (clauses : List Clause) (k c : ℕ) (clause : Clause)
    → clause.literals ≡ (clause_at clauses k).literals
    → (clause_at (set clauses k clause) c).literals ≡ (clause_at clauses c).literals
literals-set [] k c clause e = refl
literals-set (x ∷ clauses) zero zero clause e = e
literals-set (x ∷ clauses) zero (suc c) clause e = refl
literals-set (x ∷ clauses) (suc k) zero clause e = refl
literals-set (x ∷ clauses) (suc k) (suc c) clause e = literals-set clauses k c clause e

pub propagate_sat-literals :
    (clause : Clause) (units : List ℕ) → (propagate_sat clause units).0.literals ≡ clause.literals
propagate_sat-literals clause units = rw (propagate_sat_lem units clause)

pub mod_off :
    (a b w : ℕ) → b + w * 1 ≡ a + w * 0 → w < u32_mod → sub32 (a % u32_mod) w ≡ b % u32_mod
mod_off a b w e h = omega arith

pub mod_on : (a b w : ℕ) → b + w * 0 ≡ a + w * 1 → add32 (a % u32_mod) w ≡ b % u32_mod
mod_on a b w e = omega arith
