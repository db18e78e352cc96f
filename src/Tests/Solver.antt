-- ===== src/Tests/Solver.antt =====
-- The solver with one watched clause, 2 ∨ 3, over the net 4 = 1 ∧ 2 and 3 = ¬1 ∨ 4; and a second
-- clause, ¬2, that is not watched.
use mathlib.Core.Option
use latin_squares_diploma_it.Prelude.{
  ℕ, zero, suc, ◌<◌, ◌≡◌, refl, arith, Bool, true, false, List, [], ◌∷◌, some, ltb, ltb→lt, All,
  length, count, Ascending, get_or,
}
use latin_squares_diploma_it.Utils.Word.{u32_mod}
use latin_squares_diploma_it.Cnf.Clause.{Clause, propagate_flipped, propagate_sat}
use latin_squares_diploma_it.Cnf.Propagation.{numbers}
use latin_squares_diploma_it.Net.Node.{propagate}
use latin_squares_diploma_it.Net.Flips.{left_first, compute_flipped}
use latin_squares_diploma_it.Solver.State.{Solver, clause_at}
use latin_squares_diploma_it.Solver.Apply.{clauses_with, apply_computed, apply_flipped}
use latin_squares_diploma_it.Solver.Check.{would_hold, check_flipped}
use latin_squares_diploma_it.Solver.Foretold.{check_flipped-apply_flipped}
use latin_squares_diploma_it.Solver.Tally.{weigh, total}
use latin_squares_diploma_it.Solver.Literals.{is_literal}
use latin_squares_diploma_it.Solver.Steps.{IsShaped, flag_of}
use latin_squares_diploma_it.Solver.Loops.{occurrences, true_literals}
use latin_squares_diploma_it.Solver.Tracks.{IsTracked, Applied, apply_computed-Applied}
use latin_squares_diploma_it.Solver.Whole.{IsSound, AppliedWhole, apply_flipped-IsSound}
use latin_squares_diploma_it.Tests.Net.{
  lit, net, known, net-IsOrdered, net-IsIndexWithin, net-IsReady,
}

abbrev pub first : Clause
first = record { literals = lit 2 true ∷ lit 3 true ∷ []; satisfied = false ∷ false ∷ [] }

abbrev pub second : Clause
second = record { literals = lit 2 false ∷ []; satisfied = true ∷ [] }

abbrev pub solver : Solver
solver = record {
  clauses = first ∷ second ∷ [];
  propagated = known;
  satisfied = 0 ∷ 1 ∷ [];
  literal_to_unsat = 0 ∷ 0 ∷ 1 ∷ 1 ∷ 0 ∷ [];
  weights = 3 ∷ 5 ∷ [];
  net = net;
  clauses_count_satisfied = 0 ∷ 1 ∷ [];
  literal_to_clause_with_positive_value = [] ∷ [] ∷ (0 ∷ []) ∷ (0 ∷ []) ∷ [] ∷ [];
  literal_to_clause_with_negative_value = [] ∷ [] ∷ [] ∷ [] ∷ [] ∷ [];
  satisfied_sum = 5;
  satisfied_count = 1;
}

abbrev after : Solver
after = record solver {
  clauses = record first { satisfied = true ∷ true ∷ [] } ∷ second ∷ [];
  propagated = 2 ∷ 1 ∷ 1 ∷ 1 ∷ 1 ∷ [];
  satisfied = 1 ∷ 1 ∷ [];
  literal_to_unsat = 0 ∷ 0 ∷ 0 ∷ 0 ∷ 0 ∷ [];
  clauses_count_satisfied = 2 ∷ 1 ∷ [];
  satisfied_sum = 8;
  satisfied_count = 2;
}

apply_runs : apply_flipped left_first solver (2 ∷ []) ≡ some (after, 2 ∷ 3 ∷ 4 ∷ [])
unfolding apply_flipped compute_flipped propagate propagate_sat
apply_runs = refl

check_runs : check_flipped left_first solver (2 ∷ []) ≡ some (true, 2 ∷ 3 ∷ 4 ∷ [])
unfolding check_flipped would_hold propagate_flipped compute_flipped propagate
check_runs = refl

abbrev outcome : Solver × List ℕ → List ℕ × ℕ
outcome p = (p.0.propagated, p.0.satisfied_sum)

abbrev outcome_again : List ℕ × ℕ
outcome_again = (2 ∷ 1 ∷ 1 ∷ 0 ∷ 0 ∷ [], 5)

-- `solve` applies the flips that the check returned. The variables of the net are inverted twice and
-- keep the values that they had, and the clause, which is true after the flip of 2, counts as false.
applied_again :
    Option.map outcome (apply_flipped left_first solver (2 ∷ 3 ∷ 4 ∷ [])) ≡ some outcome_again
unfolding apply_flipped compute_flipped propagate propagate_sat
applied_again = refl

abbrev pub watched : ℕ → Bool
watched c = ltb c 1

pub solver-IsShaped : IsShaped solver watched
solver-IsShaped = record {
  flags = refl;
  within = λ c w. omega (arith, ltb→lt c 1 w);
  clauses = refl;
  weights = small;
}
  where
    small : (c : ℕ) → get_or (3 ∷ 5 ∷ []) c 0 < u32_mod
    small zero = omega arith
    small (suc zero) = omega arith
    small (suc (suc c)) = omega arith

pub solver-listed : (i : ℕ) (b : Bool) → All (λ c. watched c ≡ true) (clauses_with solver b i)
solver-listed zero true = tt
solver-listed (suc zero) true = tt
solver-listed (suc (suc zero)) true = (refl, tt)
solver-listed (suc (suc (suc zero))) true = (refl, tt)
solver-listed (suc (suc (suc (suc zero)))) true = tt
solver-listed (suc (suc (suc (suc (suc i))))) true = tt
solver-listed zero false = tt
solver-listed (suc zero) false = tt
solver-listed (suc (suc zero)) false = tt
solver-listed (suc (suc (suc zero))) false = tt
solver-listed (suc (suc (suc (suc zero)))) false = tt
solver-listed (suc (suc (suc (suc (suc i))))) false = tt

first-often :
    (i : ℕ) (b : Bool)
    → occurrences 0 (clauses_with solver b i) ≡ count (is_literal i b) first.literals
first-often zero true = refl
first-often (suc zero) true = refl
first-often (suc (suc zero)) true = refl
first-often (suc (suc (suc zero))) true = refl
first-often (suc (suc (suc (suc zero)))) true = refl
first-often (suc (suc (suc (suc (suc i))))) true = ground arith
first-often zero false = refl
first-often (suc zero) false = refl
first-often (suc (suc zero)) false = refl
first-often (suc (suc (suc zero))) false = refl
first-often (suc (suc (suc (suc zero)))) false = refl
first-often (suc (suc (suc (suc (suc i))))) false = ground arith

pub solver-often :
    (i : ℕ) (b : Bool) (c : ℕ)
    → watched c ≡ true
    → occurrences c (clauses_with solver b i)
      ≡ count (is_literal i b) (clause_at solver.clauses c).literals
solver-often i b zero w = first-often i b
solver-often i b (suc c) w = absurd (omega (arith, ltb→lt (suc c) 1 w))

pub solver-short : (c : ℕ) → length (clause_at solver.clauses c).literals < u32_mod
solver-short zero = omega arith
solver-short (suc zero) = omega arith
solver-short (suc (suc c)) = omega arith

pub solver-counts :
    (c : ℕ)
    → watched c ≡ true
    → get_or solver.clauses_count_satisfied c 0 ≡ true_literals solver known c
solver-counts zero w = refl
solver-counts (suc c) w = absurd (omega (arith, ltb→lt (suc c) 1 w))

pub solver-flags :
    (c : ℕ)
    → watched c ≡ true
    → get_or solver.satisfied c 2 ≡ flag_of (true_literals solver known c)
solver-flags zero w = refl
solver-flags (suc c) w = absurd (omega (arith, ltb→lt (suc c) 1 w))

solver-IsTracked : IsTracked solver watched
unfolding weigh total
solver-IsTracked = record {
  shaped = solver-IsShaped;
  indexed = record { listed = solver-listed; often = solver-often; short = solver-short };
  counts = solver-counts;
  flags = solver-flags;
  sum = refl;
  count = refl;
}

solver-IsSound : IsSound solver watched
solver-IsSound = record {
  tracked = solver-IsTracked;
  ordered = net-IsOrdered;
  index = net-IsIndexWithin;
  ready = net-IsReady;
}

apply_computed-Applied_example :
    Applied solver watched solver-IsTracked
      (1 ∷ 3 ∷ [])
      (omega arith)
      (omega arith)
      (apply_computed solver (1 ∷ 3 ∷ []))
apply_computed-Applied_example =
    apply_computed-Applied solver watched solver-IsTracked (1 ∷ 3 ∷ []) (omega arith) (omega arith)

apply_flipped-IsSound_example :
    (s' : Solver) × (out : List ℕ) × AppliedWhole solver watched solver-IsSound
      (2 ∷ [])
      (omega arith)
      (omega arith)
      (refl, (refl, tt))
      s'
      out
apply_flipped-IsSound_example =
    apply_flipped-IsSound solver watched solver-IsSound (2 ∷ []) (omega arith) (omega arith)
      (refl, (refl, tt))

pub sorted_first :
    (c : ℕ) → watched c ≡ true → Ascending (numbers (clause_at solver.clauses c).literals)
sorted_first zero w = ((omega arith, tt), (tt, tt))
sorted_first (suc c) w = absurd (omega (arith, ltb→lt (suc c) 1 w))

check_flipped-apply_flipped_example :
    (s' : Solver) × (out : List ℕ) × (apply_flipped left_first solver (2 ∷ []) ≡ some (s', out))
    × (check_flipped left_first solver (2 ∷ [])
        ≡ some (ltb solver.satisfied_sum s'.satisfied_sum, out))
check_flipped-apply_flipped_example =
    check_flipped-apply_flipped solver watched solver-IsSound sorted_first (2 ∷ []) (omega arith)
      (omega arith) (refl, (refl, tt))
