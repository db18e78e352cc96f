-- ===== src/Solver/Rounds.antt =====
-- The loops over the clauses of a flipped literal keep the running counts, flags and sums.
use latin_squares_diploma_it.Prelude.{
  ℕ, suc, ◌-◌, ◌<◌, ◌≡◌, ap, ◌∙◌, arith, Bool, true, List, ◌==◌, length-set, get_or, set,
  Bool-cases, inl, inr,
}
use latin_squares_diploma_it.Utils.Word.{u32_mod, add32, sub32}
use latin_squares_diploma_it.Cnf.Clause.{Clause, propagate_sat}
use latin_squares_diploma_it.Solver.State.{Solver, clause_at}
use latin_squares_diploma_it.Solver.Apply.{Tally, sub_clause, add_clause}
use latin_squares_diploma_it.Solver.Steps.{
  update, flag_of, IsShaped, flags_now, IsRunning, literals-set, propagate_sat-literals,
}
use latin_squares_diploma_it.Solver.Toggles.{
  sum_off, sum_on, count_off, count_on, flag-update, toggled_flag-update, toggled_others,
  counts-update,
}

module _ (s : Solver) (watched : ℕ → Bool) (shaped : IsShaped s watched) where
  abbrev new_clauses : Tally → ℕ → List Clause
  new_clauses t k = set t.clauses k (propagate_sat (clause_at t.clauses k) s.propagated).0

  new_literals :
      (t : Tally) (k : ℕ)
      → ((c : ℕ) → (clause_at t.clauses c).literals ≡ (clause_at s.clauses c).literals)
      → (c : ℕ) → (clause_at (new_clauses t k) c).literals ≡ (clause_at s.clauses c).literals
  new_literals t k h c =
      literals-set t.clauses k c _ (propagate_sat-literals (clause_at t.clauses k) s.propagated)
      ∙ h c

  -- One literal of the clause `k` has become false.
  pub sub_clause-IsRunning :
      (r : ℕ → ℕ) (t : Tally) (k : ℕ)
      → watched k ≡ true
      → 0 < r k
      → IsRunning s watched r t
      → IsRunning s watched (update r k (r k - 1)) (sub_clause s k t)
  unfolding sub_clause
  sub_clause-IsRunning r t k w pos h =
      let delta = sub32 (get_or t.deltas k 0) 1 in
      let n : add32 (get_or s.clauses_count_satisfied k 0) delta ≡ r k - 1 =
        omega (arith, h.counts k w) in
      elim (Bool-cases (add32 (get_or s.clauses_count_satisfied k 0) delta == 0)) [
        | inl cross ↦
            let one : r k ≡ 1 = ground (arith, n) in
            let flag : get_or (flags_now s t) k 2 ≡ 1 = h.flags k w ∙ ap flag_of one in
            rw (cross, sub_clause)
              (record {
                size = length-set t.deltas k delta ∙ h.size;
                clauses = length-set t.clauses k _ ∙ h.clauses;
                literals = new_literals t k h.literals;
                counts = counts-update s watched shaped t k w r delta (r k - 1) h.size n h.counts;
                flags =
                    toggled_flag-update s watched shaped t k w r (r k - 1) (rw (flag, one)) h.flags;
                others = toggled_others s watched shaped t k w h.others;
                sum = sum_off s watched shaped t k w flag h.sum;
                count = count_off s watched shaped t k w flag h.count;
              })
        | inr stay ↦
            let more : 1 < r k = ground (arith, n) in
            let same : flag_of (r k - 1) ≡ flag_of (r k) = ground arith in
            rw (stay, sub_clause)
              (record {
                size = length-set t.deltas k delta ∙ h.size;
                clauses = length-set t.clauses k _ ∙ h.clauses;
                literals = new_literals t k h.literals;
                counts = counts-update s watched shaped t k w r delta (r k - 1) h.size n h.counts;
                flags = flag-update s watched shaped t k w r (r k - 1) same h.flags;
                others = h.others;
                sum = h.sum;
                count = h.count;
              })
      ]

  -- One literal of the clause `k` has become true.
  pub add_clause-IsRunning :
      (r : ℕ → ℕ) (t : Tally) (k : ℕ)
      → watched k ≡ true
      → suc (r k) < u32_mod
      → IsRunning s watched r t
      → IsRunning s watched (update r k (suc (r k))) (add_clause s k t)
  unfolding add_clause
  add_clause-IsRunning r t k w bound h =
      let delta = add32 (get_or t.deltas k 0) 1 in
      let n : add32 (get_or s.clauses_count_satisfied k 0) delta ≡ suc (r k) =
        omega (arith, h.counts k w) in
      elim (Bool-cases (add32 (get_or s.clauses_count_satisfied k 0) delta == 1)) [
        | inl cross ↦
            let none_true : r k ≡ 0 = ground (arith, n) in
            let flag : get_or (flags_now s t) k 2 ≡ 0 = h.flags k w ∙ ap flag_of none_true in
            rw (cross, add_clause)
              (record {
                size = length-set t.deltas k delta ∙ h.size;
                clauses = length-set t.clauses k _ ∙ h.clauses;
                literals = new_literals t k h.literals;
                counts = counts-update s watched shaped t k w r delta (suc (r k)) h.size n h.counts;
                flags =
                    toggled_flag-update s watched shaped t k w r (suc (r k)) (rw (flag, none_true))
                      h.flags;
                others = toggled_others s watched shaped t k w h.others;
                sum = sum_on s watched shaped t k w flag h.sum;
                count = count_on s watched shaped t k w flag h.count;
              })
        | inr stay ↦
            let more : 0 < r k = ground (arith, n) in
            let same : flag_of (suc (r k)) ≡ flag_of (r k) = ground arith in
            rw (stay, add_clause)
              (record {
                size = length-set t.deltas k delta ∙ h.size;
                clauses = length-set t.clauses k _ ∙ h.clauses;
                literals = new_literals t k h.literals;
                counts = counts-update s watched shaped t k w r delta (suc (r k)) h.size n h.counts;
                flags = flag-update s watched shaped t k w r (suc (r k)) same h.flags;
                others = h.others;
                sum = h.sum;
                count = h.count;
              })
      ]
