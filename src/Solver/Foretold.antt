-- ===== src/Solver/Foretold.antt =====
-- `check_flipped` foretells `apply_flipped`: the trial sum is the sum that the flips lead to.
use mathlib.Core.Bool.{false≢true}
use latin_squares_diploma_it.Prelude.{
  ℕ, suc, ◌%◌, ◌<◌, ◌≡◌, refl, sym, ap, ◌∙◌, arith, Bool, true, false, List, [], ◌∷◌, some, ltb,
  ◌==◌, ==_iff, length, get_or, get_or-replicate, length-replicate, set, length-set, get_or-set_ne,
  All, All-map, All-map₂, any, count, Ascending, Increasing, Increasing-Ascending, Bool-cases, inl,
  inr, has,
}
use latin_squares_diploma_it.Utils.Word.{u32_mod}
use latin_squares_diploma_it.Cnf.Literal.{Literal, bit, holds, toggle}
use latin_squares_diploma_it.Cnf.Propagation.{holds_flipped, numbers, propagate_flipped-any}
use latin_squares_diploma_it.Net.Flips.{left_first}
use latin_squares_diploma_it.Net.Incremental.{Recomputed, compute_flipped-Recomputed}
use latin_squares_diploma_it.Solver.State.{Solver, clause_at}
use latin_squares_diploma_it.Solver.Apply.{
  clauses_with, opposite, toggle_all, apply_computed, apply_flipped,
}
use latin_squares_diploma_it.Solver.Check.{
  would_hold, start_trial, try_all, check_computed, check_flipped,
}
use latin_squares_diploma_it.Solver.Tally.{weigh}
use latin_squares_diploma_it.Solver.Literals.{is_literal, count-set}
use latin_squares_diploma_it.Solver.Steps.{flag_of}
use latin_squares_diploma_it.Solver.Loops.{true_literals, occurrences}
use latin_squares_diploma_it.Solver.Trials.{IsTried}
use latin_squares_diploma_it.Solver.Looks.{LookedAll, try_all-Looked}
use latin_squares_diploma_it.Solver.Tracks.{IsTracked, AreKnown, Applied, apply_computed-Applied}
use latin_squares_diploma_it.Solver.Whole.{IsSound, known-out, toggle_all-xor_flag}

any-flag {ℓ} :
    {A : Type ℓ} (p q : A → Bool) (xs : List A)
    → ((x : A) → p x ≡ q x)
    → bit (any p xs) ≡ flag_of (count q xs)
any-flag p q [] e = refl
any-flag p q (x ∷ xs) e = ground (arith, e x, any-flag p q xs e)

weigh_congr :
    (ws fs gs : List ℕ)
    → length fs ≡ length gs
    → ((c : ℕ) → c < length fs → get_or fs c 2 ≡ get_or gs c 2)
    → weigh ws fs ≡ weigh ws gs
unfolding weigh
weigh_congr [] fs gs e h = refl
weigh_congr (w ∷ ws) [] [] e h = refl
weigh_congr (w ∷ ws) [] (g ∷ gs) e h = absurd (omega arith)
weigh_congr (w ∷ ws) (f ∷ fs) [] e h = absurd (omega arith)
weigh_congr (w ∷ ws) (f ∷ fs) (g ∷ gs) e h =
    let same : f ≡ g = h 0 (omega arith) in
    rw (same, weigh_congr ws fs gs (omega arith) (λ c p. h (suc c) (omega arith))) refl

-- What a clause would be is the flag of its true literals under the flipped assignment.
would_hold-flag :
    (s : Solver) (flipped : List ℕ) (c : ℕ)
    → Ascending (numbers (clause_at s.clauses c).literals)
    → Increasing flipped
    → All (λ i. i < length s.propagated) flipped
    → bit (would_hold s flipped c) ≡ flag_of (true_literals s (toggle_all s.propagated flipped) c)
unfolding would_hold holds_flipped
would_hold-flag s flipped c sorted o h =
    rw
      (propagate_flipped-any (clause_at s.clauses c).literals s.propagated flipped sorted
        (Increasing-Ascending flipped o))
      (any-flag (holds_flipped s.propagated flipped) (holds (toggle_all s.propagated flipped))
        (clause_at s.clauses c).literals
        (λ l. rw (toggle_all-xor_flag flipped s.propagated l.number o h) refl))

toggle_of_known : (u : ℕ) → u < 2 → toggle u ≡ bit (u == 0)
toggle_of_known u h = ground arith

bit_of_known : (u : ℕ) → u < 2 → u ≡ bit (opposite (u == 0))
bit_of_known u h = ground arith

-- A clause without a literal of a flipped variable keeps its number of true literals.
untouched :
    (flipped units : List ℕ) (ls : List Literal)
    → Increasing flipped
    → AreKnown units flipped
    → All (λ i. (b : Bool) → count (is_literal i b) ls ≡ 0) flipped
    → count (holds (toggle_all units flipped)) ls ≡ count (holds units) ls
unfolding toggle_all
untouched [] units ls o k n = refl
untouched (i ∷ flipped) units ls o k n =
    let new : Bool = get_or units i 2 == 0 in
    rw (toggle_of_known (get_or units i 2) k.0.1) (
      untouched flipped (set units i (bit new)) ls o.1
        (All-map₂ flipped
          (λ j p q. (
            rw (length-set units i (bit new)) p.0,
            rw (get_or-set_ne units i j (bit new) 2 (λ e. absurd (omega arith))) p.1,
          ))
          k.1 o.0)
        n.1
      ∙ omega (
        arith,
        count-set units i new ls k.0.0 (bit_of_known (get_or units i 2) k.0.1),
        n.0 (opposite new),
        n.0 new,
      ))

flag-small : (n : ℕ) → flag_of n < 2
flag-small n = ground arith

module _ (s : Solver) (watched : ℕ → Bool) (tracked : IsTracked s watched) (flipped : List ℕ)
    (o : Increasing flipped) (known : AreKnown s.propagated flipped)
    (sorted : (c : ℕ)
      → watched c ≡ true
      → Ascending (numbers (clause_at s.clauses c).literals)) where
  start-IsTried : IsTried s watched tracked.shaped flipped s.satisfied (start_trial s)
  start-IsTried =
      let none_seen = λ (c : ℕ). get_or-replicate {A = ℕ} (length s.clauses_count_satisfied) c 0 in
      record {
        size = refl;
        seen_size = length-replicate {A = ℕ} _ 0 ∙ sym tracked.shaped.flags;
        marked = λ c n. absurd (n (none_seen c));
        unmarked = λ c e. refl;
        sum = tracked.sum;
        count = tracked.count;
      }

  abbrev looked :
      LookedAll s watched tracked.shaped flipped
        (λ c w. rw (tracked.flags c w) (flag-small _))
        flipped
        (try_all s flipped flipped (start_trial s))
  looked =
      (try_all-Looked s watched tracked.shaped flipped
        (λ c w. rw (tracked.flags c w) (flag-small _)) tracked.indexed.listed flipped s.satisfied
        (start_trial s) start-IsTried).0

  abbrev done : Applied s watched tracked flipped o known (apply_computed s flipped)
  done = apply_computed-Applied s watched tracked flipped o known

  -- The new flag of a watched clause, by its literals.
  flag_after :
      (c : ℕ)
      → watched c ≡ true
      → get_or (apply_computed s flipped).satisfied c 2
        ≡ flag_of (true_literals s (toggle_all s.propagated flipped) c)
  flag_after c w =
      done.in_step.flags c w
      ∙ ap (λ (ls : List Literal). flag_of (count (holds (apply_computed s flipped).propagated) ls))
          (done.literals c)
      ∙ ap (λ (units : List ℕ). flag_of (true_literals s units c)) done.assigned

  unseen_flag :
      (c : ℕ)
      → All (λ i. (b : Bool) → occurrences c (clauses_with s b i) ≡ 0) flipped
      → get_or (apply_computed s flipped).satisfied c 2 ≡ get_or s.satisfied c 2
  unseen_flag c none_of = elim (Bool-cases (watched c)) [
    | inl w ↦
        flag_after c w
        ∙ ap flag_of (
            untouched flipped s.propagated (clause_at s.clauses c).literals o known
              (All-map flipped (λ i f b. sym (tracked.indexed.often i b c w) ∙ f b) none_of))
        ∙ sym (tracked.flags c w)
    | inr w ↦ done.others c w
  ]

  same_flag : (c : ℕ) → get_or looked.flags c 2 ≡ get_or (apply_computed s flipped).satisfied c 2
  same_flag c =
      elim (Bool-cases (get_or (try_all s flipped flipped (start_trial s)).seen c 0 == 0)) [
        | inl unseen ↦
            let e = (==_iff _ 0).0 unseen in
            looked.tried.unmarked c e ∙ sym (unseen_flag c (looked.missed c e))
        | inr seen ↦
            let (w, e) =
              looked.tried.marked c (λ z. absurd (false≢true (sym seen ∙ (==_iff _ 0).1 z))) in
            e
            ∙ would_hold-flag s flipped c (sorted c w) o (All-map flipped (λ i k. k.0) known)
            ∙ sym (flag_after c w)
      ]

  pub final_sum :
      (try_all s flipped flipped (start_trial s)).sum ≡ (apply_computed s flipped).satisfied_sum
  final_sum =
      looked.tried.sum
      ∙ ap (λ (n : ℕ). n % u32_mod)
          (weigh_congr s.weights looked.flags (apply_computed s flipped).satisfied
              (looked.tried.size ∙ sym done.size) (λ c p. same_flag c)
            ∙ ap (λ (ws : List ℕ). weigh ws (apply_computed s flipped).satisfied)
                (sym done.weights))
      ∙ sym done.in_step.sum

module _ (s : Solver) (watched : ℕ → Bool) (sound : IsSound s watched)
    (sorted : (c : ℕ) → watched c ≡ true → Ascending (numbers (clause_at s.clauses c).literals))
    (flipped : List ℕ) (o : Increasing flipped) (known : AreKnown s.propagated flipped)
    (absent : All (λ n. has n.variable flipped ≡ false) s.net.finalized) where
  check_out :
      (out : List ℕ)
      → Recomputed s.net s.propagated flipped out
      → check_flipped left_first s flipped
        ≡ some (ltb s.satisfied_sum (apply_computed s out).satisfied_sum, out)
  unfolding check_flipped check_computed
  check_out out r =
      rw (r.made, check_flipped)
        (ap (λ (n : ℕ). some (ltb s.satisfied_sum n, out))
          (final_sum s watched sound.tracked out (r.strict o)
            (known-out s watched sound flipped o known absent out r) sorted))

  -- On a sound solver whose watched clauses have sorted literals, for strictly sorted flips of known
  -- variables outside the net, and with the arguments of the swap evaluated from the left,
  -- `apply_flipped` and `check_flipped` return with the same flips, and the answer of `check_flipped`
  -- is whether the sum of weights after `apply_flipped` is greater than the one before.
  pub check_flipped-apply_flipped :
      (s' : Solver) × (out : List ℕ) × (apply_flipped left_first s flipped ≡ some (s', out))
      × (check_flipped left_first s flipped ≡ some (ltb s.satisfied_sum s'.satisfied_sum, out))
  unfolding apply_flipped
  check_flipped-apply_flipped =
      let (out, r) =
        compute_flipped-Recomputed s.net s.propagated flipped sound.index sound.ready sound.ordered
          (Increasing-Ascending flipped o) absent in
      (apply_computed s out, out, rw (r.made, apply_flipped) refl, check_out out r)
