-- ===== src/Solver/Scoring.antt =====
-- The last loop of the constructor of `HillClimbingSolver`, which counts the true literals of each
-- clause under the first assignment.
use native.Mathlib.Nat.{zero-add}
use latin_squares_diploma_it.Prelude.{
  ℕ, zero, suc, ◌+◌, ◌%◌, ◌≤◌, ◌<◌, ◌≡◌, refl, sym, ap, ◌∙◌, subst, arith, Bool, true, false, not,
  ◌||◌, List, [], ◌∷◌, ltb, ◌==◌, ==_iff, count, if◌then◌else◌, length, length-set, get_or, set,
  get_or-set_ne, replicate, length-replicate, has, Bool-cases, inl, inr,
}
use latin_squares_diploma_it.Utils.Word.{u32_mod, add32}
use latin_squares_diploma_it.Cnf.Literal.{Literal, holds}
use latin_squares_diploma_it.Cnf.Clause.{Clause, propagate, propagate_sat}
use latin_squares_diploma_it.Cnf.Propagation.{propagate_loop-count}
use latin_squares_diploma_it.Cnf.Cached.{propagate_sat_lem}
use latin_squares_diploma_it.Solver.State.{Solver, clause_at}
use latin_squares_diploma_it.Solver.Apply.{clauses_with}
use latin_squares_diploma_it.Solver.Tally.{weigh, total, weigh-set, total-set}
use latin_squares_diploma_it.Solver.Steps.{
  IsShaped, flag_of, set-update, literals-set, propagate_sat-literals, mod_on,
}
use latin_squares_diploma_it.Solver.Loops.{IsIndexed, true_literals}
use latin_squares_diploma_it.Solver.Tracks.{IsTracked}
use latin_squares_diploma_it.Solver.Construct.{score_clause, score_clauses}

weigh-replicate : (weights : List ℕ) (n : ℕ) → weigh weights (replicate n 0) ≡ 0
unfolding weigh
weigh-replicate [] n = refl
weigh-replicate (w ∷ weights) zero = refl
weigh-replicate (w ∷ weights) (suc n) = omega (arith, weigh-replicate weights n)

total-replicate : (n : ℕ) → total (replicate n 0) ≡ 0
unfolding total
total-replicate zero = refl
total-replicate (suc n) = omega (arith, total-replicate n)

replicate_at : (n c : ℕ) → c < n → get_or {A = ℕ} (replicate n 0) c 2 ≡ 0
replicate_at zero c h = absurd (omega arith)
replicate_at (suc n) zero h = refl
replicate_at (suc n) (suc c) h = replicate_at n c (omega arith)

-- The number that `propagateSat` returns is that of the true literals.
returned :
    (clause : Clause) (units : List ℕ)
    → (propagate_sat clause units).1 ≡ count (holds units) clause.literals
unfolding propagate
returned clause units =
    ap (λ (p : Clause × ℕ). p.1) (propagate_sat_lem units clause)
    ∙ propagate_loop-count units clause.literals 0
    ∙ zero-add (count (holds units) clause.literals)

-- A clause that is not to compute counts as true.
abbrev pub first_flag : List ℕ → ℕ → ℕ → ℕ
first_flag to_compute c n = if has c to_compute then flag_of n else 1

-- The solver `s` that the loop has made of `s₀` when it comes to the clause `i`.
record IsScored (to_compute : List ℕ) (s₀ : Solver) (i : ℕ) (s : Solver) : Type 0 where
  propagated : s.propagated ≡ s₀.propagated
  weights : s.weights ≡ s₀.weights
  positive : s.literal_to_clause_with_positive_value ≡ s₀.literal_to_clause_with_positive_value
  negative : s.literal_to_clause_with_negative_value ≡ s₀.literal_to_clause_with_negative_value
  clauses : length s.clauses ≡ length s₀.clauses
  satisfied : length s.satisfied ≡ length s₀.clauses
  numbers : length s.clauses_count_satisfied ≡ length s₀.clauses
  literals : (c : ℕ) → (clause_at s.clauses c).literals ≡ (clause_at s₀.clauses c).literals
  counts :
      (c : ℕ)
      → c < i
      → c < length s₀.clauses
      → get_or s.clauses_count_satisfied c 0 ≡ true_literals s₀ s₀.propagated c
  flags :
      (c : ℕ)
      → c < i
      → c < length s₀.clauses
      → get_or s.satisfied c 2 ≡ first_flag to_compute c (true_literals s₀ s₀.propagated c)
  others : (c : ℕ) → i ≤ c → c < length s₀.clauses → get_or s.satisfied c 2 ≡ 0
  sum : s.satisfied_sum ≡ weigh s₀.weights s.satisfied % u32_mod
  count : s.satisfied_count ≡ total s.satisfied % u32_mod

module _ (to_compute : List ℕ) (s₀ : Solver) (i : ℕ) (s : Solver) (h : IsScored to_compute s₀ i s)
    (within : i < length s₀.clauses) where
  abbrev n : ℕ
  n = (propagate_sat (clause_at s.clauses i) s.propagated).1

  abbrev counted : Solver
  counted = record s {
    clauses = set s.clauses i (propagate_sat (clause_at s.clauses i) s.propagated).0;
    clauses_count_satisfied = set s.clauses_count_satisfied i n;
  }

  n_lem : n ≡ true_literals s₀ s₀.propagated i
  n_lem =
      returned (clause_at s.clauses i) s.propagated
      ∙ ap (λ (ls : List Literal). count (holds s.propagated) ls) (h.literals i)
      ∙ ap (λ (units : List ℕ). true_literals s₀ units i) h.propagated

  counted-counts :
      (c : ℕ)
      → c < suc i
      → c < length s₀.clauses
      → get_or counted.clauses_count_satisfied c 0 ≡ true_literals s₀ s₀.propagated c
  counted-counts c p q = elim (Bool-cases (i == c)) [
    | inl here ↦
        let same : i ≡ c = (==_iff i c).0 here in
        rw (set-update s.clauses_count_satisfied i n c 0 (omega (arith, h.numbers)), here)
          (n_lem ∙ ap (λ (k : ℕ). true_literals s₀ s₀.propagated k) same)
    | inr there ↦
        rw (set-update s.clauses_count_satisfied i n c 0 (omega (arith, h.numbers)), there)
          (h.counts c (ground arith) q)
  ]

  counted-literals :
      (c : ℕ) → (clause_at counted.clauses c).literals ≡ (clause_at s₀.clauses c).literals
  counted-literals c =
      literals-set s.clauses i c (propagate_sat (clause_at s.clauses i) s.propagated).0
        (propagate_sat-literals (clause_at s.clauses i) s.propagated)
      ∙ h.literals c

  flagged-IsScored :
      first_flag to_compute i n ≡ 1
      → IsScored to_compute s₀ (suc i) (record counted {
        satisfied = set s.satisfied i 1;
        satisfied_sum = add32 s.satisfied_sum (get_or s.weights i 0);
        satisfied_count = add32 s.satisfied_count 1;
      })
  flagged-IsScored e = record {
    propagated = h.propagated;
    weights = h.weights;
    positive = h.positive;
    negative = h.negative;
    clauses = length-set s.clauses i _ ∙ h.clauses;
    satisfied = length-set s.satisfied i 1 ∙ h.satisfied;
    numbers = length-set s.clauses_count_satisfied i n ∙ h.numbers;
    literals = counted-literals;
    counts = counted-counts;
    flags = λ c p q.
        rw (set-update s.satisfied i 1 c 2 (omega (arith, h.satisfied)))
          (elim (Bool-cases (i == c)) [
            | inl here ↦
                let same : i ≡ c = (==_iff i c).0 here in
                rw here (
                  sym e
                  ∙ ap (first_flag to_compute i) n_lem
                  ∙ ap (λ (k : ℕ). first_flag to_compute k (true_literals s₀ s₀.propagated k)) same)
            | inr there ↦ rw there (h.flags c (ground arith) q)
          ]);
    others = λ c p q.
        get_or-set_ne s.satisfied i c 1 2 (λ k. absurd (omega arith)) ∙ h.others c (omega arith) q;
    sum =
        rw (h.weights, h.sum)
          (mod_on (weigh s₀.weights s.satisfied) (weigh s₀.weights (set s.satisfied i 1))
            (get_or s₀.weights i 0)
            (rw (h.others i (omega arith) within) at
              (weigh-set s₀.weights s.satisfied i 1 (omega (arith, h.satisfied)))));
    count = rw h.count (
        mod_on (total s.satisfied) (total (set s.satisfied i 1)) 1 (
          omega (
            arith,
            h.others i (omega arith) within,
            total-set s.satisfied i 1 (omega (arith, h.satisfied)),
          )));
  }

  false-IsScored :
      (unsat : List ℕ)
      → first_flag to_compute i n ≡ 0
      → IsScored to_compute s₀ (suc i) (record counted { literal_to_unsat = unsat })
  false-IsScored unsat e = record {
    propagated = h.propagated;
    weights = h.weights;
    positive = h.positive;
    negative = h.negative;
    clauses = length-set s.clauses i _ ∙ h.clauses;
    satisfied = h.satisfied;
    numbers = length-set s.clauses_count_satisfied i n ∙ h.numbers;
    literals = counted-literals;
    counts = counted-counts;
    flags = λ c p q. elim (Bool-cases (i == c)) [
      | inl here ↦
          let same : i ≡ c = (==_iff i c).0 here in
          h.others c (omega arith) q
          ∙ sym e
          ∙ ap (first_flag to_compute i) n_lem
          ∙ ap (λ (k : ℕ). first_flag to_compute k (true_literals s₀ s₀.propagated k)) same
      | inr there ↦ h.flags c (ground arith) q
    ];
    others = λ c p q. h.others c (omega arith) q;
    sum = h.sum;
    count = h.count;
  }

  score_clause-IsScored : IsScored to_compute s₀ (suc i) (score_clause to_compute i s)
  unfolding score_clause
  score_clause-IsScored = elim (Bool-cases (ltb 0 n || not (has i to_compute))) [
    | inl yes_ ↦ rw yes_ (flagged-IsScored (ground arith))
    | inr no_ ↦ rw no_ (false-IsScored _ (ground arith))
  ]

score_clauses-IsScored :
    (to_compute : List ℕ) (s₀ : Solver) (left i : ℕ) (s : Solver)
    → i + left ≡ length s₀.clauses
    → IsScored to_compute s₀ i s
    → IsScored to_compute s₀ (length s₀.clauses) (score_clauses to_compute left i s)
unfolding score_clauses
score_clauses-IsScored to_compute s₀ zero i s e h =
    subst (λ (k : ℕ). IsScored to_compute s₀ k s) (omega arith) h
score_clauses-IsScored to_compute s₀ (suc left) i s e h =
    score_clauses-IsScored to_compute s₀ left (suc i) (score_clause to_compute i s) (omega arith)
      (score_clause-IsScored to_compute s₀ i s h (omega arith))

-- The state after the whole loop.
module _ (to_compute : List ℕ) (watched : ℕ → Bool) (s₀ s : Solver) (shaped : IsShaped s₀ watched)
    (indexed : IsIndexed s₀ watched)
    (computed : (c : ℕ) → watched c ≡ true → has c to_compute ≡ true)
    (h : IsScored to_compute s₀ (length s₀.clauses) s) where
  same_lists : (i : ℕ) (b : Bool) → clauses_with s b i ≡ clauses_with s₀ b i
  same_lists i true = ap (λ (xs : List (List ℕ)). get_or xs i []) h.positive
  same_lists i false = ap (λ (xs : List (List ℕ)). get_or xs i []) h.negative

  same_number : (c : ℕ) → true_literals s s.propagated c ≡ true_literals s₀ s₀.propagated c
  same_number c =
      ap (λ (ls : List Literal). count (holds s.propagated) ls) (h.literals c)
      ∙ ap (λ (units : List ℕ). true_literals s₀ units c) h.propagated

  final-IsIndexed : IsIndexed s watched
  final-IsIndexed = record {
    listed = λ i b. rw (same_lists i b) (indexed.listed i b);
    often = λ i b c w. rw (same_lists i b, h.literals c) (indexed.often i b c w);
    short = λ c. rw (h.literals c) (indexed.short c);
  }

  inside : (c : ℕ) → watched c ≡ true → c < length s₀.clauses
  inside c w = omega (arith, shaped.within c w, shaped.clauses)

  IsScored-IsTracked : IsTracked s watched
  IsScored-IsTracked = record {
    shaped = record {
      flags = h.satisfied ∙ sym h.numbers;
      within = λ c w. omega (arith, inside c w, h.numbers);
      clauses = h.clauses ∙ sym h.numbers;
      weights = λ c. rw h.weights (shaped.weights c);
    };
    indexed = final-IsIndexed;
    counts = λ c w. h.counts c (inside c w) (inside c w) ∙ sym (same_number c);
    flags = λ c w. rw (same_number c, h.flags c (inside c w) (inside c w), computed c w) refl;
    sum = rw h.weights h.sum;
    count = h.count;
  }

-- From flags that are all 0 and sums that are 0, with an exact index, the loop brings counts, flags
-- and sums in step with the assignment, and the clauses that are not to compute count as true.
pub score_clauses-IsTracked :
    (to_compute : List ℕ) (watched : ℕ → Bool) (s : Solver)
    → IsShaped s watched
    → IsIndexed s watched
    → ((c : ℕ) → watched c ≡ true → has c to_compute ≡ true)
    → s.satisfied ≡ replicate (length s.clauses) 0
    → s.satisfied_sum ≡ 0
    → s.satisfied_count ≡ 0
    → IsTracked (score_clauses to_compute (length s.clauses) 0 s) watched
      × ((c : ℕ)
          → c < length s.clauses
          → has c to_compute ≡ false
          → get_or (score_clauses to_compute (length s.clauses) 0 s).satisfied c 2 ≡ 1)
score_clauses-IsTracked to_compute watched s shaped indexed computed clear no_sum no_count =
    let size : length s.satisfied ≡ length s.clauses =
      rw clear (length-replicate (length s.clauses) 0) in
    let done_ : IsScored to_compute s (length s.clauses)
        (score_clauses to_compute (length s.clauses) 0 s) =
      score_clauses-IsScored to_compute s (length s.clauses) 0 s (omega arith) (record {
        propagated = refl;
        weights = refl;
        positive = refl;
        negative = refl;
        clauses = refl;
        satisfied = size;
        numbers = sym shaped.clauses;
        literals = λ c. refl;
        counts = λ c p q. absurd (omega arith);
        flags = λ c p q. absurd (omega arith);
        others = λ c p q. rw clear (replicate_at (length s.clauses) c q);
        sum = rw (no_sum, clear, weigh-replicate s.weights (length s.clauses)) refl;
        count = rw (no_count, clear, total-replicate (length s.clauses)) refl;
      }) in
    (
      IsScored-IsTracked to_compute watched s _ shaped indexed computed done_,
      λ c p unwatched. ground (arith, done_.flags c p p),
    )

pub score_clauses-length :
    (to_compute : List ℕ) (left i : ℕ) (s : Solver)
    → length (score_clauses to_compute left i s).clauses ≡ length s.clauses
unfolding score_clauses score_clause
score_clauses-length to_compute zero i s = refl
score_clauses-length to_compute (suc left) i s =
    score_clauses-length to_compute left (suc i) (score_clause to_compute i s)
    ∙ elim (Bool-cases
        (ltb 0 (propagate_sat (clause_at s.clauses i) s.propagated).1 || not (has i to_compute))) [
          | inl e ↦ rw e (length-set s.clauses i _)
          | inr e ↦ rw e (length-set s.clauses i _)
        ]
