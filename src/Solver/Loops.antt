-- ===== src/Solver/Loops.antt =====
-- The loops of `apply_flipped` over the clauses of one flip, and over all flips: afterwards the
-- running counts are the numbers of true literals under the flipped assignment.
use latin_squares_diploma_it.Prelude.{
  ℕ, suc, ◌+◌, ◌-◌, ◌≤◌, ◌<◌, ◌≡◌, ap, ◌∙◌, arith, Bool, true, List, [], ◌∷◌, ◌==◌, if◌then◌else◌,
  length, length-set, get_or, set, get_or-set_ne, count, All, All-map₂, Increasing,
}
use latin_squares_diploma_it.Utils.Word.{u32_mod}
use latin_squares_diploma_it.Cnf.Literal.{bit, holds, toggle}
use latin_squares_diploma_it.Solver.State.{Solver, clause_at}
use latin_squares_diploma_it.Solver.Apply.{
  toggle_all, Tally, sub_clause, add_clause, sub_clauses, add_clauses, clauses_with, is_set,
  opposite, flip_clauses, flip_all,
}
use latin_squares_diploma_it.Solver.Literals.{
  is_literal, count-set, count-literal-le, count-le-length,
}
use latin_squares_diploma_it.Solver.Steps.{update, IsShaped, IsRunning}
use latin_squares_diploma_it.Solver.Rounds.{sub_clause-IsRunning, add_clause-IsRunning}

-- How often a clause stands in a list.
abbrev pub occurrences : ℕ → List ℕ → ℕ
occurrences c ks = count (λ k. k == c) ks

-- The number of true literals of a clause under an assignment.
abbrev pub true_literals : Solver → List ℕ → ℕ → ℕ
true_literals s units c = count (holds units) (clause_at s.clauses c).literals

exchange :
    (old new g g' c c' : ℕ) → new + g' ≡ old + c' → g ≡ g' → c ≡ c' → g ≤ old → old - g + c ≡ new
exchange old new g g' c c' e p q h = omega arith

-- The two indexes list each watched clause once for each of its literals, and nothing else.
pub record IsIndexed (s : Solver) (watched : ℕ → Bool) : Type 0 where
  pub listed : (i : ℕ) (b : Bool) → All (λ c. watched c ≡ true) (clauses_with s b i)
  pub often :
      (i : ℕ) (b : Bool) (c : ℕ)
      → watched c ≡ true
      → occurrences c (clauses_with s b i) ≡ count (is_literal i b) (clause_at s.clauses c).literals
  pub short : (c : ℕ) → length (clause_at s.clauses c).literals < u32_mod

module _ (s : Solver) (watched : ℕ → Bool) where
  pub IsRunning-congr :
      (r q : ℕ → ℕ) (t : Tally)
      → ((c : ℕ) → watched c ≡ true → r c ≡ q c)
      → IsRunning s watched r t
      → IsRunning s watched q t
  IsRunning-congr r q t e h = record {
    size = h.size;
    clauses = h.clauses;
    literals = h.literals;
    counts = λ c w. h.counts c w ∙ e c w;
    flags = λ c w. h.flags c w ∙ ap (λ (n : ℕ). if n == 0 then 0 else 1) (e c w);
    others = h.others;
    sum = h.sum;
    count = h.count;
  }

  module _ (shaped : IsShaped s watched) where
    sub_clauses-IsRunning :
        (ks : List ℕ) (r : ℕ → ℕ) (t : Tally)
        → All (λ c. watched c ≡ true) ks
        → ((c : ℕ) → watched c ≡ true → occurrences c ks ≤ r c)
        → IsRunning s watched r t
        → IsRunning s watched (λ c. r c - occurrences c ks) (sub_clauses s ks t)
    unfolding sub_clauses
    sub_clauses-IsRunning [] r t w le h = IsRunning-congr r _ t (λ c p. omega arith) h
    sub_clauses-IsRunning (k ∷ ks) r t w le h =
        let pos : 0 < r k = ground (arith, le k w.0) in
        let r' = update r k (r k - 1) in
        IsRunning-congr (λ c. r' c - occurrences c ks) _ _ (λ c p. ground arith)
          (sub_clauses-IsRunning ks r' (sub_clause s k t) w.1 (λ c p. ground (arith, le c p))
            (sub_clause-IsRunning s watched shaped r t k w.0 pos h))

    add_clauses-IsRunning :
        (ks : List ℕ) (r : ℕ → ℕ) (t : Tally)
        → All (λ c. watched c ≡ true) ks
        → ((c : ℕ) → watched c ≡ true → r c + occurrences c ks < u32_mod)
        → IsRunning s watched r t
        → IsRunning s watched (λ c. r c + occurrences c ks) (add_clauses s ks t)
    unfolding add_clauses
    add_clauses-IsRunning [] r t w le h = IsRunning-congr r _ t (λ c p. omega arith) h
    add_clauses-IsRunning (k ∷ ks) r t w le h =
        let bound : suc (r k) < u32_mod = ground (arith, le k w.0) in
        let r' = update r k (suc (r k)) in
        IsRunning-congr (λ c. r' c + occurrences c ks) _ _ (λ c p. ground arith)
          (add_clauses-IsRunning ks r' (add_clause s k t) w.1 (λ c p. ground (arith, le c p))
            (add_clause-IsRunning s watched shaped r t k w.0 bound h))

    module _ (indexed : IsIndexed s watched) where
      flip_clauses-IsRunning :
          (units : List ℕ) (i : ℕ) (t : Tally)
          → i < length units
          → get_or units i 2 ≡ bit (opposite (is_set s i))
          → IsRunning s watched (true_literals s units) t
          → IsRunning s watched
              (true_literals s (set units i (bit (is_set s i))))
              (flip_clauses s i t)
      unfolding flip_clauses
      flip_clauses-IsRunning units i t w e h =
          let new = is_set s i in
          let gone = clauses_with s (opposite new) i in
          let come = clauses_with s new i in
          let after = λ (c : ℕ). true_literals s (set units i (bit new)) c in
          let middle = λ (c : ℕ). true_literals s units c - occurrences c gone in
          let lost : (c : ℕ) → watched c ≡ true → occurrences c gone ≤ true_literals s units c =
            λ c p.
              rw (indexed.often i (opposite new) c p)
                (count-literal-le units i (opposite new) (clause_at s.clauses c).literals e) in
          let sums : (c : ℕ) → watched c ≡ true → middle c + occurrences c come ≡ after c = λ c p.
            exchange (true_literals s units c) (after c) (occurrences c gone)
              (count (is_literal i (opposite new)) (clause_at s.clauses c).literals)
              (occurrences c come) (count (is_literal i new) (clause_at s.clauses c).literals)
              (count-set units i new (clause_at s.clauses c).literals w e)
              (indexed.often i (opposite new) c p) (indexed.often i new c p) (lost c p) in
          let bound : (c : ℕ) → watched c ≡ true → middle c + occurrences c come < u32_mod = λ c p.
            rw (sums c p) (
              omega (
                arith,
                count-le-length {0} (holds (set units i (bit new)))
                    (clause_at s.clauses c).literals,
                indexed.short c,
              )) in
          IsRunning-congr (λ c. middle c + occurrences c come) after _ sums
            (add_clauses-IsRunning come middle (sub_clauses s gone t) (indexed.listed i new) bound (
              sub_clauses-IsRunning gone (true_literals s units) t (indexed.listed i (opposite new))
                lost h))

      -- Every flipped variable still has the value opposite to its final one.
      abbrev pub AreAwaiting : List ℕ → List ℕ → Type 0
      AreAwaiting units flipped =
          All (λ i. (i < length units) × (get_or units i 2 ≡ bit (opposite (is_set s i)))) flipped

      toggled_bit :
          (units : List ℕ) (i : ℕ)
          → get_or units i 2 ≡ bit (opposite (is_set s i))
          → toggle (get_or units i 2) ≡ bit (is_set s i)
      toggled_bit units i e = ground arith

      pub flip_all-IsRunning :
          (flipped units : List ℕ) (t : Tally)
          → Increasing flipped
          → AreAwaiting units flipped
          → IsRunning s watched (true_literals s units) t
          → IsRunning s watched (true_literals s (toggle_all units flipped)) (flip_all s flipped t)
      unfolding flip_all toggle_all
      flip_all-IsRunning [] units t o a h = h
      flip_all-IsRunning (i ∷ flipped) units t o a h =
          let v = bit (is_set s i) in
          rw (toggled_bit units i a.0.1) (
            flip_all-IsRunning flipped (set units i v) (flip_clauses s i t) o.1
              (All-map₂ flipped
                (λ j p q. (
                  rw (length-set units i v) p.0,
                  get_or-set_ne units i j v 2 (λ e. absurd (omega arith)) ∙ p.1,
                ))
                a.1 o.0)
              (flip_clauses-IsRunning units i t a.0.0 a.0.1 h))
