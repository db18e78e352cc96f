-- ===== src/Solver/Fresh.antt =====
-- The last loop of the constructor of `HillClimbingSolver`, and `reduce` where it changes nothing.
use latin_squares_diploma_it.Prelude.{
  ℕ, zero, suc, ◌<◌, ◌≡◌, ◌≢◌, refl, ap, Bool, true, false, List, [], ◌∷◌, Option, done, length,
  get_or, replicate, has,
}
use latin_squares_diploma_it.Cnf.Literal.{Literal}
use latin_squares_diploma_it.Solver.State.{Solver, clause_at}
use latin_squares_diploma_it.Solver.Bags.{MetaVariable}
use latin_squares_diploma_it.Solver.Steps.{IsShaped}
use latin_squares_diploma_it.Solver.Loops.{IsIndexed}
use latin_squares_diploma_it.Solver.Tracks.{IsTracked}
use latin_squares_diploma_it.Solver.Reduce.{
  Reduction, visit_literals, reduce_round, reduce_loop, trim_clauses, clear_lists, start_reduction,
  reduce,
}
use latin_squares_diploma_it.Solver.Construct.{score_clauses}
use latin_squares_diploma_it.Solver.Scoring.{score_clauses-IsTracked, score_clauses-length}

-- What the last loop of the constructor needs of the solver.
pub record IsFresh (to_compute : List ℕ) (watched : ℕ → Bool) (s : Solver) : Type 0 where
  pub shaped : IsShaped s watched
  pub indexed : IsIndexed s watched
  pub computed : (c : ℕ) → watched c ≡ true → has c to_compute ≡ true
  pub clear : s.satisfied ≡ replicate (length s.clauses) 0
  pub sum : s.satisfied_sum ≡ 0
  pub number : s.satisfied_count ≡ 0

pub IsFresh-blind :
    (to_compute : List ℕ) (watched : ℕ → Bool) (s : Solver) (units : List ℕ)
    → IsFresh to_compute watched s
    → IsFresh to_compute watched (record s { propagated = units })
IsFresh-blind to_compute watched s units h = record {
  shaped = record {
    flags = h.shaped.flags;
    within = h.shaped.within;
    clauses = h.shaped.clauses;
    weights = h.shaped.weights;
  };
  indexed = record { listed = h.indexed.listed; often = h.indexed.often; short = h.indexed.short };
  computed = h.computed;
  clear = h.clear;
  sum = h.sum;
  number = h.number;
}

-- Without a clause of one literal, `reduce` changes nothing.
visit_rest :
    (s : Solver) (links : List (Option ℕ)) (ls : List Literal) (r : Reduction)
    → length ls ≢ 1
    → visit_literals s links ls r ≡ r
unfolding visit_literals
visit_rest s links [] r h = refl
visit_rest s links (l ∷ []) r h = absurd (h refl)
visit_rest s links (l ∷ k ∷ ls) r h = refl

round_rest :
    (s : Solver) (links : List (Option ℕ)) (left i : ℕ) (r : Reduction)
    → ((c : ℕ) → length (clause_at r.clauses c).literals ≢ 1)
    → reduce_round s links left i r ≡ r
unfolding reduce_round
round_rest s links zero i r h = refl
round_rest s links (suc left) i r h =
    rw (visit_rest s links (clause_at r.clauses i).literals r (h i))
      (round_rest s links left (suc i) r h)

loop_rest :
    (fuel : ℕ) (links : List (Option ℕ)) (s : Solver) (vs : List MetaVariable)
    → ((c : ℕ) → length (clause_at s.clauses c).literals ≢ 1)
    → reduce_loop (suc fuel) s links (start_reduction s vs)
      ≡ done (record (start_reduction s vs) { changed = false })
unfolding reduce_loop
loop_rest fuel links s vs h =
    rw
      (
        round_rest s links (length s.clauses) 0 (record (start_reduction s vs) { changed = false })
            h,
        reduce_loop,
      )
      (ap done (
        round_rest s links (length s.clauses) 0 (record (start_reduction s vs) { changed = false })
          h))

pub reduce_rest :
    (fuel : ℕ) (links : List (Option ℕ)) (s : Solver) (vs : List MetaVariable)
    → ((c : ℕ) → length (clause_at s.clauses c).literals ≢ 1)
    → reduce (suc fuel) links s vs ≡ done (s, vs)
unfolding reduce trim_clauses clear_lists
reduce_rest fuel links s vs h = rw (loop_rest fuel links s vs h) refl

-- What the constructor leaves in step with the assignment that it chooses.
pub record Constructed (to_compute : List ℕ) (watched : ℕ → Bool) (s : Solver) : Type 0 where
  pub tracked : IsTracked s watched
  pub others :
      (c : ℕ) → c < length s.clauses → has c to_compute ≡ false → get_or s.satisfied c 2 ≡ 1

module _ (to_compute : List ℕ) (watched : ℕ → Bool) where
  pub scored_lem :
      (s : Solver)
      → IsFresh to_compute watched s
      → Constructed to_compute watched (score_clauses to_compute (length s.clauses) 0 s)
  scored_lem s h =
      let (tracked, others) =
        score_clauses-IsTracked to_compute watched s h.shaped h.indexed h.computed h.clear h.sum
          h.number in
      record {
        tracked = tracked;
        others =
            λ c p q. others c (rw (score_clauses-length to_compute (length s.clauses) 0 s) at p) q;
      }
