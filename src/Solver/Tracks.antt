-- ===== src/Solver/Tracks.antt =====
-- `apply_flipped` keeps the solver's view of the clauses in step with its assignment.
use latin_squares_diploma_it.Prelude.{
  ℕ, ◌%◌, ◌<◌, ◌≡◌, refl, sym, ap, ◌∙◌, arith, Bool, true, false, List, [], ◌∷◌, ◌==◌,
  if◌then◌else◌, length, length-set, get_or, set, get_or-set_ne, get_or-set_self, get_or-replicate,
  length-replicate, All, All-map, All-map₂, Increasing,
}
use latin_squares_diploma_it.Utils.Word.{u32_mod}
use latin_squares_diploma_it.Cnf.Literal.{bit, holds, toggle}
use latin_squares_diploma_it.Solver.State.{Solver, clause_at}
use latin_squares_diploma_it.Solver.Apply.{
  toggle_all, Tally, start_tally, flip_all, apply_computed, opposite,
}
use latin_squares_diploma_it.Solver.Tally.{
  weigh, total, length-toggle_all, get_or-add_deltas, length-add_deltas,
}
use latin_squares_diploma_it.Solver.Literals.{count-le-length}
use latin_squares_diploma_it.Solver.Steps.{IsShaped, IsRunning, flag_of}
use latin_squares_diploma_it.Solver.Loops.{IsIndexed, true_literals, flip_all-IsRunning}

-- The counts, flags and sums describe the assignment: a watched clause has the number of its true
-- literals and the flag of whether there is one, and the sums are those of the flags.
pub record IsTracked (s : Solver) (watched : ℕ → Bool) : Type 0 where
  pub shaped : IsShaped s watched
  pub indexed : IsIndexed s watched
  pub counts :
      (c : ℕ)
      → watched c ≡ true
      → get_or s.clauses_count_satisfied c 0 ≡ true_literals s s.propagated c
  pub flags :
      (c : ℕ) → watched c ≡ true → get_or s.satisfied c 2 ≡ flag_of (true_literals s s.propagated c)
  pub sum : s.satisfied_sum ≡ weigh s.weights s.satisfied % u32_mod
  pub count : s.satisfied_count ≡ total s.satisfied % u32_mod

-- A flip names a variable that is in range and known.
abbrev pub AreKnown : List ℕ → List ℕ → Type 0
AreKnown units flipped = All (λ i. (i < length units) × (get_or units i 2 < 2)) flipped

pub toggle_all-ne :
    (flipped units : List ℕ) (j : ℕ)
    → All (λ i. j < i) flipped
    → get_or (toggle_all units flipped) j 2 ≡ get_or units j 2
unfolding toggle_all
toggle_all-ne [] units j h = refl
toggle_all-ne (i ∷ flipped) units j h =
    toggle_all-ne flipped (set units i (toggle (get_or units i 2))) j h.1
    ∙ get_or-set_ne units i j (toggle (get_or units i 2)) 2 (λ e. omega arith)

-- Each of the strictly sorted flips inverts its variable once.
pub toggle_all-mem :
    (flipped units : List ℕ)
    → Increasing flipped
    → All (λ i. i < length units) flipped
    → All (λ i. get_or (toggle_all units flipped) i 2 ≡ toggle (get_or units i 2)) flipped
unfolding toggle_all
toggle_all-mem [] units o h = tt
toggle_all-mem (i ∷ flipped) units o h =
    let v = toggle (get_or units i 2) in
    (
      toggle_all-ne flipped (set units i v) i o.0 ∙ get_or-set_self units i v 2 h.0,
      All-map₂ flipped
          (λ j p q. p ∙ ap toggle (get_or-set_ne units i j v 2 (λ e. absurd (omega arith))))
          (toggle_all-mem flipped (set units i v) o.1
            (All-map flipped (λ j p. rw (length-set units i v) p) h.1))
          o.0,
    )

awaited : (u u' : ℕ) → u < 2 → u' ≡ toggle u → u ≡ bit (opposite (if u' == 0 then false else true))
awaited u u' h e = ground arith

module _ (s : Solver) (watched : ℕ → Bool) (tracked : IsTracked s watched) (flipped : List ℕ)
    (o : Increasing flipped) (known : AreKnown s.propagated flipped) where
  abbrev flipped_solver : Solver
  flipped_solver = record s { propagated = toggle_all s.propagated flipped }

  flipped-IsShaped : IsShaped flipped_solver watched
  flipped-IsShaped = record {
    flags = tracked.shaped.flags;
    within = tracked.shaped.within;
    clauses = tracked.shaped.clauses;
    weights = tracked.shaped.weights;
  }

  flipped-IsIndexed : IsIndexed flipped_solver watched
  flipped-IsIndexed = record {
    listed = tracked.indexed.listed;
    often = tracked.indexed.often;
    short = tracked.indexed.short;
  }

  start-IsRunning :
      IsRunning flipped_solver watched (true_literals s s.propagated) (start_tally flipped_solver)
  unfolding toggle_all
  start-IsRunning = record {
    size = length-replicate (length s.clauses_count_satisfied) 0;
    clauses = refl;
    literals = λ c. refl;
    counts = λ c w.
        rw (get_or-replicate {A = ℕ} (length s.clauses_count_satisfied) c 0, tracked.counts c w)
          (omega (
            arith,
            count-le-length {0} (holds s.propagated) (clause_at s.clauses c).literals,
            tracked.indexed.short c,
          ));
    flags = tracked.flags;
    others = λ c w. refl;
    sum = tracked.sum;
    count = tracked.count;
  }

  abbrev final_tally : Tally
  final_tally = flip_all flipped_solver flipped (start_tally flipped_solver)

  final-IsRunning :
      IsRunning flipped_solver watched
        (true_literals s (toggle_all s.propagated flipped))
        final_tally
  final-IsRunning =
      flip_all-IsRunning flipped_solver watched flipped-IsShaped flipped-IsIndexed flipped
        s.propagated (start_tally flipped_solver) o
        (All-map₂ flipped (λ i k e. (k.0, awaited _ _ k.1 e)) known
          (toggle_all-mem flipped s.propagated o (All-map flipped (λ i k. k.0) known)))
        start-IsRunning

  -- What the state after the flips has to do with the state before them.
  pub record Applied (s' : Solver) : Type 0 where
    pub in_step : IsTracked s' watched
    pub assigned : s'.propagated ≡ toggle_all s.propagated flipped
    pub literals : (c : ℕ) → (clause_at s'.clauses c).literals ≡ (clause_at s.clauses c).literals
    pub weights : s'.weights ≡ s.weights
    pub size : length s'.satisfied ≡ length s.satisfied
    pub flips : All (λ i. get_or s'.propagated i 2 ≡ toggle (get_or s.propagated i 2)) flipped
    pub others : (c : ℕ) → watched c ≡ false → get_or s'.satisfied c 2 ≡ get_or s.satisfied c 2

  -- For strictly sorted flips of known variables, the part of `apply_flipped` that follows the
  -- evaluation of the net inverts the flipped variables, leaves the literals and weights of the
  -- clauses and the flags of clauses that are not watched, and keeps the counts, flags and sums in
  -- step with the assignment.
  pub apply_computed-Applied : Applied (apply_computed s flipped)
  unfolding apply_computed
  apply_computed-Applied =
      let run = final-IsRunning in
      record {
        in_step = record {
          shaped = record {
            flags =
                length-toggle_all s.satisfied final_tally.changed
                ∙ tracked.shaped.flags
                ∙ sym (length-add_deltas s.clauses_count_satisfied final_tally.deltas);
            within = λ c w.
                rw (length-add_deltas s.clauses_count_satisfied final_tally.deltas)
                  (tracked.shaped.within c w);
            clauses =
                run.clauses
                ∙ tracked.shaped.clauses
                ∙ sym (length-add_deltas s.clauses_count_satisfied final_tally.deltas);
            weights = tracked.shaped.weights;
          };
          indexed = record {
            listed = tracked.indexed.listed;
            often = λ i b c w. rw (run.literals c) (tracked.indexed.often i b c w);
            short = λ c. rw (run.literals c) (tracked.indexed.short c);
          };
          counts = λ c w. rw (run.literals c) (
              get_or-add_deltas s.clauses_count_satisfied final_tally.deltas c (sym run.size)
                (tracked.shaped.within c w)
              ∙ run.counts c w);
          flags = λ c w. rw (run.literals c) (run.flags c w);
          sum = run.sum;
          count = run.count;
        };
        assigned = refl;
        literals = run.literals;
        weights = refl;
        size = length-toggle_all s.satisfied final_tally.changed;
        flips = toggle_all-mem flipped s.propagated o (All-map flipped (λ i k. k.0) known);
        others = run.others;
      }
