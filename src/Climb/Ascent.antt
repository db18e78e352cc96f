-- ===== src/Climb/Ascent.antt =====
-- What a round makes of a solution, on a formula without a net.
use mathlib.Core.Bool.{false≢true}
use latin_squares_diploma_it.Prelude.{
  ℕ, ◌<◌, ◌≡◌, refl, sym, ◌∙◌, ap, subst, Bool, true, false, List, [], some, done, ltb, ltb→lt, inl,
  inr, All, has, replicate, length, Ascending, Increasing,
}
use latin_squares_diploma_it.Cnf.Propagation.{numbers}
use latin_squares_diploma_it.Net.Flips.{SwapOrder, left_first, compute_flipped}
use latin_squares_diploma_it.Net.Marks.{mark_flipped-some}
use latin_squares_diploma_it.Solver.State.{Solver, clause_at}
use latin_squares_diploma_it.Solver.Apply.{apply_computed, apply_flipped}
use latin_squares_diploma_it.Solver.Check.{check_computed, check_flipped}
use latin_squares_diploma_it.Solver.Construct.{Search}
use latin_squares_diploma_it.Solver.Tracks.{AreKnown}
use latin_squares_diploma_it.Solver.Whole.{IsSound, apply_flipped-IsSound}
use latin_squares_diploma_it.Solver.Foretold.{check_flipped-apply_flipped}
use latin_squares_diploma_it.Climb.Worker.{Task, NewValue, fits, check, cells_of, choice_flips}
use latin_squares_diploma_it.Climb.Threads.{Event, Threads, start_threads, run_events}
use latin_squares_diploma_it.Climb.Round.{adopt, wait_for, store_values}
use latin_squares_diploma_it.Climb.Moves.{Improving}
use latin_squares_diploma_it.Climb.Entries.{some_injective}
use latin_squares_diploma_it.Climb.Sound.{IsSettled, run_events-IsSettled}

-- The flips of a choice that fits are strictly sorted, and their variables are known.
abbrev pub HasOrderedChoices : Task → Type 0
HasOrderedChoices t =
    (index : ℕ) (digits : List ℕ)
    → fits t index digits ≡ true
    → let flips = choice_flips t.search.solver.propagated (cells_of t index) digits in
      Increasing flips × AreKnown t.search.solver.propagated flips

-- The search after a round: the solver is sound, and its sum is greater where something was found.
pub record Ascended (q q' : Search) (watched : ℕ → Bool) (found : Bool) : Type 0 where
  pub sound : IsSound q'.solver watched
  pub greater : found ≡ true → q.solver.satisfied_sum < q'.solver.satisfied_sum
  pub same : found ≡ false → q' ≡ q

module _ (t : Task) (watched : ℕ → Bool) (sound : IsSound t.search.solver watched)
    (sorted : (c : ℕ)
      → watched c ≡ true
      → Ascending (numbers (clause_at t.search.solver.clauses c).literals))
    (plain : t.search.solver.net.finalized ≡ []) (ordered : HasOrderedChoices t) where
  abbrev s : Solver
  s = t.search.solver

  compute_flipped_plain :
      (order : SwapOrder) (flips : List ℕ)
      → compute_flipped order s.net s.propagated flips ≡ some flips
  unfolding compute_flipped
  compute_flipped_plain order flips =
      rw
        (
          mark_flipped-some s.net flips (replicate (length s.propagated) false) sound.index
              (rw plain tt),
          plain,
          compute_flipped,
        )
        refl

  check_plain :
      (order : SwapOrder) (flips : List ℕ)
      → check_flipped order s flips ≡ some (check_computed s flips, flips)
  unfolding check_flipped
  check_plain order flips = rw (compute_flipped_plain order flips, check_flipped) refl

  apply_plain :
      (order : SwapOrder) (flips : List ℕ)
      → apply_flipped order s flips ≡ some (apply_computed s flips, flips)
  unfolding apply_flipped
  apply_plain order flips = rw (compute_flipped_plain order flips, apply_flipped) refl

  choice_ascends :
      (flips : List ℕ) (o : Increasing flips) (known : AreKnown s.propagated flips)
      → check_computed s flips ≡ true
      → IsSound (apply_computed s flips) watched
        × (s.satisfied_sum < (apply_computed s flips).satisfied_sum)
  choice_ascends flips o known greater =
      let absent : All (λ n. has n.variable flips ≡ false) s.net.finalized = rw plain tt in
      let (s₁, out₁, whole) = apply_flipped-IsSound s watched sound flips o known absent in
      let (s₂, out₂, a, c) =
        check_flipped-apply_flipped s watched sound sorted flips o known absent in
      let e₁ : s₁ ≡ apply_computed s flips =
        ap (λ (p : Solver × List ℕ). p.0)
          (some_injective (sym whole.made ∙ apply_plain left_first flips)) in
      let e₂ : s₂ ≡ apply_computed s flips =
        ap (λ (p : Solver × List ℕ). p.0) (some_injective (sym a ∙ apply_plain left_first flips)) in
      let answer : check_computed s flips ≡ ltb s.satisfied_sum s₂.satisfied_sum =
        ap (λ (p : Bool × List ℕ). p.0) (some_injective (sym (check_plain left_first flips) ∙ c)) in
      (
        subst (λ (a : Solver). IsSound a watched) e₁ whole.sound_again,
        subst (λ (a : Solver). s.satisfied_sum < a.satisfied_sum) e₂
            (ltb→lt _ _ (sym answer ∙ greater)),
      )

  Improving-ascends :
      (flips : List ℕ) (values : List NewValue)
      → Improving t flips values
      → IsSound (apply_computed s flips) watched
        × (s.satisfied_sum < (apply_computed s flips).satisfied_sum)
  unfolding check
  Improving-ascends flips values i =
      let chosen = choice_flips s.propagated (cells_of t i.index) i.digits in
      let both = some_injective (sym (check_plain t.order chosen) ∙ i.checked) in
      let (o, known) = ordered i.index i.digits i.fitting in
      subst
        (λ f.
          IsSound (apply_computed s f) watched
          × (s.satisfied_sum < (apply_computed s f).satisfied_sum))
        (ap (λ (p : Bool × List ℕ). p.1) both)
        (choice_ascends chosen o known (ap (λ (p : Bool × List ℕ). p.0) both))

  adopt_settled :
      (ended : Threads)
      → IsSettled t ended.shared
      → (q : Search) × (adopt t.order ended t.search ≡ done (q, ended.shared.is_solution_found))
        × Ascended t.search q watched ended.shared.is_solution_found
  unfolding adopt
  adopt_settled ended (inl (unfound, a, b)) = (
    t.search,
    rw (unfound, adopt) refl,
    record {
      sound = sound;
      greater = λ e. absurd (false≢true (sym unfound ∙ e));
      same = λ e. refl;
    },
  )
  adopt_settled ended (inr (found, written)) =
      let (again, more) =
        Improving-ascends ended.shared.solution written.values written.improving in
      (
        record t.search {
          solver = apply_computed s ended.shared.solution;
          meta_values = store_values ended.shared.new_meta_values t.search.meta_values;
        },
        rw (found, apply_plain t.order ended.shared.solution, adopt) refl,
        record {
          sound = again;
          greater = λ e. more;
          same = λ e. absurd (false≢true (sym e ∙ found));
        },
      )

  -- On a sound solver without a net, whose watched clauses have sorted literals, and where the flips
  -- of every choice of values that fits are strictly sorted known variables: in whatever order the
  -- threads run, and whenever signals arrive, once the pool has been waited for the round returns, the
  -- solver is sound again, and its sum of satisfied weights is greater than before where the flag of a
  -- solution is set, and the search is as it was where it is not.
  pub run_events-Ascended :
      (ranges : List (ℕ × ℕ)) (stopped : Bool) (events : List Event) (threads ended : Threads)
      → run_events t events (start_threads ranges stopped) ≡ some threads
      → wait_for threads ≡ done ended
      → (q : Search) × (adopt t.order ended t.search ≡ done (q, ended.shared.is_solution_found))
        × Ascended t.search q watched ended.shared.is_solution_found
  run_events-Ascended ranges stopped events threads ended e w =
      adopt_settled ended (run_events-IsSettled t ranges stopped events threads ended e w)
