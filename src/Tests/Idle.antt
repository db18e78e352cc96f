-- ===== src/Tests/Idle.antt =====
-- A round of the same bag with a cell that no choice of values improves.
use latin_squares_diploma_it.Prelude.{
  ℕ, zero, suc, ◌-◌, ◌≤◌, count, get_elem?, any, subst, fault, ◌⊎◌, ◌≡◌, refl, arith, true, false,
  List, [], ◌∷◌, some, done,
}
use latin_squares_diploma_it.Utils.Combination.{first_from}
use latin_squares_diploma_it.Utils.Odometer.{IsDigits, choices, next_array}
use latin_squares_diploma_it.Cnf.Clause.{propagate_flipped}
use latin_squares_diploma_it.Net.Flips.{compute_flipped}
use latin_squares_diploma_it.Solver.Check.{check_flipped, would_hold}
use latin_squares_diploma_it.Solver.Counts.{count_all}
use latin_squares_diploma_it.Climb.Worker.{Task, fits, indices_of, zeros_of}
use latin_squares_diploma_it.Climb.Threads.{
  Event, work, Threads, start_threads, run_events, is_failed,
}
use latin_squares_diploma_it.Climb.Round.{wait_for}
use latin_squares_diploma_it.Climb.Tried.{IsExhausted}
use latin_squares_diploma_it.Climb.Explored.{run_events-IsExhausted}
use latin_squares_diploma_it.Climb.Entries.{some_injective}
use latin_squares_diploma_it.Climb.Ends.{steps_from}
use latin_squares_diploma_it.Climb.Fair.{is_own, run_events-ends}
use latin_squares_diploma_it.Utils.Binomial.{binom}
use latin_squares_diploma_it.Utils.Counting.{get_number_of_combinations}
use latin_squares_diploma_it.Utils.Combination.{next_combination}
use latin_squares_diploma_it.Utils.Including.{contains, next_combination_including}
use latin_squares_diploma_it.Solver.Bags.{satisfy_predicate_for_metavars}
use latin_squares_diploma_it.Climb.Bags.{choose_bags}
use latin_squares_diploma_it.Climb.Worker.{bag_at}
use latin_squares_diploma_it.Climb.Exhaustive.{IsBag}
use latin_squares_diploma_it.Climb.Optimum.{run_events-choose_bags}
use latin_squares_diploma_it.Tests.InsertionSort.{insertion}
use latin_squares_diploma_it.Tests.Net.{lit}
use latin_squares_diploma_it.Tests.Climbing.{cell, task_of, ended, ranges_run}

-- A cell whose values stand for variable 1, which is in no clause.
abbrev idle_task : Task
idle_task = task_of (record cell { variables = (lit 1 true ∷ []) ∷ (lit 1 false ∷ []) ∷ [] })

abbrev all_events : List Event
all_events = work 0 ∷ work 0 ∷ work 1 ∷ work 0 ∷ work 0 ∷ work 0 ∷ []

abbrev idle_end : Threads
idle_end = record {
  shared = record {
    is_solution_found = false;
    stopped = false;
    counter = 1;
    solution = [];
    new_meta_values = [];
  };
  workers = ended.workers;
}

idle_run :
    run_events idle_task all_events (start_threads ((0, 1) ∷ (1, 1) ∷ []) false) ≡ some idle_end
unfolding run_events start_threads fits next_array check_flipped would_hold propagate_flipped
    compute_flipped count_all first_from
idle_run = refl

idle_waited : wait_for idle_end ≡ done idle_end
unfolding wait_for
idle_waited = refl

idle-IsDigits : (index : ℕ) → IsDigits (zeros_of idle_task index) (indices_of idle_task index)
unfolding first_from
idle-IsDigits zero = (omega arith, omega arith, tt)
idle-IsDigits (suc index) = tt

run_events-IsExhausted_example : IsExhausted idle_task 0
run_events-IsExhausted_example =
    run_events-IsExhausted idle_task idle-IsDigits 2 ((0, 1) ∷ (1, 1) ∷ []) false all_events
      idle_end idle_end (omega arith) (omega arith) ranges_run idle_run idle_waited refl refl 0
      (omega arith)

abbrev many_events : List Event
many_events = work 0 ∷ work 0 ∷ work 1 ∷ work 0 ∷ work 0 ∷ work 0 ∷ work 0 ∷ work 0 ∷ []

many_run :
    run_events idle_task many_events (start_threads ((0, 1) ∷ (1, 1) ∷ []) false) ≡ some idle_end
unfolding run_events start_threads fits next_array check_flipped would_hold propagate_flipped
    compute_flipped count_all first_from
many_run = refl

enough :
    (i start end : ℕ)
    → get_elem? {A = ℕ × ℕ} ((0, 1) ∷ (1, 1) ∷ []) i ≡ some (start, end)
    → steps_from idle_task (end - start) start ≤ count (is_own i) many_events
unfolding steps_from choices first_from
enough zero start end e =
    subst (λ (r : ℕ × ℕ). steps_from idle_task (r.1 - r.0) r.0 ≤ 7) (some_injective e) (omega arith)
enough (suc zero) start end e =
    subst (λ (r : ℕ × ℕ). steps_from idle_task (r.1 - r.0) r.0 ≤ 1) (some_injective e) (omega arith)
enough (suc (suc i)) start end e = cc

run_events-ends_example :
    (wait_for idle_end ≡ done idle_end)
    ⊎ ((wait_for idle_end ≡ fault) × (any is_failed idle_end.workers ≡ true))
run_events-ends_example =
    run_events-ends idle_task idle-IsDigits 2 ((0, 1) ∷ (1, 1) ∷ []) false many_events idle_end
      (omega arith) (omega arith) ranges_run many_run enough

one_of_one : get_number_of_combinations 1 1 ≡ some 1
unfolding get_number_of_combinations
one_of_one = refl

one_bag :
    choose_bags 1 insertion (λ bags. bags) idle_task.search.meta_variables 1 (0 ∷ []) []
    ≡ done ((0 ∷ []) ∷ [])
unfolding choose_bags get_number_of_combinations next_combination_including next_combination
    contains satisfy_predicate_for_metavars first_from
one_bag = refl

idle-IsBag : IsBag idle_task.search.meta_variables (0 ∷ []) (0 ∷ [])
unfolding satisfy_predicate_for_metavars
idle-IsBag = record { included = refl; let_through = refl }

run_events-choose_bags_example :
    (index : ℕ) × (bag_at idle_task index ≡ 0 ∷ []) × IsExhausted idle_task index
unfolding binom
run_events-choose_bags_example =
    run_events-choose_bags idle_task 0 0 [] idle-IsDigits 1 1 2 insertion (λ bags. bags) []
      ((0 ∷ []) ∷ []) ((0, 1) ∷ (1, 1) ∷ []) false all_events idle_end idle_end (omega arith)
      (tt, tt) (omega arith) (omega arith) (omega arith) one_of_one (omega arith) one_bag
      (λ bag e. e) (omega arith) (omega arith) ranges_run idle_run idle_waited refl refl (0 ∷ [])
      ((tt, tt), (omega arith, tt)) refl idle-IsBag
