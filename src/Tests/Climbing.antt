-- ===== src/Tests/Climbing.antt =====
-- A round with one bag, the cell (1, 1) of a square of size 2, and two threads.
use mathlib.Core.Option
use latin_squares_diploma_it.Prelude.{
  ℕ, zero, suc, ◌/◌, length, map, ◌≡◌, refl, arith, true, false, List, [], ◌∷◌, none, some, done,
  ltb→lt,
}
use latin_squares_diploma_it.Utils.Combination.{first_from}
use latin_squares_diploma_it.Utils.Odometer.{next_array}
use latin_squares_diploma_it.Cnf.Clause.{propagate_flipped}
use latin_squares_diploma_it.Net.Flips.{left_first, compute_flipped}
use latin_squares_diploma_it.Solver.State.{Solver}
use latin_squares_diploma_it.Solver.Bags.{MetaVariable}
use latin_squares_diploma_it.Solver.Check.{check_flipped, would_hold}
use latin_squares_diploma_it.Solver.Construct.{Search}
use latin_squares_diploma_it.Solver.Counts.{count_all}
use latin_squares_diploma_it.Solver.Tally.{weigh, total}
use latin_squares_diploma_it.Solver.Whole.{IsSound}
use latin_squares_diploma_it.Climb.Batches.{batches, IsDivision, batches-IsDivision}
use latin_squares_diploma_it.Climb.Worker.{Phase, Task, finished, fits, choice_flips}
use latin_squares_diploma_it.Climb.Threads.{Event, work, Threads, start_threads, run_events}
use latin_squares_diploma_it.Climb.Round.{wait_for, adopt}
use latin_squares_diploma_it.Climb.Sound.{IsSettled, run_events-IsSettled}
use latin_squares_diploma_it.Climb.Ascent.{HasOrderedChoices, Ascended, run_events-Ascended}
use latin_squares_diploma_it.Tests.Net.{lit}
use latin_squares_diploma_it.Tests.Solver.{
  solver, watched, sorted_first, solver-listed, solver-often, solver-short, solver-counts,
  solver-flags, solver-IsShaped,
}

abbrev plain : Solver
plain = record solver { net = record { finalized = []; literal_to_nodes = [] } }

plain-IsSound : IsSound plain watched
unfolding weigh total
plain-IsSound = record {
  tracked = record {
    shaped = record {
      flags = refl;
      within = λ c w. omega (arith, ltb→lt c 1 w);
      clauses = refl;
      weights = solver-IsShaped.weights;
    };
    indexed = record { listed = solver-listed; often = solver-often; short = solver-short };
    counts = solver-counts;
    flags = solver-flags;
    sum = refl;
    count = refl;
  };
  ordered = tt;
  index = tt;
  ready = tt;
}

-- With the value 1 the cell makes variable 2 true, and the first clause.
abbrev pub cell : MetaVariable
cell = record {
  matrix_index = 0;
  row_index = 1;
  column_index = 1;
  variables = (lit 2 false ∷ []) ∷ (lit 2 true ∷ []) ∷ [];
  values = 2 ∷ 1 ∷ [];
}

abbrev search_of : MetaVariable → Search
search_of v = record {
  solver = plain;
  meta_variables = v ∷ [];
  structured_meta_variables = ([] ∷ (none ∷ some 0 ∷ []) ∷ []) ∷ [];
  meta_values = ((1 ∷ 2 ∷ []) ∷ (2 ∷ 2 ∷ []) ∷ []) ∷ [];
  literal_to_meta_variable = none ∷ none ∷ some 0 ∷ none ∷ none ∷ [];
  sum_weights = 8;
  core_size = 2;
}

abbrev pub task_of : MetaVariable → Task
task_of v = record {
  order = left_first;
  search = search_of v;
  counts = count_all (search_of v).meta_values;
  bags = (0 ∷ []) ∷ [];
}

abbrev task : Task
task = task_of cell

abbrev events : List Event
events = work 0 ∷ work 1 ∷ work 0 ∷ work 0 ∷ work 0 ∷ work 0 ∷ work 0 ∷ work 1 ∷ []

abbrev pub ended : Threads
ended = record {
  shared = record {
    is_solution_found = true;
    stopped = false;
    counter = 1;
    solution = 2 ∷ [];
    new_meta_values = record { matrix_index = 0; row_index = 1; column_index = 1; value = 1 } ∷ [];
  };
  workers =
      record { start = 0; end = 1; phase = finished }
      ∷ record { start = 1; end = 1; phase = finished }
      ∷ [];
}

pub ranges_run : batches 1 2 ≡ done ((0, 1) ∷ (1, 1) ∷ [])
unfolding batches
ranges_run = refl

events_run : run_events task events (start_threads ((0, 1) ∷ (1, 1) ∷ []) false) ≡ some ended
unfolding run_events start_threads fits next_array check_flipped would_hold propagate_flipped
    compute_flipped count_all first_from
events_run = refl

waited : wait_for ended ≡ done ended
unfolding wait_for
waited = refl

run_events-IsSettled_example : IsSettled task ended.shared
run_events-IsSettled_example =
    run_events-IsSettled task ((0, 1) ∷ (1, 1) ∷ []) false events ended ended events_run waited

batches-IsDivision_example :
    (ranges : List (ℕ × ℕ)) × (batches 7 3 ≡ done ranges)
    × (length ranges ≡ 3)
    × IsDivision (7 / 3) 0 ranges 7
batches-IsDivision_example = batches-IsDivision 7 3 (omega arith) (omega arith)

-- Every choice of the cell flips variable 2 or nothing.
task-HasOrderedChoices : HasOrderedChoices task
unfolding choice_flips
task-HasOrderedChoices zero [] fit = (tt, tt)
task-HasOrderedChoices zero (zero ∷ digits) fit = (tt, tt)
task-HasOrderedChoices zero (suc zero ∷ digits) fit = ((tt, tt), ((omega arith, omega arith), tt))
task-HasOrderedChoices zero (suc (suc d) ∷ digits) fit = (tt, tt)
task-HasOrderedChoices (suc index) digits fit = (tt, tt)

run_events-Ascended_example :
    (q : Search) × (adopt left_first ended task.search ≡ done (q, true))
    × Ascended task.search q watched true
run_events-Ascended_example =
    run_events-Ascended task watched plain-IsSound sorted_first refl task-HasOrderedChoices
      ((0, 1) ∷ (1, 1) ∷ []) false events ended ended events_run waited

-- Both threads see the flag unset before one of them sets it: both store, and the new values are those
-- of both cells, while the solution is the flips of one.
abbrev racing : List Phase
racing =
    Phase.improve (2 ∷ [])
      (record { matrix_index = 0; row_index = 1; column_index = 1; value = 1 } ∷ [])
    ∷ Phase.improve (3 ∷ [])
        (record { matrix_index = 0; row_index = 0; column_index = 0; value = 2 } ∷ [])
    ∷ []

abbrev race_start : Threads
race_start = record {
  shared = record ended.shared { is_solution_found = false; solution = []; new_meta_values = [] };
  workers = map (λ p. record { start = 0; end = 1; phase = p }) racing;
}

abbrev stored : Threads → List ℕ × ℕ
stored threads = (threads.shared.solution, length threads.shared.new_meta_values)

both_store :
    Option.map stored
      (run_events task (work 0 ∷ work 1 ∷ work 0 ∷ work 1 ∷ work 0 ∷ work 1 ∷ []) race_start)
    ≡ some (3 ∷ [], 2)
unfolding run_events
both_store = refl
