-- ===== src/Climb/Round.antt =====
-- A round of `solve`, and its loop. What comes from outside is given for each round: the values of
-- `rand()`, the order that `std::shuffle` leaves, and the events of the threads.
use latin_squares_diploma_it.Prelude.{
  ℕ, ◌+◌, ◌-◌, ◌%◌, Bool, true, false, not, ◌&&◌, List, [], ◌∷◌, ◌++◌, Option, none, some, Outcome,
  done, fault, stuck, ◌>>=◌, or_fault, Sort, ltb, ◌==◌, if◌then◌else◌, length, all, any,
}
use latin_squares_diploma_it.Utils.Word.{u64_mod}
use latin_squares_diploma_it.Cnf.Clause.{Clause, propagate}
use latin_squares_diploma_it.Net.Flips.{SwapOrder}
use latin_squares_diploma_it.Solver.Apply.{apply_flipped}
use latin_squares_diploma_it.Solver.Cells.{Cells, set_cell}
use latin_squares_diploma_it.Solver.Construct.{Search}
use latin_squares_diploma_it.Solver.Counts.{count_all, suspects}
use latin_squares_diploma_it.Climb.Bags.{choose_bags}
use latin_squares_diploma_it.Climb.Batches.{batches}
use latin_squares_diploma_it.Climb.Worker.{Task, NewValue}
use latin_squares_diploma_it.Climb.Threads.{
  Event, Threads, start_threads, run_events, is_finished, is_failed,
}

-- The parameters of `solve`, the library's sorting, and fuel for the enumeration of bags.
pub record Config : Type 0 where
  pub thread_count : ℕ
  pub bag_size_end : ℕ
  pub order : SwapOrder
  pub sorting : Sort ℕ
  pub sort_bags : List (List ℕ) → List (List ℕ)
  pub fuel : ℕ

pub record Inputs : Type 0 where
  pub draws : List ℕ
  pub shuffle : List (List ℕ) → List (List ℕ)
  pub events : List Event

-- What a round leaves in its log file: the assignment, `q`, `n` and the size of the bags.
pub record Log : Type 0 where
  pub propagated : List ℕ
  pub q : ℕ
  pub n : ℕ
  pub bag_size : ℕ

pub record SolveState : Type 0 where
  pub search : Search
  pub bag_size : ℕ
  pub q : ℕ
  pub changed : Bool
  pub stopped : Bool
  pub logs : List Log

-- `metaValues[std::get<0>(mv)][std::get<1>(mv)][std::get<2>(mv)] = std::get<3>(mv)`
unfoldable pub store_values : List NewValue → Cells ℕ → Cells ℕ
unfolding set_cell
store_values [] meta_values = meta_values
store_values (mv ∷ values) meta_values = store_values values (
    set_cell mv.value
      (record {
        matrix_index = mv.matrix_index;
        row_index = mv.row_index;
        column_index = mv.column_index;
        variables = [];
        values = [];
      })
      meta_values)

-- What is done with a solution.
unfoldable pub adopt : SwapOrder → Threads → Search → Outcome (Search × Bool)
unfolding apply_flipped store_values
adopt order threads q = elim threads.shared.is_solution_found [
  | false ↦ done (q, false)
  | true ↦ or_fault (apply_flipped order q.solver threads.shared.solution) >>= λ r. done (
    record q {
      solver = r.0;
      meta_values = store_values threads.shared.new_meta_values q.meta_values;
    },
    true,
  )
]

-- The end of a round: the size of the bags grows where nothing was found, and a signal ends the loop.
unfoldable pub close_round : Config → ℕ → Bool → Search × Bool → SolveState → SolveState
close_round c n stopped found p =
    let grown = not found.1 && ltb p.bag_size c.bag_size_end in
    let bag_size = if grown then p.bag_size + 1 else p.bag_size in
    record p {
      search = found.0;
      bag_size = bag_size;
      q = p.q + 1;
      changed = if stopped then false else if grown then true else found.1;
      stopped = stopped;
      logs =
          p.logs
          ++ record {
            propagated = found.0.solver.propagated;
            q = p.q + 1;
            n = n;
            bag_size = bag_size;
          }
            ∷ [];
    }

-- The pool is waited for: a round ends when each thread has finished.
unfoldable pub wait_for : Threads → Outcome Threads
wait_for threads = elim (all is_finished threads.workers) [
  | true ↦ done threads
  | false ↦ if any is_failed threads.workers then fault else stuck
]

-- `none` is the end of the program by a second signal.
unfoldable pub round : Config → Inputs → SolveState → Outcome (Option SolveState)
unfolding count_all suspects choose_bags batches start_threads run_events wait_for adopt close_round
round c inputs p =
    let q = p.search in
    let vars =
      suspects q.literal_to_meta_variable (length q.meta_variables) 0 q.solver.literal_to_unsat
        [] in
    choose_bags c.fuel c.sorting c.sort_bags q.meta_variables p.bag_size vars inputs.draws
    >>= λ chosen.
        let bags = inputs.shuffle chosen in
        batches (length bags) c.thread_count >>= λ ranges.
        let task : Task = record {
          order = c.order;
          search = q;
          counts = count_all q.meta_values;
          bags = bags;
        } in
        elim (run_events task inputs.events (start_threads ranges p.stopped)) [
          | none ↦ done none
          | some threads ↦ wait_for threads >>= λ ended. adopt c.order ended q >>= λ found.
              done (some (close_round c (length bags) ended.shared.stopped found p))
        ]

-- The condition of the loop, without that on `q`, which fails only past 2^31 rounds.
abbrev pub goes_on : SolveState → Bool
goes_on p =
    p.changed
    && ltb 0
        ((length p.search.solver.clauses + u64_mod - p.search.solver.satisfied_count) % u64_mod)

-- The loop, over the inputs of its rounds.
unfoldable pub climb : Config → List Inputs → SolveState → Outcome (Option SolveState)
unfolding round
climb c [] p = if goes_on p then stuck else done (some p)
climb c (inputs ∷ rounds) p = elim (goes_on p) [
  | false ↦ done (some p)
  | true ↦ round c inputs p >>= λ r. elim r [ none ↦ done none | some p' ↦ climb c rounds p' ]
]

-- The last loop: how many clauses hold, and those that are written because they do not.
unfoldable pub count_clauses : List ℕ → List Clause → ℕ → ℕ × List Clause
unfolding propagate
count_clauses units [] counter = (counter, [])
count_clauses units (c ∷ clauses) counter =
    let holds = not (propagate c units == 0) in
    let rest = count_clauses units clauses (if holds then counter + 1 else counter) in
    (rest.0, if holds then rest.1 else c ∷ rest.1)

abbrev pub begin_solve : ℕ → Search → SolveState
begin_solve bag_size_start q = record {
  search = q;
  bag_size = bag_size_start;
  q = 0;
  changed = true;
  stopped = false;
  logs = [];
}

-- `solve`: the assignment that it returns with the number of clauses that it reports.
unfoldable pub solve : Config → ℕ → List Inputs → Search → Outcome (Option (List ℕ × ℕ × List Log))
unfolding climb count_clauses
solve c bag_size_start rounds q = climb c rounds (begin_solve bag_size_start q) >>= λ r. elim r [
  | none ↦ done none
  | some p ↦
      let s = p.search.solver in
      done (some (s.propagated, (count_clauses s.propagated s.clauses 0).0, p.logs))
]
