-- ===== src/Climb/Threads.antt =====
-- The threads of a round together: events in some order, each the step of one thread or a signal.
use latin_squares_diploma_it.Prelude.{
  ℕ, Bool, true, false, List, [], ◌∷◌, map, Option, none, some, if◌then◌else◌, get_elem?, set,
}
use latin_squares_diploma_it.Climb.Worker.{
  Task, Shared, Phase, enter, finished, failed, Worker, step,
}

-- The signals of `handler`: SIGINT and SIGTERM, and others.
pub data Signal : Type 0 where
  sigint sigterm other : Signal

-- The first such signal sets `stopped`, a second one ends the program: `none`.
unfoldable pub handler : Signal → Bool → Option Bool
handler sigint stopped = if stopped then none else some true
handler sigterm stopped = if stopped then none else some true
handler other stopped = some stopped

pub data Event : Type 0 where
  work : ℕ → Event
  signal : Signal → Event

pub record Threads : Type 0 where
  pub shared : Shared
  pub workers : List Worker

-- The tasks as they are pushed, with the atomics of the round and the flag `stopped` of the program.
unfoldable pub start_threads : List (ℕ × ℕ) → Bool → Threads
start_threads ranges stopped = record {
  shared = record {
    is_solution_found = false;
    stopped = stopped;
    counter = 0;
    solution = [];
    new_meta_values = [];
  };
  workers = map (λ (r : ℕ × ℕ). record { start = r.0; end = r.1; phase = enter r.0 }) ranges;
}

-- `none` is the end of the program.
unfoldable pub happen : Task → Event → Threads → Option Threads
unfolding step handler
happen t (work i) threads = elim (get_elem? threads.workers i) [
  | none ↦ some threads
  | some w ↦
      let (phase, shared) = step t w threads.shared in
      some
        (record { shared = shared; workers = set threads.workers i (record w { phase = phase }) })
]
happen t (signal k) threads = elim (handler k threads.shared.stopped) [
  | none ↦ none
  | some stopped ↦ some (record threads { shared = record threads.shared { stopped = stopped } })
]

unfoldable pub run_events : Task → List Event → Threads → Option Threads
unfolding happen
run_events t [] threads = some threads
run_events t (e ∷ events) threads = elim (happen t e threads) [
  | none ↦ none
  | some threads' ↦ run_events t events threads'
]

abbrev pub is_finished : Worker → Bool
is_finished w = elim w.phase [
  | enter index ↦ false
  | Phase.attempt index digits ↦ false
  | Phase.leave index ↦ false
  | Phase.improve flipped values ↦ false
  | Phase.claim flipped values ↦ false
  | Phase.store flipped values ↦ false
  | finished ↦ true
  | failed ↦ false
]

abbrev pub is_failed : Worker → Bool
is_failed w = elim w.phase [
  | enter index ↦ false
  | Phase.attempt index digits ↦ false
  | Phase.leave index ↦ false
  | Phase.improve flipped values ↦ false
  | Phase.claim flipped values ↦ false
  | Phase.store flipped values ↦ false
  | finished ↦ false
  | failed ↦ true
]
