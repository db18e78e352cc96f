-- ===== src/Tests/Waiting.antt =====
-- A pool of one worker with one task.
use latin_squares_diploma_it.Prelude.{◌≢◌, length, ◌≡◌, refl, List, [], ◌∷◌}
use latin_squares_diploma_it.Climb.Pool.{
  seek, Waiter, passed, Pool, pop_task, notify_all, Turn, worker, waits, wakes, turns, fresh,
}
use latin_squares_diploma_it.Climb.Waits.{running, sum_of, turns-passed}
use latin_squares_diploma_it.Climb.Asleep.{turns_never_pass}

-- The last notification comes between the test of the count and the wait.
abbrev lost : List Turn
lost = waits ∷ waits ∷ waits ∷ waits ∷ worker 0 ∷ worker 0 ∷ worker 0 ∷ worker 0 ∷ worker 0 ∷ []

abbrev lost_pool : Pool
lost_pool = record {
  tasks = [];
  tasks_total = 0;
  workers = seek ∷ [];
  waiter = Waiter.enter;
  completed = 7 ∷ [];
}

lost_wakeup : turns lost (fresh 1 (7 ∷ [])) ≡ lost_pool
unfolding turns pop_task notify_all
lost_wakeup = refl

-- With a wake-up it returns.
woken : (turns (waits ∷ wakes ∷ waits ∷ []) lost_pool).waiter ≡ passed
unfolding turns
woken = refl

turns_never_pass_example : (turns (waits ∷ worker 0 ∷ waits ∷ []) lost_pool).waiter ≢ passed
turns_never_pass_example =
    turns_never_pass (waits ∷ worker 0 ∷ waits ∷ []) lost_pool (λ e. cc, (λ e. cc, (λ e. cc, tt)))
      refl (refl, tt) refl

abbrev in_time : List Turn
in_time = waits ∷ waits ∷ waits ∷ worker 0 ∷ worker 0 ∷ worker 0 ∷ waits ∷ []

in_time_passes : (turns in_time (fresh 1 (7 ∷ []))).waiter ≡ passed
unfolding turns pop_task
in_time_passes = refl

turns-passed_example :
    let p = turns in_time (fresh 1 (7 ∷ [])) in
    (p.tasks ≡ []) × (sum_of running p.workers ≡ 0) × (length p.completed ≡ 1)
turns-passed_example = turns-passed 1 (7 ∷ []) in_time in_time_passes
