-- ===== src/Climb/Pool.antt =====
-- How the thread that calls `solve` waits for the pool: `push_task`, `reset_queue`,
-- `wait_for_tasks_conditional` and the worker of localsearch/utils/thread_pool.hpp, one access to a
-- shared variable at a time. Nothing pauses or ends the pool while it is waited for.
use latin_squares_diploma_it.Prelude.{
  ℕ, ◌+◌, ◌-◌, List, [], ◌∷◌, ◌++◌, Option, none, some, ◌==◌, if◌then◌else◌, get_elem?, set,
  replicate,
}

-- Where a worker stands: it looks for a task, runs one, has run one, has counted it as done, and has
-- seen the count at zero.
pub data Stage : Type 0 where
  seek : Stage
  busy : ℕ → Stage
  ran seen notify : Stage

-- Where the thread of `solve` stands: it is about to push the tasks of a list, or has counted the first
-- of them and not put it into the queue yet; then it reads the count, has seen it above zero, waits to
-- be notified, and has returned.
pub data Waiter : Type 0 where
  push : List ℕ → Waiter
  counted : ℕ → List ℕ → Waiter
  test enter wait passed : Waiter

-- A task is a number; `completed` are those that have been run to their end.
pub record Pool : Type 0 where
  pub tasks : List ℕ
  pub tasks_total : ℕ
  pub workers : List Stage
  pub waiter : Waiter
  pub completed : List ℕ

unfoldable pub pop_task : List ℕ → Option (ℕ × List ℕ)
pop_task [] = none
pop_task (task ∷ tasks) = some (task, tasks)

-- It removes one task, not all of them.
unfoldable pub reset_queue : Pool → Pool
unfolding pop_task
reset_queue p = elim (pop_task p.tasks) [
  | none ↦ p
  | some (task, tasks) ↦ record p { tasks = tasks; tasks_total = p.tasks_total - 1 }
]

-- `notifier.notify_all()`: who waits reads the count again; who does not wait yet hears nothing.
unfoldable pub notify_all : Waiter → Waiter
notify_all (push tasks) = push tasks
notify_all (counted task tasks) = counted task tasks
notify_all test = test
notify_all enter = enter
notify_all wait = test
notify_all passed = passed

-- The worker with number i takes a step.
unfoldable pub worker_step : ℕ → Stage → Pool → Pool
unfolding pop_task notify_all
worker_step i seek p = elim (pop_task p.tasks) [
  | none ↦ p
  | some (task, tasks) ↦ record p { tasks = tasks; workers = set p.workers i (busy task) }
]
worker_step i (busy task) p = record p {
  workers = set p.workers i ran;
  completed = p.completed ++ task ∷ [];
}
worker_step i ran p = record p { workers = set p.workers i seen; tasks_total = p.tasks_total - 1 }
worker_step i seen p = record p {
  workers = set p.workers i (if p.tasks_total == 0 then notify else seek);
}
worker_step i notify p = record p { workers = set p.workers i seek; waiter = notify_all p.waiter }

-- `push_task` in two steps: `tasks_total++`, and then the queue.
abbrev pub count_push : Pool → Pool
count_push p = record p { tasks_total = p.tasks_total + 1 }

abbrev pub queue_push : ℕ → Pool → Pool
queue_push task p = record p { tasks = p.tasks ++ task ∷ [] }

-- `push_task` for each task. Then `wait_for_tasks_conditional`:
-- the count is read, and the wait begins, in two steps. The wait ends by `notify_all`, or by a wake-up.
unfoldable pub waiter_step : Waiter → Pool → Pool
waiter_step (push []) p = record p { waiter = test }
waiter_step (push (task ∷ tasks)) p = record (count_push p) { waiter = counted task tasks }
waiter_step (counted task tasks) p = record (queue_push task p) { waiter = push tasks }
waiter_step test p = record p { waiter = if p.tasks_total == 0 then passed else enter }
waiter_step enter p = record p { waiter = wait }
waiter_step wait p = p
waiter_step passed p = p

-- A step of a worker, one of the thread of `solve`, or the end of its wait without a notification, which
-- `std::condition_variable::wait` allows at any time.
pub data Turn : Type 0 where
  worker : ℕ → Turn
  waits wakes : Turn

unfoldable pub turn : Turn → Pool → Pool
unfolding worker_step waiter_step notify_all
turn (worker i) p = elim (get_elem? p.workers i) [ none ↦ p | some stage ↦ worker_step i stage p ]
turn waits p = waiter_step p.waiter p
turn wakes p = record p { waiter = notify_all p.waiter }

unfoldable pub turns : List Turn → Pool → Pool
unfolding turn
turns [] p = p
turns (t ∷ rest) p = turns rest (turn t p)

-- A pool whose workers look for tasks, with tasks that are going to be pushed and waited for.
abbrev pub fresh : ℕ → List ℕ → Pool
fresh thread_count tasks = record {
  tasks = [];
  tasks_total = 0;
  workers = replicate thread_count seek;
  waiter = push tasks;
  completed = [];
}
