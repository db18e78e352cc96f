-- ===== src/Climb/Waits.antt =====
-- What the wait for the pool promises.
use latin_squares_diploma_it.Prelude.{
  ℕ, zero, suc, ◌+◌, ◌≤◌, ◌≡◌, ◌≢◌, refl, ap, arith, Bool, true, false, List, [], ◌∷◌, none, some,
  Bool-cases, Option-cases, inl, inr, ◌==◌, ==_iff, if◌then◌else◌, get_elem?, set, replicate,
  length, length-append,
}
use latin_squares_diploma_it.Climb.Entries.{some_injective}
use latin_squares_diploma_it.Climb.Pool.{
  push, counted, Stage, seek, busy, ran, seen, notify, Waiter, test, enter, wait, passed, Pool,
  pop_task, notify_all, worker_step, waiter_step, Turn, worker, waits, wakes, turn, turns, fresh,
}

-- The tasks that a worker runs, and those that it has not counted as done.
abbrev pub running : Stage → ℕ
running seek = 0
running (busy task) = 1
running ran = 0
running seen = 0
running notify = 0

abbrev pub uncounted : Stage → ℕ
uncounted seek = 0
uncounted (busy task) = 1
uncounted ran = 1
uncounted seen = 0
uncounted notify = 0

abbrev pub sum_of : (Stage → ℕ) → List Stage → ℕ
sum_of f [] = 0
sum_of f (s ∷ stages) = f s + sum_of f stages

sum_of-set :
    (f : Stage → ℕ) (stages : List Stage) (i : ℕ) (s s' : Stage)
    → get_elem? stages i ≡ some s
    → sum_of f (set stages i s') + f s ≡ sum_of f stages + f s'
sum_of-set f [] i s s' e = cc
sum_of-set f (x ∷ stages) zero s s' e = omega (arith, ap f (some_injective e))
sum_of-set f (x ∷ stages) (suc i) s s' e = omega (arith, sum_of-set f stages i s s' e)

-- The tasks that are counted and not in the queue yet, and those still to come into it.
abbrev pub on_the_way : Waiter → ℕ
on_the_way (push tasks) = 0
on_the_way (counted task tasks) = 1
on_the_way test = 0
on_the_way enter = 0
on_the_way wait = 0
on_the_way passed = 0

abbrev pub to_come : Waiter → ℕ
to_come (push tasks) = length tasks
to_come (counted task tasks) = suc (length tasks)
to_come test = 0
to_come enter = 0
to_come wait = 0
to_come passed = 0

-- The count is that of the tasks in the queue or on the way to it, and of those not counted as done; no
-- task is lost.
record IsCounted (pushed : ℕ) (p : Pool) : Type 0 where
  pub total : p.tasks_total ≡ length p.tasks + sum_of uncounted p.workers + on_the_way p.waiter
  pub all_there :
      length p.completed + length p.tasks + sum_of running p.workers + to_come p.waiter ≡ pushed
  pub zero_after : p.waiter ≡ passed → p.tasks_total ≡ 0

pub enter_ne_passed : enter ≢ passed
enter_ne_passed e = cc

pub wait_ne_passed : wait ≢ passed
wait_ne_passed e = cc

test_ne_passed : test ≢ passed
test_ne_passed e = cc

empty : (tasks : List ℕ) → length tasks ≡ 0 → tasks ≡ []
empty [] e = refl
empty (task ∷ tasks) e = absurd (omega (arith, e))

running_le : (stages : List Stage) → sum_of running stages ≤ sum_of uncounted stages
running_le [] = omega arith
running_le (seek ∷ stages) = omega (arith, running_le stages)
running_le (busy task ∷ stages) = omega (arith, running_le stages)
running_le (ran ∷ stages) = omega (arith, running_le stages)
running_le (seen ∷ stages) = omega (arith, running_le stages)
running_le (notify ∷ stages) = omega (arith, running_le stages)

seek-IsCounted :
    (pushed i : ℕ) (p : Pool) (tasks : List ℕ)
    → p.tasks ≡ tasks
    → get_elem? p.workers i ≡ some seek
    → IsCounted pushed p
    → IsCounted pushed (elim (pop_task tasks) as (λ o. Pool) [
      | none ↦ p
      | some (task, rest) ↦ record p { tasks = rest; workers = set p.workers i (busy task) }
    ])
unfolding pop_task
seek-IsCounted pushed i p [] e at c = c
seek-IsCounted pushed i p (task ∷ rest) e at c = record {
  total = omega (arith, c.total, ap length e, sum_of-set uncounted p.workers i seek (busy task) at);
  all_there =
      omega (arith, c.all_there, ap length e, sum_of-set running p.workers i seek (busy task) at);
  zero_after = c.zero_after;
}

free_after :
    (b : Bool)
    → (uncounted (if b then notify else seek) ≡ 0) × (running (if b then notify else seek) ≡ 0)
free_after true = (refl, refl)
free_after false = (refl, refl)

notify_all-passed : (w : Waiter) → notify_all w ≡ passed → w ≡ passed
unfolding notify_all
notify_all-passed (push tasks) e = e
notify_all-passed (counted task tasks) e = e
notify_all-passed test e = e
notify_all-passed enter e = e
notify_all-passed wait e = cc
notify_all-passed passed e = e

notify_all-same :
    (w : Waiter) → (on_the_way (notify_all w) ≡ on_the_way w) × (to_come (notify_all w) ≡ to_come w)
unfolding notify_all
notify_all-same (push tasks) = (refl, refl)
notify_all-same (counted task tasks) = (refl, refl)
notify_all-same test = (refl, refl)
notify_all-same enter = (refl, refl)
notify_all-same wait = (refl, refl)
notify_all-same passed = (refl, refl)

worker_step-IsCounted :
    (pushed i : ℕ) (s : Stage) (p : Pool)
    → get_elem? p.workers i ≡ some s
    → IsCounted pushed p
    → IsCounted pushed (worker_step i s p)
unfolding worker_step pop_task
worker_step-IsCounted pushed i seek p at c = seek-IsCounted pushed i p p.tasks refl at c
worker_step-IsCounted pushed i (busy task) p at c = record {
  total = omega (arith, c.total, sum_of-set uncounted p.workers i (busy task) ran at);
  all_there = omega (
    arith,
    c.all_there,
    sum_of-set running p.workers i (busy task) ran at,
    length-append p.completed (task ∷ []),
  );
  zero_after = c.zero_after;
}
worker_step-IsCounted pushed i ran p at c = record {
  total = omega (arith, c.total, sum_of-set uncounted p.workers i ran seen at);
  all_there = omega (arith, c.all_there, sum_of-set running p.workers i ran seen at);
  zero_after = λ e. omega (arith, c.zero_after e);
}
worker_step-IsCounted pushed i seen p at c =
    let next : Stage = if p.tasks_total == 0 then notify else seek in
    record {
      total = omega (
        arith,
        c.total,
        sum_of-set uncounted p.workers i seen next at,
        (free_after (p.tasks_total == 0)).0,
      );
      all_there = omega (
        arith,
        c.all_there,
        sum_of-set running p.workers i seen next at,
        (free_after (p.tasks_total == 0)).1,
      );
      zero_after = c.zero_after;
    }
worker_step-IsCounted pushed i notify p at c = record {
  total = omega (
    arith,
    c.total,
    sum_of-set uncounted p.workers i notify seek at,
    (notify_all-same p.waiter).0,
  );
  all_there = omega (
    arith,
    c.all_there,
    sum_of-set running p.workers i notify seek at,
    (notify_all-same p.waiter).1,
  );
  zero_after = λ e. c.zero_after (notify_all-passed p.waiter e);
}

waiter_step-IsCounted :
    (pushed : ℕ) (w : Waiter) (p : Pool)
    → p.waiter ≡ w
    → IsCounted pushed p
    → IsCounted pushed (waiter_step w p)
unfolding waiter_step
waiter_step-IsCounted pushed (push []) p e c = record {
  total = omega (arith, c.total, ap on_the_way e);
  all_there = omega (arith, c.all_there, ap to_come e);
  zero_after = λ t. absurd (test_ne_passed t);
}
waiter_step-IsCounted pushed (push (task ∷ tasks)) p e c = record {
  total = omega (arith, c.total, ap on_the_way e);
  all_there = omega (arith, c.all_there, ap to_come e);
  zero_after = λ t. cc;
}
waiter_step-IsCounted pushed (counted task tasks) p e c = record {
  total = omega (arith, c.total, ap on_the_way e, length-append p.tasks (task ∷ []));
  all_there = omega (arith, c.all_there, ap to_come e, length-append p.tasks (task ∷ []));
  zero_after = λ t. cc;
}
waiter_step-IsCounted pushed test p e c = elim (Bool-cases (p.tasks_total == 0)) [
  | inl none_left ↦ rw none_left (record {
    total = omega (arith, c.total, ap on_the_way e);
    all_there = omega (arith, c.all_there, ap to_come e);
    zero_after = λ t. (==_iff p.tasks_total 0).0 none_left;
  })
  | inr some_left ↦ rw some_left (record {
    total = omega (arith, c.total, ap on_the_way e);
    all_there = omega (arith, c.all_there, ap to_come e);
    zero_after = λ t. absurd (enter_ne_passed t);
  })
]
waiter_step-IsCounted pushed enter p e c = record {
  total = omega (arith, c.total, ap on_the_way e);
  all_there = omega (arith, c.all_there, ap to_come e);
  zero_after = λ t. absurd (wait_ne_passed t);
}
waiter_step-IsCounted pushed wait p e c = c
waiter_step-IsCounted pushed passed p e c = c

turn-IsCounted :
    (pushed : ℕ) (t : Turn) (p : Pool) → IsCounted pushed p → IsCounted pushed (turn t p)
unfolding turn
turn-IsCounted pushed waits p c = waiter_step-IsCounted pushed p.waiter p refl c
turn-IsCounted pushed wakes p c = record {
  total = omega (arith, c.total, (notify_all-same p.waiter).0);
  all_there = omega (arith, c.all_there, (notify_all-same p.waiter).1);
  zero_after = λ e. c.zero_after (notify_all-passed p.waiter e);
}
turn-IsCounted pushed (worker i) p c = elim (Option-cases (get_elem? p.workers i)) [
  | inl past ↦ rw (past, turn) c
  | inr (s, at) ↦ rw (at, turn) (worker_step-IsCounted pushed i s p at c)
]

turns-IsCounted :
    (pushed : ℕ) (ts : List Turn) (p : Pool) → IsCounted pushed p → IsCounted pushed (turns ts p)
unfolding turns
turns-IsCounted pushed [] p c = c
turns-IsCounted pushed (t ∷ ts) p c =
    turns-IsCounted pushed ts (turn t p) (turn-IsCounted pushed t p c)

idle_sum : (f : Stage → ℕ) (n : ℕ) → f seek ≡ 0 → sum_of f (replicate n seek) ≡ 0
idle_sum f zero e = refl
idle_sum f (suc n) e = omega (arith, e, idle_sum f n e)

-- Where wait_for_tasks_conditional has returned, whatever the order of the steps: the queue is empty,
-- no worker runs a task, and as many tasks have been run to their end as were pushed.
pub turns-passed :
    (thread_count : ℕ) (tasks : List ℕ) (ts : List Turn)
    → (turns ts (fresh thread_count tasks)).waiter ≡ passed
    → let p = turns ts (fresh thread_count tasks) in
      (p.tasks ≡ []) × (sum_of running p.workers ≡ 0) × (length p.completed ≡ length tasks)
turns-passed thread_count tasks ts e =
    let c : IsCounted (length tasks) (turns ts (fresh thread_count tasks)) =
      turns-IsCounted (length tasks) ts (fresh thread_count tasks) (record {
        total = omega (arith, idle_sum uncounted thread_count refl);
        all_there = omega (arith, idle_sum running thread_count refl);
        zero_after = λ e. cc;
      }) in
    let none_left = c.zero_after e in
    let quiet = running_le (turns ts (fresh thread_count tasks)).workers in
    (
      empty (turns ts (fresh thread_count tasks)).tasks (omega (arith, c.total, none_left)),
      omega (arith, c.total, none_left, quiet),
      omega (arith, c.all_there, c.total, none_left, quiet, ap to_come e),
    )
