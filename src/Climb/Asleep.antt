-- ===== src/Climb/Asleep.antt =====
-- The wait for the pool after the last notification.
use latin_squares_diploma_it.Prelude.{
  All-get_elem?, ℕ, ◌≡◌, ◌≢◌, refl, sym, ap, ◌∙◌, subst, List, [], ◌∷◌, Option, none, some,
  Option-cases, ◌⊎◌, inl, inr, get_elem?, set, All,
}
use latin_squares_diploma_it.Climb.Waits.{enter_ne_passed, wait_ne_passed}
use latin_squares_diploma_it.Climb.Pool.{
  Stage, seek, busy, Waiter, enter, wait, passed, Pool, pop_task, worker_step, waiter_step, Turn,
  worker, waits, wakes, turn, turns,
}

-- A step that is no wake-up without a notification.
abbrev pub IsNotified : Turn → Type 0
IsNotified t = t ≢ wakes

abbrev IsAsleep : Waiter → Type 0
IsAsleep w = (w ≡ enter) ⊎ (w ≡ wait)

sleepy_ne_passed : {w : Waiter} → IsAsleep w → w ≢ passed
sleepy_ne_passed (inl h) e = enter_ne_passed (sym h ∙ e)
sleepy_ne_passed (inr h) e = wait_ne_passed (sym h ∙ e)

idle_turn :
    (i : ℕ) (p : Pool) → p.tasks ≡ [] → All (λ s. s ≡ seek) p.workers → turn (worker i) p ≡ p
unfolding turn worker_step pop_task
idle_turn i p none_left idle = elim (Option-cases (get_elem? p.workers i)) [
  | inl past ↦ rw (past, turn) refl
  | inr (s, at) ↦
      let looking : s ≡ seek = All-get_elem? (λ s. s ≡ seek) p.workers i s at idle in
      ap (λ (o : Option Stage). elim o as (λ o. Pool) [ none ↦ p | some s ↦ worker_step i s p ])
        (at ∙ ap some looking)
      ∙ ap
          (λ (tasks : List ℕ). elim (pop_task tasks) as (λ o. Pool) [
            | none ↦ p
            | some (task, rest) ↦ record p { tasks = rest; workers = set p.workers i (busy task) }
          ])
          none_left
]

turns-IsAsleep :
    (ts : List Turn) (p : Pool)
    → All IsNotified ts
    → p.tasks ≡ []
    → All (λ s. s ≡ seek) p.workers
    → IsAsleep p.waiter
    → IsAsleep (turns ts p).waiter
unfolding turns turn worker_step pop_task waiter_step
turns-IsAsleep [] p calm none_left idle w = w
turns-IsAsleep (wakes ∷ ts) p calm none_left idle w = absurd (calm.0 refl)
turns-IsAsleep (waits ∷ ts) p calm none_left idle w = elim w [
  | inl e ↦
      subst (λ (q : Pool). IsAsleep (turns ts q).waiter)
        (ap (λ (w : Waiter). waiter_step w p) (sym e))
        (turns-IsAsleep ts (record p { waiter = wait }) calm.1 none_left idle (inr refl))
  | inr e ↦
      subst (λ (q : Pool). IsAsleep (turns ts q).waiter)
        (ap (λ (w : Waiter). waiter_step w p) (sym e))
        (turns-IsAsleep ts p calm.1 none_left idle (inr e))
]
turns-IsAsleep (worker i ∷ ts) p calm none_left idle w =
    subst (λ (q : Pool). IsAsleep (turns ts q).waiter) (sym (idle_turn i p none_left idle))
      (turns-IsAsleep ts p calm.1 none_left idle w)

-- Where the queue is empty and the workers look for tasks, and the waiting thread has read the
-- count before and does not wait yet: in no sequence of steps without a wake-up that was not
-- notified does wait_for_tasks_conditional return.
pub turns_never_pass :
    (ts : List Turn) (p : Pool)
    → All IsNotified ts
    → p.tasks ≡ []
    → All (λ s. s ≡ seek) p.workers
    → p.waiter ≡ enter
    → (turns ts p).waiter ≢ passed
turns_never_pass ts p calm none_left idle w e =
    sleepy_ne_passed (turns-IsAsleep ts p calm none_left idle (inl w)) e
