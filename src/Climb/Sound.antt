-- ===== src/Climb/Sound.antt =====
-- What the threads of a round leave behind, in whatever order they run.
use mathlib.Core.Bool.{false≢true}
use latin_squares_diploma_it.Prelude.{
  All-set, All-get_elem?, ℕ, ◌≡◌, refl, sym, ◌∙◌, ap, subst, Bool, true, false, ◌||◌, List, [], ◌∷◌,
  ◌++◌, some, Bool-cases, ◌⊎◌, inl, inr, All, any, all, get_elem?, set, done,
}
use latin_squares_diploma_it.Climb.Worker.{
  Task, NewValue, Shared, Phase, enter, finished, failed, Worker,
}
use latin_squares_diploma_it.Climb.Threads.{
  Event, Threads, start_threads, run_events, is_finished, is_failed,
}
use latin_squares_diploma_it.Climb.Round.{wait_for}
use latin_squares_diploma_it.Climb.Entries.{
  and_true, done_injective, fault_ne_done, stuck_ne_done, any-set, any-set-true, any-get_elem?,
}
use latin_squares_diploma_it.Climb.Runs.{Happened, nothing, worker_step, stopping, run_events-Keeps}
use latin_squares_diploma_it.Climb.Moves.{
  Improving, Holds, is_storing, Move, looks, claims, stores, step-Move,
}

-- The solution of a round is that of an improving choice, whose values were stored last.
pub record Written (t : Task) (s : Shared) : Type 0 where
  pub values : List NewValue
  pub before : List NewValue
  pub improving : Improving t s.solution values
  pub last : s.new_meta_values ≡ before ++ values

abbrev pub stores_now : Worker → Bool
stores_now w = is_storing w.phase

pub record IsSoundRun (t : Task) (threads : Threads) : Type 0 where
  pub in_hand : All (λ w. Holds t w.phase) threads.workers
  pub unfound :
      threads.shared.is_solution_found ≡ false
      → (threads.shared.solution ≡ [])
        × (threads.shared.new_meta_values ≡ [])
        × (any stores_now threads.workers ≡ false)
  pub found :
      threads.shared.is_solution_found ≡ true
      → Written t threads.shared ⊎ (any stores_now threads.workers ≡ true)

module _ (t : Task) (threads : Threads) (i : ℕ) (w : Worker)
    (at : get_elem? threads.workers i ≡ some w) (sound : IsSoundRun t threads) where
  in_hand : Holds t w.phase
  in_hand = All-get_elem? (λ v. Holds t v.phase) threads.workers i w at sound.in_hand

  worker_moves :
      (p : Phase) (s : Shared)
      → Move t w.phase threads.shared p s
      → IsSoundRun t
          (record { shared = s; workers = set threads.workers i (record w { phase = p }) })
  worker_moves p s (looks l) = record {
    in_hand =
        All-set (λ v. Holds t v.phase) threads.workers i (record w { phase = p })
          (l.in_hand in_hand) sound.in_hand;
    unfound = λ e.
        let (a, b, c) = sound.unfound (sym l.found ∙ e) in
        (l.solution ∙ a, l.new_meta_values ∙ b, same_stores ∙ c);
    found = λ e. elim (sound.found (sym l.found ∙ e)) [
      | inl written ↦ inl (record {
        values = written.values;
        before = written.before;
        improving = rw l.solution written.improving;
        last = l.new_meta_values ∙ written.last;
      })
      | inr storing ↦ inr (same_stores ∙ storing)
    ];
  }
    where
      same_stores :
          any stores_now (set threads.workers i (record w { phase = p }))
          ≡ any stores_now threads.workers
      same_stores =
          any-set stores_now threads.workers i w (record w { phase = p }) at
            (l.after ∙ sym l.before)
  worker_moves p s (claims f v e e' es) =
      rw (e', es)
        (record {
          in_hand =
              All-set (λ v. Holds t v.phase) threads.workers i _ (subst (Holds t) e in_hand)
                sound.in_hand;
          unfound = λ e. cc;
          found = λ e. inr (any-set-true stores_now threads.workers i w _ at refl);
        })
  worker_moves p s (stores f v e e' es) =
      rw (e', es)
        (record {
          in_hand = All-set (λ v. Holds t v.phase) threads.workers i _ tt sound.in_hand;
          unfound = λ u. absurd (
              false≢true (
                sym (
                  sym (ap is_storing e)
                  ∙ any-get_elem? stores_now threads.workers i w at (sound.unfound u).2)));
          found = λ _. inl (record {
            values = v;
            before = threads.shared.new_meta_values;
            improving = subst (Holds t) e in_hand;
            last = refl;
          });
        })

Happened-IsSoundRun : (t : Task) (a b : Threads) → IsSoundRun t a → Happened t a b → IsSoundRun t b
Happened-IsSoundRun t a b sound (nothing e) = subst (IsSoundRun t) e sound
Happened-IsSoundRun t a b sound (worker_step i w at e) =
    subst (IsSoundRun t) e
      (worker_moves t a i w at sound _ _ (step-Move t w.start w.end w.phase a.shared))
Happened-IsSoundRun t a b sound (stopping e) = subst (IsSoundRun t) e (record {
  in_hand = sound.in_hand;
  unfound = sound.unfound;
  found = λ f. elim (sound.found f) [
    | inl written ↦ inl (record {
      values = written.values;
      before = written.before;
      improving = written.improving;
      last = written.last;
    })
    | inr storing ↦ inr storing
  ];
})

start_threads-IsSoundRun :
    (t : Task) (ranges : List (ℕ × ℕ)) (stopped : Bool)
    → IsSoundRun t (start_threads ranges stopped)
unfolding start_threads
start_threads-IsSoundRun t ranges stopped = record {
  in_hand = none_in_hand ranges;
  unfound = λ e. (refl, refl, none_storing ranges);
  found = λ e. cc;
}
  where
    none_in_hand :
        (ranges : List (ℕ × ℕ)) → All (λ w. Holds t w.phase) (start_threads ranges stopped).workers
    none_in_hand [] = tt
    none_in_hand (r ∷ ranges) = (tt, none_in_hand ranges)

    none_storing :
        (ranges : List (ℕ × ℕ)) → any stores_now (start_threads ranges stopped).workers ≡ false
    none_storing [] = refl
    none_storing (r ∷ ranges) = none_storing ranges

finished_none :
    (workers : List Worker) → all is_finished workers ≡ true → any stores_now workers ≡ false
finished_none [] e = refl
finished_none (w ∷ workers) e =
    let (ended, rest) = and_true (is_finished w) (all is_finished workers) e in
    rw (finished_none workers rest) (none_in w.phase ended)
  where
    none_in :
        (p : Phase)
        → is_finished (record { start = 0; end = 0; phase = p }) ≡ true
        → (is_storing p || false) ≡ false
    none_in (enter index) e = refl
    none_in (Phase.attempt index digits) e = refl
    none_in (Phase.leave index) e = refl
    none_in (Phase.improve f v) e = refl
    none_in (Phase.claim f v) e = refl
    none_in (Phase.store f v) e = cc
    none_in finished e = refl
    none_in failed e = refl

-- Nothing was found and nothing stored, or the solution is that of an improving choice.
abbrev pub IsSettled : Task → Shared → Type 0
IsSettled t s =
    ((s.is_solution_found ≡ false) × (s.solution ≡ []) × (s.new_meta_values ≡ []))
    ⊎ ((s.is_solution_found ≡ true) × Written t s)

pub wait_for-finished :
    (threads ended : Threads)
    → wait_for threads ≡ done ended
    → (threads ≡ ended) × (all is_finished threads.workers ≡ true)
unfolding wait_for
wait_for-finished threads ended e = elim (Bool-cases (all is_finished threads.workers)) [
  | inl all_ended ↦ (done_injective (rw (all_ended, wait_for) at e), all_ended)
  | inr some_run ↦ elim (Bool-cases (any is_failed threads.workers)) [
    | inl fails ↦ absurd (fault_ne_done (rw (some_run, fails, wait_for) at e))
    | inr waits ↦ absurd (stuck_ne_done (rw (some_run, waits, wait_for) at e))
  ]
]

-- In whatever order the threads of a round run, and whenever signals arrive: once the pool has been
-- waited for, either the flag is unset and nothing was stored, or the solution is the flips of a choice
-- of values that fits its bag and for which check_flipped answered true, and the values of this choice
-- were stored last.
pub run_events-IsSettled :
    (t : Task) (ranges : List (ℕ × ℕ)) (stopped : Bool) (events : List Event)
    (threads ended : Threads)
    → run_events t events (start_threads ranges stopped) ≡ some threads
    → wait_for threads ≡ done ended
    → IsSettled t ended.shared
run_events-IsSettled t ranges stopped events threads ended e w =
    let (same, all_ended) = wait_for-finished threads ended w in
    let sound =
      run_events-Keeps t (IsSoundRun t) (Happened-IsSoundRun t) events
        (start_threads ranges stopped) threads e (start_threads-IsSoundRun t ranges stopped) in
    subst (λ (a : Threads). IsSettled t a.shared) same
      (elim (Bool-cases threads.shared.is_solution_found) [
        | inl found ↦ elim (sound.found found) [
          | inl written ↦ inr (found, written)
          | inr storing ↦
              absurd (false≢true (sym (finished_none threads.workers all_ended) ∙ storing))
        ]
        | inr unfound ↦ let (a, b, c) = sound.unfound unfound in inl (unfound, a, b)
      ])
