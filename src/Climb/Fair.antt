-- ===== src/Climb/Fair.antt =====
-- The steps of the threads of a round of `solve`, counted over a sequence of events.
use mathlib.Core.Bool.{false≢true}
use latin_squares_diploma_it.Prelude.{
  All-get_elem?, ℕ, zero, suc, ◌-◌, ◌≤◌, ◌<◌, ◌≡◌, refl, sym, ap, ◌∙◌, subst, arith, Bool, true,
  false, List, [], ◌∷◌, map, some, done, fault, Bool-cases, Option-cases, ◌⊎◌, inl, inr, All, all,
  any, ◌==◌, ==_iff, length, count, get_elem?, get_elem?-set_ne, get_elem?-set_self, if◌then◌else◌,
}
use latin_squares_diploma_it.Utils.Word.{u32_mod}
use latin_squares_diploma_it.Utils.Odometer.{IsDigits}
use latin_squares_diploma_it.Climb.Batches.{batches}
use latin_squares_diploma_it.Climb.Worker.{
  Task, Shared, Phase, enter, finished, failed, Worker, indices_of, zeros_of, step,
}
use latin_squares_diploma_it.Climb.Threads.{
  handler, Event, work, signal, Threads, start_threads, happen, run_events, is_finished, is_failed,
}
use latin_squares_diploma_it.Climb.Round.{wait_for}
use latin_squares_diploma_it.Climb.Entries.{or_true, some_injective, none_ne_some}
use latin_squares_diploma_it.Climb.Runs.{worked, happen-Happened, run_events-Keeps}
use latin_squares_diploma_it.Climb.Explored.{
  Knows, Explores, Happened-Explores, divided_start, range_of,
}
use latin_squares_diploma_it.Climb.Ends.{steps_from, steps_from-pos, steps_left, step-steps}

-- Whether an event is a step of a thread.
abbrev pub is_own : ℕ → Event → Bool
is_own i (work j) = j == i
is_own i (signal k) = false

lt_of_get_elem? :
    {A : Type 0} (xs : List A) (i : ℕ) (x : A) → get_elem? xs i ≡ some x → i < length xs
lt_of_get_elem? [] i x e = cc
lt_of_get_elem? (y ∷ xs) zero x e = omega arith
lt_of_get_elem? (y ∷ xs) (suc i) x e = omega (arith, lt_of_get_elem? xs i x e)

All-of_entries :
    {A : Type 0} (P : A → Type 0) (xs : List A)
    → ((i : ℕ) (x : A) → get_elem? xs i ≡ some x → P x)
    → All P xs
All-of_entries P [] h = tt
All-of_entries P (x ∷ xs) h = (h 0 x refl, All-of_entries P xs (λ i y e. h (suc i) y e))

get_elem?-map :
    {A B : Type 0} (f : A → B) (xs : List A) (i : ℕ) (x : A)
    → get_elem? xs i ≡ some x
    → get_elem? (map f xs) i ≡ some (f x)
get_elem?-map f [] i x e = cc
get_elem?-map f (y ∷ xs) zero x e = ap (λ z. some (f z)) (some_injective e)
get_elem?-map f (y ∷ xs) (suc i) x e = get_elem?-map f xs i x e

-- A thread without steps has ended.
ended_phase :
    (t : Task) (start end : ℕ) (p : Phase)
    → steps_left t end p ≡ 0
    → let w : Worker = record { start = start; end = end; phase = p } in
      (is_finished w ≡ true) ⊎ (is_failed w ≡ true)
ended_phase t start end (enter index) h =
    absurd (omega (arith, h, steps_from-pos t (end - index) index))
ended_phase t start end (Phase.attempt index digits) h = absurd (omega (arith, h))
ended_phase t start end (Phase.leave index) h = absurd (omega (arith, h))
ended_phase t start end (Phase.improve f v) h = absurd (omega (arith, h))
ended_phase t start end (Phase.claim f v) h = absurd (omega (arith, h))
ended_phase t start end (Phase.store f v) h = absurd (omega (arith, h))
ended_phase t start end finished h = inl refl
ended_phase t start end failed h = inr refl

ends_all :
    (t : Task) (workers : List Worker)
    → All (λ (v : Worker). steps_left t v.end v.phase ≡ 0) workers
    → (all is_finished workers ≡ true) ⊎ (any is_failed workers ≡ true)
ends_all t [] h = inl refl
ends_all t (w ∷ workers) h = elim (ended_phase t w.start w.end w.phase h.0) [
  | inr fails ↦ inr (rw fails refl)
  | inl ends ↦ elim (ends_all t workers h.1) [
    | inl rest ↦ inl (rw (ends, rest) refl)
    | inr fails ↦ inr (rw fails (or_true (is_failed w)))
  ]
]

module _ (t : Task) where
  abbrev stepped : Shared → Worker → Worker
  stepped s w = record w { phase = (step t w s).0 }

  happen_entry :
      (event : Event) (a b : Threads) (i : ℕ) (w : Worker)
      → happen t event a ≡ some b
      → get_elem? a.workers i ≡ some w
      → ((is_own i event ≡ true) × (get_elem? b.workers i ≡ some (stepped a.shared w)))
        ⊎ ((is_own i event ≡ false) × (get_elem? b.workers i ≡ some w))
  unfolding happen
  happen_entry (work j) a b i w e at = elim (Option-cases (get_elem? a.workers j)) [
    | inl past ↦ inr (
      elim (Bool-cases (j == i)) [
        | inl own ↦
            absurd (none_ne_some (sym past ∙ ap (get_elem? a.workers) ((==_iff j i).0 own) ∙ at))
        | inr other ↦ other
      ],
      subst (λ (b : Threads). get_elem? b.workers i ≡ some w)
          (some_injective (rw (past, happen) at e)) at,
    )
    | inr (v, there) ↦
        let made : worked t a j v ≡ b = some_injective (rw (there, happen) at e) in
        elim (Bool-cases (j == i)) [
          | inl own ↦
              let same = (==_iff j i).0 own in
              let v_is : v ≡ w = some_injective (sym there ∙ ap (get_elem? a.workers) same ∙ at) in
              inl (
                own,
                subst (λ (b : Threads). get_elem? b.workers i ≡ some (stepped a.shared w)) made
                    (ap (get_elem? _) (sym same)
                      ∙ get_elem?-set_self a.workers j _ (lt_of_get_elem? a.workers j v there)
                      ∙ ap (λ u. some (stepped a.shared u)) v_is),
              )
          | inr other ↦ inr (
            other,
            subst (λ (b : Threads). get_elem? b.workers i ≡ some w) made
                (get_elem?-set_ne a.workers j i _ (λ e. false≢true (sym other ∙ (==_iff j i).1 e))
                  ∙ at),
          )
        ]
  ]
  happen_entry (signal k) a b i w e at = elim (Option-cases (handler k a.shared.stopped)) [
    | inl ends ↦ absurd (none_ne_some (rw (ends, happen) at e))
    | inr (c, h) ↦ inr (
      refl,
      subst (λ (b : Threads). get_elem? b.workers i ≡ some w) (some_injective (rw (h, happen) at e))
          at,
    )
  ]

  module _ (full : (index : ℕ) → IsDigits (zeros_of t index) (indices_of t index)) where
    step_counts :
        (ranges : List (ℕ × ℕ)) (event : Event) (a b : Threads) (i : ℕ) (w : Worker)
        → Explores t full ranges a
        → happen t event a ≡ some b
        → get_elem? a.workers i ≡ some w
        → (p : Phase) × (get_elem? b.workers i ≡ some (record w { phase = p }))
          × (steps_left t w.end p ≤ steps_left t w.end w.phase - (if is_own i event then 1 else 0))
    step_counts ranges event a b i w x e at = elim (happen_entry event a b i w e at) [
      | inl (own, entry) ↦
          let knows = All-get_elem? (Knows t full a.shared) a.workers i w at x.known in
          (
            (step t w a.shared).0,
            entry,
            rw own (step-steps t w.end w.start w.phase a.shared knows.0 knows.1),
          )
      | inr (other, entry) ↦ (w.phase, entry, rw other (omega arith))
    ]

    run_counts :
        (ranges : List (ℕ × ℕ)) (events : List Event) (a b : Threads) (i : ℕ) (w : Worker)
        → Explores t full ranges a
        → run_events t events a ≡ some b
        → get_elem? a.workers i ≡ some w
        → (p : Phase) × (get_elem? b.workers i ≡ some (record w { phase = p }))
          × (steps_left t w.end p ≤ steps_left t w.end w.phase - count (is_own i) events)
    unfolding run_events
    run_counts ranges [] a b i w x e at = (
      w.phase,
      subst (λ (b : Threads). get_elem? b.workers i ≡ some w) (some_injective e) at,
      omega arith,
    )
    run_counts ranges (event ∷ events) a b i w x e at = elim (Option-cases (happen t event a)) [
      | inl ends ↦ absurd (none_ne_some (rw (ends, run_events) at e))
      | inr (c, h) ↦
          let (p, entry, less) = step_counts ranges event a c i w x h at in
          let (q, last, more) =
            run_counts ranges events c b i (record w { phase = p })
              (Happened-Explores t full ranges a c x (happen-Happened t event a c h))
              (rw (h, run_events) at e) entry in
          (q, last, omega (arith, less, more))
    ]

    all_counted :
        (ranges : List (ℕ × ℕ)) (stopped : Bool) (events : List Event) (last : Threads)
        → Explores t full ranges (start_threads ranges stopped)
        → Explores t full ranges last
        → run_events t events (start_threads ranges stopped) ≡ some last
        → ((i start end : ℕ)
            → get_elem? ranges i ≡ some (start, end)
            → steps_from t (end - start) start ≤ count (is_own i) events)
        → (i : ℕ) (v : Worker) → get_elem? last.workers i ≡ some v
        → steps_left t v.end v.phase ≡ 0
    unfolding start_threads
    all_counted ranges stopped events last x y run enough i v at =
        let range : get_elem? ranges i ≡ some (v.start, v.end) =
          ap (λ (rs : List (ℕ × ℕ)). get_elem? rs i) (sym y.ranges_kept)
          ∙ get_elem?-map range_of last.workers i v at in
        let w : Worker = record { start = v.start; end = v.end; phase = enter v.start } in
        let entry : get_elem? (start_threads ranges stopped).workers i ≡ some w =
          get_elem?-map _ ranges i (v.start, v.end) range in
        let (p, there, less) =
          run_counts ranges events (start_threads ranges stopped) last i w x run entry in
        let same : v ≡ record w { phase = p } = some_injective (sym at ∙ there) in
        subst (λ (u : Worker). steps_left t u.end u.phase ≡ 0) (sym same)
          (omega (arith, less, enough i v.start v.end range))

    -- Where the sizes of the choices fit 32 bits and none is zero, and the bags are divided among the
    -- threads as solve does it: whatever the order of the events, once each thread has taken as many
    -- steps as there are choices of values of its bags, with four more for each bag and one more, the
    -- wait for the pool is over: every thread has finished, or a check has read out of range.
    pub run_events-ends :
        (threads : ℕ) (ranges : List (ℕ × ℕ)) (stopped : Bool) (events : List Event)
        (last : Threads)
        → length t.bags < u32_mod
        → 0 < threads
        → batches (length t.bags) threads ≡ done ranges
        → run_events t events (start_threads ranges stopped) ≡ some last
        → ((i start end : ℕ)
            → get_elem? ranges i ≡ some (start, end)
            → steps_from t (end - start) start ≤ count (is_own i) events)
        → (wait_for last ≡ done last)
          ⊎ ((wait_for last ≡ fault) × (any is_failed last.workers ≡ true))
    unfolding wait_for
    run_events-ends threads ranges stopped events last small some_thread divided run enough =
        let (division, x) = divided_start t full threads ranges stopped small some_thread divided in
        let y =
          run_events-Keeps t (Explores t full ranges) (Happened-Explores t full ranges) events
            (start_threads ranges stopped) last run x in
        elim (ends_all t last.workers (
          All-of_entries (λ v. steps_left t v.end v.phase ≡ 0) last.workers
            (all_counted ranges stopped events last x y run enough))) [
              | inl all_finished ↦ inl (rw (all_finished, wait_for) refl)
              | inr fails ↦ elim (Bool-cases (all is_finished last.workers)) [
                | inl all_finished ↦ inl (rw (all_finished, wait_for) refl)
                | inr others ↦ inr (rw (others, fails, wait_for) refl, fails)
              ]
            ]
