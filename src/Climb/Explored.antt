-- ===== src/Climb/Explored.antt =====
-- The bags that the threads of a round of `solve` have tried together.
use mathlib.Core.Bool.{false≢true}
use native.Mathlib.Decide.{dec_lt}
use latin_squares_diploma_it.Prelude.{
  All-set, All-get_elem?, ℕ, zero, suc, ◌/◌, ◌≤◌, ◌<◌, ◌≡◌, refl, sym, ap, ◌∙◌, subst, arith, Bool,
  true, false, List, [], ◌∷◌, map, some, done, inl, inr, All, All-map, all, length, get_elem?, set,
}
use latin_squares_diploma_it.Utils.Word.{u32_mod}
use latin_squares_diploma_it.Utils.Odometer.{IsDigits}
use latin_squares_diploma_it.Climb.Batches.{batches, IsDivision, batches-IsDivision}
use latin_squares_diploma_it.Climb.Worker.{
  Task, Shared, Phase, enter, finished, failed, Worker, indices_of, zeros_of,
}
use latin_squares_diploma_it.Climb.Threads.{Event, Threads, start_threads, run_events, is_finished}
use latin_squares_diploma_it.Climb.Round.{wait_for}
use latin_squares_diploma_it.Climb.Entries.{some_injective, and_true, done_injective}
use latin_squares_diploma_it.Climb.Runs.{
  worked, with_stopped, Happened, nothing, worker_step, stopping, run_events-Keeps,
}
use latin_squares_diploma_it.Climb.Moves.{Move, looks, claims, stores, step-Move}
use latin_squares_diploma_it.Climb.Sound.{wait_for-finished}
use latin_squares_diploma_it.Climb.Tried.{IsExhausted, Tried, Tried-raise, step-Tried, AreExhausted}

abbrev pub range_of : Worker → ℕ × ℕ
range_of w = (w.start, w.end)

map-set :
    {A B : Type 0} (f : A → B) (xs : List A) (i : ℕ) (x v : A)
    → get_elem? xs i ≡ some x
    → f v ≡ f x
    → map f (set xs i v) ≡ map f xs
map-set f [] i x v e h = refl
map-set f (y ∷ xs) zero x v e h = ap (λ b. b ∷ map f xs) (h ∙ ap f (sym (some_injective e)))
map-set f (y ∷ xs) (suc i) x v e h = ap (λ r. f y ∷ r) (map-set f xs i x v e h)

-- A step sets flags, and clears none.
found_raised :
    {t : Task} {p p' : Phase} {s s' : Shared}
    → Move t p s p' s'
    → s.is_solution_found ≡ true
    → s'.is_solution_found ≡ true
found_raised (looks l) f = l.found ∙ f
found_raised (claims _ _ _ _ e) f = ap (λ (s : Shared). s.is_solution_found) e
found_raised (stores _ _ _ _ e) f = ap (λ (s : Shared). s.is_solution_found) e ∙ f

stopped_raised :
    {t : Task} {p p' : Phase} {s s' : Shared}
    → Move t p s p' s'
    → s.stopped ≡ true
    → s'.stopped ≡ true
stopped_raised (looks l) f = l.stopped ∙ f
stopped_raised (claims _ _ _ _ e) f = ap (λ (s : Shared). s.stopped) e ∙ f
stopped_raised (stores _ _ _ _ e) f = ap (λ (s : Shared). s.stopped) e ∙ f

pub division_within :
    (size prev n : ℕ) (ranges : List (ℕ × ℕ))
    → IsDivision size prev ranges n
    → (prev ≤ n) × All (λ r. (r.0 ≤ r.1) × (r.1 ≤ n)) ranges
division_within size prev n [] d = (omega arith, tt)
division_within size prev n ((start, end) ∷ ranges) (a, b, c) =
    let (le, rest) = division_within size end n ranges c in
    let up : start ≤ end = elim b [ inl e ↦ omega arith | inr e ↦ omega arith ] in
    (omega arith, ((up, le), rest))

module _ (t : Task) (full : (index : ℕ) → IsDigits (zeros_of t index) (indices_of t index)) where
  abbrev pub Knows : Shared → Worker → Type 0
  Knows s w = (w.end < u32_mod) × Tried t w.start w.end s.is_solution_found s.stopped w.phase

  pub record Explores (ranges : List (ℕ × ℕ)) (threads : Threads) : Type 0 where
    pub known : All (Knows threads.shared) threads.workers
    pub ranges_kept : map range_of threads.workers ≡ ranges

  Knows-raise :
      (s s' : Shared)
      → (s.is_solution_found ≡ true → s'.is_solution_found ≡ true)
      → (s.stopped ≡ true → s'.stopped ≡ true)
      → (workers : List Worker) → All (Knows s) workers
      → All (Knows s') workers
  Knows-raise s s' f g workers =
      All-map workers (λ w k. (k.0, Tried-raise t w.start w.end _ _ _ _ f g w.phase k.1))

  pub Happened-Explores :
      (ranges : List (ℕ × ℕ)) (a b : Threads)
      → Explores ranges a
      → Happened t a b
      → Explores ranges b
  Happened-Explores ranges a b x (nothing e) = subst (Explores ranges) e x
  Happened-Explores ranges a b x (stopping e) = subst (Explores ranges) e (record {
    known =
        Knows-raise a.shared (with_stopped true a).shared (λ f. f) (λ f. refl) a.workers x.known;
    ranges_kept = x.ranges_kept;
  })
  Happened-Explores ranges a b x (worker_step i w at e) =
      let move = step-Move t w.start w.end w.phase a.shared in
      let here = All-get_elem? (Knows a.shared) a.workers i w at x.known in
      subst (Explores ranges) e (record {
        known =
            All-set (Knows (worked t a i w).shared) a.workers i _
              (here.0, step-Tried t w.start w.end here.0 full w.phase a.shared here.1)
              (Knows-raise a.shared (worked t a i w).shared (found_raised move)
                (stopped_raised move) a.workers x.known);
        ranges_kept = map-set range_of a.workers i w _ at refl ∙ x.ranges_kept;
      })

  pub start_threads-Explores :
      (n : ℕ) (ranges : List (ℕ × ℕ)) (stopped : Bool)
      → n < u32_mod
      → All (λ r. (r.0 ≤ r.1) × (r.1 ≤ n)) ranges
      → Explores ranges (start_threads ranges stopped)
  unfolding start_threads
  start_threads-Explores n ranges stopped small within = record {
    known = start_knows ranges within;
    ranges_kept = start_ranges ranges;
  }
    where
      start_knows :
          (ranges : List (ℕ × ℕ))
          → All (λ r. (r.0 ≤ r.1) × (r.1 ≤ n)) ranges
          → let threads = start_threads ranges stopped in All (Knows threads.shared) threads.workers
      start_knows [] h = tt
      start_knows (r ∷ ranges) h = (
        (omega (arith, h.0.1), (omega arith, h.0.0, λ j a b. absurd (omega (arith, a, b)))),
        start_knows ranges h.1,
      )

      start_ranges :
          (ranges : List (ℕ × ℕ)) → map range_of (start_threads ranges stopped).workers ≡ ranges
      start_ranges [] = refl
      start_ranges (r ∷ ranges) = ap (λ rs. r ∷ rs) (start_ranges ranges)

  finished_knows :
      (start end : ℕ) (p : Phase) (found stopped : Bool)
      → found ≡ false
      → stopped ≡ false
      → is_finished (record { start = start; end = end; phase = p }) ≡ true
      → Tried t start end found stopped p
      → AreExhausted t start end
  finished_knows start end (enter index) found stopped f s e h = cc
  finished_knows start end (Phase.attempt index digits) found stopped f s e h = cc
  finished_knows start end (Phase.leave index) found stopped f s e h = cc
  finished_knows start end (Phase.improve _ _) found stopped f s e h = cc
  finished_knows start end (Phase.claim _ _) found stopped f s e h = cc
  finished_knows start end (Phase.store _ _) found stopped f s e h = cc
  finished_knows start end finished found stopped f s e (inl h) = h
  finished_knows start end finished found stopped f s e (inr (inl h)) =
      absurd (false≢true (sym f ∙ h))
  finished_knows start end finished found stopped f s e (inr (inr h)) =
      absurd (false≢true (sym s ∙ h))
  finished_knows start end failed found stopped f s e h = cc

  all_exhausted :
      (size prev n : ℕ) (s : Shared) (workers : List Worker)
      → s.is_solution_found ≡ false
      → s.stopped ≡ false
      → IsDivision size prev (map range_of workers) n
      → all is_finished workers ≡ true
      → All (Knows s) workers
      → AreExhausted t prev n
  all_exhausted size prev n s [] f g d ends k j a b = absurd (omega (arith, d))
  all_exhausted size prev n s (w ∷ workers) f g (from, to, d) ends k j a b =
      let (here, later) = and_true (is_finished w) (all is_finished workers) ends in
      elim (dec_lt j w.end) [
        | yes less ↦
            finished_knows w.start w.end w.phase _ _ f g here k.0.1 j (omega (arith, from)) less
        | no more ↦ all_exhausted size w.end n s workers f g d later k.1 j (omega arith) b
      ]

  -- The threads as solve starts them.
  pub divided_start :
      (threads : ℕ) (ranges : List (ℕ × ℕ)) (stopped : Bool)
      → length t.bags < u32_mod
      → 0 < threads
      → batches (length t.bags) threads ≡ done ranges
      → IsDivision (length t.bags / threads) 0 ranges (length t.bags)
        × Explores ranges (start_threads ranges stopped)
  divided_start threads ranges stopped small some_thread divided =
      let n = length t.bags in
      let (ranges', e, size, division) = batches-IsDivision n threads small some_thread in
      let division : IsDivision (n / threads) 0 ranges n =
        subst (λ r. IsDivision (n / threads) 0 r n) (done_injective (sym e ∙ divided)) division in
      (
        division,
        start_threads-Explores n ranges stopped small
            (division_within (n / threads) 0 n ranges division).1,
      )

  -- Where the sizes of the choices fit 32 bits and none is zero, and the bags are divided among the
  -- threads as solve does it: in whatever order the threads run, and whenever signals arrive, once the
  -- pool has been waited for and neither flag is set, every choice of values of every bag was
  -- ruled out by satisfyPredicateForDomain, or check_flipped answered false for it.
  pub run_events-IsExhausted :
      (threads : ℕ) (ranges : List (ℕ × ℕ)) (stopped : Bool) (events : List Event)
      (last ended : Threads)
      → length t.bags < u32_mod
      → 0 < threads
      → batches (length t.bags) threads ≡ done ranges
      → run_events t events (start_threads ranges stopped) ≡ some last
      → wait_for last ≡ done ended
      → ended.shared.is_solution_found ≡ false
      → ended.shared.stopped ≡ false
      → (index : ℕ) → index < length t.bags
      → IsExhausted t index
  run_events-IsExhausted threads ranges stopped events last ended small some_thread divided run
        waited unfound unstopped index less =
      let (division, start) = divided_start threads ranges stopped small some_thread divided in
      let n = length t.bags in
      let x : Explores ranges last =
        run_events-Keeps t (Explores ranges) (Happened-Explores ranges) events
          (start_threads ranges stopped) last run start in
      let (kept, all_ended) = wait_for-finished last ended waited in
      all_exhausted (n / threads) 0 n last.shared last.workers
        (ap (λ (a : Threads). a.shared.is_solution_found) kept ∙ unfound)
        (ap (λ (a : Threads). a.shared.stopped) kept ∙ unstopped)
        (subst (λ r. IsDivision (n / threads) 0 r n) (sym x.ranges_kept) division) all_ended x.known
        index (omega arith) less
