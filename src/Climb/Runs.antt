-- ===== src/Climb/Runs.antt =====
-- The events of a round: what each of them does, and what holds after all of them.
use latin_squares_diploma_it.Prelude.{
  ℕ, ◌≡◌, sym, ap, ◌∙◌, subst, ◌⊎◌, inl, inr, Bool, true, false, List, [], ◌∷◌, some, Option-cases,
  get_elem?, set,
}
use latin_squares_diploma_it.Climb.Worker.{Task, Worker, step}
use latin_squares_diploma_it.Climb.Threads.{
  Signal, sigint, sigterm, other, handler, Event, work, signal, Threads, happen, run_events,
}
use latin_squares_diploma_it.Climb.Entries.{some_injective, none_ne_some}

abbrev pub worked : Task → Threads → ℕ → Worker → Threads
worked t threads i w =
    let r = step t w threads.shared in
    record { shared = r.1; workers = set threads.workers i (record w { phase = r.0 }) }

abbrev pub with_stopped : Bool → Threads → Threads
with_stopped b threads = record threads { shared = record threads.shared { stopped = b } }

-- An event is without effect, a step of a thread, or sets the flag of the signals.
pub data Happened (t : Task) (threads threads' : Threads) : Type 0 where
  nothing : threads ≡ threads' → Happened t threads threads'
  worker_step :
      (i : ℕ) (w : Worker)
      → get_elem? threads.workers i ≡ some w
      → worked t threads i w ≡ threads'
      → Happened t threads threads'
  stopping : with_stopped true threads ≡ threads' → Happened t threads threads'

handler_lem :
    (k : Signal) (stopped b : Bool) → handler k stopped ≡ some b → (b ≡ stopped) ⊎ (b ≡ true)
unfolding handler
handler_lem sigint true b e = cc
handler_lem sigint false b e = inr (sym (some_injective e))
handler_lem sigterm true b e = cc
handler_lem sigterm false b e = inr (sym (some_injective e))
handler_lem other stopped b e = inl (sym (some_injective e))

pub happen-Happened :
    (t : Task) (event : Event) (threads threads' : Threads)
    → happen t event threads ≡ some threads'
    → Happened t threads threads'
unfolding happen handler
happen-Happened t (work i) threads threads' e = elim (Option-cases (get_elem? threads.workers i)) [
  | inl past ↦ nothing (some_injective (rw (past, happen) at e))
  | inr (w, at) ↦ worker_step i w at (some_injective (rw (at, happen) at e))
]
happen-Happened t (signal k) threads threads' e =
    elim (Option-cases (handler k threads.shared.stopped)) [
      | inl ends ↦ absurd (none_ne_some (rw (ends, happen) at e))
      | inr (b, at) ↦
          let done : with_stopped b threads ≡ threads' = some_injective (rw (at, happen) at e) in
          elim (handler_lem k threads.shared.stopped b at) [
            | inl same ↦ nothing (sym (ap (λ b. with_stopped b threads) same) ∙ done)
            | inr raised ↦ stopping (sym (ap (λ b. with_stopped b threads) raised) ∙ done)
          ]
    ]

-- What every event keeps holds after all of them.
pub run_events-Keeps :
    (t : Task) (P : Threads → Type 0)
    → ((a b : Threads) → P a → Happened t a b → P b)
    → (events : List Event) (threads threads' : Threads)
    → run_events t events threads ≡ some threads'
    → P threads
    → P threads'
unfolding run_events
run_events-Keeps t P keeps [] threads threads' e p = subst P (some_injective e) p
run_events-Keeps t P keeps (event ∷ events) threads threads' e p =
    elim (Option-cases (happen t event threads)) [
      | inl ends ↦ absurd (none_ne_some (rw (ends, run_events) at e))
      | inr (next, at) ↦
          run_events-Keeps t P keeps events next threads' (rw (at, run_events) at e)
            (keeps threads next p (happen-Happened t event threads next at))
    ]
