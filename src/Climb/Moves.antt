-- ===== src/Climb/Moves.antt =====
-- What one step of a thread does to the variables that the threads share, whatever the others did.
use latin_squares_diploma_it.Prelude.{
  ℕ, ◌≡◌, refl, Bool, true, false, ◌||◌, List, ◌++◌, some, Bool-cases, Option-cases, inl, inr,
  if◌then◌else◌, ltb,
}
use latin_squares_diploma_it.Utils.Odometer.{next_array}
use latin_squares_diploma_it.Climb.Worker.{
  Task, NewValue, Shared, Phase, enter, finished, failed, fits, check, cells_of, indices_of,
  new_values, advance, step,
}

-- A choice of values for a bag that fits, and for which the check has answered true with these flips.
pub record Improving (t : Task) (flipped : List ℕ) (values : List NewValue) : Type 0 where
  pub index : ℕ
  pub digits : List ℕ
  pub fitting : fits t index digits ≡ true
  pub checked : check t index digits ≡ some (true, flipped)
  pub chosen : values ≡ new_values (cells_of t index) digits

-- What a thread has in hand is an improving choice.
abbrev pub Holds : Task → Phase → Type 0
Holds t (enter index) = Unit
Holds t (Phase.attempt index digits) = Unit
Holds t (Phase.leave index) = Unit
Holds t (Phase.improve flipped values) = Improving t flipped values
Holds t (Phase.claim flipped values) = Improving t flipped values
Holds t (Phase.store flipped values) = Improving t flipped values
Holds t finished = Unit
Holds t failed = Unit

abbrev pub is_storing : Phase → Bool
is_storing (enter index) = false
is_storing (Phase.attempt index digits) = false
is_storing (Phase.leave index) = false
is_storing (Phase.improve flipped values) = false
is_storing (Phase.claim flipped values) = false
is_storing (Phase.store flipped values) = true
is_storing finished = false
is_storing failed = false

-- A step that leaves the flag and what was stored.
pub record Looks (t : Task) (p : Phase) (s : Shared) (p' : Phase) (s' : Shared) : Type 0 where
  pub found : s'.is_solution_found ≡ s.is_solution_found
  pub stopped : s'.stopped ≡ s.stopped
  pub solution : s'.solution ≡ s.solution
  pub new_meta_values : s'.new_meta_values ≡ s.new_meta_values
  pub before : is_storing p ≡ false
  pub after : is_storing p' ≡ false
  pub in_hand : Holds t p → Holds t p'

-- The three kinds of steps.
pub data Move (t : Task) (p : Phase) (s : Shared) (p' : Phase) (s' : Shared) : Type 0 where
  looks : Looks t p s p' s' → Move t p s p' s'
  claims :
      (f : List ℕ) (v : List NewValue)
      → p ≡ Phase.claim f v
      → p' ≡ Phase.store f v
      → s' ≡ record s { is_solution_found = true }
      → Move t p s p' s'
  stores :
      (f : List ℕ) (v : List NewValue)
      → p ≡ Phase.store f v
      → p' ≡ finished
      → s' ≡ record s { solution = f; new_meta_values = s.new_meta_values ++ v }
      → Move t p s p' s'

quiet :
    {t : Task} {p p' : Phase} (s : Shared) (counter : ℕ)
    → is_storing p ≡ false
    → is_storing p' ≡ false
    → (Holds t p → Holds t p')
    → Move t p s p' (record s { counter = counter })
quiet s counter before after in_hand = looks (record {
  found = refl;
  stopped = refl;
  solution = refl;
  new_meta_values = refl;
  before = before;
  after = after;
  in_hand = in_hand;
})

on_attempt :
    (t : Task) (index : ℕ) (digits : List ℕ) (s : Shared)
    → Move t (Phase.attempt index digits) s (advance t index digits) s
unfolding advance
on_attempt t index digits s = elim (Bool-cases (next_array digits (indices_of t index)).1) [
  | inl more ↦ rw more (quiet s s.counter refl refl (λ h. tt))
  | inr ends ↦ rw ends (quiet s s.counter refl refl (λ h. tt))
]

on_refusal :
    (t : Task) (index : ℕ) (digits : List ℕ) (s : Shared) (stop : Bool)
    → Move t
        (Phase.attempt index digits)
        s
        (if stop then Phase.leave index else advance t index digits)
        s
on_refusal t index digits s true = quiet s s.counter refl refl (λ h. tt)
on_refusal t index digits s false = on_attempt t index digits s

on_claimed :
    (t : Task) (f : List ℕ) (v : List NewValue) (s : Shared) (found : Bool)
    → Move t (Phase.improve f v) s (if found then finished else Phase.claim f v) s
on_claimed t f v s true = quiet s s.counter refl refl (λ h. tt)
on_claimed t f v s false = quiet s s.counter refl refl (λ h. h)

pub step-Move :
    (t : Task) (start end : ℕ) (p : Phase) (s : Shared)
    → let r = step t (record { start = start; end = end; phase = p }) s in Move t p s r.0 r.1
unfolding step
step-Move t start end (enter index) s = elim (Bool-cases (ltb index end)) [
  | inl less ↦ rw less (quiet s s.counter refl refl (λ h. tt))
  | inr past ↦ rw past (quiet s _ refl refl (λ h. tt))
]
step-Move t start end (Phase.attempt index digits) s = elim (Bool-cases (fits t index digits)) [
  | inr ruled_out ↦ rw (ruled_out, step) (on_attempt t index digits s)
  | inl fit ↦ elim (Option-cases (check t index digits)) [
    | inl out ↦ rw (fit, out, step) (quiet s s.counter refl refl (λ h. tt))
    | inr ((true, f), e) ↦
        rw (fit, e, step)
          (quiet s _ refl refl (λ h. record {
            index = index;
            digits = digits;
            fitting = fit;
            checked = e;
            chosen = refl;
          }))
    | inr ((false, f), e) ↦ rw (fit, e, step) (on_refusal t index digits s s.stopped)
  ]
]
step-Move t start end (Phase.leave index) s = elim (Bool-cases (s.is_solution_found || s.stopped)) [
  | inl ends ↦ rw ends (quiet s _ refl refl (λ h. tt))
  | inr go ↦ rw go (quiet s s.counter refl refl (λ h. tt))
]
step-Move t start end (Phase.improve f v) s = on_claimed t f v s s.is_solution_found
step-Move t start end (Phase.claim f v) s = claims f v refl refl refl
step-Move t start end (Phase.store f v) s = stores f v refl refl refl
step-Move t start end finished s = quiet s s.counter refl refl (λ h. tt)
step-Move t start end failed s = quiet s s.counter refl refl (λ h. tt)
