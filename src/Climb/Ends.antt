-- ===== src/Climb/Ends.antt =====
-- The steps that a thread of a round of `solve` has left.
use latin_squares_diploma_it.Prelude.{
  ℕ, zero, suc, ◌+◌, ◌-◌, ◌≤◌, ◌<◌, ◌≡◌, refl, arith, Bool, true, false, ◌||◌, List, Bool-cases,
  Option-cases, inl, inr, if◌then◌else◌, ltb, ltb→lt, length,
}
use latin_squares_diploma_it.Utils.Word.{u32_mod, add32}
use latin_squares_diploma_it.Utils.Odometer.{number, choices, next_array, next_array_advances}
use latin_squares_diploma_it.Utils.Choices.{number-choices, number-replicate}
use latin_squares_diploma_it.Climb.Worker.{
  Task, Shared, Phase, enter, finished, failed, fits, check, indices_of, advance, step,
}
use latin_squares_diploma_it.Climb.Tried.{Tried}

module _ (t : Task) where
  -- The steps for so many bags from one on: for each a step for every choice of values, and a few more.
  unfoldable pub steps_from : ℕ → ℕ → ℕ
  steps_from zero index = 1
  steps_from (suc left) index = choices (indices_of t index) + 4 + steps_from left (suc index)

  pub steps_from-pos : (left index : ℕ) → 0 < steps_from left index
  unfolding steps_from
  steps_from-pos zero index = omega arith
  steps_from-pos (suc left) index = omega (arith, steps_from-pos left (suc index))

  module _ (end : ℕ) where
    abbrev pub rest_of : ℕ → ℕ
    rest_of index = steps_from (end - suc index) (suc index)

    -- How many steps a thread has left at most.
    abbrev pub steps_left : Phase → ℕ
    steps_left (enter index) = steps_from (end - index) index
    steps_left (Phase.attempt index digits) =
        (choices (indices_of t index) - number digits (indices_of t index)) + 3 + rest_of index
    steps_left (Phase.leave index) = 1 + rest_of index
    steps_left (Phase.improve f v) = 3
    steps_left (Phase.claim f v) = 2
    steps_left (Phase.store f v) = 1
    steps_left finished = 0
    steps_left failed = 0

    steps_from_step :
        (index : ℕ)
        → index < end
        → steps_from (end - index) index ≡ choices (indices_of t index) + 4 + rest_of index
    unfolding steps_from
    steps_from_step index h = let e : end - index ≡ suc (end - suc index) = omega arith in rw e refl

    advance-steps :
        (start index : ℕ) (digits : List ℕ) (found stopped : Bool)
        → Tried t start end found stopped (Phase.attempt index digits)
        → steps_left (advance t index digits) < steps_left (Phase.attempt index digits)
    unfolding advance
    advance-steps start index digits found stopped (a, b, c, d, tried) =
        let next = next_array digits (indices_of t index) in
        let adv = next_array_advances digits (indices_of t index) d in
        let below = number-choices digits (indices_of t index) d in
        elim (Bool-cases next.1) [
          | inl more ↦ rw more (
              omega (
                arith,
                adv.next more,
                below,
                number-choices next.0 (indices_of t index) adv.digits,
              ))
          | inr ends ↦ rw ends (omega (arith, below))
        ]

    refusal-steps :
        (start index : ℕ) (digits : List ℕ) (found stopped stop : Bool)
        → Tried t start end found stopped (Phase.attempt index digits)
        → steps_left (if stop then Phase.leave index else advance t index digits)
          < steps_left (Phase.attempt index digits)
    refusal-steps start index digits found stopped true (a, b, c, d, tried) =
        omega (arith, number-choices digits (indices_of t index) d)
    refusal-steps start index digits found stopped false h =
        advance-steps start index digits found stopped h

    -- Each step is one step less.
    pub step-steps :
        (start : ℕ) (p : Phase) (s : Shared)
        → end < u32_mod
        → Tried t start end s.is_solution_found s.stopped p
        → let r = step t (record { start = start; end = end; phase = p }) s in
          steps_left r.0 ≤ steps_left p - 1
    unfolding step
    step-steps start (enter index) s small (a, b, c) = elim (Bool-cases (ltb index end)) [
      | inl less ↦ rw less (
          omega (
            arith,
            steps_from_step index (ltb→lt _ _ less),
            number-replicate (length (indices_of t index)) (indices_of t index),
          ))
      | inr past ↦ rw past (omega arith)
    ]
    step-steps start (Phase.attempt index digits) s small h =
        elim (Bool-cases (fits t index digits)) [
          | inr ruled_out ↦
              rw (ruled_out, step)
                (omega (arith, advance-steps start index digits s.is_solution_found s.stopped h))
          | inl fit ↦ elim (Option-cases (check t index digits)) [
            | inl out ↦ rw (fit, out, step) (omega arith)
            | inr ((true, f), e) ↦
                rw (fit, e, step) (omega (arith, steps_from-pos (end - suc index) (suc index)))
            | inr ((false, f), e) ↦
                rw (fit, e, step)
                  (omega (
                    arith,
                    refusal-steps start index digits s.is_solution_found s.stopped s.stopped h,
                  ))
          ]
        ]
    step-steps start (Phase.leave index) s small (a, b, c, d) =
        elim (Bool-cases (s.is_solution_found || s.stopped)) [
          | inl ends ↦ rw ends (omega arith)
          | inr go ↦
              let next : add32 index 1 ≡ suc index = omega arith in rw (go, next) (omega arith)
        ]
    step-steps start (Phase.improve f v) s small h = elim (Bool-cases s.is_solution_found) [
      | inl found ↦ rw found (omega arith)
      | inr unfound ↦ rw unfound (omega arith)
    ]
    step-steps start (Phase.claim f v) s small h = omega arith
    step-steps start (Phase.store f v) s small h = omega arith
    step-steps start finished s small h = omega arith
    step-steps start failed s small h = omega arith
