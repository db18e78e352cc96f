-- ===== src/Climb/Tried.antt =====
-- Which choices of values a thread has tried by the time it stands somewhere in its task.
use native.Mathlib.Decide.{dec_lt}
use mathlib.Core.Bool.{false≢true}
use latin_squares_diploma_it.Prelude.{
  ℕ, ◌+◌, ◌≤◌, ◌<◌, ◌≡◌, refl, sym, ◌∙◌, subst, arith, Bool, true, false, ◌||◌, List, some,
  Bool-cases, Option-cases, ◌⊎◌, inl, inr, if◌then◌else◌, ltb, ltb→lt, length,
}
use latin_squares_diploma_it.Utils.Word.{u32_mod, add32}
use latin_squares_diploma_it.Utils.Odometer.{IsDigits, number, next_array, next_array_advances}
use latin_squares_diploma_it.Utils.Choices.{number-injective, number-choices, number-replicate}
use latin_squares_diploma_it.Climb.Entries.{or_false, or_cases}
use latin_squares_diploma_it.Climb.Worker.{
  Task, Shared, Phase, enter, finished, failed, fits, check, indices_of, zeros_of, advance, step,
}

-- The values do not fit, or the check has answered false.
abbrev pub IsRefused : Task → ℕ → List ℕ → Type 0
IsRefused t index digits =
    (fits t index digits ≡ false) ⊎ ((f : List ℕ) × (check t index digits ≡ some (false, f)))

-- All choices of values of a bag are refused.
abbrev pub IsExhausted : Task → ℕ → Type 0
IsExhausted t index =
    (digits : List ℕ) → IsDigits digits (indices_of t index) → IsRefused t index digits

-- The bags from `first` to before `last`.
abbrev pub AreExhausted : Task → ℕ → ℕ → Type 0
AreExhausted t first last = (j : ℕ) → first ≤ j → j < last → IsExhausted t j

le_cases : (a b : ℕ) → a ≤ b → (a < b) ⊎ (a ≡ b)
le_cases a b h = elim (dec_lt a b) [ yes less ↦ inl less | no more ↦ inr (omega arith) ]

module _ (t : Task) (start end : ℕ) where
  -- What a thread knows where it stands, and with the flags as they are.
  abbrev pub Tried : Bool → Bool → Phase → Type 0
  Tried found stopped (enter index) = (start ≤ index) × (index ≤ end) × AreExhausted t start index
  Tried found stopped (Phase.attempt index digits) =
      (start ≤ index)
      × (index < end)
      × AreExhausted t start index
      × IsDigits digits (indices_of t index)
      × ((other : List ℕ)
          → IsDigits other (indices_of t index)
          → number other (indices_of t index) < number digits (indices_of t index)
          → IsRefused t index other)
  Tried found stopped (Phase.leave index) =
      (start ≤ index)
      × (index < end)
      × AreExhausted t start index
      × (IsExhausted t index ⊎ (stopped ≡ true))
  Tried found stopped (Phase.improve f v) = Unit
  Tried found stopped (Phase.claim f v) = Unit
  Tried found stopped (Phase.store f v) = found ≡ true
  Tried found stopped finished = AreExhausted t start end ⊎ ((found ≡ true) ⊎ (stopped ≡ true))
  Tried found stopped failed = Unit

  -- The flags are only ever set.
  pub Tried-raise :
      (found stopped found' stopped' : Bool)
      → (found ≡ true → found' ≡ true)
      → (stopped ≡ true → stopped' ≡ true)
      → (p : Phase) → Tried found stopped p
      → Tried found' stopped' p
  Tried-raise found stopped found' stopped' f s (enter index) h = h
  Tried-raise found stopped found' stopped' f s (Phase.attempt index digits) h = h
  Tried-raise found stopped found' stopped' f s (Phase.leave index) (a, b, c, d) =
      (a, b, c, elim d [ inl x ↦ inl x | inr e ↦ inr (s e) ])
  Tried-raise found stopped found' stopped' f s (Phase.improve _ _) h = tt
  Tried-raise found stopped found' stopped' f s (Phase.claim _ _) h = tt
  Tried-raise found stopped found' stopped' f s (Phase.store _ _) h = f h
  Tried-raise found stopped found' stopped' f s finished (inl h) = inl h
  Tried-raise found stopped found' stopped' f s finished (inr (inl e)) = inr (inl (f e))
  Tried-raise found stopped found' stopped' f s finished (inr (inr e)) = inr (inr (s e))
  Tried-raise found stopped found' stopped' f s failed h = tt

  one_more :
      (index : ℕ)
      → AreExhausted t start index
      → IsExhausted t index
      → AreExhausted t start (index + 1)
  one_more index h k j a b = elim (le_cases j index (omega arith)) [
    | inl less ↦ h j a less
    | inr same ↦ subst (IsExhausted t) (sym same) k
  ]

  -- The next choice, after one that is refused.
  after_refusal :
      (found stopped : Bool) (index : ℕ) (digits : List ℕ)
      → Tried found stopped (Phase.attempt index digits)
      → IsRefused t index digits
      → Tried found stopped (advance t index digits)
  unfolding advance
  after_refusal found stopped index digits (a, b, c, d, tried) refused =
      let next = next_array digits (indices_of t index) in
      let adv = next_array_advances digits (indices_of t index) d in
      let again : (other : List ℕ)
          → IsDigits other (indices_of t index)
          → number other (indices_of t index) ≤ number digits (indices_of t index)
          → IsRefused t index other =
        λ other v le. elim (le_cases _ _ le) [
          | inl less ↦ tried other v less
          | inr same ↦
              subst (IsRefused t index)
                (sym (number-injective other digits (indices_of t index) v d same)) refused
        ] in
      elim (Bool-cases next.1) [
        | inl more ↦
            rw more
              (a, b, c, adv.digits, λ other v lt. again other v (omega (arith, lt, adv.next more)))
        | inr ends ↦ rw ends (
          a,
          b,
          c,
          inl (λ other v. again other v (omega (arith, adv.last ends, number-choices other _ v))),
        )
      ]

  after_check :
      (found stopped stop : Bool)
      → stopped ≡ stop
      → (index : ℕ) (digits : List ℕ) → Tried found stopped (Phase.attempt index digits)
      → IsRefused t index digits
      → Tried found stopped (if stop then Phase.leave index else advance t index digits)
  after_check found stopped true e index digits (a, b, c, d, tried) refused = (a, b, c, inr e)
  after_check found stopped false e index digits h refused =
      after_refusal found stopped index digits h refused

  module _ (small : end < u32_mod)
      (full : (index : ℕ) → IsDigits (zeros_of t index) (indices_of t index)) where
    enters :
        (s : Shared) (index : ℕ)
        → Tried s.is_solution_found s.stopped (enter index)
        → let r = step t (record { start = start; end = end; phase = enter index }) s in
          Tried r.1.is_solution_found r.1.stopped r.0
    unfolding step
    enters s index (a, b, c) = elim (Bool-cases (ltb index end)) [
      | inl less ↦ rw less (
        a,
        ltb→lt _ _ less,
        c,
        full index,
        λ other v lt. absurd (
            omega (arith, lt, number-replicate (length (indices_of t index)) (indices_of t index))),
      )
      | inr past ↦
          let same : index ≡ end = ground (arith, b) in rw past (inl (λ j f l. c j f (rw same l)))
    ]

    attempts :
        (s : Shared) (index : ℕ) (digits : List ℕ)
        → Tried s.is_solution_found s.stopped (Phase.attempt index digits)
        → let r =
            step t (record { start = start; end = end; phase = Phase.attempt index digits }) s in
          Tried r.1.is_solution_found r.1.stopped r.0
    unfolding step
    attempts s index digits h = elim (Bool-cases (fits t index digits)) [
      | inr ruled_out ↦
          rw (ruled_out, step)
            (after_refusal s.is_solution_found s.stopped index digits h (inl ruled_out))
      | inl fit ↦ elim (Option-cases (check t index digits)) [
        | inl out ↦ rw (fit, out, step) tt
        | inr ((true, f), e) ↦ rw (fit, e, step) tt
        | inr ((false, f), e) ↦
            rw (fit, e, step)
              (after_check s.is_solution_found s.stopped s.stopped refl index digits h (inr (f, e)))
      ]
    ]

    leaves :
        (s : Shared) (index : ℕ)
        → Tried s.is_solution_found s.stopped (Phase.leave index)
        → let r = step t (record { start = start; end = end; phase = Phase.leave index }) s in
          Tried r.1.is_solution_found r.1.stopped r.0
    unfolding step
    leaves s index (a, b, c, d) = elim (Bool-cases (s.is_solution_found || s.stopped)) [
      | inl ends ↦ rw ends (inr (or_cases _ _ ends))
      | inr go ↦
          let next : add32 index 1 ≡ index + 1 = omega arith in
          let exhausted : IsExhausted t index = elim d [
            | inl all_refused ↦ all_refused
            | inr stop ↦ absurd (false≢true (sym (or_false _ _ go).1 ∙ stop))
          ] in
          rw (go, next) (omega (arith, a), omega (arith, b), one_more index c exhausted)
    ]

    pub step-Tried :
        (p : Phase) (s : Shared)
        → Tried s.is_solution_found s.stopped p
        → let r = step t (record { start = start; end = end; phase = p }) s in
          Tried r.1.is_solution_found r.1.stopped r.0
    unfolding step
    step-Tried (enter index) s h = enters s index h
    step-Tried (Phase.attempt index digits) s h = attempts s index digits h
    step-Tried (Phase.leave index) s h = leaves s index h
    step-Tried (Phase.improve f v) s h = elim (Bool-cases s.is_solution_found) [
      | inl found ↦ rw found (inr (inl refl))
      | inr unfound ↦ rw unfound tt
    ]
    step-Tried (Phase.claim f v) s h = refl
    step-Tried (Phase.store f v) s h = inr (inl h)
    step-Tried finished s h = h
    step-Tried failed s h = tt
