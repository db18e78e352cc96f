-- ===== src/Utils/Log.antt =====
-- `log` of localsearch/utils/utils.cpp: the bit length of a number.
use native.Mathlib.Nat.{zero-add, two-pow-succ}
use latin_squares_diploma_it.Prelude.{
  ℕ, zero, suc, ◌+◌, ◌*◌, ◌/◌, ◌^◌, ◌≤◌, ◌<◌, ◌≡◌, refl, arith, ◌⊎◌, ◌∙◌, Option, none, some, ltb,
  ltb→lt, ap, if◌then◌else◌, Bool-cases, inl, inr,
}

-- `while (k > 0) { k /= 2; i++; }` on fuel; `none` means that the fuel ran out.
unfoldable pub log_loop : ℕ → ℕ → ℕ → Option ℕ
log_loop zero k i = none
log_loop (suc fuel) k i =
    let rest = log_loop fuel (k / 2) (i + 1) in if ltb 0 k then rest else some i

-- No number needs more rounds than itself and one.
unfoldable pub log : ℕ → Option ℕ
unfolding log_loop
log k = log_loop (suc k) k 0

-- The least number of bits that hold `k`.
abbrev pub IsBitLength : ℕ → ℕ → Type 0
IsBitLength k b = (k < 2 ^ b) × ((b ≡ 0) ⊎ (2 ^ b ≤ 2 * k))

log_loop_lem :
    (fuel k i : ℕ) → k < fuel → (b : ℕ) × (log_loop fuel k i ≡ some (i + b)) × IsBitLength k b
unfolding log_loop
log_loop_lem zero k i h = elim h [ ]
log_loop_lem (suc fuel) k i h = elim (Bool-cases (ltb 0 k)) [
  | inl more ↦
      let pos : 0 < k = ltb→lt 0 k more in
      let (b, e, w) = log_loop_lem fuel (k / 2) (i + 1) (omega arith) in
      let bound : k < 2 ^ suc b = omega (arith, two-pow-succ b, w.0) in
      let least : 2 ^ suc b ≤ 2 * k = elim w.1 [
        | inl z ↦ omega (arith, two-pow-succ b, ap (λ (t : ℕ). 2 ^ t) z, w.0)
        | inr l ↦ omega (arith, two-pow-succ b, l)
      ] in
      (suc b, rw (more, e) (ap some (omega arith)), (bound, inr least))
  | inr done ↦ (0, rw done (ap some (omega arith)), (ground arith, inl refl))
]

-- `log` returns on every number, within the rounds that it is given, and its result is the least
-- number of bits that hold the number.
pub log-IsBitLength : (k : ℕ) → (b : ℕ) × (log k ≡ some b) × IsBitLength k b
unfolding log
log-IsBitLength k =
    let (b, e, w) = log_loop_lem (suc k) k 0 (omega arith) in (b, e ∙ ap some (zero-add b), w)
