-- ===== src/Solver/Toggles.antt =====
-- A flag that is toggled or kept when the count of a clause changes, and the sums over the flags.
use mathlib.Core.Bool.{false≢true}
use latin_squares_diploma_it.Prelude.{
  ℕ, ◌%◌, ◌<◌, ◌≡◌, refl, sym, ap, ◌∙◌, arith, Bool, true, false, List, [], ◌∷◌, ◌++◌, ◌==◌, ==_iff,
  if◌then◌else◌, length, get_or, set, Bool-cases, inl, inr,
}
use latin_squares_diploma_it.Utils.Word.{u32_mod, add32, sub32}
use latin_squares_diploma_it.Cnf.Literal.{toggle}
use latin_squares_diploma_it.Solver.State.{Solver}
use latin_squares_diploma_it.Solver.Apply.{toggle_all, Tally}
use latin_squares_diploma_it.Solver.Tally.{
  weigh, total, weigh-set, total-set, length-toggle_all, toggle_all-append,
}
use latin_squares_diploma_it.Solver.Steps.{
  update, flag_of, IsShaped, flags_now, set-update, mod_off, mod_on,
}

-- A flag that is toggled at `k`, and the sums with it.
module _ (s : Solver) (watched : ℕ → Bool) (shaped : IsShaped s watched) (t : Tally) (k : ℕ)
    (w : watched k ≡ true) where
  pub in_flags : k < length (flags_now s t)
  in_flags = rw (length-toggle_all s.satisfied t.changed, shaped.flags) (shaped.within k w)

  abbrev pub toggled_flags : List ℕ
  toggled_flags = toggle_all s.satisfied (t.changed ++ k ∷ [])

  pub toggled_flags-at :
      (v c : ℕ)
      → toggle (get_or (flags_now s t) k 2) ≡ v
      → get_or toggled_flags c 2 ≡ (if k == c then v else get_or (flags_now s t) c 2)
  toggled_flags-at v c e =
      rw (toggle_all-append s.satisfied t.changed k, e)
        (set-update (flags_now s t) k v c 2 in_flags)

  pub sum_off :
      get_or (flags_now s t) k 2 ≡ 1
      → t.sum ≡ weigh s.weights (flags_now s t) % u32_mod
      → sub32 t.sum (get_or s.weights k 0) ≡ weigh s.weights toggled_flags % u32_mod
  sum_off e h =
      rw (toggle_all-append s.satisfied t.changed k, e, h)
        (mod_off (weigh s.weights (flags_now s t)) _ (get_or s.weights k 0)
          (rw e at (weigh-set s.weights (flags_now s t) k 0 in_flags)) (shaped.weights k))

  pub sum_on :
      get_or (flags_now s t) k 2 ≡ 0
      → t.sum ≡ weigh s.weights (flags_now s t) % u32_mod
      → add32 t.sum (get_or s.weights k 0) ≡ weigh s.weights toggled_flags % u32_mod
  sum_on e h =
      rw (toggle_all-append s.satisfied t.changed k, e, h)
        (mod_on (weigh s.weights (flags_now s t)) _ (get_or s.weights k 0)
          (rw e at (weigh-set s.weights (flags_now s t) k 1 in_flags)))

  pub count_off :
      get_or (flags_now s t) k 2 ≡ 1
      → t.count ≡ total (flags_now s t) % u32_mod
      → sub32 t.count 1 ≡ total toggled_flags % u32_mod
  count_off e h =
      rw (toggle_all-append s.satisfied t.changed k, e, h)
        (omega (arith, rw e at (total-set (flags_now s t) k 0 in_flags)))

  pub count_on :
      get_or (flags_now s t) k 2 ≡ 0
      → t.count ≡ total (flags_now s t) % u32_mod
      → add32 t.count 1 ≡ total toggled_flags % u32_mod
  count_on e h =
      rw (toggle_all-append s.satisfied t.changed k, e, h)
        (omega (arith, rw e at (total-set (flags_now s t) k 1 in_flags)))

  -- A flag that is not toggled although the count of the clause changes.
  pub flag-update :
      (r : ℕ → ℕ) (n : ℕ)
      → flag_of n ≡ flag_of (r k)
      → ((c : ℕ) → watched c ≡ true → get_or (flags_now s t) c 2 ≡ flag_of (r c))
      → (c : ℕ) → watched c ≡ true
      → get_or (flags_now s t) c 2 ≡ flag_of (update r k n c)
  flag-update r n e h c wc = elim (Bool-cases (k == c)) [
    | inl p ↦
        let same : k ≡ c = (==_iff k c).0 p in
        rw p (h c wc ∙ ap (λ (x : ℕ). flag_of (r x)) (sym same) ∙ sym e)
    | inr p ↦ rw p (h c wc)
  ]

  pub toggled_flag-update :
      (r : ℕ → ℕ) (n : ℕ)
      → toggle (get_or (flags_now s t) k 2) ≡ flag_of n
      → ((c : ℕ) → watched c ≡ true → get_or (flags_now s t) c 2 ≡ flag_of (r c))
      → (c : ℕ) → watched c ≡ true
      → get_or toggled_flags c 2 ≡ flag_of (update r k n c)
  toggled_flag-update r n e h c wc = elim (Bool-cases (k == c)) [
    | inl p ↦ rw p (toggled_flags-at (flag_of n) c e ∙ rw p)
    | inr p ↦ rw p (toggled_flags-at (flag_of n) c e ∙ rw p (h c wc))
  ]

  pub toggled_others :
      ((c : ℕ) → watched c ≡ false → get_or (flags_now s t) c 2 ≡ get_or s.satisfied c 2)
      → (c : ℕ) → watched c ≡ false
      → get_or toggled_flags c 2 ≡ get_or s.satisfied c 2
  toggled_others h c wc = elim (Bool-cases (k == c)) [
    | inl p ↦
        let same : k ≡ c = (==_iff k c).0 p in
        absurd (false≢true (sym wc ∙ ap watched (sym same) ∙ w))
    | inr p ↦ toggled_flags-at (toggle (get_or (flags_now s t) k 2)) c refl ∙ rw p (h c wc)
  ]

  -- The count of a clause with a new delta.
  pub counts-update :
      (r : ℕ → ℕ) (delta n : ℕ)
      → length t.deltas ≡ length s.clauses_count_satisfied
      → add32 (get_or s.clauses_count_satisfied k 0) delta ≡ n
      → ((c : ℕ)
          → watched c ≡ true
          → add32 (get_or s.clauses_count_satisfied c 0) (get_or t.deltas c 0) ≡ r c)
      → (c : ℕ) → watched c ≡ true
      → add32 (get_or s.clauses_count_satisfied c 0) (get_or (set t.deltas k delta) c 0)
        ≡ update r k n c
  counts-update r delta n size e h c wc =
      rw (set-update t.deltas k delta c 0 (rw size (shaped.within k w)))
        (elim (Bool-cases (k == c)) [
          | inl p ↦ let same : k ≡ c = (==_iff k c).0 p in rw (p, ← same) e
          | inr p ↦ rw p (h c wc)
        ])
