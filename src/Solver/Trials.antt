-- ===== src/Solver/Trials.antt =====
-- One step of the loops of `check_flipped`: the trial sums are those of the flags that the clauses
-- looked at so far would have.
use mathlib.Core.Bool.{false≢true}
use latin_squares_diploma_it.Prelude.{
  ℕ, zero, suc, ◌+◌, ◌%◌, ◌<◌, ◌≡◌, ◌≢◌, refl, sym, ap, ◌∙◌, arith, Bool, true, false, List, [],
  ◌∷◌, ◌==◌, ==_iff, if◌then◌else◌, length, length-set, get_or, set, Bool-cases, inl, inr,
}
use latin_squares_diploma_it.Utils.Word.{u32_mod, add32, sub32}
use latin_squares_diploma_it.Cnf.Literal.{bit}
use latin_squares_diploma_it.Solver.State.{Solver}
use latin_squares_diploma_it.Solver.Check.{Trial, would_hold, try_clause}
use latin_squares_diploma_it.Solver.Tally.{weigh, total, weigh-set, total-set}
use latin_squares_diploma_it.Solver.Steps.{IsShaped, set-update, mod_off, mod_on}

pub set_same : (xs : List ℕ) (i d : ℕ) → set xs i (get_or xs i d) ≡ xs
set_same [] i d = refl
set_same (x ∷ xs) zero d = refl
set_same (x ∷ xs) (suc i) d = ap (λ (ys : List ℕ). x ∷ ys) (set_same xs i d)

add_one : (a b : ℕ) → b + 0 ≡ a + 1 → add32 (a % u32_mod) 1 ≡ b % u32_mod
add_one a b e = omega arith

sub_one : (a b : ℕ) → b + 1 ≡ a + 0 → sub32 (a % u32_mod) 1 ≡ b % u32_mod
sub_one a b e = omega arith

same_mod : (a b x : ℕ) → b + x ≡ a + x → a % u32_mod ≡ b % u32_mod
same_mod a b x e = omega arith

unset : (k c x y : ℕ) → y ≡ (if k == c then 1 else x) → y ≡ 0 → (x ≡ 0) × ((k == c) ≡ false)
unset k c x y e z = elim (Bool-cases (k == c)) [
  | inl here ↦ let one : y ≡ 1 = rw here at e in absurd (omega arith)
  | inr there ↦ (sym (rw there at e) ∙ z, there)
]

apart :
    (xs : List ℕ) (k c : ℕ) → (get_or xs k 0 == 0) ≡ false → get_or xs c 0 ≡ 0 → (k == c) ≡ false
apart xs k c n z = elim (Bool-cases (k == c)) [
  | inl here ↦
      let same : get_or xs k 0 ≡ 0 = ap (λ (j : ℕ). get_or xs j 0) ((==_iff k c).0 here) ∙ z in
      absurd (false≢true (sym n ∙ (==_iff _ 0).1 same))
  | inr there ↦ there
]

module _ (s : Solver) (watched : ℕ → Bool) (shaped : IsShaped s watched) (flipped : List ℕ) where
  -- `flags` are the flags of all clauses, those looked at with the values after the flips.
  pub record IsTried (flags : List ℕ) (t : Trial) : Type 0 where
    pub size : length flags ≡ length s.satisfied
    pub seen_size : length t.seen ≡ length s.satisfied
    pub marked :
        (c : ℕ)
        → get_or t.seen c 0 ≢ 0
        → (watched c ≡ true) × (get_or flags c 2 ≡ bit (would_hold s flipped c))
    pub unmarked : (c : ℕ) → get_or t.seen c 0 ≡ 0 → get_or flags c 2 ≡ get_or s.satisfied c 2
    pub sum : t.sum ≡ weigh s.weights flags % u32_mod
    pub count : t.count ≡ total flags % u32_mod

  -- A clause looked at for the first time.
  marked-IsTried :
      (flags : List ℕ) (t t' : Trial) (k : ℕ)
      → watched k ≡ true
      → IsTried flags t
      → t'.seen ≡ set t.seen k 1
      → t'.sum ≡ weigh s.weights (set flags k (bit (would_hold s flipped k))) % u32_mod
      → t'.count ≡ total (set flags k (bit (would_hold s flipped k))) % u32_mod
      → IsTried (set flags k (bit (would_hold s flipped k))) t'
  marked-IsTried flags t t' k w h e p q =
      let v = bit (would_hold s flipped k) in
      let in_flags : k < length flags = rw (h.size, shaped.flags) (shaped.within k w) in
      let in_seen : k < length t.seen = rw (h.seen_size, shaped.flags) (shaped.within k w) in
      let seen : (c : ℕ) → get_or t'.seen c 0 ≡ (if k == c then 1 else get_or t.seen c 0) =
        λ c. rw e (set-update t.seen k 1 c 0 in_seen) in
      let now : (c : ℕ) → get_or (set flags k v) c 2 ≡ (if k == c then v else get_or flags c 2) =
        λ c. set-update flags k v c 2 in_flags in
      record {
        size = length-set flags k v ∙ h.size;
        seen_size = rw e (length-set t.seen k 1 ∙ h.seen_size);
        marked = λ c n. elim (Bool-cases (k == c)) [
          | inl here ↦
              let same : k ≡ c = (==_iff k c).0 here in
              (
                ap watched (sym same) ∙ w,
                (rw here at (now c)) ∙ ap (λ (j : ℕ). bit (would_hold s flipped j)) same,
              )
          | inr there ↦
              let (m, e') = h.marked c (λ z. n (seen c ∙ rw there z)) in
              (m, (rw there at (now c)) ∙ e')
        ];
        unmarked = λ c n. elim (Bool-cases (k == c)) [
          | inl here ↦
              let one : get_or t'.seen c 0 ≡ 1 = rw here at (seen c) in absurd (omega arith)
          | inr there ↦ (rw there at (now c)) ∙ h.unmarked c (sym (rw there at (seen c)) ∙ n)
        ];
        sum = p;
        count = q;
      }

  -- Where a clause has not been looked at, its flag goes from the present value to the new one.
  fresh-IsTried :
      (flags : List ℕ) (t : Trial) (k : ℕ)
      → watched k ≡ true
      → get_or s.satisfied k 2 < 2
      → get_or t.seen k 0 ≡ 0
      → IsTried flags t
      → IsTried (set flags k (bit (would_hold s flipped k))) (try_clause s flipped k t)
  unfolding try_clause
  fresh-IsTried flags t k w b z h =
      let in_flags : k < length flags = rw (h.size, shaped.flags) (shaped.within k w) in
      let old : get_or flags k 2 ≡ get_or s.satisfied k 2 = h.unmarked k z in
      let sums = weigh-set s.weights flags k (bit (would_hold s flipped k)) in_flags in
      let counts = total-set flags k (bit (would_hold s flipped k)) in_flags in
      let tried = marked-IsTried flags t (try_clause s flipped k t) k w h in
      elim (Bool-cases (would_hold s flipped k)) [
        | inl new ↦ elim (Bool-cases (get_or s.satisfied k 2 == 0)) [
          | inl failed ↦
              let zero_now : get_or flags k 2 ≡ 0 = ground arith in
              tried (rw (z, new, failed) refl)
                (rw (z, new, failed, h.sum) (mod_on _ _ _ (rw (new, zero_now) at sums)))
                (rw (z, new, failed, h.count) (add_one _ _ (rw (new, zero_now) at counts)))
          | inr held ↦
              let one_now : get_or flags k 2 ≡ 1 = ground arith in
              tried (rw (z, new, held) refl)
                (rw (z, new, held, h.sum) (same_mod _ _ _ (rw (new, one_now) at sums)))
                (rw (z, new, held, h.count) (same_mod _ _ _ (rw (new, one_now) at counts)))
        ]
        | inr new ↦ elim (Bool-cases (get_or s.satisfied k 2 == 0)) [
          | inl failed ↦
              let zero_now : get_or flags k 2 ≡ 0 = ground arith in
              tried (rw (z, new, failed) refl)
                (rw (z, new, failed, h.sum) (same_mod _ _ _ (rw (new, zero_now) at sums)))
                (rw (z, new, failed, h.count) (same_mod _ _ _ (rw (new, zero_now) at counts)))
          | inr held ↦
              let one_now : get_or flags k 2 ≡ 1 = ground arith in
              tried (rw (z, new, held) refl)
                (rw (z, new, held, h.sum)
                  (mod_off _ _ _ (rw (new, one_now) at sums) (shaped.weights k)))
                (rw (z, new, held, h.count) (sub_one _ _ (rw (new, one_now) at counts)))
        ]
      ]

  pub try_clause-IsTried :
      (flags : List ℕ) (t : Trial) (k : ℕ)
      → watched k ≡ true
      → get_or s.satisfied k 2 < 2
      → IsTried flags t
      → IsTried (set flags k (bit (would_hold s flipped k))) (try_clause s flipped k t)
  unfolding try_clause
  try_clause-IsTried flags t k w b h = elim (Bool-cases (get_or t.seen k 0 == 0)) [
    | inl fresh ↦ fresh-IsTried flags t k w b ((==_iff _ 0).0 fresh) h
    | inr seen ↦
        let v = (h.marked k (λ z. absurd (false≢true (sym seen ∙ (==_iff _ 0).1 z)))).1 in
        rw (seen, ← v, set_same flags k 2) h
  ]

  marks :
      (t : Trial) (k : ℕ) → get_or t.seen k 0 ≡ 0 → (try_clause s flipped k t).seen ≡ set t.seen k 1
  unfolding try_clause
  marks t k z = ground arith

  kept :
      (t : Trial) (k c : ℕ)
      → (get_or t.seen k 0 == 0) ≡ false
      → get_or (try_clause s flipped k t).seen c 0 ≡ 0
      → get_or t.seen c 0 ≡ 0
  unfolding try_clause
  kept t k c seen e = rw seen at e

  -- A clause that is not looked at afterwards was not before, and is not the one of this step.
  pub missed_one :
      (flags : List ℕ) (t : Trial) (k c : ℕ)
      → watched k ≡ true
      → IsTried flags t
      → get_or (try_clause s flipped k t).seen c 0 ≡ 0
      → (get_or t.seen c 0 ≡ 0) × ((k == c) ≡ false)
  missed_one flags t k c w h e =
      let in_seen : k < length t.seen = rw (h.seen_size, shaped.flags) (shaped.within k w) in
      elim (Bool-cases (get_or t.seen k 0 == 0)) [
        | inl fresh ↦
            unset k c _ _ (set-update t.seen k 1 c 0 in_seen)
              (rw (marks t k ((==_iff _ 0).0 fresh)) at e)
        | inr seen ↦ let still = kept t k c seen e in (still, apart t.seen k c seen still)
      ]
