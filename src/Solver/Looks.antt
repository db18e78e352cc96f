-- ===== src/Solver/Looks.antt =====
-- The loops of `check_flipped`: the trial sums stay those of the flags that the clauses looked at would
-- have, and every clause of a flipped variable is looked at.
use latin_squares_diploma_it.Prelude.{
  ℕ, ◌<◌, ◌≡◌, refl, Bool, true, false, List, [], ◌∷◌, get_or, All,
}
use latin_squares_diploma_it.Solver.State.{Solver}
use latin_squares_diploma_it.Solver.Apply.{clauses_with}
use latin_squares_diploma_it.Solver.Check.{Trial, try_clauses, try_all}
use latin_squares_diploma_it.Solver.Steps.{IsShaped}
use latin_squares_diploma_it.Solver.Loops.{occurrences}
use latin_squares_diploma_it.Solver.Trials.{IsTried, try_clause-IsTried, missed_one}

module _ (s : Solver) (watched : ℕ → Bool) (shaped : IsShaped s watched) (flipped : List ℕ) where
  -- What a loop over clauses leaves: a clause that is still not looked at was not in the list.
  pub record Looked (ks : List ℕ) (t t' : Trial) : Type 0 where
    pub flags : List ℕ
    pub tried : IsTried s watched shaped flipped flags t'
    pub missed : (c : ℕ) → get_or t'.seen c 0 ≡ 0 → (get_or t.seen c 0 ≡ 0) × (occurrences c ks ≡ 0)

  module _ (bytes : (c : ℕ) → watched c ≡ true → get_or s.satisfied c 2 < 2) where
    pub try_clauses-Looked :
        (ks flags : List ℕ) (t : Trial)
        → All (λ c. watched c ≡ true) ks
        → IsTried s watched shaped flipped flags t
        → Looked ks t (try_clauses s flipped ks t)
    unfolding try_clauses
    try_clauses-Looked [] flags t w h = record {
      flags = flags;
      tried = h;
      missed = λ c e. (e, refl);
    }
    try_clauses-Looked (k ∷ ks) flags t w h =
        let rest =
          try_clauses-Looked ks _ _ w.1
            (try_clause-IsTried s watched shaped flipped flags t k w.0 (bytes k w.0) h) in
        record {
          flags = rest.flags;
          tried = rest.tried;
          missed = λ c e.
              let (still, others) = rest.missed c e in
              let (before, away) = missed_one s watched shaped flipped flags t k c w.0 h still in
              (before, rw (away, others) refl);
        }

    -- The same for the loop over the flips.
    pub record LookedAll (rest : List ℕ) (t' : Trial) : Type 0 where
      pub flags : List ℕ
      pub tried : IsTried s watched shaped flipped flags t'
      pub missed :
          (c : ℕ)
          → get_or t'.seen c 0 ≡ 0
          → All (λ i. (b : Bool) → occurrences c (clauses_with s b i) ≡ 0) rest

    both_cases : (P : Bool → Type 0) → P true → P false → (b : Bool) → P b
    both_cases P p q true = p
    both_cases P p q false = q

    pub try_all-Looked :
        ((i : ℕ) (b : Bool) → All (λ c. watched c ≡ true) (clauses_with s b i))
        → (rest flags : List ℕ) (t : Trial) → IsTried s watched shaped flipped flags t
        → LookedAll rest (try_all s flipped rest t)
          × ((c : ℕ) → get_or (try_all s flipped rest t).seen c 0 ≡ 0 → get_or t.seen c 0 ≡ 0)
    unfolding try_all
    try_all-Looked listed [] flags t h =
        (record { flags = flags; tried = h; missed = λ c e. tt }, λ c e. e)
    try_all-Looked listed (i ∷ rest) flags t h =
        let one = try_clauses-Looked (clauses_with s true i) flags t (listed i true) h in
        let two = try_clauses-Looked (clauses_with s false i) _ _ (listed i false) one.tried in
        let (all, back) = try_all-Looked listed rest _ _ two.tried in
        (
          record {
            flags = all.flags;
            tried = all.tried;
            missed = λ c e.
                let p = two.missed c (back c e) in
                let q = one.missed c p.0 in
                (both_cases (λ b. occurrences c (clauses_with s b i) ≡ 0) q.1 p.1, all.missed c e);
          },
          λ c e. (one.missed c (two.missed c (back c e)).0).0,
        )
