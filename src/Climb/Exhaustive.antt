-- ===== src/Climb/Exhaustive.antt =====
-- The loop over all bags: which bags it collects.
use mathlib.Core.Bool.{false≢true}
use native.Mathlib.Decide.{dec_lt}
use latin_squares_diploma_it.Prelude.{
  ℕ, zero, suc, ◌+◌, ◌≤◌, ◌<◌, ◌≡◌, ◌↔◌, refl, sym, ap, ◌∙◌, subst, arith, true, List, [], ◌∷◌,
  ◌++◌, done, length, any, Ascending, Increasing-Ascending, Bool-cases, inl, inr, if◌then◌else◌,
  leb, ◌==◌, ==_iff,
}
use latin_squares_diploma_it.Utils.Word.{u32_mod}
use latin_squares_diploma_it.Utils.Binomial.{binom}
use latin_squares_diploma_it.Utils.Combination.{IsCombination, first_from, rank, rank-lt}
use latin_squares_diploma_it.Utils.Including.{
  contains-any, next_combination_including_finds, next_combination_including-length,
}
use latin_squares_diploma_it.Utils.Ranks.{rank-injective}
use latin_squares_diploma_it.Utils.Skips.{includes, next_combination_including_skips}
use latin_squares_diploma_it.Solver.Bags.{MetaVariable, satisfy_predicate_for_metavars}
use latin_squares_diploma_it.Climb.Bags.{first_bag, keep, collect_bags, same_bag}
use latin_squares_diploma_it.Climb.Entries.{and_true, or_cases, or_true}
use latin_squares_diploma_it.Climb.Least.{first_bag-IsLeast}
use latin_squares_diploma_it.Climb.Repeats.{same_bag_refl}

pub same_bag-eq : (xs ys : List ℕ) → same_bag xs ys ≡ true → xs ≡ ys
same_bag-eq [] [] e = refl
same_bag-eq [] (y ∷ ys) e = cc
same_bag-eq (x ∷ xs) [] e = cc
same_bag-eq (x ∷ xs) (y ∷ ys) e =
    let (a, b) = and_true (x == y) (same_bag xs ys) e in
    ap (λ z. z ∷ xs) ((==_iff x y).0 a) ∙ ap (λ zs. y ∷ zs) (same_bag-eq xs ys b)

-- A bag that contains one of the elements and that the predicate lets through.
pub record IsBag (meta_variables : List MetaVariable) (vars bag : List ℕ) : Type 0 where
  pub included : includes vars bag ≡ true
  pub let_through : satisfy_predicate_for_metavars meta_variables bag ≡ true

module _ (meta_variables : List MetaVariable) (n k : ℕ) (vars : List ℕ) (small : n < u32_mod)
    (a : Ascending vars) where
  -- From some combination on: each bag is one, and each of them is among the bags.
  record Collected (start : List ℕ) (bags : List (List ℕ)) : Type 0 where
    pub sound : (mid : List ℕ) → any (same_bag mid) bags ≡ true → IsBag meta_variables vars mid
    pub complete :
        (mid : List ℕ)
        → IsCombination n mid
        → length mid ≡ k
        → rank start ≤ rank mid
        → IsBag meta_variables vars mid
        → any (same_bag mid) bags ≡ true

  keep_sound :
      (start : List ℕ) (bags : List (List ℕ))
      → includes vars start ≡ true
      → ((mid : List ℕ) → any (same_bag mid) bags ≡ true → IsBag meta_variables vars mid)
      → (mid : List ℕ) → any (same_bag mid) (keep meta_variables start bags) ≡ true
      → IsBag meta_variables vars mid
  keep_sound start bags i h mid e =
      elim (Bool-cases (satisfy_predicate_for_metavars meta_variables start)) [
        | inr drops ↦ h mid (rw drops at e)
        | inl passes ↦
            elim (or_cases (same_bag mid start) (any (same_bag mid) bags) (rw passes at e)) [
              | inl here ↦
                  subst (IsBag meta_variables vars) (sym (same_bag-eq mid start here))
                    (record { included = i; let_through = passes })
              | inr later ↦ h mid later
            ]
      ]

  keep_here :
      (start : List ℕ) (bags : List (List ℕ))
      → IsBag meta_variables vars start
      → any (same_bag start) (keep meta_variables start bags) ≡ true
  keep_here start bags b = rw (b.let_through, same_bag_refl start) refl

  keep_later :
      (start mid : List ℕ) (bags : List (List ℕ))
      → any (same_bag mid) bags ≡ true
      → any (same_bag mid) (keep meta_variables start bags) ≡ true
  keep_later start mid bags e =
      elim (Bool-cases (satisfy_predicate_for_metavars meta_variables start)) [
        | inr drops ↦ rw drops e
        | inl passes ↦ rw (passes, e) (or_true (same_bag mid start))
      ]

  -- With fuel for the rest of the combinations, the loop returns the bags from a combination on that
  -- contains one of the elements.
  collect_bags-Collected :
      (fuel steps : ℕ) (start : List ℕ)
      → IsCombination n start
      → length start ≡ k
      → includes vars start ≡ true
      → binom n k ≤ fuel + rank start
      → binom n k ≤ steps
      → (bags : List (List ℕ)) × (collect_bags fuel steps meta_variables n vars start ≡ done bags)
        × Collected start bags
  unfolding collect_bags
  collect_bags-Collected zero steps start c size i enough inner =
      absurd (omega (arith, rw size at (rank-lt n start c), enough))
  collect_bags-Collected (suc fuel) steps start c size i enough inner =
      let (next, more, e, found) =
        next_combination_including_finds steps n vars start small c a
          (rw size (omega (arith, inner))) in
      elim (Bool-cases more) [
        | inr ends ↦ (
          keep meta_variables start [],
          rw (e, ends, collect_bags) refl,
          record {
            sound = keep_sound start [] i (λ mid e. cc);
            complete = λ mid c' size' from b. elim (dec_lt (rank start) (rank mid)) [
              | yes less ↦ absurd (
                  false≢true (
                    sym (
                      next_combination_including_skips steps n vars start next mid more small a c e
                        c' (size' ∙ sym size) less (λ t. absurd (false≢true (sym ends ∙ t))))
                    ∙ b.included))
              | no at ↦
                  let same : start ≡ mid =
                    rank-injective k start mid c.0 c'.0 size size' (omega arith) in
                  subst (λ m. any (same_bag m) (keep meta_variables start []) ≡ true) same
                    (keep_here start [] (subst (IsBag meta_variables vars) (sym same) b))
            ];
          },
        )
        | inl moves ↦
            let (c₂, later, contained) = found.later moves in
            let size₂ = next_combination_including-length steps n vars start next more e ∙ size in
            let i₂ = sym (contains-any next vars (Increasing-Ascending next c₂.0) a) ∙ contained in
            let (bags, run, rest) =
              collect_bags-Collected fuel steps next c₂ size₂ i₂ (omega (arith, later)) inner in
            (
              keep meta_variables start bags,
              rw (e, moves, run, collect_bags) refl,
              record {
                sound = keep_sound start bags i rest.sound;
                complete = λ mid c' size' from b. elim (dec_lt (rank mid) (rank next)) [
                  | no past ↦ keep_later start mid bags (rest.complete mid c' size' (omega arith) b)
                  | yes before ↦ elim (dec_lt (rank start) (rank mid)) [
                    | yes less ↦ absurd (
                        false≢true (
                          sym (
                            next_combination_including_skips steps n vars start next mid more small
                              a c e c' (size' ∙ sym size) less (λ t. before))
                          ∙ b.included))
                    | no at ↦
                        let same : start ≡ mid =
                          rank-injective k start mid c.0 c'.0 size size' (omega arith) in
                        subst (λ m. any (same_bag m) (keep meta_variables start bags) ≡ true) same
                          (keep_here start bags (subst (IsBag meta_variables vars) (sym same) b))
                  ]
                ];
              },
            )
      ]

-- The loop begins at the least combination that contains one of the elements, and collects exactly the
-- bags that do and that satisfyPredicateForMetavars lets through: for at least one element, sorted and
-- below n, for bags of 1 up to n cells, and with fuel of C(n, k).
pub collect_bags-IsExhaustive :
    (meta_variables : List MetaVariable) (n k v : ℕ) (rest : List ℕ) (fuel : ℕ)
    → n < u32_mod
    → Ascending (v ∷ rest)
    → v < n
    → k < n
    → binom n (suc k) ≤ fuel
    → (start : List ℕ) × (bags : List (List ℕ)) × (first_bag (suc k) (v ∷ rest) ≡ done start)
      × (collect_bags fuel fuel meta_variables n (v ∷ rest) start ≡ done bags)
      × ((bag : List ℕ)
          → IsCombination n bag
          → length bag ≡ suc k
          → ((any (same_bag bag) bags ≡ true) ↔ IsBag meta_variables (v ∷ rest) bag))
unfolding first_bag
collect_bags-IsExhaustive meta_variables n k v rest fuel small a v_lt k_lt enough =
    let least = first_bag-IsLeast n k v rest a v_lt k_lt in
    let (bags, run, c) =
      collect_bags-Collected meta_variables n (suc k) (v ∷ rest) small a fuel fuel
        (first_from 0 k ++ (if leb v k then k else v) ∷ []) least.combination least.size
        least.included (omega (arith, enough)) enough in
    (
      first_from 0 k ++ (if leb v k then k else v) ∷ [],
      bags,
      refl,
      run,
      λ bag d size. (c.sound bag, λ b. c.complete bag d size (least.least bag d size b.included) b),
    )
