-- ===== src/Climb/Optimum.antt =====
-- The bags of a round of `solve` and their choices of values, at the end of the round.
use latin_squares_diploma_it.Prelude.{
  ℕ, suc, ◌≤◌, ◌<◌, ◌≡◌, refl, sym, ◌∙◌, subst, arith, Bool, true, false, List, [], ◌∷◌, some, done,
  Sort, length, any, get_or, Ascending, inl, inr, ltb, if◌then◌else◌,
}
use latin_squares_diploma_it.Utils.Word.{u32_mod}
use latin_squares_diploma_it.Utils.Binomial.{binom}
use latin_squares_diploma_it.Utils.Combination.{IsCombination}
use latin_squares_diploma_it.Utils.Counting.{get_number_of_combinations}
use latin_squares_diploma_it.Utils.Odometer.{IsDigits}
use latin_squares_diploma_it.Solver.Bags.{MetaVariable}
use latin_squares_diploma_it.Climb.Bags.{same_bag, bag_limit, choose_bags}
use latin_squares_diploma_it.Climb.Batches.{batches}
use latin_squares_diploma_it.Climb.Worker.{Task, bag_at, indices_of, zeros_of}
use latin_squares_diploma_it.Climb.Threads.{Event, Threads, start_threads, run_events}
use latin_squares_diploma_it.Climb.Round.{wait_for}
use latin_squares_diploma_it.Climb.Entries.{or_cases, done_injective}
use latin_squares_diploma_it.Climb.Tried.{IsExhausted}
use latin_squares_diploma_it.Climb.Explored.{run_events-IsExhausted}
use latin_squares_diploma_it.Climb.Exhaustive.{same_bag-eq, IsBag, collect_bags-IsExhaustive}

place_of :
    (bag : List ℕ) (bags : List (List ℕ))
    → any (same_bag bag) bags ≡ true
    → (i : ℕ) × (i < length bags) × (get_or bags i [] ≡ bag)
place_of bag [] e = cc
place_of bag (b ∷ bags) e = elim (or_cases (same_bag bag b) (any (same_bag bag) bags) e) [
  | inl here ↦ (0, omega arith, sym (same_bag-eq bag b here))
  | inr later ↦ let (i, less, same) = place_of bag bags later in (suc i, omega (arith, less), same)
]

if_false : {A : Type 0} (b : Bool) (x y : A) → b ≡ false → (if b then x else y) ≡ y
if_false true x y e = cc
if_false false x y e = refl

-- Which bags are chosen where there are few enough of them.
choose_bags-IsExhaustive :
    (fuel : ℕ) (sorting : Sort ℕ) (sort_bags : List (List ℕ) → List (List ℕ))
    (meta_variables : List MetaVariable) (k v : ℕ) (rest draws : List ℕ) (number : ℕ)
    → length meta_variables < u32_mod
    → Ascending (v ∷ rest)
    → v < length meta_variables
    → k < length meta_variables
    → binom (length meta_variables) (suc k) ≤ fuel
    → get_number_of_combinations (length meta_variables) (suc k) ≡ some number
    → number ≤ bag_limit
    → (bags : List (List ℕ)) × (choose_bags fuel sorting sort_bags meta_variables
          (suc k)
          (v ∷ rest)
          draws
        ≡ done bags)
      × ((bag : List ℕ)
          → IsCombination (length meta_variables) bag
          → length bag ≡ suc k
          → IsBag meta_variables (v ∷ rest) bag
          → any (same_bag bag) bags ≡ true)
unfolding choose_bags
choose_bags-IsExhaustive fuel sorting sort_bags meta_variables k v rest draws number small a v_lt
      k_lt enough counted few =
    let n = length meta_variables in
    let (start, bags, begun, run, exact) =
      collect_bags-IsExhaustive meta_variables n k v rest fuel small a v_lt k_lt enough in
    let all_bags : ltb bag_limit number ≡ false = ground (arith, few) in
    (
      bags,
      rw (begun, counted, choose_bags) (if_false (ltb bag_limit number) _ _ all_bags ∙ run),
      λ bag c size b. (exact bag c size).1 b,
    )

module _ (t : Task) (k v : ℕ) (rest : List ℕ)
    (full : (index : ℕ) → IsDigits (zeros_of t index) (indices_of t index)) where
  abbrev size_of : ℕ
  size_of = length t.search.meta_variables

  -- Where there are at most 10,000,000 bags, the suspects are sorted and below the number of cells, a
  -- bag has 1 up to that many cells, the fuel for the enumeration is C(n, k), the order of the bags is
  -- changed without losing one, the sizes of the choices fit 32 bits and none is zero: in whatever
  -- order the threads run, and whenever signals arrive, where the round ends and neither flag is set,
  -- the assignment is a local optimum: every bag of the size that contains a suspect and that
  -- satisfyPredicateForMetavars lets through is among the bags, and every choice of values of it is
  -- ruled out by satisfyPredicateForDomain, or check_flipped answers false for it.
  pub run_events-choose_bags :
      (fuel number threads : ℕ) (sorting : Sort ℕ) (sort_bags : List (List ℕ) → List (List ℕ))
      (draws : List ℕ) (bags : List (List ℕ)) (ranges : List (ℕ × ℕ)) (stopped : Bool)
      (events : List Event) (last ended : Threads)
      → size_of < u32_mod
      → Ascending (v ∷ rest)
      → v < size_of
      → k < size_of
      → binom size_of (suc k) ≤ fuel
      → get_number_of_combinations size_of (suc k) ≡ some number
      → number ≤ bag_limit
      → choose_bags fuel sorting sort_bags t.search.meta_variables (suc k) (v ∷ rest) draws
        ≡ done bags
      → ((bag : List ℕ) → any (same_bag bag) bags ≡ true → any (same_bag bag) t.bags ≡ true)
      → length t.bags < u32_mod
      → 0 < threads
      → batches (length t.bags) threads ≡ done ranges
      → run_events t events (start_threads ranges stopped) ≡ some last
      → wait_for last ≡ done ended
      → ended.shared.is_solution_found ≡ false
      → ended.shared.stopped ≡ false
      → (bag : List ℕ) → IsCombination size_of bag
      → length bag ≡ suc k
      → IsBag t.search.meta_variables (v ∷ rest) bag
      → (index : ℕ) × (bag_at t index ≡ bag) × IsExhausted t index
  run_events-choose_bags fuel number threads sorting sort_bags draws bags ranges stopped events last
        ended small a v_lt k_lt enough counted few chosen shuffled many some_thread divided run
        waited unfound unstopped bag c size b =
      let (bags', e, all_in) =
        choose_bags-IsExhaustive fuel sorting sort_bags t.search.meta_variables k v rest draws
          number small a v_lt k_lt enough counted few in
      let same : bags' ≡ bags = done_injective (sym e ∙ chosen) in
      let among =
        shuffled bag (subst (λ bs. any (same_bag bag) bs ≡ true) same (all_in bag c size b)) in
      let (index, less, at) = place_of bag t.bags among in
      (
        index,
        at,
        run_events-IsExhausted t full threads ranges stopped events last ended many some_thread
            divided run waited unfound unstopped index less,
      )
