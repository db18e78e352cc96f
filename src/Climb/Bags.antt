-- ===== src/Climb/Bags.antt =====
-- Which bags a round of `solve` tries.
use latin_squares_diploma_it.Prelude.{
  ℕ, zero, suc, Bool, true, false, ◌&&◌, List, [], ◌∷◌, ◌++◌, none, some, Outcome, done, fault,
  stuck, ◌>>=◌, Sort, ltb, leb, ◌==◌, if◌then◌else◌, length,
}
use latin_squares_diploma_it.Utils.Combination.{first_from}
use latin_squares_diploma_it.Utils.Including.{next_combination_including}
use latin_squares_diploma_it.Utils.Counting.{get_number_of_combinations}
use latin_squares_diploma_it.Solver.Bags.{MetaVariable, satisfy_predicate_for_metavars}
use latin_squares_diploma_it.Solver.Draws.{random_combination_including}

-- `tmpPermutationIndices`: 0, 1, …, and for the last element the least meta-variable of a false clause,
-- where it is not among them. Without such a meta-variable, or for a bag of none, an index is out of
-- range.
unfoldable pub first_bag : ℕ → List ℕ → Outcome (List ℕ)
unfolding first_from
first_bag zero vars = fault
first_bag (suc k) [] = fault
first_bag (suc k) (v ∷ vars) = done (first_from 0 k ++ (if leb v k then k else v) ∷ [])

-- `emplace_back` where the predicate lets the bag through.
abbrev pub keep : List MetaVariable → List ℕ → List (List ℕ) → List (List ℕ)
keep meta_variables bag bags =
    if satisfy_predicate_for_metavars meta_variables bag then bag ∷ bags else bags

-- The do-while loop over the bags, on fuel; `steps` is the fuel for each call of
-- `next_combination_including`.
unfoldable pub collect_bags :
    ℕ → ℕ → List MetaVariable → ℕ → List ℕ → List ℕ → Outcome (List (List ℕ))
unfolding next_combination_including satisfy_predicate_for_metavars
collect_bags zero steps meta_variables n vars bag = stuck
collect_bags (suc fuel) steps meta_variables n vars bag =
    elim (next_combination_including steps bag n vars) [
      | none ↦ stuck
      | some (next, true) ↦ collect_bags fuel steps meta_variables n vars next >>= λ bags.
          done (keep meta_variables bag bags)
      | some (next, false) ↦ done (keep meta_variables bag [])
    ]

-- The loop over random bags, with so many tries left.
unfoldable pub draw_bags :
    ℕ → ℕ → Sort ℕ → List MetaVariable → ℕ → ℕ → List ℕ → List ℕ → Outcome (List (List ℕ))
unfolding random_combination_including satisfy_predicate_for_metavars
draw_bags zero steps sorting meta_variables n k vars draws = done []
draw_bags (suc tries) steps sorting meta_variables n k vars draws =
    random_combination_including steps sorting meta_variables n k vars draws >>= λ r.
    draw_bags tries steps sorting meta_variables n k vars r.1 >>= λ bags.
    done (keep meta_variables r.0 bags)

abbrev pub same_bag : List ℕ → List ℕ → Bool
same_bag [] [] = true
same_bag [] (y ∷ ys) = false
same_bag (x ∷ xs) [] = false
same_bag (x ∷ xs) (y ∷ ys) = x == y && same_bag xs ys

-- The loop over the sorted random bags: a bag that differs from the next one is kept, and the last one
-- together with the one before it. The bound of the loop, one less than the size, wraps around on none.
unfoldable pub drop_repeats : List (List ℕ) → Outcome (List (List ℕ))
drop_repeats [] = fault
drop_repeats (a ∷ []) = done []
drop_repeats (a ∷ b ∷ []) = done (if same_bag a b then [] else a ∷ b ∷ [])
drop_repeats (a ∷ b ∷ c ∷ bags) =
    drop_repeats (b ∷ c ∷ bags) >>= λ rest. done (if same_bag a b then rest else a ∷ rest)

-- How many bags there may be for all of them to be tried, and how many are drawn otherwise.
abbrev pub bag_limit : ℕ
bag_limit = 10000000

-- All bags or random ones; `sort_bags` is `std::sort` on vectors.
unfoldable pub choose_bags :
    ℕ
    → Sort ℕ
    → (List (List ℕ) → List (List ℕ))
    → List MetaVariable
    → ℕ
    → List ℕ
    → List ℕ
    → Outcome (List (List ℕ))
unfolding first_bag collect_bags draw_bags drop_repeats get_number_of_combinations
choose_bags fuel sorting sort_bags meta_variables k vars draws =
    let n = length meta_variables in
    first_bag k vars >>= λ bag. elim (get_number_of_combinations n k) [
      | none ↦ fault
      | some number ↦
          if ltb bag_limit number
          then (draw_bags bag_limit fuel sorting meta_variables n k vars draws >>= λ bags.
              drop_repeats (sort_bags bags))
          else collect_bags fuel fuel meta_variables n vars bag
    ]
