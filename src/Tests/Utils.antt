-- ===== src/Tests/Utils.antt =====
-- The functions of localsearch/utils/utils.cpp at small inputs.
use latin_squares_diploma_it.Prelude.{
  ℕ, ◌≡◌, refl, ◌⊎◌, arith, Bool, true, false, List, [], ◌∷◌, none, some,
}
use latin_squares_diploma_it.Utils.Word.{uint64_max}
use latin_squares_diploma_it.Utils.Binomial.{binom}
use latin_squares_diploma_it.Utils.Combination.{next_combination, Successor, next_combination_moves}
use latin_squares_diploma_it.Utils.Including.{
  next_combination_including, Found, next_combination_including_finds,
}
use latin_squares_diploma_it.Utils.Counting.{
  get_number_of_combinations, get_number_of_combinations_lem, get_number_of_combinations_faults,
}
use latin_squares_diploma_it.Utils.Odometer.{next_array, Advanced, next_array_advances}
use latin_squares_diploma_it.Utils.Log.{log}

-- 0 1 4, 0 2 4, 1 2 4, 0 3 4: the third step carries.
next_runs :
    (next_combination (0 ∷ 1 ∷ 4 ∷ []) 6 ≡ (0 ∷ 2 ∷ 4 ∷ [], true))
    × (next_combination (1 ∷ 2 ∷ 4 ∷ []) 6 ≡ (0 ∷ 3 ∷ 4 ∷ [], true))
    × (next_combination (3 ∷ 4 ∷ 5 ∷ []) 6 ≡ (0 ∷ 1 ∷ 2 ∷ [], false))
unfolding next_combination
next_runs = (refl, refl, refl)

counting_runs :
    (get_number_of_combinations 10 3 ≡ some 120)
    × (get_number_of_combinations 2 3 ≡ none)
    × (get_number_of_combinations 300 20 ≡ some uint64_max)
unfolding get_number_of_combinations
counting_runs = (refl, refl, refl)

log_runs : (log 0 ≡ some 0) × (log 5 ≡ some 3)
unfolding log
log_runs = (refl, refl)

next_combination_moves_example :
    Successor 6 (1 ∷ 2 ∷ 4 ∷ []) (next_combination (1 ∷ 2 ∷ 4 ∷ []) 6).0
unfolding next_combination
next_combination_moves_example =
    next_combination_moves 6 (1 ∷ 2 ∷ 4 ∷ []) (omega arith) (omega arith) refl

abbrev wanted : List ℕ
wanted = 3 ∷ 5 ∷ []

next_combination_including_finds_example :
    (out : List ℕ) × (more : Bool) × (next_combination_including 20 (0 ∷ 1 ∷ 2 ∷ []) 6 wanted
      ≡ some (out, more))
    × Found 6 wanted (0 ∷ 1 ∷ 2 ∷ []) out more
unfolding binom
next_combination_including_finds_example =
    next_combination_including_finds 20 6 wanted (0 ∷ 1 ∷ 2 ∷ []) (omega arith) (omega arith)
      (omega arith) (omega arith)

get_number_of_combinations_lem_example :
    (get_number_of_combinations 10 3 ≡ some uint64_max)
    ⊎ (get_number_of_combinations 10 3 ≡ some (binom 10 3))
get_number_of_combinations_lem_example =
    get_number_of_combinations_lem 10 3 (omega arith) (omega arith)

get_number_of_combinations_faults_example :
    (get_number_of_combinations 2 3 ≡ some uint64_max) ⊎ (get_number_of_combinations 2 3 ≡ none)
get_number_of_combinations_faults_example =
    get_number_of_combinations_faults 2 3 (omega arith) (omega arith)

-- Two values for the first meta-variable of the bag and three for the second.
abbrev sizes : List (List ℕ)
sizes = (0 ∷ 1 ∷ []) ∷ (0 ∷ 1 ∷ 2 ∷ []) ∷ []

next_array_advances_example :
    Advanced (1 ∷ 1 ∷ []) sizes (next_array (1 ∷ 1 ∷ []) sizes).0 (next_array (1 ∷ 1 ∷ []) sizes).1
next_array_advances_example = next_array_advances (1 ∷ 1 ∷ []) sizes (omega arith)

next_array_runs : next_array (1 ∷ 1 ∷ []) sizes ≡ (0 ∷ 2 ∷ [], true)
unfolding next_array
next_array_runs = refl
