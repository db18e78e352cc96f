-- ===== src/Tests/Drawing.antt =====
-- Draws of bags of two of three cells, and new values for cells of a 2 × 2 square.
use latin_squares_diploma_it.Prelude.{
  ℕ, ◌≤◌, ◌≡◌, refl, arith, true, false, List, [], ◌∷◌, none, some, has, ◌||◌, Outcome, done,
  Ensures, ◌⊎◌,
}
use latin_squares_diploma_it.Utils.Binomial.{binom}
use latin_squares_diploma_it.Utils.Combination.{first_from}
use latin_squares_diploma_it.Utils.Including.{IsIncluding}
use latin_squares_diploma_it.Utils.Random.{random_combination, random_combination-Ensures}
use latin_squares_diploma_it.Solver.Bags.{MetaVariable}
use latin_squares_diploma_it.Solver.Cells.{Cells}
use latin_squares_diploma_it.Solver.Draws.{random_combination_including}
use latin_squares_diploma_it.Solver.Drawn.{random_combination_including-Ensures}
use latin_squares_diploma_it.Solver.Domain.{satisfy_predicate_for_domain}
use latin_squares_diploma_it.Solver.Counts.{count_all, suspects, accounts, suspects-accounts}
use latin_squares_diploma_it.Tests.Net.{lit}
use latin_squares_diploma_it.Tests.InsertionSort.{insertion_sort, insertion}

abbrev cell : ℕ → ℕ → MetaVariable
cell r c = record {
  matrix_index = 0;
  row_index = r;
  column_index = c;
  variables = (lit 1 true ∷ []) ∷ (lit 1 false ∷ []) ∷ [];
  values = 1 ∷ 2 ∷ [];
}

abbrev cells : List MetaVariable
cells = cell 0 0 ∷ cell 0 1 ∷ cell 1 1 ∷ []

-- The draw 2 stands for cell 2; 5 is cell 2 again and is drawn once more, 4 is cell 1.
draw_runs :
    random_combination_including 3 insertion cells 3 2 (0 ∷ 2 ∷ []) (1 ∷ 5 ∷ 4 ∷ 7 ∷ [])
    ≡ done (1 ∷ 2 ∷ [], 7 ∷ [])
unfolding random_combination_including insertion_sort
draw_runs = refl

abbrev outcome : Outcome (List ℕ × List ℕ)
outcome = random_combination_including 3 insertion cells 3 2 (0 ∷ 2 ∷ []) (1 ∷ 5 ∷ 4 ∷ 7 ∷ [])

three_bags : binom 3 2 ≤ 3
unfolding binom
three_bags = omega arith

random_combination_including-Ensures_example :
    Ensures outcome (λ r. IsIncluding 3 2 (0 ∷ 2 ∷ []) r.0 ⊎ (r.0 ≡ first_from 0 2))
random_combination_including-Ensures_example =
    random_combination_including-Ensures insertion 3 cells 3 2 (0 ∷ 2 ∷ []) (1 ∷ 5 ∷ 4 ∷ 7 ∷ [])
      (omega arith) (omega arith) (omega arith) (omega arith) (((omega arith, tt), (tt, tt)))
      (omega arith, (omega arith, tt)) three_bags

-- The square 1 2 / 2 2, in which the last row and the last column hold a value twice.
abbrev square : Cells ℕ
square = ((1 ∷ 2 ∷ []) ∷ (2 ∷ 2 ∷ []) ∷ []) ∷ []

abbrev rows : Cells ℕ
rows = ((1 ∷ 1 ∷ []) ∷ (0 ∷ 2 ∷ []) ∷ []) ∷ []

-- Two squares 1 2 / 2 1 have the pairs (1, 1) and (2, 2), each twice.
abbrev twins : Cells ℕ
twins = ((1 ∷ 2 ∷ []) ∷ (2 ∷ 1 ∷ []) ∷ []) ∷ ((1 ∷ 2 ∷ []) ∷ (2 ∷ 1 ∷ []) ∷ []) ∷ []

abbrev evens : Cells ℕ
evens = ((1 ∷ 1 ∷ []) ∷ (1 ∷ 1 ∷ []) ∷ []) ∷ ((1 ∷ 1 ∷ []) ∷ (1 ∷ 1 ∷ []) ∷ []) ∷ []

pairs_run :
    (satisfy_predicate_for_domain cells twins
        (0 ∷ 2 ∷ [])
        (0 ∷ 0 ∷ [])
        evens
        evens
        ((2 ∷ 0 ∷ 0 ∷ 2 ∷ []) ∷ [])
      ≡ true)
    × (satisfy_predicate_for_domain cells twins
          (0 ∷ [])
          (1 ∷ [])
          evens
          evens
          ((2 ∷ 0 ∷ 0 ∷ 2 ∷ []) ∷ [])
        ≡ false)
unfolding satisfy_predicate_for_domain
pairs_run = (refl, refl)

-- The 1 in the last place removes two repetitions; a 2 in the first place makes two.
domain_runs :
    (satisfy_predicate_for_domain cells square (2 ∷ []) (0 ∷ []) rows rows [] ≡ true)
    × (satisfy_predicate_for_domain cells square (0 ∷ []) (1 ∷ []) rows rows [] ≡ false)
unfolding satisfy_predicate_for_domain
domain_runs = (refl, refl)

abbrev plain_outcome : Outcome (List ℕ × List ℕ)
plain_outcome = random_combination 3 2 3 2 (0 ∷ 2 ∷ []) (5 ∷ 6 ∷ 7 ∷ [])

random_combination-Ensures_example : Ensures plain_outcome (λ r. IsIncluding 3 2 (0 ∷ 2 ∷ []) r.0)
random_combination-Ensures_example =
    random_combination-Ensures 3 2 3 2 (0 ∷ 2 ∷ []) (5 ∷ 6 ∷ 7 ∷ []) (omega arith) (omega arith)
      ((omega arith, tt), (tt, tt)) three_bags

counts_run : count_all twins ≡ record {
  rows_distinct = evens;
  columns_distinct = evens;
  pairs_index = (2 ∷ 0 ∷ 0 ∷ 2 ∷ []) ∷ [];
}
unfolding count_all
counts_run = refl

-- Literal 2 of a false clause belongs to cell 1.
suspects-accounts_example :
    has 1 (suspects (none ∷ some 0 ∷ some 1 ∷ none ∷ []) 3 0 (0 ∷ 0 ∷ 4 ∷ 0 ∷ []) [])
    ≡ (false || accounts (none ∷ some 0 ∷ some 1 ∷ none ∷ []) 3 1 0 (0 ∷ 0 ∷ 4 ∷ 0 ∷ []))
suspects-accounts_example =
    suspects-accounts (none ∷ some 0 ∷ some 1 ∷ none ∷ []) 3 1 0 (0 ∷ 0 ∷ 4 ∷ 0 ∷ []) []
