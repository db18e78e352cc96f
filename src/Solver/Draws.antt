-- ===== src/Solver/Draws.antt =====
-- `HillClimbingSolver::random_combination_including`: a random bag that contains one of the given
-- meta-variables. The values of `rand()` are a list that is taken from the front.
use latin_squares_diploma_it.Prelude.{
  Bool, get_elem?, ℕ, zero, suc, ◌-◌, ◌%◌, true, false, List, [], ◌∷◌, ◌++◌, none, some, Outcome,
  done, fault, stuck, ◌>>=◌, Sort, ltb, if◌then◌else◌, length, get_or, has,
}
use latin_squares_diploma_it.Utils.Word.{u32_mod}
use latin_squares_diploma_it.Utils.Including.{next_combination_including}
use latin_squares_diploma_it.Solver.Bags.{MetaVariable, is_open, satisfy_predicate_for_metavars}

-- The while loop: numbers are drawn until one is not in the combination. It ends with the draws.
unfoldable pub draw_new : ℕ → List ℕ → ℕ → List ℕ → Outcome (ℕ × List ℕ)
draw_new n combination val [] = if has val combination then stuck else done (val, [])
draw_new n combination val (d ∷ draws) =
    let rest = draw_new n combination (d % n) draws in
    if has val combination then rest else done (val, d ∷ draws)

-- The for loop, with `left` elements to draw. The new element is -1 while it is looked for.
unfoldable pub draw_more : ℕ → ℕ → List ℕ → List ℕ → Outcome (List ℕ × List ℕ)
unfolding draw_new
draw_more n zero combination draws = done (combination, draws)
draw_more n (suc left) combination draws =
    draw_new n (combination ++ (u32_mod - 1) ∷ []) (get_or combination 0 0) draws >>= λ r.
    draw_more n left (combination ++ r.0 ∷ []) r.1

-- Up to the sorting. Without elements to include the first remainder is by zero.
unfoldable pub draw_combination : ℕ → ℕ → List ℕ → List ℕ → Outcome (List ℕ × List ℕ)
unfolding draw_more
draw_combination n k [] draws = fault
draw_combination n k (x ∷ including) [] = stuck
draw_combination n k (x ∷ including) (d ∷ draws) =
    draw_more n (k - 1) (get_or (x ∷ including) (d % length (x ∷ including)) 0 ∷ []) draws

-- Whether `satisfyPredicateForMetavars` reads meta-variables that are there: its first loop reads them in
-- turn and ends at the first with at most one choice, and the rest reads them only where none has.
unfoldable pub reads_within : List MetaVariable → List ℕ → Bool
reads_within meta_variables [] = true
reads_within meta_variables (i ∷ indices) = elim (get_elem? meta_variables i) [
  | none ↦ false
  | some v ↦ if is_open v then reads_within meta_variables indices else true
]

-- The loop of one try, on fuel for `next_combination_including`, whose result is not looked at.
unfoldable pub try_combination : ℕ → List MetaVariable → ℕ → List ℕ → List ℕ → Outcome (List ℕ)
unfolding next_combination_including satisfy_predicate_for_metavars reads_within
try_combination fuel meta_variables n including combination =
    elim (reads_within meta_variables combination) [
      | false ↦ fault
      | true ↦ elim (satisfy_predicate_for_metavars meta_variables combination) [
        | true ↦ done combination
        | false ↦ elim (next_combination_including fuel combination n including) [
          | none ↦ stuck
          | some (next, more) ↦ done next
        ]
      ]
    ]

unfoldable pub random_combination_including :
    ℕ → Sort ℕ → List MetaVariable → ℕ → ℕ → List ℕ → List ℕ → Outcome (List ℕ × List ℕ)
unfolding draw_combination try_combination
random_combination_including fuel sorting meta_variables n k including draws =
    draw_combination n k including draws >>= λ r.
    try_combination fuel meta_variables n including (sorting.sort ltb r.0) >>= λ combination.
    done (combination, r.1)
