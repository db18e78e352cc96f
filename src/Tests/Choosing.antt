-- ===== src/Tests/Choosing.antt =====
-- Bags of a round: repeated ones, and all bags of two of three cells.
use latin_squares_diploma_it.Prelude.{
  ◌↔◌, ℕ, length, any, fault, ◌≡◌, refl, arith, true, List, [], ◌∷◌, done,
}
use latin_squares_diploma_it.Climb.Bags.{drop_repeats}
use latin_squares_diploma_it.Climb.Repeats.{unique, drop_repeats-unique, drop_repeats_loses}
use latin_squares_diploma_it.Utils.Binomial.{binom}
use latin_squares_diploma_it.Utils.Combination.{IsCombination}
use latin_squares_diploma_it.Climb.Bags.{first_bag, collect_bags, same_bag}
use latin_squares_diploma_it.Climb.Exhaustive.{IsBag, collect_bags-IsExhaustive}
use latin_squares_diploma_it.Tests.Bags.{cells}

-- A single random bag is lost, without one the loop reads out of range, and the last bag is lost where
-- the one before it is the same.
drops_single : drop_repeats ((0 ∷ []) ∷ []) ≡ done []
unfolding drop_repeats
drops_single = refl

drops_none : drop_repeats [] ≡ fault
unfolding drop_repeats
drops_none = refl

drops_last : drop_repeats ((0 ∷ []) ∷ (1 ∷ []) ∷ (1 ∷ []) ∷ []) ≡ done ((0 ∷ []) ∷ [])
unfolding drop_repeats
drops_last = refl

drop_repeats-unique_example :
    drop_repeats ((0 ∷ []) ∷ (0 ∷ []) ∷ (1 ∷ []) ∷ [])
    ≡ done (unique ((0 ∷ []) ∷ (0 ∷ []) ∷ (1 ∷ []) ∷ []))
drop_repeats-unique_example = drop_repeats-unique ((0 ∷ []) ∷ []) (0 ∷ []) (1 ∷ []) refl

drop_repeats_loses_example :
    drop_repeats ((0 ∷ []) ∷ (1 ∷ []) ∷ (1 ∷ []) ∷ (1 ∷ []) ∷ []) ≡ done (unique ((0 ∷ []) ∷ []))
drop_repeats_loses_example = drop_repeats_loses [] (0 ∷ []) (1 ∷ []) 1 refl

collect_bags-IsExhaustive_example :
    (start : List ℕ) × (bags : List (List ℕ)) × (first_bag 2 (0 ∷ []) ≡ done start)
    × (collect_bags 3 3 cells 3 (0 ∷ []) start ≡ done bags)
    × ((bag : List ℕ)
        → IsCombination 3 bag
        → length bag ≡ 2
        → ((any (same_bag bag) bags ≡ true) ↔ IsBag cells (0 ∷ []) bag))
unfolding binom
collect_bags-IsExhaustive_example =
    collect_bags-IsExhaustive cells 3 1 0 [] 3 (omega arith) (tt, tt) (omega arith) (omega arith)
      (omega arith)
