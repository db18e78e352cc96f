-- ===== src/Net/OrAnd.antt =====
-- `OrAndNode::propagate` of localsearch/net/Node.cpp never moves its position in `flipped`, so it
-- sees the first flip only.
use mathlib.Core.List.{flatten}
use latin_squares_diploma_it.Prelude.{ℕ, ◌≡◌, refl, arith, Bool, List, [], ◌∷◌, all, any}
use latin_squares_diploma_it.Cnf.Literal.{Literal}
use latin_squares_diploma_it.Net.Node.{or_and, or_and_node, or_and_group, or_and_loop, propagate}
use latin_squares_diploma_it.Net.Gate.{agrees_flipped, gate_value}

module _ (units : List ℕ) (f : ℕ) (flipped : List ℕ) where
  abbrev first_only : Literal → Bool
  first_only = agrees_flipped units (f ∷ [])

  group-first_flip : (ls : List Literal) → or_and_group ls units (f ∷ flipped) ≡ all first_only ls
  unfolding or_and_group agrees_flipped
  group-first_flip [] = refl
  group-first_flip (l ∷ ls) = ground (arith, group-first_flip ls)

  loop-first_flip :
      (groups : List (List Literal))
      → or_and_loop groups units (f ∷ flipped) ≡ any (all first_only) groups
  unfolding or_and_loop
  loop-first_flip [] = refl
  loop-first_flip (g ∷ groups) = ground (arith, group-first_flip g, loop-first_flip groups)

  -- Whatever flips follow the first one, `propagate` of an or-of-ands node gives the value that the
  -- node has after the first flip alone.
  pub propagate-first_flip :
      (variable : ℕ) (groups : List (List Literal))
      → propagate (or_and_node variable groups) units (f ∷ flipped)
        ≡ gate_value (agrees_flipped units (f ∷ [])) (or_and groups) (flatten groups)
  unfolding propagate gate_value or_and_node
  propagate-first_flip variable groups = loop-first_flip groups
