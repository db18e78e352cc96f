-- ===== src/Net/Gate.antt =====
-- What a node means, as a Boolean function of the values of its literals, and that `propagate`
-- computes it.
use mathlib.Core.List.{flatten}
use latin_squares_diploma_it.Prelude.{
  ℕ, ◌≤◌, ◌≡◌, refl, arith, Bool, not, List, [], ◌∷◌, any, all, any_congr, all_congr, has, All,
  Ascending, skip, is_at-skip, All-split, has-skip, Ascending-skip,
}
use latin_squares_diploma_it.Cnf.Literal.{Literal, xor_flag, unit_of}
use latin_squares_diploma_it.Cnf.Propagation.{numbers}
use latin_squares_diploma_it.Net.Node.{
  Gate, value, and_iff, or_iff, or_and, Node, to_bool, differs, and_iff_loop, or_iff_loop,
  or_and_group, or_and_loop, dispatch, propagate,
}

-- Whether the literal is true when its variable's byte is `u`.
abbrev pub agrees : ℕ → Literal → Bool
agrees u l = not (differs (to_bool u) l.value)

-- The value of a gate under a reading of the variables.
unfoldable pub gate_value : (Literal → Bool) → Gate → List Literal → Bool
gate_value truth (value b) args = b
gate_value truth and_iff args = all truth args
gate_value truth or_iff args = any truth args
gate_value truth (or_and groups) args = any (λ group. all truth group) groups

-- The value of a node under an assignment, and under an assignment with flips.
abbrev pub node_value : List ℕ → Node → Bool
node_value units n = gate_value (λ l. agrees (unit_of units l) l) n.gate n.args

unfoldable pub agrees_flipped : List ℕ → List ℕ → Literal → Bool
agrees_flipped units flipped l = agrees (xor_flag (unit_of units l) (has l.number flipped)) l

module _ (units flipped : List ℕ) where
  skip-agrees :
      (n : ℕ) (ls : List Literal)
      → All (λ m. n ≤ m) (numbers ls)
      → All (λ l. agrees_flipped units (skip n flipped) l ≡ agrees_flipped units flipped l) ls
  unfolding agrees_flipped
  skip-agrees n [] h = tt
  skip-agrees n (l ∷ ls) h = (rw (has-skip n l.number flipped h.0), skip-agrees n ls h.1)

and_iff_loop-all :
    (ls : List Literal) (units flipped : List ℕ)
    → Ascending (numbers ls)
    → Ascending flipped
    → and_iff_loop ls units flipped ≡ all (agrees_flipped units flipped) ls
unfolding and_iff_loop agrees_flipped
and_iff_loop-all [] units flipped h k = refl
and_iff_loop-all (l ∷ ls) units flipped h k = ground (
  arith,
  is_at-skip l.number flipped k,
  and_iff_loop-all ls units (skip l.number flipped) h.1 (Ascending-skip l.number flipped k),
  all_congr (agrees_flipped units (skip l.number flipped)) (agrees_flipped units flipped) ls
      (skip-agrees units flipped l.number ls h.0),
)

or_iff_loop-any :
    (ls : List Literal) (units flipped : List ℕ)
    → Ascending (numbers ls)
    → Ascending flipped
    → or_iff_loop ls units flipped ≡ any (agrees_flipped units flipped) ls
unfolding or_iff_loop agrees_flipped
or_iff_loop-any [] units flipped h k = refl
or_iff_loop-any (l ∷ ls) units flipped h k = ground (
  arith,
  is_at-skip l.number flipped k,
  or_iff_loop-any ls units (skip l.number flipped) h.1 (Ascending-skip l.number flipped k),
  any_congr (agrees_flipped units (skip l.number flipped)) (agrees_flipped units flipped) ls
      (skip-agrees units flipped l.number ls h.0),
)

-- The gates whose `propagate` moves its position along: all but `OrAndNode`.
abbrev pub IsScanned : Gate → Type 0
IsScanned (or_and groups) = ⊥
IsScanned (value b) = Unit
IsScanned and_iff = Unit
IsScanned or_iff = Unit

dispatch-gate_value :
    (g : Gate) (args : List Literal) (units flipped : List ℕ)
    → IsScanned g
    → Ascending (numbers args)
    → Ascending flipped
    → dispatch g args units flipped ≡ gate_value (agrees_flipped units flipped) g args
unfolding dispatch gate_value
dispatch-gate_value (value b) args units flipped s h k = refl
dispatch-gate_value and_iff args units flipped s h k = and_iff_loop-all args units flipped h k
dispatch-gate_value or_iff args units flipped s h k = or_iff_loop-any args units flipped h k
dispatch-gate_value (or_and groups) args units flipped s h k = absurd s

-- With sorted arguments and sorted flips, `propagate` of a value, and or or node is the node's value
-- after the flips.
pub propagate-gate_value :
    (n : Node) (units flipped : List ℕ)
    → IsScanned n.gate
    → Ascending (numbers n.args)
    → Ascending flipped
    → propagate n units flipped ≡ gate_value (agrees_flipped units flipped) n.gate n.args
unfolding propagate
propagate-gate_value n units flipped s h k = dispatch-gate_value n.gate n.args units flipped s h k

module _ (units : List ℕ) where
  abbrev plain : Literal → Bool
  plain l = agrees (unit_of units l) l

  and_iff_loop-plain : (ls : List Literal) → and_iff_loop ls units [] ≡ all plain ls
  unfolding and_iff_loop
  and_iff_loop-plain [] = refl
  and_iff_loop-plain (l ∷ ls) = ground (arith, and_iff_loop-plain ls)

  or_iff_loop-plain : (ls : List Literal) → or_iff_loop ls units [] ≡ any plain ls
  unfolding or_iff_loop
  or_iff_loop-plain [] = refl
  or_iff_loop-plain (l ∷ ls) = ground (arith, or_iff_loop-plain ls)

  or_and_group-plain : (ls : List Literal) → or_and_group ls units [] ≡ all plain ls
  unfolding or_and_group
  or_and_group-plain [] = refl
  or_and_group-plain (l ∷ ls) = ground (arith, or_and_group-plain ls)

  or_and_loop-plain :
      (groups : List (List Literal)) → or_and_loop groups units [] ≡ any (all plain) groups
  unfolding or_and_loop
  or_and_loop-plain [] = refl
  or_and_loop-plain (g ∷ groups) = ground (arith, or_and_group-plain g, or_and_loop-plain groups)

  dispatch-plain :
      (g : Gate) (args : List Literal) → dispatch g args units [] ≡ gate_value plain g args
  unfolding dispatch gate_value
  dispatch-plain (value b) args = refl
  dispatch-plain and_iff args = and_iff_loop-plain args
  dispatch-plain or_iff args = or_iff_loop-plain args
  dispatch-plain (or_and groups) args = or_and_loop-plain groups

-- Without flips every node's `propagate` is its value, in whatever order its arguments stand.
pub propagate-node_value : (n : Node) (units : List ℕ) → propagate n units [] ≡ node_value units n
unfolding propagate
propagate-node_value n units = dispatch-plain units n.gate n.args

-- A value depends on the variables that the gate reads, and on nothing else.
abbrev pub inputs : Gate → List Literal → List Literal
inputs (value b) args = []
inputs and_iff args = args
inputs or_iff args = args
inputs (or_and groups) args = flatten groups

groups_congr :
    (p q : Literal → Bool) (groups : List (List Literal))
    → All (λ l. p l ≡ q l) (flatten groups)
    → any (all p) groups ≡ any (all q) groups
unfolding flatten
groups_congr p q [] h = refl
groups_congr p q (g ∷ groups) h =
    let (here, there) = All-split (λ l. p l ≡ q l) g (flatten groups) h in
    rw (all_congr p q g here, groups_congr p q groups there)

pub gate_value_congr :
    (p q : Literal → Bool) (g : Gate) (args : List Literal)
    → All (λ l. p l ≡ q l) (inputs g args)
    → gate_value p g args ≡ gate_value q g args
unfolding gate_value
gate_value_congr p q (value b) args h = refl
gate_value_congr p q and_iff args h = all_congr p q args h
gate_value_congr p q or_iff args h = any_congr p q args h
gate_value_congr p q (or_and groups) args h = groups_congr p q groups h
