-- ===== src/Net/Node.antt =====
-- localsearch/net/Node.h and Node.cpp: the four classes of nodes and their `propagate`. A position
-- into `flipped` is the rest of that vector from there on.
use mathlib.Core.List.{flatten}
use latin_squares_diploma_it.Prelude.{
  ℕ, Bool, true, false, not, List, [], ◌∷◌, Option, none, some, ◌==◌, if◌then◌else◌, skip, is_at,
}
use latin_squares_diploma_it.Cnf.Literal.{Literal, xor_flag, unit_of}

-- The subclasses, with the field that each adds.
pub data Gate : Type 0 where
  value : Bool → Gate
  and_iff or_iff : Gate
  or_and : List (List Literal) → Gate

-- `depth` is `none` for the -1 of a depth not yet computed.
pub record Node : Type 0 where
  pub args : List Literal
  pub variable : ℕ
  pub depth : Option ℕ
  pub gate : Gate

unfoldable pub value_node : ℕ → Bool → Node
value_node variable b = record { args = []; variable = variable; depth = some 0; gate = value b }

unfoldable pub and_iff_node : ℕ → List Literal → Node
and_iff_node variable args = record {
  args = args;
  variable = variable;
  depth = none;
  gate = and_iff;
}

unfoldable pub or_iff_node : ℕ → List Literal → Node
or_iff_node variable args = record { args = args; variable = variable; depth = none; gate = or_iff }

unfoldable pub or_and_node : ℕ → List (List Literal) → Node
or_and_node variable groups = record {
  args = flatten groups;
  variable = variable;
  depth = none;
  gate = or_and groups;
}

-- `bool value = units[arg.number] ^ isFlipped`: any byte but 0 is true.
abbrev pub to_bool : ℕ → Bool
to_bool u = not (u == 0)

-- `value != arg.value`
abbrev pub differs : Bool → Bool → Bool
differs true b = not b
differs false b = b

unfoldable pub and_iff_loop : List Literal → List ℕ → List ℕ → Bool
unfolding skip is_at
and_iff_loop [] units flipped = true
and_iff_loop (a ∷ args) units flipped =
    let rest = skip a.number flipped in
    let later = and_iff_loop args units rest in
    if differs (to_bool (xor_flag (unit_of units a) (is_at a.number rest))) a.value
    then false
    else later

unfoldable pub or_iff_loop : List Literal → List ℕ → List ℕ → Bool
unfolding skip is_at
or_iff_loop [] units flipped = false
or_iff_loop (a ∷ args) units flipped =
    let rest = skip a.number flipped in
    let later = or_iff_loop args units rest in
    if differs (to_bool (xor_flag (unit_of units a) (is_at a.number rest))) a.value
    then later
    else true

-- The inner loop of `OrAndNode::propagate`: its position stays at the front of `flipped`.
unfoldable pub or_and_group : List Literal → List ℕ → List ℕ → Bool
unfolding is_at
or_and_group [] units flipped = true
or_and_group (a ∷ args) units flipped =
    let later = or_and_group args units flipped in
    if differs (to_bool (xor_flag (unit_of units a) (is_at a.number flipped))) a.value
    then false
    else later

unfoldable pub or_and_loop : List (List Literal) → List ℕ → List ℕ → Bool
unfolding or_and_group
or_and_loop [] units flipped = false
or_and_loop (args ∷ groups) units flipped =
    let later = or_and_loop groups units flipped in
    if or_and_group args units flipped then true else later

-- The virtual call: the `propagate` of the node's class.
unfoldable pub dispatch : Gate → List Literal → List ℕ → List ℕ → Bool
unfolding and_iff_loop or_iff_loop or_and_loop
dispatch (value b) args units flipped = b
dispatch and_iff args units flipped = and_iff_loop args units flipped
dispatch or_iff args units flipped = or_iff_loop args units flipped
dispatch (or_and groups) args units flipped = or_and_loop groups units flipped

unfoldable pub propagate : Node → List ℕ → List ℕ → Bool
unfolding dispatch
propagate node units flipped = dispatch node.gate node.args units flipped
