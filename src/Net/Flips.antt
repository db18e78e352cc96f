-- ===== src/Net/Flips.antt =====
-- `Net::compute(units, flipped)` of localsearch/net/Net.cpp: the variables that change with the given
-- flips are found in the order of the nodes and added to the flips.
use latin_squares_diploma_it.Prelude.{
  ℕ, Bool, true, false, ◌&&◌, List, [], ◌∷◌, ◌++◌, Option, none, some, ltb, ◌==◌, if◌then◌else◌,
  length, get_or, set, get_elem?, replicate,
}
use latin_squares_diploma_it.Cnf.Literal.{bit}
use latin_squares_diploma_it.Net.Node.{Node, propagate}

-- The two members of a finalized net that the evaluation reads.
pub record Finalized : Type 0 where
  pub finalized : List Node
  pub literal_to_nodes : List (List ℕ)

-- `toCompute[node->variable] = true`, where the node is there; `none` is a node or a variable out of
-- range.
abbrev pub mark_node : Option Node → List Bool → Option (List Bool)
mark_node none to_compute = none
mark_node (some node) to_compute =
    if ltb node.variable (length to_compute) then some (set to_compute node.variable true) else none

-- `for (k: ks) toCompute[finalized[k]->variable] = true;`
unfoldable pub mark : List Node → List ℕ → List Bool → Option (List Bool)
mark nodes [] to_compute = some to_compute
mark nodes (k ∷ ks) to_compute = elim (mark_node (get_elem? nodes k) to_compute) [
  | none ↦ none
  | some to_compute' ↦ mark nodes ks to_compute'
]

-- The first loop: the nodes that read a flipped variable, where the index has an entry for it.
unfoldable pub mark_flipped : Finalized → List ℕ → List Bool → Option (List Bool)
unfolding mark
mark_flipped net [] to_compute = some to_compute
mark_flipped net (f ∷ flipped) to_compute = elim (get_elem? net.literal_to_nodes f) [
  | none ↦ mark_flipped net flipped to_compute
  | some ks ↦ elim (mark net.finalized ks to_compute) [
    | none ↦ none
    | some to_compute' ↦ mark_flipped net flipped to_compute'
  ]
]

-- `push_back`, and the swaps that bring the new element forward past the greater ones. The flag says
-- whether it has come to the front of the part read so far, where the swaps go on.
unfoldable pub place : List ℕ → ℕ → List ℕ × Bool
place [] v = (v ∷ [], true)
place (x ∷ xs) v =
    let (placed, front) = place xs v in
    if front && ltb v x then (v ∷ x ∷ xs, true) else (x ∷ placed, false)

-- `std::swap(flipped[last], flipped[--last])` reads and decrements `last` in arguments of one call,
-- whose order the language leaves open. Where the left one comes first the two neighbours are
-- swapped; where the right one does, an element is swapped with itself and the vector stays as it is.
pub data SwapOrder : Type 0 where
  left_first right_first : SwapOrder

unfoldable pub push_sorted : SwapOrder → List ℕ → ℕ → List ℕ
unfolding place
push_sorted left_first flipped v = (place flipped v).0
push_sorted right_first flipped v = flipped ++ v ∷ []

-- What the second loop changes.
pub record Progress : Type 0 where
  pub flipped : List ℕ
  pub to_compute : List Bool

-- The body of the second loop. `none` is an access out of range: that of `literal_to_nodes`, which this
-- loop, unlike the first one, does not guard against, or one of those that mark the nodes.
unfoldable pub visit : SwapOrder → Finalized → List ℕ → Node → Progress → Option Progress
unfolding push_sorted mark
visit order net units node s =
    if get_or s.to_compute node.variable false
    then (if bit (propagate node units s.flipped) == get_or units node.variable 2
        then some s
        else elim (get_elem? net.literal_to_nodes node.variable) [
          | none ↦ none
          | some ks ↦ elim (mark net.finalized ks s.to_compute) [
            | none ↦ none
            | some to_compute' ↦ some (record {
              flipped = push_sorted order s.flipped node.variable;
              to_compute = to_compute';
            })
          ]
        ])
    else some s

unfoldable pub visit_all : SwapOrder → Finalized → List ℕ → List Node → Progress → Option Progress
unfolding visit
visit_all order net units [] s = some s
visit_all order net units (node ∷ nodes) s = elim (visit order net units node s) [
  | none ↦ none
  | some s' ↦ visit_all order net units nodes s'
]

-- The flips with the changed variables of the net, or the access out of range.
unfoldable pub compute_flipped : SwapOrder → Finalized → List ℕ → List ℕ → Option (List ℕ)
unfolding mark_flipped visit_all
compute_flipped order net units flipped =
    elim (mark_flipped net flipped (replicate (length units) false)) [
      | none ↦ none
      | some to_compute ↦
          elim (visit_all order net units net.finalized
            (record { flipped = flipped; to_compute = to_compute })) [
              | none ↦ none
              | some s ↦ some s.flipped
            ]
    ]
