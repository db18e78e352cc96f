-- ===== src/Net/Compute.antt =====
-- `Net::compute(units)` of localsearch/net/Net.cpp: the unknown variables of the net are computed in
-- the order of the nodes.
use latin_squares_diploma_it.Prelude.{ℕ, List, [], ◌∷◌, ◌==◌, if◌then◌else◌, get_or, set}
use latin_squares_diploma_it.Cnf.Literal.{bit}
use latin_squares_diploma_it.Net.Node.{Node, propagate}

-- The body of the loop.
unfoldable pub compute_node : Node → List ℕ → List ℕ
compute_node node units =
    if get_or units node.variable 2 == 2
    then set units node.variable (bit (propagate node units []))
    else units

unfoldable pub compute : List Node → List ℕ → List ℕ
unfolding compute_node
compute [] units = units
compute (node ∷ finalized) units = compute finalized (compute_node node units)
