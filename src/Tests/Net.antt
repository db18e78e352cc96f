-- ===== src/Tests/Net.antt =====
-- A net of two nodes, 4 = 1 ∧ 2 and 3 = ¬1 ∨ 4, before and after a flip of variable 2.
use mathlib.Core.List.{flatten}
use latin_squares_diploma_it.Prelude.{
  ℕ, ◌≡◌, refl, arith, Bool, true, false, List, [], ◌∷◌, none, some, All,
}
use latin_squares_diploma_it.Cnf.Literal.{Literal}
use latin_squares_diploma_it.Net.Node.{Gate, or_and, Node, or_and_node, propagate}
use latin_squares_diploma_it.Net.Gate.{gate_value, agrees_flipped, propagate-gate_value}
use latin_squares_diploma_it.Net.Compute.{compute}
use latin_squares_diploma_it.Net.Consistent.{IsOrdered, IsComputed, compute-IsComputed}
use latin_squares_diploma_it.Net.Flips.{Finalized, left_first, right_first, compute_flipped}
use latin_squares_diploma_it.Net.Marks.{IsIndexWithin}
use latin_squares_diploma_it.Net.Ready.{IsReady}
use latin_squares_diploma_it.Net.Incremental.{Recomputed, compute_flipped-Recomputed}
use latin_squares_diploma_it.Net.OrAnd.{propagate-first_flip}

abbrev pub lit : ℕ → Bool → Literal
lit n b = record { number = n; value = b }

abbrev pub both : Node
both = record {
  args = lit 1 true ∷ lit 2 true ∷ [];
  variable = 4;
  depth = some 1;
  gate = Gate.and_iff;
}

abbrev pub top : Node
top = record {
  args = lit 1 false ∷ lit 4 true ∷ [];
  variable = 3;
  depth = some 2;
  gate = Gate.or_iff;
}

abbrev pub net : Finalized
net = record {
  finalized = both ∷ top ∷ [];
  literal_to_nodes = [] ∷ (0 ∷ 1 ∷ []) ∷ (0 ∷ []) ∷ [] ∷ (1 ∷ []) ∷ [];
}

abbrev unknown : List ℕ
unknown = 2 ∷ 1 ∷ 0 ∷ 2 ∷ 2 ∷ []

abbrev pub known : List ℕ
known = 2 ∷ 1 ∷ 0 ∷ 0 ∷ 0 ∷ []

net_runs :
    (compute net.finalized unknown ≡ known)
    × (compute_flipped left_first net known (2 ∷ []) ≡ some (2 ∷ 3 ∷ 4 ∷ []))
unfolding compute compute_flipped propagate
net_runs = (refl, refl)

-- With the arguments of `swap` evaluated from the right, the added flips are left unsorted.
unsorted_flips : compute_flipped right_first net known (2 ∷ []) ≡ some (2 ∷ 4 ∷ 3 ∷ [])
unfolding compute_flipped propagate
unsorted_flips = refl

-- The flips that a first evaluation returned, given to a second one: the variables of the net stand
-- twice in the result, so that inverting each entry leaves them as they were.
evaluated_twice :
    compute_flipped left_first net known (2 ∷ 3 ∷ 4 ∷ []) ≡ some (2 ∷ 3 ∷ 3 ∷ 4 ∷ 4 ∷ [])
unfolding compute_flipped propagate
evaluated_twice = refl

-- With an index that ends at the greatest argument, a change of a greater variable reads past it.
index_ends :
    compute_flipped left_first
      (record { finalized = both ∷ []; literal_to_nodes = [] ∷ (0 ∷ []) ∷ (0 ∷ []) ∷ [] })
      known
      (2 ∷ [])
    ≡ none
unfolding compute_flipped propagate
index_ends = refl

pub net-IsOrdered : IsOrdered net.finalized
unfolding flatten
net-IsOrdered = omega arith

compute-IsComputed_example : All (IsComputed unknown (compute net.finalized unknown)) net.finalized
compute-IsComputed_example = compute-IsComputed net.finalized unknown net-IsOrdered (omega arith)

both-IsReady : IsReady net known both
unfolding gate_value
both-IsReady = record {
  scanned = tt;
  sorted = omega arith;
  reads = omega arith;
  listed = ((0 ∷ 1 ∷ [], 0, refl, refl, refl), ((0 ∷ [], 0, refl, refl, refl), tt));
  entry = (1 ∷ [], refl);
  within = omega arith;
  steady = refl;
}

top-IsReady : IsReady net known top
unfolding gate_value
top-IsReady = record {
  scanned = tt;
  sorted = omega arith;
  reads = omega arith;
  listed = ((0 ∷ 1 ∷ [], 1, refl, refl, refl), ((1 ∷ [], 1, refl, refl, refl), tt));
  entry = ([], refl);
  within = omega arith;
  steady = refl;
}

pub net-IsIndexWithin : IsIndexWithin net
net-IsIndexWithin = omega arith

pub net-IsReady : All (IsReady net known) net.finalized
net-IsReady = (both-IsReady, (top-IsReady, tt))

compute_flipped-Recomputed_example : (out : List ℕ) × Recomputed net known (2 ∷ []) out
compute_flipped-Recomputed_example =
    compute_flipped-Recomputed net known (2 ∷ []) net-IsIndexWithin net-IsReady net-IsOrdered
      (omega arith) (refl, (refl, tt))

propagate-gate_value_example :
    propagate top known (2 ∷ 4 ∷ [])
    ≡ gate_value (agrees_flipped known (2 ∷ 4 ∷ [])) top.gate top.args
propagate-gate_value_example =
    propagate-gate_value top known (2 ∷ 4 ∷ []) tt (omega arith) (omega arith)

-- 1 ∧ 2 after flips of 1 and 2 from false: the second flip is not seen.
or_and_misses :
    propagate (or_and_node 3 ((lit 1 true ∷ lit 2 true ∷ []) ∷ [])) (2 ∷ 0 ∷ 0 ∷ []) (1 ∷ 2 ∷ [])
    ≡ false
unfolding propagate or_and_node
or_and_misses = refl

propagate-first_flip_example :
    propagate (or_and_node 3 ((lit 1 true ∷ lit 2 true ∷ []) ∷ [])) (2 ∷ 0 ∷ 0 ∷ []) (1 ∷ 2 ∷ [])
    ≡ gate_value
        (agrees_flipped (2 ∷ 0 ∷ 0 ∷ []) (1 ∷ []))
        (or_and ((lit 1 true ∷ lit 2 true ∷ []) ∷ []))
        (flatten ((lit 1 true ∷ lit 2 true ∷ []) ∷ []))
propagate-first_flip_example =
    propagate-first_flip (2 ∷ 0 ∷ 0 ∷ []) 1 (2 ∷ []) 3 ((lit 1 true ∷ lit 2 true ∷ []) ∷ [])
