-- ===== src/Net/Cycles.antt =====
-- `Net::finalize` on a net with a cycle.
use latin_squares_diploma_it.Prelude.{
  ℕ, zero, suc, ◌≡◌, refl, Bool, true, List, ◌∷◌, Option, none, some, stuck, get_elem?,
}
use latin_squares_diploma_it.Cnf.Literal.{Literal}
use latin_squares_diploma_it.Net.Node.{Node}
use latin_squares_diploma_it.Net.Finalize.{depth_of, finalize_node}

-- The node at `i` has no depth yet, and a node of the set defines its first argument.
pub record IsChained (nodes : List Node) (index : List (Option ℕ)) (within : ℕ → Bool) (i : ℕ)
    : Type 0 where
  pub node : Node
  pub at : get_elem? nodes i ≡ some node
  pub unknown : node.depth ≡ none
  pub first : Literal
  pub others : List Literal
  pub args : node.args ≡ first ∷ others
  pub next : ℕ
  pub entry : get_elem? index first.number ≡ some (some next)
  pub inside : within next ≡ true

-- From a set of nodes without a depth, each of which has an argument first that a node of the set
-- defines, the recursion of `Net::finalize` never returns: it runs out of every fuel.
pub finalize_node_loops :
    (nodes : List Node) (index : List (Option ℕ)) (within : ℕ → Bool)
    → ((i : ℕ) → within i ≡ true → IsChained nodes index within i)
    → (fuel i : ℕ) → within i ≡ true
    → finalize_node fuel index i nodes ≡ stuck
unfolding finalize_node depth_of
finalize_node_loops nodes index within chained zero i h = refl
finalize_node_loops nodes index within chained (suc fuel) i h =
    let c = chained i h in
    let d = chained c.next c.inside in
    rw
      (
        c.at,
        c.args,
        c.entry,
        d.at,
        d.unknown,
        finalize_node_loops nodes index within chained fuel c.next c.inside,
      )
      refl
