-- ===== src/Net/Finalize.antt =====
-- `Net::finalize` of localsearch/net/Net.cpp: depths by recursion through the arguments, the order by
-- depth, and the index from variables to the nodes that read them.
use latin_squares_diploma_it.Prelude.{
  ℕ, zero, suc, ◌+◌, Bool, List, [], ◌∷◌, ◌++◌, Option, none, some, Outcome, done, stuck, ◌>>=◌,
  or_fault, Sort, ltb, if◌then◌else◌, length, get_or, get_elem?, set, grow,
}
use latin_squares_diploma_it.Cnf.Literal.{Literal}
use latin_squares_diploma_it.Net.Node.{Node}
use latin_squares_diploma_it.Net.Flips.{Finalized}

-- The members of a net that is being read; `none` is the UINT32_MAX of a variable without a node.
pub record Net : Type 0 where
  pub nodes : List Node
  pub variable_to_node : List (Option ℕ)

-- `if (depth > maxDepth) maxDepth = depth;`, where `none` is -1.
abbrev pub deepen : ℕ → Option ℕ → ℕ
deepen max_depth none = max_depth
deepen max_depth (some d) = if ltb max_depth d then d else max_depth

-- `nodes[i]->depth = d`
unfoldable pub set_depth : List Node → ℕ → ℕ → List Node
set_depth nodes i d = elim (get_elem? nodes i) [
  | none ↦ nodes
  | some n ↦ set nodes i (record n { depth = some d })
]

-- The depth of the node at `j`, which `visit` computes where it is not known yet.
unfoldable pub depth_of :
    (ℕ → List Node → Outcome (List Node)) → ℕ → List Node → Outcome (Option ℕ × List Node)
depth_of visit j nodes = do
  n ← or_fault (get_elem? nodes j)
  elim n.depth [
    | some d ↦ done (some d, nodes)
    | none ↦
        visit j nodes >>= λ nodes'. or_fault (get_elem? nodes' j) >>= λ n'. done (n'.depth, nodes')
  ]

-- The loop over the arguments; a variable without a node has depth 0.
unfoldable pub max_depth_of :
    (ℕ → List Node → Outcome (List Node))
    → List (Option ℕ)
    → List Literal
    → ℕ
    → List Node
    → Outcome (ℕ × List Node)
unfolding depth_of
max_depth_of visit index [] max_depth nodes = done (max_depth, nodes)
max_depth_of visit index (a ∷ args) max_depth nodes =
    or_fault (get_elem? index a.number) >>= λ entry. elim entry [
      | none ↦ max_depth_of visit index args (deepen max_depth (some 0)) nodes
      | some j ↦
          depth_of visit j nodes >>= λ r. max_depth_of visit index args (deepen max_depth r.0) r.1
    ]

-- `finalize(i)`, on fuel for the depth of the recursion.
unfoldable pub finalize_node : ℕ → List (Option ℕ) → ℕ → List Node → Outcome (List Node)
unfolding max_depth_of set_depth
finalize_node zero index i nodes = stuck
finalize_node (suc fuel) index i nodes = or_fault (get_elem? nodes i) >>= λ n.
    max_depth_of (finalize_node fuel index) index n.args 0 nodes >>= λ r.
    done (set_depth r.1 i (r.0 + 1))

-- The first loop of `finalize()`, over `left` nodes from `i` on.
unfoldable pub finalize_nodes : ℕ → List (Option ℕ) → ℕ → ℕ → List Node → Outcome (List Node)
unfolding finalize_node
finalize_nodes fuel index zero i nodes = done nodes
finalize_nodes fuel index (suc left) i nodes = or_fault (get_elem? nodes i) >>= λ n. elim n.depth [
  | some d ↦ finalize_nodes fuel index left (i + 1) nodes
  | none ↦ finalize_node fuel index i nodes >>= finalize_nodes fuel index left (i + 1)
]

-- `resize` where the vector is too short, and `push_back`.
unfoldable pub add_entry : List (List ℕ) → ℕ → ℕ → List (List ℕ)
add_entry index k i = let index' = grow index k [] in set index' k (get_or index' k [] ++ i ∷ [])

unfoldable pub index_args : List Literal → ℕ → List (List ℕ) → List (List ℕ)
unfolding add_entry
index_args [] i index = index
index_args (a ∷ args) i index = index_args args i (add_entry index a.number i)

-- The loop that fills `literal_to_nodes`, from the node at `i` on.
unfoldable pub index_nodes : List Node → ℕ → List (List ℕ) → List (List ℕ)
unfolding index_args
index_nodes [] i index = index
index_nodes (n ∷ nodes) i index = index_nodes nodes (suc i) (index_args n.args i index)

-- The key by which the comparison orders: -1 comes before 0.
abbrev pub depth_key : Node → ℕ
depth_key n = elim n.depth [ none ↦ 0 | some d ↦ suc d ]

abbrev pub shallower : Node → Node → Bool
shallower a b = ltb (depth_key a) (depth_key b)

unfoldable pub arrange : Sort Node → List Node → Finalized
unfolding index_nodes
arrange sorting nodes =
    let nodes' = sorting.sort shallower nodes in
    record { finalized = nodes'; literal_to_nodes = index_nodes nodes' 0 [] }

-- `finalize()`, with as much fuel as there are nodes, and one more.
unfoldable pub finalize : Sort Node → Net → Outcome Finalized
unfolding finalize_nodes arrange
finalize sorting net =
    finalize_nodes (suc (length net.nodes)) net.variable_to_node (length net.nodes) 0 net.nodes
    >>= λ nodes. done (arrange sorting nodes)
