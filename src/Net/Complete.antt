-- ===== src/Net/Complete.antt =====
-- `Net::finalize` as a whole: on a net without cycles it returns the nodes in order, with an index that
-- leads from each argument to the nodes that read it.
use mathlib.Core.List.{Perm}
use native.Mathlib.Nat.{zero-add}
use latin_squares_diploma_it.Prelude.{
  ℕ, suc, ◌<◌, ◌≤◌, ◌≡◌, ◌≢◌, sym, ap, subst, get_or, ◌∙◌, arith, true, List, [], Option, none,
  some, Outcome, done, ◌>>=◌, Sort, length, get_elem?, has, All, All-map, inl, inr,
}
use latin_squares_diploma_it.Net.Node.{Node}
use latin_squares_diploma_it.Net.Consistent.{IsOrdered}
use latin_squares_diploma_it.Net.Flips.{Finalized}
use latin_squares_diploma_it.Net.Marks.{IsListed}
use latin_squares_diploma_it.Net.Finalize.{
  Net, shallower, index_nodes, arrange, finalize, finalize_nodes,
}
use latin_squares_diploma_it.Net.Restore.{Depths, restore}
use latin_squares_diploma_it.Net.Depths.{IsAcyclic, IsLayered}
use latin_squares_diploma_it.Net.Heights.{finalize_nodes-Finished}
use latin_squares_diploma_it.Net.Arranged.{ReadsBelow, IsBuilt, sort-IsOrdered}
use latin_squares_diploma_it.Net.Index.{index_nodes-Lists, Lists-entry}
use latin_squares_diploma_it.Net.Finalizes.{
  IsNamed, IsFlat, depths_of, restore-depths_of, depths_of-eq, All-restore, All-at, named-Distinct,
  final_ReadsBelow,
}

-- The nodes of the net with their depths, in order and indexed.
pub record IsArranged (net : Net) (final : Finalized) : Type 0 where
  pub after : Depths
  pub permuted : Perm final.finalized (restore net.nodes after)
  pub ordered : IsOrdered final.finalized
  pub listed :
      (p : ℕ) (n : Node)
      → get_elem? final.finalized p ≡ some n
      → All (λ a. IsListed final a.number n) n.args

none_known : {o : Option ℕ} {d : ℕ} → o ≡ none → o ≢ some d
none_known e k = cc

flat-IsLayered :
    (net : Net) (rank : ℕ → ℕ)
    → All IsFlat net.nodes
    → IsLayered net.nodes net.variable_to_node rank (depths_of net.nodes)
flat-IsLayered net rank flat i d n e known =
    let depth : n.depth ≡ some d = sym (depths_of-eq net.nodes i n e) ∙ known in
    elim (All-at IsFlat net.nodes i n flat e) [
      | inl unknown ↦ absurd (none_known unknown depth)
      | inr empty ↦ rw empty tt
    ]

arrange-IsListed :
    (sorting : Sort Node) (nodes : List Node) (p : ℕ) (n : Node)
    → get_elem? (arrange sorting nodes).finalized p ≡ some n
    → All (λ a. IsListed (arrange sorting nodes) a.number n) n.args
unfolding arrange
arrange-IsListed sorting nodes p n e =
    let sorted = sorting.sort shallower nodes in
    All-map n.args
      (λ a h.
        let (ks, entry, listed) = Lists-entry (index_nodes sorted 0 []) a.number p (
          subst (λ (j : ℕ). has j (get_or (index_nodes sorted 0 []) a.number []) ≡ true)
            (zero-add p) h) in
        (ks, p, entry, listed, e))
      (index_nodes-Lists sorted 0 [] p n e)

arrange-IsOrdered :
    (net : Net) (sorting : Sort Node) (after : Depths)
    → ReadsBelow (restore net.nodes after) (restore net.nodes after)
    → IsNamed net
    → All IsBuilt net.nodes
    → IsOrdered (arrange sorting (restore net.nodes after)).finalized
unfolding arrange
arrange-IsOrdered net sorting after below named built =
    sort-IsOrdered sorting (restore net.nodes after) below
      (named-Distinct net.nodes after (get_elem? net.variable_to_node) 0
        (λ i n e. named i n e ∙ ap (λ (j : ℕ). some (some j)) (sym (zero-add i))))
      (All-restore IsBuilt net.nodes after (λ i n e. All-at IsBuilt net.nodes i n built e))

arrange-perm :
    (sorting : Sort Node) (nodes : List Node) → Perm (arrange sorting nodes).finalized nodes
unfolding arrange
arrange-perm sorting nodes = sorting.permutes shallower nodes

-- For a net whose map names the node of each variable and has an entry for each argument, without
-- cycles (the ranks, at most as many as there are nodes, fall from a node to those that it reads), and
-- whose nodes are as their constructors leave them, `finalize` returns: the nodes with their depths in
-- another order, in which a node reads no variable that it or a later one defines, and an index that
-- leads from each argument of a node to the node.
pub finalize-IsArranged :
    (sorting : Sort Node) (net : Net) (rank : ℕ → ℕ)
    → IsAcyclic net.nodes net.variable_to_node rank
    → ((j : ℕ) → j < length net.nodes → rank j ≤ length net.nodes)
    → IsNamed net
    → All IsFlat net.nodes
    → All IsBuilt net.nodes
    → (final : Finalized) × (finalize sorting net ≡ done final) × IsArranged net final
unfolding finalize
finalize-IsArranged sorting net rank acyclic bounded named flat built =
    let r =
      finalize_nodes-Finished net.nodes net.variable_to_node rank acyclic (suc (length net.nodes))
        (length net.nodes) 0 (depths_of net.nodes) (λ j p. omega (arith, bounded j p))
        (zero-add (length net.nodes)) (flat-IsLayered net rank flat) in
    let known = λ (j : ℕ) (p : j < length net.nodes). r.known j (omega arith) p in
    (
      arrange sorting (restore net.nodes r.after),
      ap (λ (o : Outcome (List Node)). o >>= λ nodes. done (arrange sorting nodes))
          (ap (finalize_nodes (suc (length net.nodes)) net.variable_to_node (length net.nodes) 0)
              (sym (restore-depths_of net.nodes))
            ∙ r.made),
      record {
        after = r.after;
        permuted = arrange-perm sorting (restore net.nodes r.after);
        ordered =
            arrange-IsOrdered net sorting r.after
              (final_ReadsBelow net rank named r.after r.layered known) named built;
        listed = arrange-IsListed sorting (restore net.nodes r.after);
      },
    )
