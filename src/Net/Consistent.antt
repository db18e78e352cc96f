-- ===== src/Net/Consistent.antt =====
-- The full evaluation of a net gives every unknown variable the value of its node, all at once.
use latin_squares_diploma_it.Prelude.{
  ℕ, ◌<◌, ◌≡◌, ◌≢◌, refl, sym, ap, ◌∙◌, arith, List, [], ◌∷◌, get_or, get_or-set_self,
  get_or-set_ne, length, length-set, All, All-map, All-map₂,
}
use latin_squares_diploma_it.Cnf.Literal.{bit}
use latin_squares_diploma_it.Net.Node.{Node, propagate}
use latin_squares_diploma_it.Net.Gate.{
  agrees, node_value, inputs, gate_value_congr, propagate-node_value,
}
use latin_squares_diploma_it.Net.Compute.{compute_node, compute}

-- No node of the list defines the variable.
abbrev pub Undefined : List Node → ℕ → Type 0
Undefined ns v = All (λ n. n.variable ≢ v) ns

-- A node reads only variables that neither it nor a later node defines, and no variable is defined
-- twice: the order that `finalize` brings the nodes into.
abbrev pub IsOrdered : List Node → Type 0
IsOrdered [] = Unit
IsOrdered (n ∷ ns) =
    All (λ l. Undefined (n ∷ ns) l.number) (inputs n.gate n.args)
    × Undefined ns n.variable
    × IsOrdered ns

compute_node_keeps :
    (n : Node) (units : List ℕ) (v : ℕ)
    → n.variable ≢ v
    → get_or (compute_node n units) v 2 ≡ get_or units v 2
unfolding compute_node
compute_node_keeps n units v h =
    ground (arith, get_or-set_ne units n.variable v (bit (propagate n units [])) 2)

-- A variable that no node defines keeps its value.
pub compute_keeps :
    (ns : List Node) (units : List ℕ) (v : ℕ)
    → Undefined ns v
    → get_or (compute ns units) v 2 ≡ get_or units v 2
unfolding compute
compute_keeps [] units v h = refl
compute_keeps (n ∷ ns) units v h =
    compute_keeps ns (compute_node n units) v h.1 ∙ compute_node_keeps n units v h.0

length-compute_node : (n : Node) (units : List ℕ) → length (compute_node n units) ≡ length units
unfolding compute_node
length-compute_node n units =
    ground (arith, length-set units n.variable (bit (propagate n units [])))

compute_node-unknown :
    (n : Node) (units : List ℕ)
    → n.variable < length units
    → get_or units n.variable 2 ≡ 2
    → get_or (compute_node n units) n.variable 2 ≡ bit (propagate n units [])
unfolding compute_node
compute_node-unknown n units w h =
    ground (arith, get_or-set_self units n.variable (bit (propagate n units [])) 2)

compute_node-known :
    (n : Node) (units : List ℕ) → get_or units n.variable 2 ≢ 2 → compute_node n units ≡ units
unfolding compute_node
compute_node-known n units h = ground arith

-- The values that a node reads are final once its turn has come.
final_value :
    (n : Node) (ns : List Node) (units : List ℕ)
    → All (λ l. Undefined (n ∷ ns) l.number) (inputs n.gate n.args)
    → node_value (compute ns (compute_node n units)) n ≡ node_value units n
final_value n ns units h = gate_value_congr _ _ n.gate n.args (
    All-map (inputs n.gate n.args)
      (λ l p.
        ap (λ (u : ℕ). agrees u l)
          (compute_keeps ns (compute_node n units) l.number p.1
            ∙ compute_node_keeps n units l.number p.0))
      h)

-- What the result says of one node: an unknown variable got the node's value under the result, and a
-- known one kept its own.
abbrev pub IsComputed : List ℕ → List ℕ → Node → Type 0
IsComputed units result n =
    (get_or units n.variable 2 ≡ 2 → get_or result n.variable 2 ≡ bit (node_value result n))
    × (get_or units n.variable 2 ≢ 2 → get_or result n.variable 2 ≡ get_or units n.variable 2)

compute_node-IsComputed :
    (n : Node) (units result : List ℕ) (m : Node)
    → IsComputed (compute_node n units) result m
    → m.variable ≢ n.variable
    → IsComputed units result m
compute_node-IsComputed n units result m h k =
    let e = compute_node_keeps n units m.variable (λ p. k (sym p)) in
    (λ p. h.0 (e ∙ p), λ p. h.1 (λ q. p (sym e ∙ q)) ∙ e)

-- On nodes in order, with their variables within the assignment, `compute` leaves every unknown
-- variable with its node's value under the resulting assignment, and every known one as it was.
pub compute-IsComputed :
    (ns : List Node) (units : List ℕ)
    → IsOrdered ns
    → All (λ n. n.variable < length units) ns
    → All (IsComputed units (compute ns units)) ns
unfolding compute
compute-IsComputed [] units o w = tt
compute-IsComputed (n ∷ ns) units o w =
    let next = compute_node n units in
    let kept = compute_keeps ns next n.variable o.1 in
    let later = All-map ns (λ m p. rw (length-compute_node n units) p) w.1 in
    (
      (
        λ e.
            kept
            ∙ compute_node-unknown n units w.0 e
            ∙ ap bit (propagate-node_value n units ∙ sym (final_value n ns units o.0)),
        λ e. kept ∙ ap (λ (t : List ℕ). get_or t n.variable 2) (compute_node-known n units e),
      ),
      All-map₂ ns (compute_node-IsComputed n units (compute ns next))
          (compute-IsComputed ns next o.2 later) o.1,
    )
