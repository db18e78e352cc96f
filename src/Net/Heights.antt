-- ===== src/Net/Heights.antt =====
-- `Net::finalize` returns on a net without cycles, and the depths that it leaves rise from the nodes
-- that are read to those that read them.
use latin_squares_diploma_it.Prelude.{
  ℕ, zero, suc, ◌+◌, ◌<◌, ◌≤◌, ◌≡◌, ◌≢◌, refl, sym, ap, ◌∙◌, arith, List, [], ◌∷◌, Option, none,
  some, Outcome, done, ◌==◌, ==_iff, length, get_elem?, All, All-map, Bool-cases, Option-cases, inl,
  inr,
}
use latin_squares_diploma_it.Net.Node.{Node}
use latin_squares_diploma_it.Net.Finalize.{finalize_node, finalize_nodes}
use latin_squares_diploma_it.Net.Restore.{
  Depths, restore, update, update_self, update_ne, get_elem?-restore, set_depth-restore,
}
use latin_squares_diploma_it.Net.Depths.{
  IsAcyclic, IsBelow, IsLayered, Visited, max_depth_of-Measured,
}

some_eq {ℓ} : {A : Type ℓ} {x y : A} → some x ≡ some y → x ≡ y
some_eq e = cc

unknown_ne : (f : Depths) (i j x : ℕ) → f i ≡ none → f j ≡ some x → i ≢ j
unknown_ne f i j x u k z = cc

node_at : (nodes : List Node) (i : ℕ) → i < length nodes → (n : Node) × (get_elem? nodes i ≡ some n)
node_at [] i h = absurd (omega arith)
node_at (n ∷ nodes) zero h = (n, refl)
node_at (n ∷ nodes) (suc i) h = node_at nodes i (omega arith)

from_next :
    (after : Depths) (i size d : ℕ)
    → after i ≡ some d
    → ((j : ℕ) → i + 1 ≤ j → j < size → (x : ℕ) × (after j ≡ some x))
    → (j : ℕ) → i ≤ j
    → j < size
    → (x : ℕ) × (after j ≡ some x)
from_next after i size d known rest j p q = elim (Bool-cases (i == j)) [
  | inl here ↦ (d, ap after (sym ((==_iff i j).0 here)) ∙ known)
  | inr there ↦ rest j (ground arith) q
]

module _ (origin : List Node) (index : List (Option ℕ)) (rank : ℕ → ℕ)
    (acyclic : IsAcyclic origin index rank) where
  -- The node at `i`, which was unknown, gets a depth above those of its arguments.
  update-IsLayered :
      (f : Depths) (i d : ℕ) (n : Node)
      → get_elem? origin i ≡ some n
      → IsLayered origin index rank f
      → f i ≡ none
      → All (IsBelow origin index rank f (suc d)) n.args
      → IsLayered origin index rank (update f i (d + 1))
  update-IsLayered f i d n e layered unknown covered k d' m e' known = elim (Bool-cases (i == k)) [
    | inl here ↦
        let same : i ≡ k = (==_iff i k).0 here in
        let node : n ≡ m = some_eq (sym e ∙ ap (get_elem? origin) same ∙ e') in
        let value : d + 1 ≡ d' =
          some_eq (sym (update_self f i (d + 1)) ∙ ap (update f i (d + 1)) same ∙ known) in
        rw (← node) (
          All-map n.args
            (λ a below j p.
              let (x, q, lt) = below j p in
              (
                x,
                update_ne f i (d + 1) j (unknown_ne f i j x unknown q) ∙ q,
                omega (arith, value, lt),
              ))
            covered)
    | inr there ↦
        let away : i ≢ k = λ z. ground arith in
        All-map m.args
          (λ a below j p.
            let (x, q, lt) = below j p in
            (x, update_ne f i (d + 1) j (unknown_ne f i j x unknown q) ∙ q, lt))
          (layered k d' m e' (sym (update_ne f i (d + 1) k away) ∙ known))
  ]

  grown_update :
      (f g : Depths) (i d : ℕ)
      → f i ≡ none
      → ((j x : ℕ) → f j ≡ some x → g j ≡ some x)
      → (j x : ℕ) → f j ≡ some x
      → update g i d j ≡ some x
  grown_update f g i d unknown grown j x p = update_ne g i d j (λ z. cc) ∙ grown j x p

  pub finalize_node-Visited :
      (fuel i : ℕ) (n : Node) (f : Depths)
      → rank i < fuel
      → get_elem? origin i ≡ some n
      → IsLayered origin index rank f
      → f i ≡ none
      → Visited origin index rank i f (finalize_node fuel index i (restore origin f))
  unfolding finalize_node
  finalize_node-Visited zero i n f h e layered unknown = absurd (omega arith)
  finalize_node-Visited (suc fuel) i n f h e layered unknown =
      let r =
        max_depth_of-Measured origin index rank (finalize_node fuel index) (rank i)
          (λ j m g e' below layered' unknown'.
            finalize_node-Visited fuel j m g (omega (arith, below, h)) e' layered' unknown')
          n.args 0 f (acyclic i n e) layered in
      let still : r.after i ≡ none = r.high i (omega arith) ∙ unknown in
      record {
        after = update r.after i (r.depth + 1);
        made =
            rw (get_elem?-restore origin f i n e, r.made)
              (ap done (set_depth-restore origin r.after i (r.depth + 1) n e));
        layered = update-IsLayered r.after i r.depth n e r.layered still r.covered;
        grown = grown_update f r.after i (r.depth + 1) unknown r.grown;
        high = λ j p.
            update_ne r.after i (r.depth + 1) j (λ z. absurd (omega (arith, p, ap rank z)))
            ∙ r.high j (omega arith);
        depth = r.depth + 1;
        known = update_self r.after i (r.depth + 1);
      }

  -- What the loop over all nodes leaves, from the node at `i` on.
  pub record Finished (i : ℕ) (f : Depths) (out : Outcome (List Node)) : Type 0 where
    pub after : Depths
    pub made : out ≡ done (restore origin after)
    pub layered : IsLayered origin index rank after
    pub grown : (j d : ℕ) → f j ≡ some d → after j ≡ some d
    pub known : (j : ℕ) → i ≤ j → j < length origin → (d : ℕ) × (after j ≡ some d)

  pub finalize_nodes-Finished :
      (fuel left i : ℕ) (f : Depths)
      → ((j : ℕ) → j < length origin → rank j < fuel)
      → i + left ≡ length origin
      → IsLayered origin index rank f
      → Finished i f (finalize_nodes fuel index left i (restore origin f))
  unfolding finalize_nodes
  finalize_nodes-Finished fuel zero i f bounded size layered = record {
    after = f;
    made = refl;
    layered = layered;
    grown = λ j d e. e;
    known = λ j p q. absurd (omega arith);
  }
  finalize_nodes-Finished fuel (suc left) i f bounded size layered =
      let (n, e) = node_at origin i (omega arith) in
      elim (Option-cases (f i)) [
        | inl unknown ↦
            let v = finalize_node-Visited fuel i n f (bounded i (omega arith)) e layered unknown in
            let r =
              finalize_nodes-Finished fuel left (i + 1) v.after bounded (omega arith) v.layered in
            record {
              after = r.after;
              made = rw (get_elem?-restore origin f i n e, unknown, v.made) r.made;
              layered = r.layered;
              grown = λ j d p. r.grown j d (v.grown j d p);
              known =
                  from_next r.after i (length origin) v.depth (r.grown i v.depth v.known) r.known;
            }
        | inr (d, e') ↦
            let r = finalize_nodes-Finished fuel left (i + 1) f bounded (omega arith) layered in
            record {
              after = r.after;
              made = rw (get_elem?-restore origin f i n e, e') r.made;
              layered = r.layered;
              grown = r.grown;
              known = from_next r.after i (length origin) d (r.grown i d e') r.known;
            }
      ]
