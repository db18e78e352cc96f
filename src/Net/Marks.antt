-- ===== src/Net/Marks.antt =====
-- The parts of the incremental evaluation: placing a variable among sorted flips, and marking the
-- nodes that read a changed variable.
use latin_squares_diploma_it.Prelude.{
  All-get_elem?, get_elem?-past, lt→ltb, Option-cases, ℕ, zero, suc, ◌≤◌, ◌<◌, ◌≡◌, ◌≢◌, refl, ◌∙◌,
  arith, Bool, true, false, ◌&&◌, ◌||◌, List, [], ◌∷◌, Option, none, some, ltb, ◌==◌, ==_iff,
  length, length-set, get_or, set, get_elem?, has, All, All-map, Ascending, Increasing,
  Increasing-Ascending, Bool-cases, inl, inr,
}
use latin_squares_diploma_it.Net.Node.{Node}
use latin_squares_diploma_it.Net.Flips.{Finalized, mark, mark_node, mark_flipped, place}

-- Placing adds the one variable.
pub has-place : (xs : List ℕ) (v w : ℕ) → has w (place xs v).0 ≡ (v == w || has w xs)
unfolding place
has-place [] v w = refl
has-place (x ∷ xs) v w = ground (arith, has-place xs v w)

place-head :
    (x : ℕ) (xs : List ℕ) (v : ℕ) → Ascending (x ∷ xs) → (place (x ∷ xs) v).1 ≡ false → x ≤ v
unfolding place
place-head x [] v h e = ground arith
place-head x (y ∷ xs) v h e = ground (arith, place-head y xs v h.1, h.0.0)

All-place :
    (x : ℕ) (xs : List ℕ) (v : ℕ) → x ≤ v → All (λ y. x ≤ y) xs → All (λ y. x ≤ y) (place xs v).0
unfolding place
All-place x [] v p h = (p, tt)
All-place x (y ∷ xs) v p h = elim (Bool-cases ((place xs v).1 && ltb v y)) [
  | inl e ↦ rw (e, place) (p, h)
  | inr e ↦ rw (e, place) (h.0, All-place x xs v p h.1)
]

-- Placing keeps the flips sorted.
pub Ascending-place : (xs : List ℕ) (v : ℕ) → Ascending xs → Ascending (place xs v).0
unfolding place
Ascending-place [] v h = (tt, tt)
Ascending-place (x ∷ xs) v h = elim (Bool-cases ((place xs v).1 && ltb v x)) [
  | inl e ↦
      let below : v < x = ground arith in
      rw (e, place) ((omega arith, All-map xs (λ y p. omega arith) h.0), h)
  | inr e ↦
      let above : x ≤ v = place-head x xs v h (rw (e, place)) in
      rw (e, place) (All-place x xs v above h.0, Ascending-place xs v h.1)
]

Increasing_head :
    (x : ℕ) (xs : List ℕ) (v : ℕ) → x < v → All (λ y. x < y) xs → All (λ y. x < y) (place xs v).0
unfolding place
Increasing_head x [] v p h = (p, tt)
Increasing_head x (y ∷ xs) v p h = elim (Bool-cases ((place xs v).1 && ltb v y)) [
  | inl e ↦ rw (e, place) (p, h)
  | inr e ↦ rw (e, place) (h.0, Increasing_head x xs v p h.1)
]

-- Placing a new variable among strictly sorted flips keeps them strictly sorted.
pub Increasing-place :
    (xs : List ℕ) (v : ℕ) → Increasing xs → has v xs ≡ false → Increasing (place xs v).0
unfolding place
Increasing-place [] v h n = (tt, tt)
Increasing-place (x ∷ xs) v h n =
    let apart : x ≢ v = ground arith in
    let absent : has v xs ≡ false = ground arith in
    elim (Bool-cases ((place xs v).1 && ltb v x)) [
      | inl e ↦
          let below : v < x = ground arith in
          rw (e, place) ((below, All-map xs (λ y p. omega arith) h.0), h)
      | inr e ↦
          let above : x ≤ v = place-head x xs v (Increasing-Ascending (x ∷ xs) h) (rw (e, place)) in
          rw (e, place) (Increasing_head x xs v (omega arith) h.0, Increasing-place xs v h.1 absent)
    ]

set-keeps_true :
    (flags : List Bool) (w v : ℕ)
    → get_or flags v false ≡ true
    → get_or (set flags w true) v false ≡ true
set-keeps_true [] w v h = h
set-keeps_true (b ∷ flags) zero zero h = refl
set-keeps_true (b ∷ flags) zero (suc v) h = h
set-keeps_true (b ∷ flags) (suc w) zero h = h
set-keeps_true (b ∷ flags) (suc w) (suc v) h = set-keeps_true flags w v h

set-self_true :
    (flags : List Bool) (v : ℕ) → v < length flags → get_or (set flags v true) v false ≡ true
set-self_true [] v h = absurd (omega arith)
set-self_true (b ∷ flags) zero h = refl
set-self_true (b ∷ flags) (suc v) h = set-self_true flags v (omega arith)

-- What `mark` makes of the flags where every access is in range: first one node of it.
abbrev mark_one : Option Node → List Bool → List Bool
mark_one o flags = elim o [ none ↦ flags | some node ↦ set flags node.variable true ]

mark_one_keeps :
    (o : Option Node) (flags : List Bool) (v : ℕ)
    → get_or flags v false ≡ true
    → get_or (mark_one o flags) v false ≡ true
mark_one_keeps none flags v h = h
mark_one_keeps (some node) flags v h = set-keeps_true flags node.variable v h

length-mark_one : (o : Option Node) (flags : List Bool) → length (mark_one o flags) ≡ length flags
length-mark_one none flags = refl
length-mark_one (some node) flags = length-set flags node.variable true

unfoldable pub marked : List Node → List ℕ → List Bool → List Bool
marked nodes [] flags = flags
marked nodes (k ∷ ks) flags = marked nodes ks (mark_one (get_elem? nodes k) flags)

module _ (nodes : List Node) where
  pub mark_keeps :
      (ks : List ℕ) (flags : List Bool) (v : ℕ)
      → get_or flags v false ≡ true
      → get_or (marked nodes ks flags) v false ≡ true
  unfolding marked
  mark_keeps [] flags v h = h
  mark_keeps (k ∷ ks) flags v h =
      mark_keeps ks (mark_one (get_elem? nodes k) flags) v
        (mark_one_keeps (get_elem? nodes k) flags v h)

  pub length-marked :
      (ks : List ℕ) (flags : List Bool) → length (marked nodes ks flags) ≡ length flags
  unfolding marked
  length-marked [] flags = refl
  length-marked (k ∷ ks) flags =
      length-marked ks (mark_one (get_elem? nodes k) flags)
      ∙ length-mark_one (get_elem? nodes k) flags

  pub mark_sets :
      (ks : List ℕ) (flags : List Bool) (k : ℕ) (m : Node)
      → has k ks ≡ true
      → get_elem? nodes k ≡ some m
      → m.variable < length flags
      → get_or (marked nodes ks flags) m.variable false ≡ true
  unfolding marked
  mark_sets [] flags k m h e w = cc
  mark_sets (j ∷ ks) flags k m h e w = elim (Bool-cases (j == k)) [
    | inl here ↦
        let index : j ≡ k = (==_iff j k).0 here in
        rw (index, e)
          (mark_keeps ks (set flags m.variable true) m.variable (set-self_true flags m.variable w))
    | inr there ↦
        mark_sets ks (mark_one (get_elem? nodes j) flags) k m (rw there at h) e
          (rw (length-mark_one (get_elem? nodes j) flags) w)
  ]

-- The index leads from a variable to a node that reads it.
abbrev pub IsListed : Finalized → ℕ → Node → Type 0
IsListed net f m =
    (ks : List ℕ) × (k : ℕ) × (get_elem? net.literal_to_nodes f ≡ some ks)
    × (has k ks ≡ true)
    × (get_elem? net.finalized k ≡ some m)

module _ (net : Finalized) where
  abbrev mark_entry : Option (List ℕ) → List Bool → List Bool
  mark_entry o flags = elim o [ none ↦ flags | some ks ↦ marked net.finalized ks flags ]

  unfoldable pub marked_flipped : List ℕ → List Bool → List Bool
  marked_flipped [] flags = flags
  marked_flipped (f ∷ flipped) flags =
      marked_flipped flipped (mark_entry (get_elem? net.literal_to_nodes f) flags)

  mark_entry_keeps :
      (o : Option (List ℕ)) (flags : List Bool) (v : ℕ)
      → get_or flags v false ≡ true
      → get_or (mark_entry o flags) v false ≡ true
  mark_entry_keeps none flags v h = h
  mark_entry_keeps (some ks) flags v h = mark_keeps net.finalized ks flags v h

  length-mark_entry :
      (o : Option (List ℕ)) (flags : List Bool) → length (mark_entry o flags) ≡ length flags
  length-mark_entry none flags = refl
  length-mark_entry (some ks) flags = length-marked net.finalized ks flags

  marked_flipped_keeps :
      (flipped : List ℕ) (flags : List Bool) (v : ℕ)
      → get_or flags v false ≡ true
      → get_or (marked_flipped flipped flags) v false ≡ true
  unfolding marked_flipped
  marked_flipped_keeps [] flags v h = h
  marked_flipped_keeps (f ∷ flipped) flags v h =
      marked_flipped_keeps flipped _ v
        (mark_entry_keeps (get_elem? net.literal_to_nodes f) flags v h)

  pub length-marked_flipped :
      (flipped : List ℕ) (flags : List Bool) → length (marked_flipped flipped flags) ≡ length flags
  unfolding marked_flipped
  length-marked_flipped [] flags = refl
  length-marked_flipped (f ∷ flipped) flags =
      length-marked_flipped flipped _ ∙ length-mark_entry (get_elem? net.literal_to_nodes f) flags

  -- The first loop marks every node that reads a flipped variable.
  pub marked_flipped_sets :
      (flipped : List ℕ) (flags : List Bool) (f : ℕ) (m : Node)
      → IsListed net f m
      → has f flipped ≡ true
      → m.variable < length flags
      → get_or (marked_flipped flipped flags) m.variable false ≡ true
  unfolding marked_flipped
  marked_flipped_sets [] flags f m i h w = cc
  marked_flipped_sets (g ∷ flipped) flags f m i h w = elim (Bool-cases (g == f)) [
    | inl here ↦
        let (ks, k, entry, listed, node) = i in
        let key : g ≡ f = (==_iff g f).0 here in
        rw (key, entry)
          (marked_flipped_keeps flipped (marked net.finalized ks flags) m.variable
            (mark_sets net.finalized ks flags k m listed node w))
    | inr there ↦
        marked_flipped_sets flipped (mark_entry (get_elem? net.literal_to_nodes g) flags) f m i
          (rw there at h) (rw (length-mark_entry (get_elem? net.literal_to_nodes g) flags) w)
  ]

-- The index names nodes of the list only.
abbrev pub IsIndexWithin : Finalized → Type 0
IsIndexWithin net = All (λ ks. All (λ k. k < length net.finalized) ks) net.literal_to_nodes

module _ (nodes : List Node) where
  mark_node-some :
      (k : ℕ) (flags : List Bool)
      → k < length nodes
      → All (λ m. m.variable < length flags) nodes
      → mark_node (get_elem? nodes k) flags ≡ some (mark_one (get_elem? nodes k) flags)
  mark_node-some k flags p w = elim (Option-cases (get_elem? nodes k)) [
    | inl past ↦ absurd (omega (arith, get_elem?-past nodes k past))
    | inr (m, at) ↦ rw (at, lt→ltb m.variable (length flags) (All-get_elem? _ nodes k m at w)) refl
  ]

  -- Where the nodes named and their variables are in range, marking returns.
  pub mark-some :
      (ks : List ℕ) (flags : List Bool)
      → All (λ k. k < length nodes) ks
      → All (λ m. m.variable < length flags) nodes
      → mark nodes ks flags ≡ some (marked nodes ks flags)
  unfolding mark marked
  mark-some [] flags p w = refl
  mark-some (k ∷ ks) flags p w =
      let o = get_elem? nodes k in
      rw (mark_node-some k flags p.0 w, mark, marked)
        (mark-some ks (mark_one o flags) p.1 (rw (length-mark_one o flags) w))

module _ (net : Finalized) where
  -- The first loop returns where the index and the variables of the nodes are in range.
  pub mark_flipped-some :
      (flipped : List ℕ) (flags : List Bool)
      → IsIndexWithin net
      → All (λ m. m.variable < length flags) net.finalized
      → mark_flipped net flipped flags ≡ some (marked_flipped net flipped flags)
  unfolding mark_flipped marked_flipped
  mark_flipped-some [] flags p w = refl
  mark_flipped-some (f ∷ flipped) flags p w =
      elim (Option-cases (get_elem? net.literal_to_nodes f)) [
        | inl past ↦ rw (past, mark_flipped, marked_flipped) (mark_flipped-some flipped flags p w)
        | inr (ks, at) ↦
            let entry = All-get_elem? _ net.literal_to_nodes f ks at p in
            rw (at, mark_flipped, marked_flipped, mark-some net.finalized ks flags entry w)
              (mark_flipped-some flipped (marked net.finalized ks flags) p
                (rw (length-marked net.finalized ks flags) w))
      ]
