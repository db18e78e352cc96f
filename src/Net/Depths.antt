-- ===== src/Net/Depths.antt =====
-- The recursion of `Net::finalize`: on a net without cycles it returns, and every node gets a depth
-- above those of the nodes that it reads.
use latin_squares_diploma_it.Prelude.{
  ℕ, suc, ◌<◌, ◌≤◌, ◌≡◌, refl, ◌∙◌, arith, List, [], ◌∷◌, Option, none, some, Outcome, done,
  get_elem?, All, Option-cases, inl, inr,
}
use latin_squares_diploma_it.Cnf.Literal.{Literal}
use latin_squares_diploma_it.Net.Node.{Node}
use latin_squares_diploma_it.Net.Finalize.{deepen, depth_of, max_depth_of}
use latin_squares_diploma_it.Net.Restore.{Depths, restore, get_elem?-restore}

module _ (origin : List Node) (index : List (Option ℕ)) (rank : ℕ → ℕ) where
  -- The index has an entry for the variable, and a node that it names has a rank below the bound.
  abbrev pub Descends : ℕ → Literal → Type 0
  Descends bound a =
      (entry : Option ℕ) × (get_elem? index a.number ≡ some entry)
      × ((j : ℕ) → entry ≡ some j → (m : Node) × (get_elem? origin j ≡ some m) × (rank j < bound))

  -- A net without cycles: the ranks fall from a node to those that it reads.
  abbrev pub IsAcyclic : Type 0
  IsAcyclic = (i : ℕ) (n : Node) → get_elem? origin i ≡ some n → All (Descends (rank i)) n.args

  -- The node that defines the argument has a depth below the bound.
  abbrev pub IsBelow : Depths → ℕ → Literal → Type 0
  IsBelow f d a =
      (j : ℕ) → get_elem? index a.number ≡ some (some j) → (e : ℕ) × (f j ≡ some e) × (e < d)

  abbrev pub IsLayered : Depths → Type 0
  IsLayered f =
      (i d : ℕ) (n : Node) → get_elem? origin i ≡ some n → f i ≡ some d → All (IsBelow f d) n.args

  -- What a visit leaves: depths that were known stay, and so do those of higher ranks.
  pub record Visited (i : ℕ) (f : Depths) (out : Outcome (List Node)) : Type 0 where
    pub after : Depths
    pub made : out ≡ done (restore origin after)
    pub layered : IsLayered after
    pub grown : (j d : ℕ) → f j ≡ some d → after j ≡ some d
    pub high : (j : ℕ) → rank i < rank j → after j ≡ f j
    pub depth : ℕ
    pub known : after i ≡ some depth

  pub record Measured (bound m : ℕ) (f : Depths) (args : List Literal)
      (out : Outcome (ℕ × List Node)) : Type 0 where
    pub after : Depths
    pub depth : ℕ
    pub made : out ≡ done (depth, restore origin after)
    pub layered : IsLayered after
    pub grown : (j d : ℕ) → f j ≡ some d → after j ≡ some d
    pub high : (j : ℕ) → bound ≤ rank j → after j ≡ f j
    pub above : m ≤ depth
    pub covered : All (IsBelow after (suc depth)) args

  deepen-ge : (m : ℕ) (o : Option ℕ) → m ≤ deepen m o
  deepen-ge m none = omega arith
  deepen-ge m (some d) = ground arith

  deepen_covers : (m d : ℕ) → d ≤ deepen m (some d)
  deepen_covers m d = ground arith

  module _ (visit : ℕ → List Node → Outcome (List Node)) (bound : ℕ)
      (visits : (j : ℕ) (m : Node) (f : Depths)
        → get_elem? origin j ≡ some m
        → rank j < bound
        → IsLayered f
        → f j ≡ none
        → Visited j f (visit j (restore origin f))) where
    -- The depth of a node that is read, known before or after a visit.
    record Found (j : ℕ) (f : Depths) (out : Outcome (Option ℕ × List Node)) : Type 0 where
      after : Depths
      depth : ℕ
      made : out ≡ done (some depth, restore origin after)
      layered : IsLayered after
      grown : (k d : ℕ) → f k ≡ some d → after k ≡ some d
      high : (k : ℕ) → bound ≤ rank k → after k ≡ f k
      known : after j ≡ some depth

    depth_of-Found :
        (j : ℕ) (m : Node) (f : Depths)
        → get_elem? origin j ≡ some m
        → rank j < bound
        → IsLayered f
        → Found j f (depth_of visit j (restore origin f))
    unfolding depth_of
    depth_of-Found j m f e below layered = elim (Option-cases (f j)) [
      | inl unknown ↦
          let v = visits j m f e below layered unknown in
          record {
            after = v.after;
            depth = v.depth;
            made =
                rw
                  (
                    depth_of,
                    get_elem?-restore origin f j m e,
                    unknown,
                    v.made,
                    get_elem?-restore origin v.after j m e,
                    v.known,
                  )
                  refl;
            layered = v.layered;
            grown = v.grown;
            high = λ k h. v.high k (omega arith);
            known = v.known;
          }
      | inr (d, e') ↦ record {
        after = f;
        depth = d;
        made = rw (depth_of, get_elem?-restore origin f j m e, e') refl;
        layered = layered;
        grown = λ k d' h. h;
        high = λ k h. refl;
        known = e';
      }
    ]

    pub max_depth_of-Measured :
        (args : List Literal) (m : ℕ) (f : Depths)
        → All (Descends bound) args
        → IsLayered f
        → Measured bound m f args (max_depth_of visit index args m (restore origin f))
    unfolding max_depth_of
    max_depth_of-Measured [] m f h layered = record {
      after = f;
      depth = m;
      made = refl;
      layered = layered;
      grown = λ j d e. e;
      high = λ j e. refl;
      above = omega arith;
      covered = tt;
    }
    max_depth_of-Measured (a ∷ args) m f ((none, e, to), h) layered =
        let r = max_depth_of-Measured args (deepen m (some 0)) f h layered in
        record {
          after = r.after;
          depth = r.depth;
          made = rw (e, r.made) refl;
          layered = r.layered;
          grown = r.grown;
          high = r.high;
          above = omega (arith, r.above, deepen-ge m (some 0));
          covered = (λ j e'. cc, r.covered);
        }
    max_depth_of-Measured (a ∷ args) m f ((some j, e, to), h) layered =
        let (n, e', below) = to j refl in
        let s = depth_of-Found j n f e' below layered in
        let r = max_depth_of-Measured args (deepen m (some s.depth)) s.after h s.layered in
        record {
          after = r.after;
          depth = r.depth;
          made = rw (e, s.made, r.made) refl;
          layered = r.layered;
          grown = λ k d p. r.grown k d (s.grown k d p);
          high = λ k p. r.high k p ∙ s.high k p;
          above = omega (arith, r.above, deepen-ge m (some s.depth));
          covered = (
            λ k p.
                let same : k ≡ j = cc in
                (
                  s.depth,
                  rw same (r.grown j s.depth s.known),
                  omega (arith, r.above, deepen_covers m s.depth),
                ),
            r.covered,
          );
        }
