-- ===== src/Net/Visits.antt =====
-- One visit of the second loop of `Net::compute(units, flipped)`, on each of its branches.
use latin_squares_diploma_it.Prelude.{
  All-get_elem?, ℕ, ◌<◌, ◌≡◌, ◌≢◌, refl, sym, ap, subst, ◌∙◌, arith, true, false, List, some, ◌==◌,
  ==_iff, length, get_or, get_elem?, has, All, All-map, All-map₂, Ascending, Increasing, Bool-cases,
  inl, inr,
}
use latin_squares_diploma_it.Cnf.Literal.{bit}
use latin_squares_diploma_it.Net.Node.{Node, propagate}
use latin_squares_diploma_it.Net.Gate.{node_value, inputs, propagate-gate_value}
use latin_squares_diploma_it.Net.Flips.{Finalized, left_first, place, Progress, visit}
use latin_squares_diploma_it.Net.Marks.{
  IsListed, has-place, Ascending-place, Increasing-place, IsIndexWithin, marked, mark-some,
  mark_keeps, length-marked, mark_sets,
}
use latin_squares_diploma_it.Net.Ready.{
  IsSettled, IsReady, IsMarked, value_by_flips, value_unflipped, toggled, unmarked, some_path,
}

module _ (net : Finalized) (units : List ℕ) where
  place_keeps : (F : List ℕ) (v w : ℕ) → v ≢ w → has w (place F v).0 ≡ has w F
  place_keeps F v w p = ground (arith, has-place F v w)

  marked_after :
      (s : Progress) (ks : List ℕ) (v : ℕ) (m : Node) (x : ℕ)
      → get_elem? net.literal_to_nodes v ≡ some ks
      → IsListed net x m
      → m.variable < length s.to_compute
      → (has x s.flipped ≡ true → get_or s.to_compute m.variable false ≡ true)
      → has x (place s.flipped v).0 ≡ true
      → get_or (marked net.finalized ks s.to_compute) m.variable false ≡ true
  marked_after s ks v m x entry (js, k, entry', inside, node) w old h = elim (Bool-cases (v == x)) [
    | inl here ↦
        let same : v ≡ x = (==_iff v x).0 here in
        let lists : js ≡ ks =
          some_path (sym entry' ∙ ap (get_elem? net.literal_to_nodes) (sym same) ∙ entry) in
        mark_sets net.finalized ks s.to_compute k m
          (subst (λ (l : List ℕ). has k l ≡ true) lists inside) node w
    | inr there ↦
        mark_keeps net.finalized ks s.to_compute m.variable
          (old (ground (arith, has-place s.flipped v x)))
  ]

  -- What the visit of a node makes of the progress.
  pub record Visited (n : Node) (s t : Progress) : Type 0 where
    pub made : visit left_first net units n s ≡ some t
    pub ascending : Ascending t.flipped
    pub strict : Increasing s.flipped → Increasing t.flipped
    pub keeps : (v : ℕ) → n.variable ≢ v → has v t.flipped ≡ has v s.flipped
    pub settled : IsSettled units t.flipped n
    pub size : length t.to_compute ≡ length s.to_compute
    pub marks :
        (m : Node)
        → All (λ l. IsListed net l.number m) (inputs m.gate m.args)
        → m.variable < length s.to_compute
        → IsMarked s.flipped s.to_compute m
        → IsMarked t.flipped t.to_compute m

  -- A visit that leaves the progress as it is.
  Visited-same :
      (n : Node) (s : Progress)
      → visit left_first net units n s ≡ some s
      → Ascending s.flipped
      → IsSettled units s.flipped n
      → Visited n s s
  Visited-same n s e a h = record {
    made = e;
    ascending = a;
    strict = λ i. i;
    keeps = λ v p. refl;
    settled = h;
    size = refl;
    marks = λ m l w k. k;
  }

  module _ (n : Node) (s : Progress) (ready : IsReady net units n) (a : Ascending s.flipped)
      (absent : has n.variable s.flipped ≡ false) where
    -- Not marked: nothing that the node reads is flipped.
    visit_unmarked :
        IsMarked s.flipped s.to_compute n
        → get_or s.to_compute n.variable false ≡ false
        → Visited n s s
    unfolding visit
    visit_unmarked m e = Visited-same n s (rw e) a (
        rw absent (
          ready.steady
          ∙ ap bit
              (sym (value_unflipped units s.flipped n (unmarked s.flipped s.to_compute n m e)))))

    -- Marked, with the same value as before.
    visit_unchanged :
        get_or s.to_compute n.variable false ≡ true
        → (bit (propagate n units s.flipped) == get_or units n.variable 2) ≡ true
        → Visited n s s
    unfolding visit
    visit_unchanged e same = Visited-same n s (rw (e, same)) a (
        rw absent (
          sym ((==_iff (bit (propagate n units s.flipped)) (get_or units n.variable 2)).0 same)
          ∙ ap bit (propagate-gate_value n units s.flipped ready.scanned ready.sorted a)))

    -- Marked, with a new value.
    visit_changed :
        IsIndexWithin net
        → All (λ m. m.variable < length s.to_compute) net.finalized
        → All (λ l. n.variable ≢ l.number) (inputs n.gate n.args)
        → get_or s.to_compute n.variable false ≡ true
        → (bit (propagate n units s.flipped) == get_or units n.variable 2) ≡ false
        → (t : Progress) × Visited n s t
    unfolding visit
    visit_changed index inside o e new =
        let (ks, entry) = ready.entry in
        let v = n.variable in
        let flipped' = (place s.flipped n.variable).0 in
        let placed : has v flipped' ≡ true =
          ground (arith, has-place s.flipped n.variable n.variable) in
        let value =
          propagate-gate_value n units s.flipped ready.scanned ready.sorted a
          ∙ value_by_flips units s.flipped flipped' n (
              All-map (inputs n.gate n.args) (λ l p. sym (place_keeps s.flipped v l.number p)) o) in
        (
          record { flipped = flipped'; to_compute = marked net.finalized ks s.to_compute },
          record {
            made =
                rw
                  (
                    e,
                    new,
                    entry,
                    mark-some net.finalized ks s.to_compute
                        (All-get_elem? _ net.literal_to_nodes v ks entry index) inside,
                  )
                  refl;
            ascending = Ascending-place s.flipped n.variable a;
            strict = λ i. Increasing-place s.flipped n.variable i absent;
            keeps = place_keeps s.flipped v;
            settled = rw placed (
                toggled (get_or units v 2) (node_value units n) (propagate n units s.flipped)
                  ready.steady new
                ∙ ap bit value);
            size = length-marked net.finalized ks s.to_compute;
            marks = λ m l w k.
                All-map₂ (inputs m.gate m.args)
                  (λ x listed old h. marked_after s ks v m x.number entry listed w old h) l k;
          },
        )

  -- One visit, whatever it finds.
  pub visit-Visited :
      (n : Node) (s : Progress)
      → IsIndexWithin net
      → All (λ m. m.variable < length s.to_compute) net.finalized
      → IsReady net units n
      → Ascending s.flipped
      → has n.variable s.flipped ≡ false
      → All (λ l. n.variable ≢ l.number) (inputs n.gate n.args)
      → IsMarked s.flipped s.to_compute n
      → (t : Progress) × Visited n s t
  visit-Visited n s index inside r a absent o m =
      elim (Bool-cases (get_or s.to_compute n.variable false)) [
        | inr e ↦ (s, visit_unmarked n s r a absent m e)
        | inl e ↦
            elim (Bool-cases (bit (propagate n units s.flipped) == get_or units n.variable 2)) [
              | inl same ↦ (s, visit_unchanged n s r a absent e same)
              | inr new ↦ visit_changed n s r a absent index inside o e new
            ]
      ]
