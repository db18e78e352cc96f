-- ===== src/Net/Incremental.antt =====
-- The evaluation after flips agrees with an evaluation of the whole net: starting from a consistent
-- assignment it finds every variable of the net that changes, and no other.
use latin_squares_diploma_it.Prelude.{
  ℕ, ◌<◌, ◌≡◌, refl, sym, ap, ◌∙◌, false, List, [], ◌∷◌, some, length, get_or, has, All, All-map,
  All-map₂, Ascending, Increasing, replicate, length-replicate,
}
use latin_squares_diploma_it.Cnf.Literal.{bit, xor_flag}
use latin_squares_diploma_it.Net.Node.{Node}
use latin_squares_diploma_it.Net.Gate.{inputs}
use latin_squares_diploma_it.Net.Consistent.{Undefined, IsOrdered}
use latin_squares_diploma_it.Net.Flips.{Finalized, left_first, Progress, visit_all, compute_flipped}
use latin_squares_diploma_it.Net.Marks.{
  IsIndexWithin, marked_flipped, mark_flipped-some, marked_flipped_sets, length-marked_flipped,
}
use latin_squares_diploma_it.Net.Ready.{IsSettled, IsReady, IsMarked, value_by_flips}
use latin_squares_diploma_it.Net.Visits.{Visited, visit-Visited}

module _ (net : Finalized) (units : List ℕ) where
  -- What all the visits make of the progress.
  record AllVisited (ns : List Node) (s t : Progress) : Type 0 where
    made : visit_all left_first net units ns s ≡ some t
    ascending : Ascending t.flipped
    strict : Increasing s.flipped → Increasing t.flipped
    keeps : (v : ℕ) → Undefined ns v → has v t.flipped ≡ has v s.flipped
    settled : All (IsSettled units t.flipped) ns

  -- What a node reads, and its own variable, stay as they are in later visits.
  IsSettled-later :
      (n : Node) (ns : List Node) (s t : Progress)
      → All (λ l. Undefined (n ∷ ns) l.number) (inputs n.gate n.args)
      → Undefined ns n.variable
      → ((v : ℕ) → Undefined ns v → has v t.flipped ≡ has v s.flipped)
      → IsSettled units s.flipped n
      → IsSettled units t.flipped n
  IsSettled-later n ns s t o u keeps h =
      ap (xor_flag (get_or units n.variable 2)) (keeps n.variable u)
      ∙ h
      ∙ ap bit (
          value_by_flips units s.flipped t.flipped n
            (All-map (inputs n.gate n.args) (λ l p. sym (keeps l.number p.1)) o))

  AllVisited-cons :
      (n : Node) (ns : List Node) (s s' t : Progress)
      → All (λ l. Undefined (n ∷ ns) l.number) (inputs n.gate n.args)
      → Undefined ns n.variable
      → Visited net units n s s'
      → AllVisited ns s' t
      → AllVisited (n ∷ ns) s t
  unfolding visit_all
  AllVisited-cons n ns s s' t o u first rest = record {
    made = rw (first.made, visit_all) rest.made;
    ascending = rest.ascending;
    strict = λ i. rest.strict (first.strict i);
    keeps = λ v p. rest.keeps v p.1 ∙ first.keeps v p.0;
    settled = (IsSettled-later n ns s' t o u rest.keeps first.settled, rest.settled);
  }

  visit_all_lem :
      (ns : List Node) (s : Progress)
      → IsIndexWithin net
      → All (λ m. m.variable < length units) net.finalized
      → All (IsReady net units) ns
      → IsOrdered ns
      → Ascending s.flipped
      → All (λ n. has n.variable s.flipped ≡ false) ns
      → All (IsMarked s.flipped s.to_compute) ns
      → length s.to_compute ≡ length units
      → (t : Progress) × AllVisited ns s t
  unfolding visit_all
  visit_all_lem [] s index inside r o a absent m w =
      (s, record { made = refl; ascending = a; strict = λ i. i; keeps = λ v u. refl; settled = tt })
  visit_all_lem (n ∷ ns) s index inside r o a absent m w =
      let (s', first) =
        visit-Visited net units n s index (rw w inside) r.0 a absent.0 (All-map _ (λ l p. p.0) o.0)
          m.0 in
      let (t, rest) =
        visit_all_lem ns s' index inside r.1 o.2 first.ascending
          (All-map₂ ns (λ k p q. first.keeps k.variable (λ e. p (sym e)) ∙ q) o.1 absent.1)
          (All-map₂ ns (λ k p q. first.marks k p.listed (rw w p.within) q) r.1 m.1)
          (first.size ∙ w) in
      (t, AllVisited-cons n ns s s' t o.0 o.1 first rest)

  -- What `compute(units, flipped)` leaves in `flipped`: the given flips outside the net, and inside it
  -- exactly the variables whose node changes.
  pub record Recomputed (flipped out : List ℕ) : Type 0 where
    pub made : compute_flipped left_first net units flipped ≡ some out
    pub ascending : Ascending out
    pub strict : Increasing flipped → Increasing out
    pub outside : (v : ℕ) → Undefined net.finalized v → has v out ≡ has v flipped
    pub settled : All (IsSettled units out) net.finalized

  -- On a net in order and consistent with the assignment, whose index leads from each argument to
  -- the nodes that read it and to nodes of the net only and has an entry for each variable of the
  -- net, whose variables and arguments are variables of the assignment, and whose value, and and or
  -- nodes have sorted arguments, for sorted flips of variables outside the net, and with the
  -- arguments of the swap evaluated from the left, `compute(units, flipped)` reads and writes
  -- nothing out of range and adds exactly the flips after which every variable of the net has the
  -- value of its node again; the other flips stay as given, and the result is sorted, strictly if
  -- the given flips are.
  pub compute_flipped-Recomputed :
      (flipped : List ℕ)
      → IsIndexWithin net
      → All (IsReady net units) net.finalized
      → IsOrdered net.finalized
      → Ascending flipped
      → All (λ n. has n.variable flipped ≡ false) net.finalized
      → (out : List ℕ) × Recomputed flipped out
  unfolding compute_flipped
  compute_flipped-Recomputed flipped index r o a absent =
      let inside = All-map net.finalized (λ m p. p.within) r in
      let start = marked_flipped net flipped (replicate (length units) false) in
      let begun =
        mark_flipped-some net flipped (replicate (length units) false) index
          (rw (length-replicate (length units) false) inside) in
      let size : length start ≡ length units =
        length-marked_flipped net flipped (replicate (length units) false)
        ∙ length-replicate (length units) false in
      let marked =
        All-map net.finalized
          (λ m p.
            All-map (inputs m.gate m.args)
              (λ l i h.
                marked_flipped_sets net flipped (replicate (length units) false) l.number m i h
                  (rw (length-replicate (length units) false) p.within))
              p.listed)
          r in
      let (t, done) =
        visit_all_lem net.finalized (record { flipped = flipped; to_compute = start }) index inside
          r o a absent marked size in
      (
        t.flipped,
        record {
          made = rw (begun, done.made, compute_flipped) refl;
          ascending = done.ascending;
          strict = done.strict;
          outside = done.keeps;
          settled = done.settled;
        },
      )
