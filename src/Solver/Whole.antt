-- ===== src/Solver/Whole.antt =====
-- `apply_flipped` as a whole: the net is evaluated again and the clauses are brought up to date, and
-- the state is ready for the next flips.
use mathlib.Core.Bool.{false≢true}
use latin_squares_diploma_it.Prelude.{
  ℕ, ◌<◌, ◌≡◌, refl, sym, ap, subst, ◌∙◌, arith, Bool, true, false, List, [], ◌∷◌, some, ◌⊎◌, inl,
  inr, ◌==◌, ==_iff, length, length-set, get_or, set, get_or-set_self, get_or-set_ne, has,
  has_of_below, All, All-map, All-map₂, Increasing, Increasing-Ascending, Bool-cases,
}
use latin_squares_diploma_it.Cnf.Literal.{bit, toggle}
use latin_squares_diploma_it.Net.Node.{Node}
use latin_squares_diploma_it.Net.Gate.{agrees, agrees_flipped, inputs, gate_value_congr}
use latin_squares_diploma_it.Net.Consistent.{Undefined, IsOrdered}
use latin_squares_diploma_it.Net.Flips.{left_first}
use latin_squares_diploma_it.Net.Marks.{IsIndexWithin}
use latin_squares_diploma_it.Net.Ready.{IsReady, IsSettled, IsSteady, flipped_unit}
use latin_squares_diploma_it.Net.Incremental.{Recomputed, compute_flipped-Recomputed}
use latin_squares_diploma_it.Solver.State.{Solver}
use latin_squares_diploma_it.Solver.Apply.{toggle_all, apply_computed, apply_flipped}
use latin_squares_diploma_it.Solver.Tally.{length-toggle_all}
use latin_squares_diploma_it.Solver.Tracks.{IsTracked, AreKnown, apply_computed-Applied}

-- A property of all elements, as a function of the membership test.
All-has {κ} : (P : ℕ → Type κ) (xs : List ℕ) (v : ℕ) → All P xs → has v xs ≡ true → P v
All-has P [] v h e = absurd (false≢true e)
All-has P (x ∷ xs) v h e = elim (Bool-cases (x == v)) [
  | inl here ↦ subst P ((==_iff x v).0 here) h.0
  | inr there ↦ All-has P xs v h.1 (rw there at e)
]

All-of_has {κ} : (P : ℕ → Type κ) (xs : List ℕ) → ((v : ℕ) → has v xs ≡ true → P v) → All P xs
All-of_has P [] f = tt
All-of_has P (x ∷ xs) f = (f x (ground arith), All-of_has P xs (λ v e. f v (ground arith)))

-- The flipped assignment, variable by variable.
pub toggle_all-xor_flag :
    (flipped units : List ℕ) (v : ℕ)
    → Increasing flipped
    → All (λ i. i < length units) flipped
    → get_or (toggle_all units flipped) v 2 ≡ flipped_unit units flipped v
unfolding toggle_all
toggle_all-xor_flag [] units v o h = refl
toggle_all-xor_flag (i ∷ flipped) units v o h =
    let u = toggle (get_or units i 2) in
    let rest =
      toggle_all-xor_flag flipped (set units i u) v o.1
        (All-map flipped (λ j p. rw (length-set units i u) p) h.1) in
    elim (Bool-cases (i == v)) [
      | inl here ↦
          let same : i ≡ v = (==_iff i v).0 here in
          let last : has v flipped ≡ false = rw (← same) (has_of_below i flipped o.0) in
          let value : get_or (set units i u) v 2 ≡ toggle (get_or units v 2) =
            rw (← same) (get_or-set_self units i u 2 h.0) in
          rest ∙ rw (here, last, value) refl
      | inr there ↦ rest ∙ rw (there, get_or-set_ne units i v u 2 (λ e. ground arith)) refl
    ]

-- A variable is outside the net, or it is known.
outside_or_known :
    (ns : List Node) (units : List ℕ) (v : ℕ)
    → All (λ n. (n.variable < length units) × (get_or units n.variable 2 < 2)) ns
    → Undefined ns v ⊎ ((v < length units) × (get_or units v 2 < 2))
outside_or_known [] units v h = inl tt
outside_or_known (n ∷ ns) units v h = elim (Bool-cases (n.variable == v)) [
  | inl here ↦ inr (
      subst (λ (x : ℕ). (x < length units) × (get_or units x 2 < 2)) ((==_iff n.variable v).0 here)
        h.0)
  | inr there ↦ elim (outside_or_known ns units v h.1) [
    | inl out ↦ inl ((λ e. ground arith), out)
    | inr known ↦ inr known
  ]
]

every {ℓ κ} : {A : Type ℓ} {P : A → Type κ} (xs : List A) → ((x : A) → P x) → All P xs
every [] f = tt
every (x ∷ xs) f = (f x, every xs f)

steady-lt : (u : ℕ) (b : Bool) → u ≡ bit b → u < 2
steady-lt u b e = ground arith

-- After the flips a settled node is steady again.
settled-IsSteady :
    (flipped units : List ℕ) (n : Node)
    → Increasing flipped
    → All (λ i. i < length units) flipped
    → IsSettled units flipped n
    → IsSteady (toggle_all units flipped) n
unfolding agrees_flipped
settled-IsSteady flipped units n o h e =
    toggle_all-xor_flag flipped units n.variable o h
    ∙ e
    ∙ ap bit (
        gate_value_congr _ _ n.gate n.args (
          every (inputs n.gate n.args) (λ l.
            ap (λ (u : ℕ). agrees u l) (sym (toggle_all-xor_flag flipped units l.number o h)))))

-- The solver between two rounds: its clauses are tracked, and its net is in order, indexed and
-- consistent with the assignment.
pub record IsSound (s : Solver) (watched : ℕ → Bool) : Type 0 where
  pub tracked : IsTracked s watched
  pub ordered : IsOrdered s.net.finalized
  pub index : IsIndexWithin s.net
  pub ready : All (IsReady s.net s.propagated) s.net.finalized

module _ (s : Solver) (watched : ℕ → Bool) (sound : IsSound s watched) (flipped : List ℕ)
    (o : Increasing flipped) (known : AreKnown s.propagated flipped)
    (absent : All (λ n. has n.variable flipped ≡ false) s.net.finalized) where
  -- What `apply_flipped` leaves: the given flips outside the net are applied, the clauses and the net
  -- agree with the new assignment, and the flags of clauses that are not watched stay.
  pub record AppliedWhole (s' : Solver) (out : List ℕ) : Type 0 where
    pub made : apply_flipped left_first s flipped ≡ some (s', out)
    pub sound_again : IsSound s' watched
    pub values : (v : ℕ) → get_or s'.propagated v 2 ≡ flipped_unit s.propagated out v
    pub outside : (v : ℕ) → Undefined s.net.finalized v → has v out ≡ has v flipped
    pub others : (c : ℕ) → watched c ≡ false → get_or s'.satisfied c 2 ≡ get_or s.satisfied c 2

  pub known-out :
      (out : List ℕ) → Recomputed s.net s.propagated flipped out → AreKnown s.propagated out
  known-out out r =
      All-of_has (λ i. (i < length s.propagated) × (get_or s.propagated i 2 < 2)) out
        (λ v e.
          elim (outside_or_known s.net.finalized s.propagated v
            (All-map s.net.finalized (λ n p. (p.within, steady-lt _ _ p.steady)) sound.ready)) [
              | inl undefined ↦
                  All-has (λ i. (i < length s.propagated) × (get_or s.propagated i 2 < 2)) flipped v
                    known (sym (r.outside v undefined) ∙ e)
              | inr inside ↦ inside
            ])

  whole :
      (out : List ℕ)
      → Recomputed s.net s.propagated flipped out
      → AppliedWhole (apply_computed s out) out
  unfolding apply_flipped apply_computed
  whole out r =
      let strict = r.strict o in
      let out_known = known-out out r in
      let within = All-map out (λ i k. k.0) out_known in
      let done = apply_computed-Applied s watched sound.tracked out strict out_known in
      record {
        made = rw (r.made, apply_flipped);
        sound_again = record {
          tracked = done.in_step;
          ordered = sound.ordered;
          index = sound.index;
          ready =
              All-map₂ s.net.finalized
                (λ n p e. record {
                  scanned = p.scanned;
                  sorted = p.sorted;
                  reads = rw (length-toggle_all s.propagated out) p.reads;
                  listed = p.listed;
                  entry = p.entry;
                  within = rw (length-toggle_all s.propagated out) p.within;
                  steady = settled-IsSteady out s.propagated n strict within e;
                })
                sound.ready r.settled;
        };
        values = λ v. toggle_all-xor_flag out s.propagated v strict within;
        outside = r.outside;
        others = done.others;
      }

  -- On a sound solver, for strictly sorted flips of known variables outside the net, and with the
  -- arguments of the swap evaluated from the left, `apply_flipped` returns, and the solver is sound
  -- again: the assignment is changed by the flips and by those that the net adds to them, and the
  -- counts, flags, sums and net values are those of the new assignment.
  pub apply_flipped-IsSound : (s' : Solver) × (out : List ℕ) × AppliedWhole s' out
  apply_flipped-IsSound =
      let (out, r) =
        compute_flipped-Recomputed s.net s.propagated flipped sound.index sound.ready sound.ordered
          (Increasing-Ascending flipped o) absent in
      (apply_computed s out, out, whole out r)
