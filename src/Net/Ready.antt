-- ===== src/Net/Ready.antt =====
-- What the incremental evaluation needs of a net, and what a node's value depends on.
use mathlib.Core.Bool.{false≢true}
use latin_squares_diploma_it.Prelude.{
  ℕ, ◌<◌, ◌≡◌, sym, ap, ◌∙◌, arith, Bool, true, false, List, some, ◌==◌, length, get_or, get_elem?,
  has, All, All-map, Ascending, Bool-cases, inl, inr,
}
use latin_squares_diploma_it.Cnf.Literal.{bit, toggle, xor_flag, unit_of}
use latin_squares_diploma_it.Cnf.Propagation.{numbers}
use latin_squares_diploma_it.Net.Node.{Node}
use latin_squares_diploma_it.Net.Gate.{
  agrees, agrees_flipped, gate_value, node_value, inputs, gate_value_congr, IsScanned,
}
use latin_squares_diploma_it.Net.Flips.{Finalized}
use latin_squares_diploma_it.Net.Marks.{IsListed}

-- The value of a node after the flips, and the byte of a variable after the flips.
abbrev pub flipped_value : List ℕ → List ℕ → Node → Bool
flipped_value units flipped n = gate_value (agrees_flipped units flipped) n.gate n.args

abbrev pub flipped_unit : List ℕ → List ℕ → ℕ → ℕ
flipped_unit units flipped v = xor_flag (get_or units v 2) (has v flipped)

-- The variable of the node has the value of the node, before the flips and after them.
abbrev pub IsSteady : List ℕ → Node → Type 0
IsSteady units n = get_or units n.variable 2 ≡ bit (node_value units n)

abbrev pub IsSettled : List ℕ → List ℕ → Node → Type 0
IsSettled units flipped n =
    flipped_unit units flipped n.variable ≡ bit (flipped_value units flipped n)

-- What the evaluation needs of a node: sorted arguments, all of which are variables, of a gate that
-- scans the flips, an index that leads from each argument to the node and has an entry for its variable, and a value that is
-- up to date.
pub record IsReady (net : Finalized) (units : List ℕ) (n : Node) : Type 0 where
  pub scanned : IsScanned n.gate
  pub sorted : Ascending (numbers n.args)
  pub reads : All (λ l. l.number < length units) n.args
  pub listed : All (λ l. IsListed net l.number n) (inputs n.gate n.args)
  pub entry : (ks : List ℕ) × (get_elem? net.literal_to_nodes n.variable ≡ some ks)
  pub within : n.variable < length units
  pub steady : IsSteady units n

pub some_path : {js ks : List ℕ} → some js ≡ some ks → js ≡ ks
some_path h = cc

-- Every node that reads a flipped variable is marked.
abbrev pub IsMarked : List ℕ → List Bool → Node → Type 0
IsMarked flipped to_compute n =
    All (λ l. has l.number flipped ≡ true → get_or to_compute n.variable false ≡ true)
      (inputs n.gate n.args)

-- Where the flips agree on what a node reads, its value is the same.
pub value_by_flips :
    (units F G : List ℕ) (n : Node)
    → All (λ l. has l.number F ≡ has l.number G) (inputs n.gate n.args)
    → flipped_value units F n ≡ flipped_value units G n
unfolding agrees_flipped
value_by_flips units F G n h = gate_value_congr _ _ n.gate n.args (
    All-map (inputs n.gate n.args)
      (λ l p. ap (λ (b : Bool). agrees (xor_flag (unit_of units l) b) l) p) h)

pub value_unflipped :
    (units F : List ℕ) (n : Node)
    → All (λ l. has l.number F ≡ false) (inputs n.gate n.args)
    → flipped_value units F n ≡ node_value units n
unfolding agrees_flipped
value_unflipped units F n h = gate_value_congr _ _ n.gate n.args (
    All-map (inputs n.gate n.args)
      (λ l p. ap (λ (b : Bool). agrees (xor_flag (unit_of units l) b) l) p) h)

-- A byte that differs from the new value, and is a value, toggles to the new value.
pub toggled : (u : ℕ) (old new : Bool) → u ≡ bit old → (bit new == u) ≡ false → toggle u ≡ bit new
toggled u old new h k = ground arith

pub unmarked :
    (F : List ℕ) (flags : List Bool) (n : Node)
    → IsMarked F flags n
    → get_or flags n.variable false ≡ false
    → All (λ l. has l.number F ≡ false) (inputs n.gate n.args)
unmarked F flags n h e =
    All-map (inputs n.gate n.args)
      (λ l p. elim (Bool-cases (has l.number F)) [
        | inl flipped ↦ absurd (false≢true (sym e ∙ p flipped))
        | inr still ↦ still
      ])
      h
