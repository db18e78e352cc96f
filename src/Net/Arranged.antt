-- ===== src/Net/Arranged.antt =====
-- The order that `Net::finalize` brings the nodes into: a node reads only variables that earlier nodes
-- define, or none.
use mathlib.Core.List.{Perm}
use mathlib.Core.List.Perm
use mathlib.Core.Bool.{Bool-set, false≢true}
use latin_squares_diploma_it.Prelude.{
  ℕ, ◌≤◌, ◌≡◌, ◌≢◌, refl, arith, Bool, true, not, ◌||◌, List, [], ◌∷◌, Sort, ltb, ◌==◌, all, All,
  All-map, All-perm, Distinct, Distinct-perm, Ascending, map, Bool-cases, inl, inr,
}
use latin_squares_diploma_it.Cnf.Literal.{Literal}
use latin_squares_diploma_it.Net.Node.{Node}
use latin_squares_diploma_it.Net.Gate.{inputs}
use latin_squares_diploma_it.Net.Consistent.{Undefined, IsOrdered}
use latin_squares_diploma_it.Net.Finalize.{depth_key, shallower}

abbrev pub variables : List Node → List ℕ
variables = map (λ n. n.variable)

-- Where `m` defines an argument of `n`, it has the smaller depth.
abbrev pub reads_below : Node → Node → Bool
reads_below n m = all (λ a. not (a.number == m.variable) || ltb (depth_key m) (depth_key n)) n.args

abbrev pub ReadsBelow : List Node → List Node → Type 0
ReadsBelow ns ms = All (λ n. All (λ m. reads_below n m ≡ true) ms) ns

-- The arguments that the gate reads are those of the node.
abbrev pub IsBuilt : Node → Type 0
IsBuilt n = inputs n.gate n.args ≡ n.args

all-All {ℓ} : {A : Type ℓ} (p : A → Bool) (xs : List A) → all p xs ≡ true → All (λ x. p x ≡ true) xs
all-All p [] h = tt
all-All p (x ∷ xs) h = elim (Bool-cases (p x)) [
  | inl e ↦ (e, all-All p xs (rw e at h))
  | inr e ↦ absurd (false≢true (rw e at h))
]

pub All-all {ℓ} :
    {A : Type ℓ} (p : A → Bool) (xs : List A) → All (λ x. p x ≡ true) xs → all p xs ≡ true
All-all p [] h = refl
All-all p (x ∷ xs) h = rw (h.0) (All-all p xs h.1)

ReadsBelow-perm : (ns ms : List Node) → Perm ms ns → ReadsBelow ns ns → ReadsBelow ms ms
ReadsBelow-perm ns ms e h =
    let outer =
      All-perm ns ms (λ n. Bool-set _ _) e (All-map ns (λ n p. All-all (reads_below n) ns p) h) in
    All-map ms (λ n p. All-perm ns ms (λ m. Bool-set _ _) e (all-All (reads_below n) ns p)) outer

not_below : (x y k j : ℕ) → k ≤ j → (not (x == y) || ltb j k) ≡ true → y ≢ x
not_below x y k j h e p = ground arith

Undefined-by_depth :
    (n : Node) (ms : List Node) (a : Literal)
    → All (λ m. depth_key n ≤ depth_key m) ms
    → All (λ m. (not (a.number == m.variable) || ltb (depth_key m) (depth_key n)) ≡ true) ms
    → Undefined ms a.number
Undefined-by_depth n [] a deep h = tt
Undefined-by_depth n (m ∷ ms) a deep h = (
  not_below a.number m.variable (depth_key n) (depth_key m) deep.0 h.0,
  Undefined-by_depth n ms a deep.1 h.1,
)

-- A test of pairs that holds for each element and all arguments, argument by argument.
All-swap {ℓ κ} :
    {A : Type ℓ} {B : Type κ} (q : A → B → Bool) (args : List A) (ms : List B)
    → All (λ m. all (λ a. q a m) args ≡ true) ms
    → All (λ a. All (λ m. q a m ≡ true) ms) args
All-swap q [] ms h = tt
All-swap q (a ∷ args) ms h = (
  All-map ms (λ m e. (all-All (λ b. q b m) (a ∷ args) e).0) h,
  All-swap q args ms
      (All-map ms (λ m e. All-all (λ b. q b m) args (all-All (λ b. q b m) (a ∷ args) e).1) h),
)

All-keys :
    (k : ℕ) (ms : List Node) → All (λ y. k ≤ y) (map depth_key ms) → All (λ m. k ≤ depth_key m) ms
All-keys k [] h = tt
All-keys k (m ∷ ms) h = (h.0, All-keys k ms h.1)

All-variables : (v : ℕ) (ms : List Node) → All (λ y. y ≢ v) (variables ms) → Undefined ms v
All-variables v [] h = tt
All-variables v (m ∷ ms) h = (h.0, All-variables v ms h.1)

layers-IsOrdered :
    (ns : List Node)
    → Ascending (map depth_key ns)
    → ReadsBelow ns ns
    → Distinct (variables ns)
    → All IsBuilt ns
    → IsOrdered ns
layers-IsOrdered [] deep below distinct built = tt
layers-IsOrdered (n ∷ ns) deep below distinct built =
    let keys : All (λ m. depth_key n ≤ depth_key m) (n ∷ ns) =
      (omega arith, All-keys (depth_key n) ns deep.0) in
    (
      rw (built.0) (
          All-map n.args (λ a h. Undefined-by_depth n (n ∷ ns) a keys h)
            (All-swap (λ a m. not (a.number == m.variable) || ltb (depth_key m) (depth_key n))
              n.args (n ∷ ns) below.0)),
      All-variables n.variable ns distinct.0,
      layers-IsOrdered ns deep.1 (All-map ns (λ m h. h.1) below.1) distinct.1 built.1,
    )

IsBuilt-prop : (n : Node) → IsProp (IsBuilt n)
IsBuilt-prop n = hlevel

-- Sorting by depth brings the nodes in order.
pub sort-IsOrdered :
    (sorting : Sort Node) (ns : List Node)
    → ReadsBelow ns ns
    → Distinct (variables ns)
    → All IsBuilt ns
    → IsOrdered (sorting.sort shallower ns)
sort-IsOrdered sorting ns below distinct built =
    let permuted = sorting.permutes shallower ns in
    layers-IsOrdered (sorting.sort shallower ns) (sorting.sorts depth_key ns)
      (ReadsBelow-perm ns (sorting.sort shallower ns) permuted below)
      (Distinct-perm (variables ns) (variables (sorting.sort shallower ns))
        (Perm.map (λ n. n.variable) permuted) distinct)
      (All-perm ns (sorting.sort shallower ns) IsBuilt-prop permuted built)
