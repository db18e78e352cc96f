-- ===== src/Net/Finalizes.antt =====
-- What the depths that `Net::finalize` leaves mean for the nodes, whatever order they stand in.
use latin_squares_diploma_it.Prelude.{
  ℕ, zero, suc, ◌+◌, ◌<◌, ◌≡◌, ◌≢◌, ◌⊎◌, refl, sym, ap, ◌∙◌, arith, true, not, ◌||◌, List, [], ◌∷◌,
  Option, none, some, ltb, lt→ltb, ◌==◌, ==_iff, length, get_elem?, All, All-map, Distinct,
  Bool-cases, inl, inr,
}
use latin_squares_diploma_it.Cnf.Literal.{Literal}
use latin_squares_diploma_it.Net.Node.{Node}
use latin_squares_diploma_it.Net.Finalize.{Net}
use latin_squares_diploma_it.Net.Restore.{Depths, with_depth, restore}
use latin_squares_diploma_it.Net.Depths.{IsLayered}
use latin_squares_diploma_it.Net.Arranged.{variables, reads_below, ReadsBelow, All-all}

-- Each node is the one that the map names for its variable.
abbrev pub IsNamed : Net → Type 0
IsNamed net =
    (i : ℕ) (n : Node)
    → get_elem? net.nodes i ≡ some n
    → get_elem? net.variable_to_node n.variable ≡ some (some i)

-- A node whose depth is known has no arguments.
abbrev pub IsFlat : Node → Type 0
IsFlat n = (n.depth ≡ none) ⊎ (n.args ≡ [])

abbrev pub depths_of : List Node → Depths
depths_of [] i = none
depths_of (n ∷ nodes) zero = n.depth
depths_of (n ∷ nodes) (suc i) = depths_of nodes i

pub restore-depths_of : (nodes : List Node) → restore nodes (depths_of nodes) ≡ nodes
unfolding restore
restore-depths_of [] = refl
restore-depths_of (n ∷ nodes) = ap (λ (rest : List Node). n ∷ rest) (restore-depths_of nodes)

pub depths_of-eq :
    (nodes : List Node) (i : ℕ) (n : Node)
    → get_elem? nodes i ≡ some n
    → depths_of nodes i ≡ n.depth
depths_of-eq [] i n e = cc
depths_of-eq (m ∷ nodes) zero n e = let same : m ≡ n = cc in ap (λ (x : Node). x.depth) same
depths_of-eq (m ∷ nodes) (suc i) n e = depths_of-eq nodes i n e

pub All-restore {κ} :
    (P : Node → Type κ) (nodes : List Node) (f : Depths)
    → ((i : ℕ) (n : Node) → get_elem? nodes i ≡ some n → P (with_depth n (f i)))
    → All P (restore nodes f)
unfolding restore
All-restore P [] f h = tt
All-restore P (n ∷ nodes) f h =
    (h 0 n refl, All-restore P nodes (λ i. f (suc i)) (λ i m e. h (suc i) m e))

pub All-at {κ} :
    (P : Node → Type κ) (nodes : List Node) (i : ℕ) (n : Node)
    → All P nodes
    → get_elem? nodes i ≡ some n
    → P n
All-at P [] i n h e = cc
All-at P (m ∷ nodes) zero n h e = let same : m ≡ n = cc in rw (← same) h.0
All-at P (m ∷ nodes) (suc i) n h e = All-at P nodes i n h.1 e

All-variables_of :
    (v : ℕ) (nodes : List Node) (f : Depths)
    → ((i : ℕ) (n : Node) → get_elem? nodes i ≡ some n → n.variable ≢ v)
    → All (λ y. y ≢ v) (variables (restore nodes f))
unfolding restore
All-variables_of v [] f h = tt
All-variables_of v (n ∷ nodes) f h =
    (h 0 n refl, All-variables_of v nodes (λ i. f (suc i)) (λ i m e. h (suc i) m e))

place_ne :
    {x y : Option (Option ℕ)} (k i : ℕ)
    → x ≡ some (some (k + 0))
    → y ≡ some (some (k + suc i))
    → x ≢ y
place_ne k i p q e = let same : k + 0 ≡ k + suc i = cc in omega arith

shift : (k i : ℕ) → k + suc i ≡ suc k + i
shift k i = omega arith

-- Variables that a map sends to their places are distinct.
pub named-Distinct :
    (nodes : List Node) (f : Depths) (at : ℕ → Option (Option ℕ)) (k : ℕ)
    → ((i : ℕ) (n : Node) → get_elem? nodes i ≡ some n → at n.variable ≡ some (some (k + i)))
    → Distinct (variables (restore nodes f))
unfolding restore
named-Distinct [] f at k h = tt
named-Distinct (n ∷ nodes) f at k h = (
  All-variables_of n.variable nodes (λ i. f (suc i))
      (λ i m e p. place_ne k i (h 0 n refl) (h (suc i) m e) (sym (ap at p))),
  named-Distinct nodes (λ i. f (suc i)) at (suc k)
      (λ i m e. h (suc i) m e ∙ ap (λ (j : ℕ). some (some j)) (shift k i)),
)

some_number : {x y : ℕ} → some x ≡ some y → x ≡ y
some_number e = cc

below_test :
    (index : List (Option ℕ)) (a : Literal) (v j d e : ℕ)
    → get_elem? index v ≡ some (some j)
    → ((k : ℕ) → get_elem? index a.number ≡ some (some k) → (x : ℕ) × (k ≡ j → x ≡ e) × (x < d))
    → (not (a.number == v) || ltb (suc e) (suc d)) ≡ true
below_test index a v j d e named below = elim (Bool-cases (a.number == v)) [
  | inl here ↦
      let same : a.number ≡ v = (==_iff a.number v).0 here in
      let (x, q, lt) = below j (ap (get_elem? index) same ∙ named) in
      rw (here, lt→ltb (suc e) (suc d) (omega (arith, q refl, lt))) refl
  | inr there ↦ rw there refl
]

module _ (net : Net) (rank : ℕ → ℕ) (named : IsNamed net) (after : Depths)
    (layered : IsLayered net.nodes net.variable_to_node rank after)
    (known : (j : ℕ) → j < length net.nodes → (d : ℕ) × (after j ≡ some d)) where
  index_lt : (nodes : List Node) (i : ℕ) (n : Node) → get_elem? nodes i ≡ some n → i < length nodes
  index_lt [] i n e = cc
  index_lt (m ∷ nodes) zero n e = omega arith
  index_lt (m ∷ nodes) (suc i) n e = omega (arith, index_lt nodes i n e)

  reads :
      (i j : ℕ) (n m : Node)
      → get_elem? net.nodes i ≡ some n
      → get_elem? net.nodes j ≡ some m
      → reads_below (with_depth n (after i)) (with_depth m (after j)) ≡ true
  reads i j n m e e' =
      let (d, p) = known i (index_lt net.nodes i n e) in
      let (x, q) = known j (index_lt net.nodes j m e') in
      rw (p, q)
        (All-all (λ a. not (a.number == m.variable) || ltb (suc x) (suc d)) n.args
          (All-map n.args
            (λ a below. below_test net.variable_to_node a m.variable j d x (named j m e') (λ k g.
              let (y, r, lt) = below k g in
              (y, λ (z : k ≡ j). some_number (sym r ∙ ap after z ∙ q), lt)))
            (layered i d n e p)))

  pub final_ReadsBelow : ReadsBelow (restore net.nodes after) (restore net.nodes after)
  final_ReadsBelow =
      All-restore (λ n. All (λ m. reads_below n m ≡ true) (restore net.nodes after)) net.nodes after
        (λ i n e.
          All-restore (λ m. reads_below (with_depth n (after i)) m ≡ true) net.nodes after
            (λ j m e'. reads i j n m e e'))
