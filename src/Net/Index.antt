-- ===== src/Net/Index.antt =====
-- The index of `Net::finalize` leads from each argument of a node to the node.
use mathlib.Core.Bool.{false≢true}
use latin_squares_diploma_it.Prelude.{
  ℕ, zero, suc, ◌+◌, ◌-◌, ◌<◌, ◌≡◌, refl, subst, arith, true, ◌||◌, List, [], ◌∷◌, ◌++◌, some, grow,
  leb, leb→le, ◌==◌, ==_iff, length, length-append, length-replicate, get_or, get_or-set_self,
  get_or-set_ne, get_elem?, replicate, has, All, All-map, Bool-cases, inl, inr,
}
use latin_squares_diploma_it.Cnf.Literal.{Literal}
use latin_squares_diploma_it.Net.Node.{Node}
use latin_squares_diploma_it.Net.Finalize.{add_entry, index_args, index_nodes}

get_or-padded :
    (index : List (List ℕ)) (n f : ℕ) → get_or (index ++ replicate n []) f [] ≡ get_or index f []
get_or-padded [] zero f = refl
get_or-padded [] (suc n) zero = refl
get_or-padded [] (suc n) (suc f) = get_or-padded [] n f
get_or-padded (ks ∷ index) n zero = refl
get_or-padded (ks ∷ index) n (suc f) = get_or-padded index n f

get_or-grow : (index : List (List ℕ)) (k f : ℕ) → get_or (grow index k []) f [] ≡ get_or index f []
get_or-grow index k f = elim (Bool-cases (leb (length index) k)) [
  | inl short ↦ rw short (get_or-padded index (k + 1 - length index) f)
  | inr long ↦ rw long refl
]

length-grow : (index : List (List ℕ)) (k : ℕ) → k < length (grow index k [])
length-grow index k = elim (Bool-cases (leb (length index) k)) [
  | inl short ↦ rw short (
      omega (
        arith,
        length-append index (replicate (k + 1 - length index) []),
        length-replicate {A = List ℕ} (k + 1 - length index) [],
        leb→le (length index) k short,
      ))
  | inr long ↦ rw long (ground arith)
]

has-append : (k : ℕ) (xs ys : List ℕ) → has k (xs ++ ys) ≡ (has k xs || has k ys)
has-append k [] ys = refl
has-append k (x ∷ xs) ys = ground (arith, has-append k xs ys)

-- The index has the node at `i` in the entry of the variable `f`.
abbrev pub Lists : List (List ℕ) → ℕ → ℕ → Type 0
Lists index f i = has i (get_or index f []) ≡ true

add_entry_self : (index : List (List ℕ)) (k i : ℕ) → Lists (add_entry index k i) k i
unfolding add_entry
add_entry_self index k i =
    rw
      (
        get_or-set_self (grow index k []) k (get_or (grow index k []) k [] ++ i ∷ []) []
            (length-grow index k),
        has-append i (get_or (grow index k []) k []) (i ∷ []),
      )
      (ground arith)

add_entry_keeps :
    (index : List (List ℕ)) (k i f j : ℕ) → Lists index f j → Lists (add_entry index k i) f j
unfolding add_entry
add_entry_keeps index k i f j h = elim (Bool-cases (k == f)) [
  | inl here ↦
      let same : k ≡ f = (==_iff k f).0 here in
      rw (← same) (
        rw
          (
            get_or-set_self (grow index k []) k (get_or (grow index k []) k [] ++ i ∷ []) []
                (length-grow index k),
            has-append j (get_or (grow index k []) k []) (i ∷ []),
            get_or-grow index k k,
            rw (← same) at h,
          )
          refl)
  | inr there ↦
      rw
        (
          get_or-set_ne (grow index k []) k f (get_or (grow index k []) k [] ++ i ∷ []) []
              (λ e. ground arith),
          get_or-grow index k f,
        )
        h
]

index_args_keeps :
    (args : List Literal) (i : ℕ) (index : List (List ℕ)) (f j : ℕ)
    → Lists index f j
    → Lists (index_args args i index) f j
unfolding index_args
index_args_keeps [] i index f j h = h
index_args_keeps (a ∷ args) i index f j h =
    index_args_keeps args i (add_entry index a.number i) f j
      (add_entry_keeps index a.number i f j h)

index_args-Lists :
    (args : List Literal) (i : ℕ) (index : List (List ℕ))
    → All (λ a. Lists (index_args args i index) a.number i) args
unfolding index_args
index_args-Lists [] i index = tt
index_args-Lists (a ∷ args) i index = (
  index_args_keeps args i (add_entry index a.number i) a.number i (add_entry_self index a.number i),
  index_args-Lists args i (add_entry index a.number i),
)

index_nodes_keeps :
    (nodes : List Node) (i : ℕ) (index : List (List ℕ)) (f j : ℕ)
    → Lists index f j
    → Lists (index_nodes nodes i index) f j
unfolding index_nodes
index_nodes_keeps [] i index f j h = h
index_nodes_keeps (n ∷ nodes) i index f j h =
    index_nodes_keeps nodes (suc i) (index_args n.args i index) f j
      (index_args_keeps n.args i index f j h)

plus_zero : (i : ℕ) → i ≡ i + 0
plus_zero i = omega arith

plus_suc : (i p : ℕ) → suc i + p ≡ i + suc p
plus_suc i p = omega arith

-- The node at place `p` of the rest is listed, as node `i + p`, under each of its arguments.
pub index_nodes-Lists :
    (nodes : List Node) (i : ℕ) (index : List (List ℕ)) (p : ℕ) (n : Node)
    → get_elem? nodes p ≡ some n
    → All (λ a. Lists (index_nodes nodes i index) a.number (i + p)) n.args
unfolding index_nodes
index_nodes-Lists [] i index p n e = cc
index_nodes-Lists (m ∷ nodes) i index zero n e =
    let same : m ≡ n = cc in
    rw (← same) (
      All-map m.args
        (λ a h.
          subst
            (λ (j : ℕ). Lists (index_nodes nodes (suc i) (index_args m.args i index)) a.number j)
            (plus_zero i)
            (index_nodes_keeps nodes (suc i) (index_args m.args i index) a.number i h))
        (index_args-Lists m.args i index))
index_nodes-Lists (m ∷ nodes) i index (suc p) n e =
    subst
      (λ (j : ℕ).
        All (λ a. Lists (index_nodes nodes (suc i) (index_args m.args i index)) a.number j) n.args)
      (plus_suc i p) (index_nodes-Lists nodes (suc i) (index_args m.args i index) p n e)

-- An entry that holds something is there.
pub Lists-entry :
    (index : List (List ℕ)) (f k : ℕ)
    → Lists index f k
    → (ks : List ℕ) × (get_elem? index f ≡ some ks) × (has k ks ≡ true)
Lists-entry [] f k h = absurd (false≢true h)
Lists-entry (ks ∷ index) zero k h = (ks, refl, h)
Lists-entry (ks ∷ index) (suc f) k h = Lists-entry index f k h
