-- ===== src/Tests/Arranging.antt =====
-- The net of two lines, `c orIff 3 -1 4` and `c andIff 4 1 2`, read and finalized: the second node comes
-- first.
use latin_squares_diploma_it.Prelude.{
  ℕ, zero, suc, ◌≤◌, ◌<◌, ◌≡◌, refl, sym, ap, subst, arith, ◌++◌, List, [], ◌∷◌, none, some, done,
  ◌>>=◌, get_elem?, All, pos, negsuc, inl,
}
use latin_squares_diploma_it.Cnf.Literal.{of_dimacs}
use latin_squares_diploma_it.Net.Node.{Node}
use latin_squares_diploma_it.Net.Flips.{Finalized}
use latin_squares_diploma_it.Net.Finalize.{Net, finalize}
use latin_squares_diploma_it.Net.Depths.{Descends, IsAcyclic}
use latin_squares_diploma_it.Net.Finalizes.{IsNamed}
use latin_squares_diploma_it.Net.Complete.{IsArranged, finalize-IsArranged}
use latin_squares_diploma_it.Net.Parse.{parse_node}
use latin_squares_diploma_it.Net.Parsed.{IsParsed, parse_node-IsParsed}
use latin_squares_diploma_it.Input.Token.{Token, word, number}
use latin_squares_diploma_it.Tests.InsertionSort.{insertion_sort, insertion}
use latin_squares_diploma_it.Tests.Net.{both, top, net}

abbrev top_line : List Token
top_line = word "c" ∷ word "orIff" ∷ number (pos 3) ∷ number (negsuc 0) ∷ number (pos 4) ∷ []

abbrev both_line : List Token
both_line = word "c" ∷ word "andIff" ∷ number (pos 4) ∷ number (pos 1) ∷ number (pos 2) ∷ []

abbrev empty : Net
empty = record { nodes = []; variable_to_node = [] }

abbrev read : Net
read = record {
  nodes = record top { depth = none } ∷ record both { depth = none } ∷ [];
  variable_to_node = none ∷ none ∷ none ∷ some 0 ∷ some 1 ∷ [];
}

parse_runs : parse_node (pos 0) empty top_line >>= (λ n. parse_node (pos 0) n both_line) ≡ done read
unfolding parse_node of_dimacs
parse_runs = refl

finalize_runs : finalize insertion read ≡ done net
unfolding finalize insertion_sort
finalize_runs = refl

-- The node of variable 3 reads that of variable 4.
abbrev place : ℕ → ℕ
place zero = 1
place (suc i) = 0

node_eq : {m n : Node} → some m ≡ some n → m ≡ n
node_eq e = cc

number_eq : {i j : ℕ} → some i ≡ some j → i ≡ j
number_eq e = cc

second : (j : ℕ) → some 1 ≡ some j → (m : Node) × (get_elem? read.nodes j ≡ some m) × (place j < 1)
second j p =
    subst (λ (i : ℕ). (m : Node) × (get_elem? read.nodes i ≡ some m) × (place i < 1)) (number_eq p)
      (record both { depth = none }, refl, omega arith)

read-IsNamed : IsNamed read
read-IsNamed zero n e =
    ap (λ (m : Node). get_elem? read.variable_to_node m.variable) (sym (node_eq e))
read-IsNamed (suc zero) n e =
    ap (λ (m : Node). get_elem? read.variable_to_node m.variable) (sym (node_eq e))
read-IsNamed (suc (suc i)) n e = cc

read-IsAcyclic : IsAcyclic read.nodes read.variable_to_node place
read-IsAcyclic zero n e =
    subst (λ (m : Node). All (Descends read.nodes read.variable_to_node place 1) m.args) (node_eq e)
      ((none, refl, λ j p. cc), ((some 1, refl, λ j p. second j p), tt))
read-IsAcyclic (suc zero) n e =
    subst (λ (m : Node). All (Descends read.nodes read.variable_to_node place 0) m.args) (node_eq e)
      ((none, refl, λ j p. cc), ((none, refl, λ j p. cc), tt))
read-IsAcyclic (suc (suc i)) n e = cc

place_bounded : (j : ℕ) → j < 2 → place j ≤ 2
place_bounded zero h = omega arith
place_bounded (suc j) h = omega arith

finalize-IsArranged_example :
    (final : Finalized) × (finalize insertion read ≡ done final) × IsArranged read final
finalize-IsArranged_example =
    finalize-IsArranged insertion read place read-IsAcyclic place_bounded read-IsNamed
      (inl refl, (inl refl, tt)) (refl, (refl, tt))

abbrev half : Net
half = record {
  nodes = record top { depth = none } ∷ [];
  variable_to_node = none ∷ none ∷ none ∷ some 0 ∷ [];
}

half-IsNamed : IsNamed half
half-IsNamed zero n e =
    ap (λ (m : Node). get_elem? half.variable_to_node m.variable) (sym (node_eq e))
half-IsNamed (suc i) n e = cc

parse_node-IsParsed_example :
    (net' : Net) × (n : Node) × (parse_node (pos 0) half both_line ≡ done net')
    × (net'.nodes ≡ half.nodes ++ n ∷ [])
    × (n.variable ≡ 4)
    × IsParsed net'
parse_node-IsParsed_example =
    parse_node-IsParsed (pos 0) half (word "c") (word "andIff") 4
      (number (pos 1) ∷ number (pos 2) ∷ []) refl (omega arith, tt)
      (record { named = half-IsNamed; flat = (inl refl, tt); built = (refl, tt) })
