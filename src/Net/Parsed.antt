-- ===== src/Net/Parsed.antt =====
-- What `Net::parse_node` adds to a net, and what it keeps.
use latin_squares_diploma_it.Prelude.{
  get_elem?-set_ne, get_elem?-set_self, ℕ, zero, suc, ◌+◌, ◌-◌, ◌≡◌, ◌≢◌, ◌⊎◌, refl, sym, ap, ◌∙◌,
  arith, Bool, true, ◌||◌, List, [], ◌∷◌, ◌++◌, Option, none, some, done, leb, leb→le, length,
  length-append, length-replicate, get_elem?, replicate, All, All-append, ℤ, pos, Bool-cases, inl,
  inr,
}
use latin_squares_diploma_it.Net.Node.{Node, value_node, and_iff_node, or_iff_node, or_and_node}
use latin_squares_diploma_it.Net.Arranged.{IsBuilt}
use latin_squares_diploma_it.Net.Finalize.{Net}
use latin_squares_diploma_it.Net.Finalizes.{IsNamed, IsFlat, All-at}
use latin_squares_diploma_it.Net.Parse.{name_node, read_groups, read_node, add_node, parse_node}
use latin_squares_diploma_it.Input.Token.{Token, word, number, is_word, extract_word, read_literals}

-- What the nodes of a net that is being read have.
pub record IsParsed (net : Net) : Type 0 where
  pub named : IsNamed net
  pub flat : All IsFlat net.nodes
  pub built : All IsBuilt net.nodes

-- The four tags of a node.
abbrev pub is_kind : Token → Bool
is_kind tag =
    is_word "andIff" tag || is_word "orIff" tag || is_word "or_and" tag || is_word "value" tag

get_elem?-grown :
    {A : Type 0} (xs : List A) (n w : ℕ) (a x : A)
    → get_elem? xs w ≡ some x
    → get_elem? (xs ++ replicate n a) w ≡ some x
get_elem?-grown [] n w a x e = cc
get_elem?-grown (y ∷ xs) n zero a x e = e
get_elem?-grown (y ∷ xs) n (suc w) a x e = get_elem?-grown xs n w a x e

name_node_self :
    (index : List (Option ℕ)) (v i : ℕ) → get_elem? (name_node index v i) v ≡ some (some i)
unfolding name_node
name_node_self index v i = elim (Bool-cases (leb (length index) v)) [
  | inl short ↦ rw short (
      get_elem?-set_self (index ++ replicate (v + 1 - length index) none) v (some i) (
        omega (
          arith,
          length-append index (replicate (v + 1 - length index) none),
          length-replicate {A = Option ℕ} (v + 1 - length index) none,
          leb→le (length index) v short,
        )))
  | inr long ↦ rw long (get_elem?-set_self index v (some i) (ground arith))
]

name_node_keeps :
    (index : List (Option ℕ)) (v i w : ℕ) (x : Option ℕ)
    → v ≢ w
    → get_elem? index w ≡ some x
    → get_elem? (name_node index v i) w ≡ some x
unfolding name_node
name_node_keeps index v i w x away e = elim (Bool-cases (leb (length index) v)) [
  | inl short ↦ rw short (
      get_elem?-set_ne (index ++ replicate (v + 1 - length index) none) v w (some i) away
      ∙ get_elem?-grown index (v + 1 - length index) w none x e)
  | inr long ↦ rw long (get_elem?-set_ne index v w (some i) away ∙ e)
]

-- A place in a vector with one element more is a place of the vector, or the new one.
some_node : {x y : Node} → some x ≡ some y → x ≡ y
some_node e = cc

get_elem?-snoc :
    (nodes : List Node) (n : Node) (i : ℕ) (m : Node)
    → get_elem? (nodes ++ n ∷ []) i ≡ some m
    → (get_elem? nodes i ≡ some m) ⊎ ((i ≡ length nodes) × (n ≡ m))
get_elem?-snoc [] n zero m e = inr (refl, some_node e)
get_elem?-snoc [] n (suc i) m e = cc
get_elem?-snoc (x ∷ nodes) n zero m e = inl e
get_elem?-snoc (x ∷ nodes) n (suc i) m e = elim (get_elem?-snoc nodes n i m e) [
  | inl old ↦ inl old
  | inr (place, new) ↦ inr (ap suc place, new)
]

snoc-IsNamed :
    (net : Net) (n : Node) (v : ℕ)
    → n.variable ≡ v
    → All (λ m. m.variable ≢ v) net.nodes
    → IsNamed net
    → IsNamed (record {
      nodes = net.nodes ++ n ∷ [];
      variable_to_node = name_node net.variable_to_node v (length net.nodes);
    })
snoc-IsNamed net n v at fresh named i m e = elim (get_elem?-snoc net.nodes n i m e) [
  | inl old ↦
      name_node_keeps net.variable_to_node v (length net.nodes) m.variable (some i)
        (λ z. All-at (λ x. x.variable ≢ v) net.nodes i m fresh old (sym z)) (named i m old)
  | inr (place, new) ↦
      let variable : m.variable ≡ v = ap (λ (x : Node). x.variable) (sym new) ∙ at in
      rw (variable, place) (name_node_self net.variable_to_node v (length net.nodes))
]

-- A line with one of the four tags describes one node, as its constructor leaves it.
record Described (v : ℕ) (nodes : List Node) : Type 0 where
  node : Node
  only : nodes ≡ node ∷ []
  variable : node.variable ≡ v
  flat : IsFlat node
  built : IsBuilt node

read_node-Described :
    (tag : Token) (v : ℕ) (tokens : List Token)
    → is_kind tag ≡ true
    → Described v (read_node tag v tokens)
unfolding read_node
read_node-Described tag v tokens k = elim (Bool-cases (is_word "andIff" tag)) [
  | inl e ↦ record {
    node = and_iff_node v (read_literals tokens);
    only = rw e refl;
    variable = refl;
    flat = inl refl;
    built = refl;
  }
  | inr e ↦ elim (Bool-cases (is_word "orIff" tag)) [
    | inl e' ↦ record {
      node = or_iff_node v (read_literals tokens);
      only = rw (e, e') refl;
      variable = refl;
      flat = inl refl;
      built = refl;
    }
    | inr e' ↦ elim (Bool-cases (is_word "or_and" tag)) [
      | inl f ↦ record {
        node = or_and_node v (read_groups tokens []);
        only = rw (e, e', f) refl;
        variable = refl;
        flat = inl refl;
        built = refl;
      }
      | inr f ↦ record {
        node = value_node v (is_word "true" (extract_word tokens (word "")).0);
        only = rw (e, e', f, rw (e, e', f) at k) refl;
        variable = refl;
        flat = inr refl;
        built = refl;
      }
    ]
  ]
]

-- A line with one of the four tags, for a variable that no node of the net defines yet, adds one node
-- for that variable and leaves the others, and the map still names the node of each variable.
pub parse_node-IsParsed :
    (unset : ℤ) (net : Net) (first tag : Token) (v : ℕ) (tokens : List Token)
    → is_kind tag ≡ true
    → All (λ m. m.variable ≢ v) net.nodes
    → IsParsed net
    → (net' : Net) × (n : Node) × (parse_node unset net (first ∷ tag ∷ number (pos v) ∷ tokens)
        ≡ done net')
      × (net'.nodes ≡ net.nodes ++ n ∷ [])
      × (n.variable ≡ v)
      × IsParsed net'
unfolding parse_node add_node
parse_node-IsParsed unset net first tag v tokens k fresh parsed =
    let d = read_node-Described tag v tokens k in
    (
      record {
        nodes = net.nodes ++ d.node ∷ [];
        variable_to_node = name_node net.variable_to_node v (length net.nodes);
      },
      d.node,
      rw (d.only) refl,
      refl,
      d.variable,
      record {
        named = snoc-IsNamed net d.node v d.variable fresh parsed.named;
        flat = All-append IsFlat net.nodes (d.node ∷ []) parsed.flat (d.flat, tt);
        built = All-append IsBuilt net.nodes (d.node ∷ []) parsed.built (d.built, tt);
      },
    )
