-- ===== src/Net/Parse.antt =====
-- `Net::parse_node` of localsearch/net/Net.cpp: one line of the net's description.
use latin_squares_diploma_it.Prelude.{
  ℕ, true, false, List, [], ◌∷◌, ◌++◌, Option, none, some, Outcome, done, fault, if◌then◌else◌,
  length, set, grow, ℤ, pos, negsuc, is_zero,
}
use latin_squares_diploma_it.Cnf.Literal.{Literal, of_dimacs}
use latin_squares_diploma_it.Net.Node.{Node, value_node, and_iff_node, or_iff_node, or_and_node}
use latin_squares_diploma_it.Net.Finalize.{Net}
use latin_squares_diploma_it.Input.Token.{
  Token, word, number, is_word, extract_word, extract_int, read_literals,
}

-- The loop of the `or_and` case: a zero ends a group, and what follows the last zero is dropped.
unfoldable pub read_groups : List Token → List Literal → List (List Literal)
read_groups [] current = []
read_groups (word w ∷ tokens) current = []
read_groups (number d ∷ tokens) current = elim (is_zero d) [
  | true ↦ current ∷ read_groups tokens []
  | false ↦ read_groups tokens (current ++ of_dimacs d ∷ [])
]

-- `variable_to_node.resize(variable + 1, UINT32_MAX)` where it is too short, and the new entry.
unfoldable pub name_node : List (Option ℕ) → ℕ → ℕ → List (Option ℕ)
name_node index variable i = set (grow index variable none) variable (some i)

-- The node that the rest of the line describes; a tag that is none of the four adds no node.
unfoldable pub read_node : Token → ℕ → List Token → List Node
unfolding read_literals read_groups extract_word value_node and_iff_node or_iff_node or_and_node
read_node tag variable tokens =
    if is_word "andIff" tag
    then and_iff_node variable (read_literals tokens) ∷ []
    else if is_word "orIff" tag
    then or_iff_node variable (read_literals tokens) ∷ []
    else if is_word "or_and" tag
    then or_and_node variable (read_groups tokens []) ∷ []
    else if is_word "value" tag
    then value_node variable (is_word "true" (extract_word tokens (word "")).0) ∷ []
    else []

-- The line after its tag and variable. A negative variable is written at out of range.
unfoldable pub add_node : Net → Token → ℤ → List Token → Outcome Net
unfolding name_node read_node
add_node net tag (negsuc n) tokens = fault
add_node net tag (pos variable) tokens = done (record {
  nodes = net.nodes ++ read_node tag variable tokens;
  variable_to_node = name_node net.variable_to_node variable (length net.nodes);
})

-- `unset` is what the uninitialised `variable` holds, where the line ends before it.
unfoldable pub parse_node : ℤ → Net → List Token → Outcome Net
unfolding extract_word extract_int add_node
parse_node unset net line =
    let (first, rest) = extract_word line (word "") in
    let (tag, rest') = extract_word rest first in
    let (variable, tokens) = extract_int rest' unset in add_node net tag variable tokens
