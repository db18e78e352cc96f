-- ===== src/Input/Sections.antt =====
-- The lines of `readDimacs` before the clauses: a state machine over the comments.
use Prim.Native.String.{String}
use text.Mathlib.Text.{starts_with}
use latin_squares_diploma_it.Prelude.{
  ℕ, zero, suc, ◌-◌, ◌%◌, true, false, List, [], ◌∷◌, ◌++◌, map, Outcome, done, fault, stuck, ◌>>=◌,
  if◌then◌else◌, ℤ, pos, negsuc,
}
use latin_squares_diploma_it.Utils.Word.{u32_mod}
use latin_squares_diploma_it.Cnf.Literal.{Literal, of_dimacs}
use latin_squares_diploma_it.Net.Finalize.{Net}
use latin_squares_diploma_it.Net.Parse.{parse_node}
use latin_squares_diploma_it.Solver.Bags.{MetaVariable}
use latin_squares_diploma_it.Input.Token.{
  Token, word, is_text, extract_word, extract_int, read_ints, read_literals,
}

-- An integer as an unsigned word of 8 or 32 bits.
abbrev pub byte_of : ℤ → ℕ
byte_of (pos n) = n % 256
byte_of (negsuc n) = 255 - n % 256

abbrev pub word_of : ℤ → ℕ
word_of (pos n) = n % u32_mod
word_of (negsuc n) = u32_mod - 1 - n % u32_mod

pub data Parameter : Type 0 where
  core_variables net meta_variables weights to_compute nothing : Parameter

pub record Sections : Type 0 where
  pub parameter : Parameter
  pub variables : List Literal
  pub cells : List MetaVariable
  pub weighing : List ℕ
  pub computing : List ℕ
  pub nodes : Net

abbrev pub no_sections : Sections
no_sections = record {
  parameter = nothing;
  variables = [];
  cells = [];
  weighing = [];
  computing = [];
  nodes = record { nodes = []; variable_to_node = [] };
}

-- The six headings, each of which begins a section.
unfoldable pub heading : String → List Parameter
heading line =
    if is_text line "c core variables:"
    then core_variables ∷ []
    else if is_text line "c computationalNet:"
    then net ∷ []
    else if is_text line "c metaVariables:"
    then meta_variables ∷ []
    else if is_text line "c incrementalVariables:"
    then nothing ∷ []
    else if is_text line "c weights:"
    then weights ∷ []
    else if is_text line "c toCompute:"
    then to_compute ∷ []
    else []

-- `s >> temp >> temp; s >> m >> r >> c;` and the meta-variable without values; its indices are bytes.
-- `unset` is what an uninitialised integer holds.
unfoldable pub new_cell : ℤ → List Token → MetaVariable
unfolding extract_word extract_int
new_cell unset tokens =
    let rest = (extract_word (extract_word tokens (word "")).1 (word "")).1 in
    let (m, rest') = extract_int rest unset in
    let (r, rest'') = extract_int rest' unset in
    record {
      matrix_index = byte_of m;
      row_index = byte_of r;
      column_index = byte_of (extract_int rest'' unset).0;
      variables = [];
      values = [];
    }

-- One more value of the last meta-variable; without one `back()` is out of range.
unfoldable pub add_choice : ℤ → List Token → List MetaVariable → Outcome (List MetaVariable)
unfolding extract_word extract_int read_literals
add_choice unset tokens [] = fault
add_choice unset tokens (v ∷ []) =
    let (value, rest) = extract_int (extract_word tokens (word "")).1 unset in
    done (
      record v {
        variables = v.variables ++ read_literals rest ∷ [];
        values = v.values ++ byte_of value ∷ [];
      }
      ∷ [])
add_choice unset tokens (v ∷ w ∷ cells) =
    add_choice unset tokens (w ∷ cells) >>= λ cells'. done (v ∷ cells')

-- The integers after the first word of a line.
unfoldable pub line_ints : List Token → List ℤ
unfolding extract_word read_ints
line_ints tokens = read_ints (extract_word tokens (word "")).1

-- What an istringstream makes of a text, and what uninitialised integers hold.
module _ (tokens : String → List Token) (unset : ℤ) where
  -- The switch over the section that the line stands in.
  unfoldable pub read_section : Sections → String → Outcome Sections
  unfolding new_cell add_choice line_ints parse_node
  read_section s line = elim s.parameter [
    | core_variables ↦ done (record s {
      variables = s.variables ++ map of_dimacs (line_ints (tokens line));
      parameter = nothing;
    })
    | net ↦ parse_node unset s.nodes (tokens line) >>= λ n. done (record s { nodes = n })
    | meta_variables ↦
        if starts_with line "c newVar"
        then done (record s { cells = s.cells ++ new_cell unset (tokens line) ∷ [] })
        else add_choice unset (tokens line) s.cells >>= λ cells. done (record s { cells = cells })
    | weights ↦ done (record s {
      weighing = s.weighing ++ map word_of (line_ints (tokens line));
      parameter = nothing;
    })
    | to_compute ↦ done (record s {
      computing = s.computing ++ map word_of (line_ints (tokens line));
      parameter = nothing;
    })
    | nothing ↦ done s
  ]

  unfoldable pub read_line : Sections → String → Outcome Sections
  unfolding heading read_section
  read_line s line = elim (heading line) [
    | [] ↦ read_section s line
    | p ∷ rest ↦ done (record s { parameter = p })
  ]

  -- The while loop, on fuel. The lines are the texts between the line ends, so that a file that ends with
  -- one has an empty last line. Past the last line `getline` fails and leaves the line as it was.
  unfoldable pub read_lines :
      ℕ → Sections → String → List String → Outcome (Sections × String × List String)
  unfolding read_line
  read_lines zero s line lines = stuck
  read_lines (suc fuel) s line lines = elim (starts_with line "c") [
    | false ↦ done (s, line, lines)
    | true ↦ elim lines [
      | [] ↦ read_line s line >>= λ s'. read_lines fuel s' line []
      | next ∷ rest ↦ read_line s next >>= λ s'. read_lines fuel s' next rest
    ]
  ]
