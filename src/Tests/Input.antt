-- ===== src/Tests/Input.antt =====
-- A formula of two clauses over the net 4 = 1 ∧ 2 as text, what is read of it, and an assignment that is
-- written and read again.
use Prim.Native.String.{String}
use latin_squares_diploma_it.Prelude.{
  ℕ, ◌≡◌, refl, arith, true, false, List, [], ◌∷◌, ◌++◌, some, done, stuck, ◌>>=◌, if◌then◌else◌,
  pos, negsuc,
}
use mathlib.Core.List.{flatten}
use latin_squares_diploma_it.Cnf.Literal.{Literal, of_dimacs}
use latin_squares_diploma_it.Net.Parse.{parse_node}
use latin_squares_diploma_it.Net.Finalize.{finalize}
use latin_squares_diploma_it.Solver.Formula.{Cnf}
use latin_squares_diploma_it.Input.Token.{Token, word, number, is_text}
use latin_squares_diploma_it.Input.Sections.{no_sections, read_lines}
use latin_squares_diploma_it.Input.Lines.{read_each, read_lines-read_each, read_lines_loops}
use latin_squares_diploma_it.Input.Dimacs.{read_dimacs}
use latin_squares_diploma_it.Input.Solution.{
  options, read_first, print_solution, read_first-print_solution,
}
use latin_squares_diploma_it.Tests.InsertionSort.{insertion_sort, insertion}
use latin_squares_diploma_it.Tests.Net.{lit, both}

-- The words of the lines below.
abbrev scan : String → List Token
scan line =
    if is_text line "c 1 2"
    then word "c" ∷ number (pos 1) ∷ number (pos 2) ∷ []
    else if is_text line "c andIff 4 1 2"
    then word "c" ∷ word "andIff" ∷ number (pos 4) ∷ number (pos 1) ∷ number (pos 2) ∷ []
    else if is_text line "c newVar 0 1 2"
    then word "c" ∷ word "newVar" ∷ number (pos 0) ∷ number (pos 1) ∷ number (pos 2) ∷ []
    else if is_text line "c 3 1 -2"
    then word "c" ∷ number (pos 3) ∷ number (pos 1) ∷ number (negsuc 1) ∷ []
    else if is_text line "c 5 7"
    then word "c" ∷ number (pos 5) ∷ number (pos 7) ∷ []
    else if is_text line " 4 2"
    then number (pos 4) ∷ number (pos 2) ∷ []
    else if is_text line "1 4 0"
    then number (pos 1) ∷ number (pos 4) ∷ number (pos 0) ∷ []
    else if is_text line "-1 0"
    then number (negsuc 0) ∷ number (pos 0) ∷ []
    else []

abbrev comments : List String
comments =
    "c core variables:" ∷ "c 1 2" ∷ "c computationalNet:" ∷ "c andIff 4 1 2" ∷ "c metaVariables:"
    ∷ "c newVar 0 1 2" ∷ "c 3 1 -2" ∷ "c weights:" ∷ "c 5 7" ∷ []

abbrev formula : Cnf
formula = record {
  clauses =
      record { literals = lit 1 true ∷ lit 4 true ∷ []; satisfied = [] }
      ∷ record { literals = lit 1 false ∷ []; satisfied = [] }
      ∷ [];
  literal_count = 4;
  meta_vars =
      record {
        matrix_index = 0;
        row_index = 1;
        column_index = 2;
        variables = (lit 1 true ∷ lit 2 false ∷ []) ∷ [];
        values = 3 ∷ [];
      }
      ∷ [];
  core_variables = lit 1 true ∷ lit 2 true ∷ [];
  net = record { finalized = both ∷ []; literal_to_nodes = [] ∷ (0 ∷ []) ∷ (0 ∷ []) ∷ [] };
  weights = 5 ∷ 7 ∷ [];
  to_compute = [];
}

read_runs :
    read_dimacs scan (pos 0) insertion 20 (comments ++ "p cnf 4 2" ∷ "1 4 0" ∷ "-1 0" ∷ [])
    ≡ done formula
unfolding read_dimacs parse_node of_dimacs finalize insertion_sort flatten
read_runs = refl

options_run :
    options
      (λ s. if is_text s "2" then 2 else 8)
      ("solver" ∷ "in.cnf" ∷ "out" ∷ "8" ∷ "2" ∷ "-l" ∷ "first" ∷ [])
    ≡ record {
      output_file = some "out";
      thread_count = 8;
      bag_size_start = 2;
      bag_size_end = 1;
      log = true;
      first_file = some "first";
    }
unfolding options
options_run = refl

read_lines-read_each_example :
    read_lines scan (pos 0) 20 no_sections "c" (comments ++ "p cnf 4 2" ∷ "1 4 0" ∷ []) ≡ (
      read_each scan (pos 0) no_sections (comments ++ "p cnf 4 2" ∷ []) >>= λ s.
      done (s, "p cnf 4 2", "1 4 0" ∷ []))
read_lines-read_each_example =
    read_lines-read_each scan (pos 0) comments "p cnf 4 2" ("1 4 0" ∷ []) no_sections "c" 20 refl
      (refl, (refl, (refl, (refl, (refl, (refl, (refl, (refl, (refl, tt))))))))) refl (omega arith)

-- The line `c 1 2` is read four times.
read_lines_loops_example :
    read_lines scan (pos 0) 5 no_sections "c" ("c core variables:" ∷ "c 1 2" ∷ []) ≡ (
      read_each scan
        (pos 0)
        no_sections
        ("c core variables:" ∷ "c 1 2" ∷ "c 1 2" ∷ "c 1 2" ∷ "c 1 2" ∷ [])
      >>= λ s. stuck)
read_lines_loops_example =
    read_lines_loops scan (pos 0) 3 no_sections "c" ("c core variables:" ∷ "c 1 2" ∷ []) refl
      (refl, (refl, tt))

-- Nothing fails, so that the rounds run out.
ends_stuck : read_lines scan (pos 0) 5 no_sections "c" ("c core variables:" ∷ "c 1 2" ∷ []) ≡ stuck
unfolding read_lines
ends_stuck = refl

abbrev literals : List (List Literal)
literals = (lit 1 true ∷ lit 4 true ∷ []) ∷ (lit 1 false ∷ []) ∷ []

abbrev mark : ℕ → String
mark i = "?"

read_first-print_solution_example :
    read_first (print_solution mark (2 ∷ 1 ∷ 0 ∷ 1 ∷ [])) ≡ 2 ∷ 1 ∷ 0 ∷ 1 ∷ []
read_first-print_solution_example =
    read_first-print_solution mark 2 (1 ∷ 0 ∷ 1 ∷ [])
      (omega arith, (omega arith, (omega arith, tt)))
