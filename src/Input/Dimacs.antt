-- ===== src/Input/Dimacs.antt =====
-- `readDimacs`: the sections, then the clauses, then the formula.
use Prim.Native.String.{String, len, slice}
use mathlib.Core.List.{flatten, append_assoc}
use latin_squares_diploma_it.Prelude.{
  ℕ, zero, suc, ◌<◌, ◌≡◌, refl, All, List, [], ◌∷◌, ◌++◌, map, none, some, Outcome, done, fault,
  stuck, ◌>>=◌, length, Sort, ℤ, pos, negsuc,
}
use latin_squares_diploma_it.Cnf.Literal.{Literal, IsDimacs}
use latin_squares_diploma_it.Cnf.Clause.{Clause}
use latin_squares_diploma_it.Cnf.Reading.{read_clause, print_clause, read_clause_enough}
use latin_squares_diploma_it.Net.Node.{Node}
use latin_squares_diploma_it.Solver.Formula.{Cnf, make_cnf}
use latin_squares_diploma_it.Input.Token.{Token, word, number, extract_int}
use latin_squares_diploma_it.Input.Sections.{no_sections, read_lines, word_of}

-- What extractions of `int` take from the words: a word that is no number makes zero, and the stream
-- fails.
unfoldable pub integers : List Token → List ℤ
integers [] = []
integers (number d ∷ tokens) = d ∷ integers tokens
integers (word w ∷ tokens) = pos 0 ∷ []

-- The loop over the clauses; `fuel` bounds the length of a clause.
unfoldable pub read_clauses : ℕ → ℤ → ℕ → List ℤ → Outcome (List Clause)
unfolding read_clause
read_clauses fuel unset zero stream = done []
read_clauses fuel unset (suc n) stream = elim (read_clause fuel unset stream) [
  | none ↦ stuck
  | some (literals, stream') ↦ read_clauses fuel unset n stream' >>= λ clauses.
      done (record { literals = literals; satisfied = [] } ∷ clauses)
]

-- The printed clauses of a formula are read back, where the fuel is above the length of each.
pub read_clauses-print_clause :
    (fuel : ℕ) (unset : ℤ) (clauses : List (List Literal)) (rest : List ℤ)
    → All (λ ls. All IsDimacs ls × (length ls < fuel)) clauses
    → read_clauses fuel unset (length clauses) (flatten (map print_clause clauses) ++ rest)
      ≡ done (map (λ ls. record { literals = ls; satisfied = [] }) clauses)
unfolding read_clauses flatten
read_clauses-print_clause fuel unset [] rest h = refl
read_clauses-print_clause fuel unset (ls ∷ clauses) rest h =
    rw
      (
        append_assoc (print_clause ls) (flatten (map print_clause clauses)) rest,
        read_clause_enough ls (flatten (map print_clause clauses) ++ rest) unset fuel h.0.0 h.0.1,
        read_clauses,
        read_clauses-print_clause fuel unset clauses rest h.1,
      )
      refl

-- `vector<Clause> clauses(clausesNumber)` throws on a negative number.
unfoldable pub count_of : ℤ → Outcome ℕ
count_of (pos n) = done n
count_of (negsuc n) = fault

-- A file is the texts between its line ends.
unfoldable pub read_dimacs : (String → List Token) → ℤ → Sort Node → ℕ → List String → Outcome Cnf
unfolding read_lines read_clauses integers extract_int count_of make_cnf
read_dimacs tokens unset sorting fuel lines =
    read_lines tokens unset fuel no_sections "c" lines >>= λ r.
    let (literal_count, rest) = extract_int (tokens (slice r.1 5 (len r.1))) unset in
    count_of (extract_int rest unset).0 >>= λ n.
    read_clauses fuel unset n (integers (flatten (map tokens r.2))) >>= λ clauses.
    make_cnf sorting clauses (word_of literal_count) r.0.variables r.0.cells r.0.nodes r.0.weighing
      r.0.computing
