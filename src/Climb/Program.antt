-- ===== src/Climb/Program.antt =====
-- `main` of localsearch/main.cpp.
use Prim.Native.String.{String}
use latin_squares_diploma_it.Prelude.{
  ℕ, List, [], ◌∷◌, ◌++◌, map, Option, none, some, Outcome, done, ◌>>=◌, Sort, if◌then◌else◌,
  get_or, ℤ, pos,
}
use latin_squares_diploma_it.Cnf.Literal.{Literal, to_dimacs}
use latin_squares_diploma_it.Net.Node.{Node}
use latin_squares_diploma_it.Solver.Construct.{construct}
use latin_squares_diploma_it.Input.Token.{Token, word, number}
use latin_squares_diploma_it.Input.Dimacs.{read_dimacs}
use latin_squares_diploma_it.Input.Solution.{Options, options, read_first, print_solution}
use latin_squares_diploma_it.Climb.Round.{Config, Inputs, Log, solve}

-- The files by name: their lines for a formula, their words for an assignment; and what the libraries
-- make of texts.
pub record Outside : Type 0 where
  pub lines : String → List String
  pub words : String → List Token
  pub tokens : String → List Token
  pub atoi : String → ℕ
  pub unknown : ℕ → String
  pub unset : ℤ
  pub sorting : Sort Node
  pub fuel : ℕ
  pub draws : List ℕ
  pub config : Config
  pub rounds : List Inputs

-- The parameters of `solve`: those of the arguments, and the library's.
abbrev pub configure : Config → Options → Config
configure c o = record c { thread_count = o.thread_count; bag_size_end = o.bag_size_end }

-- The two files that a round writes, by its number; without `-l` there are none.
unfoldable pub log_files : (ℕ → String) → Options → List Log → List (ℕ × List Token × List Token)
unfolding print_solution
log_files unknown o logs =
    if o.log
    then map
        (λ (l : Log). (
          l.q,
          print_solution unknown l.propagated,
          word "c"
              ∷ word "q:"
              ∷ number (pos l.q)
              ∷ word "c"
              ∷ word "n:"
              ∷ number (pos l.n)
              ∷ word "c"
              ∷ word "bagSize:"
              ∷ number (pos l.bag_size)
              ∷ [],
        ))
        logs
    else []

-- What is written before the search: the core variables and the sizes.
unfoldable pub banner : List Literal → ℕ → ℕ → List Token
banner core_variables clauses literal_count =
    map (λ (l : Literal). number (to_dimacs l)) core_variables
    ++ word "p" ∷ word "CNF" ∷ number (pos clauses) ∷ number (pos literal_count) ∷ []

-- The output file of `main`, where it is named; `none` also after the end by a second signal.
unfoldable pub main : Outside → List String → Outcome (Option (List Token))
unfolding options read_dimacs read_first construct solve print_solution
main w args = read_dimacs w.tokens w.unset w.sorting w.fuel (w.lines (get_or args 1 "")) >>= λ cnf.
    let o = options w.atoi args in
    let first : List ℕ = elim o.first_file [ none ↦ [] | some file ↦ read_first (w.words file) ] in
    construct w.fuel cnf first w.draws >>= λ q.
    solve (configure w.config o) o.bag_size_start w.rounds q >>= λ r. elim r [
      | none ↦ done none
      | some solved ↦ elim o.output_file [
        | none ↦ done none
        | some file ↦ done (some (print_solution w.unknown solved.0))
      ]
    ]
