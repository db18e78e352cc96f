-- ===== src/Incremental/Program.antt =====
-- `main` of incremental/incremental.cpp as a whole: its arguments, the two parsers, and the names of the
-- files that are written.
use Prim.Native.String.{String, ◌++◌}
use latin_squares_diploma_it.Prelude.{
  ℕ, List, [], ◌∷◌, map, Option, none, some, Outcome, done, ◌>>=◌, ℤ,
}
use latin_squares_diploma_it.Input.Token.{Token}
use latin_squares_diploma_it.Incremental.Reading.{parse_clauses, parse_literals}
use latin_squares_diploma_it.Incremental.Rounds.{SatSolver, run}

pub record Arguments : Type 0 where
  pub input_file : String
  pub output_file : String
  pub thread_count : ℕ

-- `argv` with the name of the program; with other numbers of arguments there is only a message.
unfoldable pub read_arguments : (String → ℕ) → List String → Option Arguments
read_arguments atoi (name ∷ input ∷ output ∷ []) =
    some (record { input_file = input; output_file = output; thread_count = 4 })
read_arguments atoi (name ∷ input ∷ output ∷ threads ∷ []) =
    some (record { input_file = input; output_file = output; thread_count = atoi threads })
read_arguments atoi args = none

-- `decimal` is what an ostringstream makes of an integer.
unfoldable pub build_string : (ℕ → String) → String → String → ℕ → String
build_string decimal prefix main index = (prefix ++ main) ++ decimal index

-- What the program takes from outside: the lines of a file, the libraries on texts, fuel for the
-- parsers, and the solver with a number of threads.
pub record Libraries (S : Type 0) : Type 0 where
  pub lines : String → List String
  pub tokens : String → List Token
  pub atoi : String → ℕ
  pub decimal : ℕ → String
  pub unset : ℤ
  pub fuel : ℕ
  pub with_threads : ℕ → SatSolver S

-- The files that are written, by their names.
unfoldable pub run_program :
    {S : Type 0} → Libraries S → List String → Outcome (List (String × List ℤ))
unfolding read_arguments build_string parse_clauses parse_literals run
run_program w args = elim (read_arguments w.atoi args) [
  | none ↦ done []
  | some a ↦ parse_clauses w.tokens w.unset w.fuel (w.lines a.input_file) >>= λ main_clauses.
      parse_literals w.tokens w.unset w.fuel (w.lines a.input_file) >>= λ groups. done (
        map (λ (f : ℕ × List ℤ). (build_string w.decimal a.output_file "_" f.0, f.1))
          (run (w.with_threads a.thread_count) main_clauses.0 main_clauses.1 groups))
]
