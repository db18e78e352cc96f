-- ===== src/Input/Solution.antt =====
-- The other parts of main.cpp: `readFirst`, the arguments of the program, and what `main` writes.
use Prim.Native.String.{String}
use mathlib.Core.List.{append-nil}
use latin_squares_diploma_it.Prelude.{
  ℕ, zero, suc, ◌<◌, ◌≡◌, refl, sym, ap, ◌∙◌, arith, Bool, ◌||◌, ◌&&◌, List, [], ◌∷◌, ◌++◌, map,
  Option, none, some, ltb, ◌==◌, if◌then◌else◌, length, get_or, any, All, pos, neg,
}
use latin_squares_diploma_it.Cnf.Literal.{Literal, of_dimacs, bit}
use latin_squares_diploma_it.Input.Token.{Token, word, number, is_text, extract_word, read_literals}

-- `readFirst`: the values of the literals, after a 2 for the variable 0.
unfoldable pub read_first : List Token → List ℕ
unfolding extract_word read_literals
read_first tokens =
    2 ∷ map (λ (l : Literal). bit l.value) (read_literals (extract_word tokens (word "")).1)

-- The loop that writes the assignment, from index `i` on; `unknown` is the word of a variable that has
-- the value 2.
unfoldable pub print_values : (ℕ → String) → ℕ → List ℕ → List Token
print_values unknown i [] = []
print_values unknown i (u ∷ solved) =
    let rest = print_values unknown (suc i) solved in
    if u == 0
    then number (neg (pos i)) ∷ rest
    else if u == 2
    then word (unknown i) ∷ rest
    else number (pos i) ∷ rest

unfoldable pub print_solution : (ℕ → String) → List ℕ → List Token
unfolding print_values
print_solution unknown [] = word "SAT" ∷ []
print_solution unknown (u ∷ solved) = word "SAT" ∷ print_values unknown 1 solved

-- What `main` takes from its arguments.
pub record Options : Type 0 where
  pub output_file : Option String
  pub thread_count : ℕ
  pub bag_size_start : ℕ
  pub bag_size_end : ℕ
  pub log : Bool
  pub first_file : Option String

abbrev is_log : String → Bool
is_log arg = is_text arg "-l"

abbrev arguments : List String → List String
arguments [] = []
arguments (name ∷ args) = args

-- `args` with the name of the program; `atoi` is the library's, converted to an unsigned word.
unfoldable pub options : (String → ℕ) → List String → Options
options atoi args =
    let argc = length args in
    let at = λ (i : ℕ). get_or args i "" in
    record {
      output_file = if ltb 2 argc then some (at 2) else none;
      thread_count = if ltb 3 argc then atoi (at 3) else 1;
      bag_size_start = if ltb 4 argc then (if is_log (at 4) then 1 else atoi (at 4)) else 1;
      bag_size_end = if ltb 5 argc then (if is_log (at 5) then 1 else atoi (at 5)) else 1;
      log =
          (ltb 6 argc && is_log (at 6))
          || (ltb 4 argc && is_log (at 4))
          || (ltb 5 argc && is_log (at 5))
          || any is_log (arguments args);
      first_file = if ltb 6 argc then (if is_log (at 6) then none else some (at 6)) else none;
    }

-- The values are read back up to where the reading stops.
read_values-print_values :
    (unknown : ℕ → String) (i : ℕ) (us ws : List ℕ)
    → All (λ u. u < 2) us
    → ((j : ℕ) → read_literals (print_values unknown j ws) ≡ [])
    → map (λ (l : Literal). bit l.value) (read_literals (print_values unknown (suc i) (us ++ ws)))
      ≡ us
unfolding print_values read_literals of_dimacs
read_values-print_values unknown i [] ws h e = ap (map (λ (l : Literal). bit l.value)) (e (suc i))
read_values-print_values unknown i (zero ∷ us) ws h e =
    ap (◌∷◌ 0) (read_values-print_values unknown (suc i) us ws h.1 e)
read_values-print_values unknown i (suc zero ∷ us) ws h e =
    ap (◌∷◌ 1) (read_values-print_values unknown (suc i) us ws h.1 e)
read_values-print_values unknown i (suc (suc u) ∷ us) ws h e = absurd (omega arith)

-- An assignment whose variables are all known, as `main` writes it, is what `readFirst` reads: the
-- entry of variable 0 becomes 2, the others are the same.
pub read_first-print_solution :
    (unknown : ℕ → String) (u : ℕ) (us : List ℕ)
    → All (λ v. v < 2) us
    → read_first (print_solution unknown (u ∷ us)) ≡ 2 ∷ us
unfolding read_first print_solution extract_word
read_first-print_solution unknown u us h = ap (◌∷◌ 2) (
    ap
      (λ (vs : List ℕ).
        map (λ (l : Literal). bit l.value) (read_literals (print_values unknown 1 vs)))
      (sym (append-nil us))
    ∙ read_values-print_values unknown 0 us [] h (λ j. refl))

-- An assignment with an unknown variable is read back only up to that variable.
pub read_first_stops :
    (unknown : ℕ → String) (u : ℕ) (us ws : List ℕ)
    → All (λ v. v < 2) us
    → read_first (print_solution unknown (u ∷ (us ++ 2 ∷ ws))) ≡ 2 ∷ us
unfolding read_first print_solution extract_word
read_first_stops unknown u us ws h =
    ap (◌∷◌ 2) (read_values-print_values unknown 0 us (2 ∷ ws) h (λ j. refl))
