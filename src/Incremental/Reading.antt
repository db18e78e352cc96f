-- ===== src/Incremental/Reading.antt =====
-- `parseClauses` and `parseLiterals` of incremental/incremental.cpp. A file is the texts between its line
-- ends; after the last one `getline` leaves the line as it was.
use Prim.Native.String.{String, len, slice}
use text.Mathlib.Text.{starts_with}
use mathlib.Core.List.{flatten}
use latin_squares_diploma_it.Prelude.{
  ℕ, zero, suc, ◌-◌, Bool, true, false, not, List, [], ◌∷◌, ◌++◌, map, any, none, some, Outcome,
  done, fault, stuck, ◌>>=◌, ltb, ◌==◌, if◌then◌else◌, ℤ, pos, abs, is_positive,
}
use latin_squares_diploma_it.Utils.Word.{u32_mod}
use latin_squares_diploma_it.Cnf.Literal.{Literal}
use latin_squares_diploma_it.Cnf.Reading.{read_clause}
use latin_squares_diploma_it.Input.Token.{
  Token, word, is_text, extract_word, extract_int, read_ints,
}
use latin_squares_diploma_it.Input.Dimacs.{integers, count_of}

-- `Lit(var, is_inverted)`, and the one of an integer; a zero would have the variable -1.
pub record Lit : Type 0 where
  pub var : ℕ
  pub inverted : Bool

abbrev pub less_one : ℕ → ℕ
less_one n = if n == 0 then u32_mod - 1 else n - 1

abbrev pub lit_of : ℤ → Lit
lit_of d = record { var = less_one (abs d); inverted = not (is_positive d) }

-- The same for a literal that the loop of `operator>>` of a clause reads, which is the loop here too.
abbrev pub lit_of_literal : Literal → Lit
lit_of_literal l = record { var = less_one l.number; inverted = not l.value }

-- `getline`: the next line and the rest.
abbrev pub next_line : String → List String → String × List String
next_line line [] = (line, [])
next_line line (l ∷ lines) = (l, lines)

-- The loop over the comments, on fuel.
unfoldable pub skip_comments : ℕ → String → List String → Outcome (String × List String)
skip_comments zero line lines = stuck
skip_comments (suc fuel) line lines = elim (starts_with line "c") [
  | false ↦ done (line, lines)
  | true ↦ skip_comments fuel (next_line line lines).0 (next_line line lines).1
]

-- The loop over the clauses.
unfoldable pub read_lits : ℕ → ℤ → ℕ → List ℤ → Outcome (List (List Lit))
unfolding read_clause
read_lits fuel unset zero stream = done []
read_lits fuel unset (suc n) stream = elim (read_clause fuel unset stream) [
  | none ↦ stuck
  | some (literals, stream') ↦
      read_lits fuel unset n stream' >>= λ clauses. done (map lit_of_literal literals ∷ clauses)
]

-- What an istringstream makes of a text, and what an uninitialised integer holds.
module _ (tokens : String → List Token) (unset : ℤ) where
  -- The clauses, and the `literalCount` that is left in the global variable, zero before.
  unfoldable pub parse_clauses : ℕ → List String → Outcome (ℤ × List (List Lit))
  unfolding skip_comments read_lits integers count_of extract_word extract_int
  parse_clauses fuel lines = skip_comments fuel "c" lines >>= λ r.
      let rest = (extract_word (extract_word (tokens r.0) (word "")).1 (word "")).1 in
      let (literal_count, rest') = extract_int rest (pos 0) in
      count_of (extract_int rest' unset).0 >>= λ n.
      read_lits fuel unset n (integers (flatten (map tokens r.1))) >>= λ clauses.
      done (literal_count, clauses)

  -- `isdigit(line[2]) || line[2] == '-'`, which is out of range in a text of less than two characters.
  unfoldable pub is_expr : String → Outcome Bool
  is_expr line =
      if ltb (len line) 2
      then fault
      else done (
          any (is_text (slice line 2 3))
            ("0" ∷ "1" ∷ "2" ∷ "3" ∷ "4" ∷ "5" ∷ "6" ∷ "7" ∷ "8" ∷ "9" ∷ "-" ∷ []))

  -- The loop over the clauses of one group, on fuel.
  unfoldable pub read_group :
      ℕ → String → List String → List (List Lit) → Outcome (List (List Lit) × String × List String)
  unfolding is_expr extract_word read_ints
  read_group zero line lines group = stuck
  read_group (suc fuel) line lines group = is_expr line >>= λ more. elim more [
    | false ↦ done (group, line, lines)
    | true ↦
        read_group fuel (next_line line lines).0 (next_line line lines).1
          (group ++ map lit_of (read_ints (extract_word (tokens line) (word "")).1) ∷ [])
  ]

  -- The loop of `parseLiterals`, on fuel; `flag` is set from the heading on.
  unfoldable pub read_groups :
      ℕ → Bool → String → List String → List (List (List Lit)) → Outcome (List (List (List Lit)))
  unfolding read_group
  read_groups zero flag line lines groups = stuck
  read_groups (suc fuel) flag line lines groups = elim (starts_with line "c") [
    | false ↦ done groups
    | true ↦ elim flag [
      | true ↦ elim (is_text line "c expr:") [
        | false ↦ done groups
        | true ↦ read_group fuel (next_line line lines).0 (next_line line lines).1 [] >>= λ r.
            read_groups fuel true r.1 r.2 (groups ++ r.0 ∷ [])
      ]
      | false ↦
          read_groups fuel (is_text line "c incrementalExprs:") (next_line line lines).0
            (next_line line lines).1 groups
    ]
  ]

  unfoldable pub parse_literals : ℕ → List String → Outcome (List (List (List Lit)))
  unfolding read_groups
  parse_literals fuel lines = read_groups fuel false "c" lines []
