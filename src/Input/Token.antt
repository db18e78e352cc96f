-- ===== src/Input/Token.antt =====
-- A line of text as a stream reads it: the words between its blanks, where a word that is an integer
-- is a number. A stream that has failed yields nothing more, as one that has ended: its rest is empty.
use Prim.Native.String.{String}
use text.Mathlib.Text.{◌==◌}
use mathlib.Core.Bool.{Bool, false}
use latin_squares_diploma_it.Prelude.{List, [], ◌∷◌, ℤ, pos}
use latin_squares_diploma_it.Cnf.Literal.{Literal, of_dimacs}

pub data Token : Type 0 where
  word : String → Token
  number : ℤ → Token

abbrev pub is_text : String → String → Bool
is_text s t = s == t

abbrev pub is_word : String → Token → Bool
is_word s (word w) = s == w
is_word s (number d) = false

-- `in >> text` and `in >> value` on an `int`. At the end the variable keeps its old value; a word that
-- is no number makes it zero, and the stream fails.
unfoldable pub extract_word : List Token → Token → Token × List Token
extract_word [] old = (old, [])
extract_word (t ∷ tokens) old = (t, tokens)

unfoldable pub extract_int : List Token → ℤ → ℤ × List Token
extract_int [] old = (old, [])
extract_int (number d ∷ tokens) old = (d, tokens)
extract_int (word w ∷ tokens) old = (pos 0, [])

-- `while (in >> literal)`: the integers up to the first word that is none.
unfoldable pub read_ints : List Token → List ℤ
read_ints [] = []
read_ints (number d ∷ tokens) = d ∷ read_ints tokens
read_ints (word w ∷ tokens) = []

unfoldable pub read_literals : List Token → List Literal
read_literals [] = []
read_literals (number d ∷ tokens) = of_dimacs d ∷ read_literals tokens
read_literals (word w ∷ tokens) = []
