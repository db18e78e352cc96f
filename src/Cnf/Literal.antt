-- ===== src/Cnf/Literal.antt =====
-- localsearch/cnf/Literal.h and Literal.cpp: a literal, its DIMACS number, and the values of an
-- assignment. An assignment is a vector of bytes, 0 for false, 1 for true and 2 for unknown.
use Prim.Native.Nat.{bit_xor}
use latin_squares_diploma_it.Prelude.{
  ℕ, zero, suc, ◌+◌, ◌-◌, ◌%◌, ◌<◌, ◌≡◌, refl, arith, Bool, true, false, ◌&&◌, List, ltb, leb, ◌==◌,
  ==_iff, if◌then◌else◌, get_or, ℤ, pos, neg, abs, is_positive,
}

pub record Literal : Type 0 where
  pub number : ℕ
  pub value : Bool

-- `Literal(int dimacsValue)` and `operator>>` of one literal, on the integer that was read.
unfoldable pub of_dimacs : ℤ → Literal
of_dimacs d = record { number = abs d; value = is_positive d }

-- `int32_t(literal.number)`
unfoldable pub to_int32 : ℕ → ℤ
to_int32 n = if ltb n 2147483648 then pos n else neg (pos (4294967296 - n))

-- `operator<<`: the integer that is printed.
unfoldable pub to_dimacs : Literal → ℤ
unfolding to_int32
to_dimacs l = if l.value then to_int32 l.number else neg (to_int32 l.number)

-- The comparison operators look at the number alone.
unfoldable pub less : Literal → Literal → Bool
less a b = ltb a.number b.number

unfoldable pub less_equal : Literal → Literal → Bool
less_equal a b = leb a.number b.number

unfoldable pub greater_equal : Literal → Literal → Bool
greater_equal a b = leb b.number a.number

unfoldable pub greater : Literal → Literal → Bool
greater a b = ltb b.number a.number

unfoldable pub same : Literal → Literal → Bool
same a b = a.number == b.number

-- The byte of a Boolean, `u ^ 1` on a byte, and `u ^ flag`.
abbrev pub bit : Bool → ℕ
bit true = 1
bit false = 0

abbrev pub toggle : ℕ → ℕ
toggle u = if u % 2 == 0 then u + 1 else u - 1

abbrev pub xor_flag : ℕ → Bool → ℕ
xor_flag u flag = if flag then toggle u else u

-- `toggle` is the exclusive or with 1, on every byte.
all_below : ℕ → (ℕ → Bool) → Bool
all_below zero p = true
all_below (suc n) p = p n && all_below n p

all_below_lem : (n : ℕ) (p : ℕ → Bool) (x : ℕ) → all_below n p ≡ true → x < n → p x ≡ true
unfolding all_below
all_below_lem zero p x h lt = absurd (omega arith)
all_below_lem (suc n) p x h lt = ground (arith, all_below_lem n p x)

toggle_table : all_below 256 (λ x. toggle x == bit_xor x 1) ≡ true
unfolding all_below
toggle_table = refl

pub toggle-bit_xor : (x : ℕ) → x < 256 → toggle x ≡ bit_xor x 1
toggle-bit_xor x h = (==_iff (toggle x) (bit_xor x 1)).0 (all_below_lem 256 _ x toggle_table h)

-- `units[literal.number]`, and `units[literal.number] == literal.value`.
abbrev pub unit_of : List ℕ → Literal → ℕ
unit_of units l = get_or units l.number 2

abbrev pub holds : List ℕ → Literal → Bool
holds units l = unit_of units l == bit l.value

-- A literal of a DIMACS text: its number is positive and fits an `int`.
abbrev pub IsDimacs : Literal → Type 0
IsDimacs l = (0 < l.number) × (l.number < 2147483648)

-- Reading what was printed gives the literal back.
pub of_dimacs-to_dimacs : (l : Literal) → IsDimacs l → of_dimacs (to_dimacs l) ≡ l
unfolding of_dimacs to_dimacs
of_dimacs-to_dimacs l h = ground arith

-- Printing what was read gives the integer back.
pub to_dimacs-of_dimacs : (d : ℤ) → abs d < 2147483648 → to_dimacs (of_dimacs d) ≡ d
unfolding of_dimacs to_dimacs
to_dimacs-of_dimacs d h = ground arith
