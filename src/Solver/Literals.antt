-- ===== src/Solver/Literals.antt =====
-- How the number of true literals of a clause changes with one variable.
use latin_squares_diploma_it.Prelude.{
  ℕ, ◌+◌, ◌≡◌, ◌<◌, ◌≤◌, refl, ap, ◌∙◌, arith, Bool, true, false, ◌&&◌, List, [], ◌∷◌, ◌==◌, ==_iff,
  if◌then◌else◌, length, get_or, set, get_or-set_self, get_or-set_ne, count, Bool-cases, inl, inr,
}
use latin_squares_diploma_it.Cnf.Literal.{Literal, bit, unit_of, holds}
use latin_squares_diploma_it.Solver.Apply.{opposite}

-- The literal of the variable `i` with the value `b`.
abbrev pub is_literal : ℕ → Bool → Literal → Bool
is_literal i b l = l.number == i && bit l.value == bit b

abbrev one_if : Bool → ℕ
one_if b = if b then 1 else 0

byte_step :
    (new value : Bool)
    → one_if (bit new == bit value) + one_if (bit value == bit (opposite new))
      ≡ one_if (bit (opposite new) == bit value) + one_if (bit value == bit new)
byte_step true true = refl
byte_step true false = refl
byte_step false true = refl
byte_step false false = refl

literal_step :
    (units : List ℕ) (i : ℕ) (new : Bool) (l : Literal)
    → i < length units
    → get_or units i 2 ≡ bit (opposite new)
    → one_if (holds (set units i (bit new)) l) + one_if (is_literal i (opposite new) l)
      ≡ one_if (holds units l) + one_if (is_literal i new l)
literal_step units i new l h e = elim (Bool-cases (l.number == i)) [
  | inl here ↦
      let at : l.number ≡ i = (==_iff l.number i).0 here in
      let after : unit_of (set units i (bit new)) l ≡ bit new =
        ap (λ (n : ℕ). get_or (set units i (bit new)) n 2) at
        ∙ get_or-set_self units i (bit new) 2 h in
      let before : unit_of units l ≡ bit (opposite new) = ap (λ (n : ℕ). get_or units n 2) at ∙ e in
      rw (after, before, here) (byte_step new l.value)
  | inr there ↦
      let away : unit_of (set units i (bit new)) l ≡ unit_of units l =
        get_or-set_ne units i l.number (bit new) 2 (λ p. ground arith) in
      rw (away, there) refl
]

-- Setting a variable to the other value exchanges its literals among the true ones.
pub count-set :
    (units : List ℕ) (i : ℕ) (new : Bool) (ls : List Literal)
    → i < length units
    → get_or units i 2 ≡ bit (opposite new)
    → count (holds (set units i (bit new))) ls + count (is_literal i (opposite new)) ls
      ≡ count (holds units) ls + count (is_literal i new) ls
count-set units i new [] h e = refl
count-set units i new (l ∷ ls) h e =
    omega (arith, literal_step units i new l h e, count-set units i new ls h e)

pub count-literal-le :
    (units : List ℕ) (i : ℕ) (b : Bool) (ls : List Literal)
    → get_or units i 2 ≡ bit b
    → count (is_literal i b) ls ≤ count (holds units) ls
count-literal-le units i b [] e = omega arith
count-literal-le units i b (l ∷ ls) e = ground (arith, count-literal-le units i b ls)

pub count-le-length {ℓ} : {A : Type ℓ} (p : A → Bool) (xs : List A) → count p xs ≤ length xs
count-le-length p [] = omega arith
count-le-length p (x ∷ xs) = ground (arith, count-le-length p xs)
