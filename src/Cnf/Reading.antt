-- ===== src/Cnf/Reading.antt =====
-- The stream operators of a clause (localsearch/cnf/Clause.cpp): the integers up to a zero are read,
-- and a printed clause ends in a zero. The stream is the list of the integers that it still holds.
use mathlib.Core.List.{append_assoc, append-nil}
use latin_squares_diploma_it.Prelude.{
  ℕ, zero, suc, ◌<◌, ◌≡◌, refl, sym, ap, ◌∙◌, arith, false, List, [], ◌∷◌, ◌++◌, map, Option, none,
  some, if◌then◌else◌, length, All, ℤ, pos, is_zero,
}
use latin_squares_diploma_it.Cnf.Literal.{
  Literal, of_dimacs, to_dimacs, IsDimacs, of_dimacs-to_dimacs,
}

-- `in >> value` on an `int`: at the end of the stream the variable keeps its old value.
unfoldable pub extract : List ℤ → ℤ → ℤ × List ℤ
extract [] old = (old, [])
extract (d ∷ stream) old = (d, stream)

-- The while loop of `operator>>`, on fuel; `none` means that the fuel ran out.
unfoldable pub read_loop : ℕ → ℤ → List ℤ → List Literal → Option (List Literal × List ℤ)
unfolding extract
read_loop zero d stream literals = none
read_loop (suc fuel) d stream literals =
    let (d', stream') = extract stream d in
    let rest = read_loop fuel d' stream' (literals ++ of_dimacs d ∷ []) in
    if is_zero d then some (literals, stream) else rest

-- `operator>>`: `d` is what the uninitialised variable holds before the first read.
unfoldable pub read_clause : ℕ → ℤ → List ℤ → Option (List Literal × List ℤ)
unfolding read_loop extract
read_clause fuel d stream = let (d', stream') = extract stream d in read_loop fuel d' stream' []

-- `operator<<`: the integers that are printed.
unfoldable pub print_clause : List Literal → List ℤ
print_clause literals = map to_dimacs literals ++ pos 0 ∷ []

-- A printed literal is no zero.
to_dimacs-ne-zero : (l : Literal) → IsDimacs l → is_zero (to_dimacs l) ≡ false
unfolding to_dimacs
to_dimacs-ne-zero l h = ground arith

read_loop-print :
    (ls acc : List Literal) (rest : List ℤ) (fuel : ℕ) (d : ℤ)
    → All IsDimacs ls
    → length ls < fuel
    → (read : ℤ × List ℤ) × (extract (print_clause ls ++ rest) d ≡ read)
      × (read_loop fuel read.0 read.1 acc ≡ some (acc ++ ls, rest))
unfolding read_loop extract print_clause
read_loop-print ls acc rest zero d h k = absurd (omega arith)
read_loop-print [] acc rest (suc fuel) d h k =
    ((pos 0, rest), refl, ap (λ (t : List Literal). some (t, rest)) (sym (append-nil acc)))
read_loop-print (l ∷ ls) acc rest (suc fuel) d h k =
    let (read, e, r) =
      read_loop-print ls (acc ++ l ∷ []) rest fuel (to_dimacs l) h.1 (omega arith) in
    (
      (to_dimacs l, print_clause ls ++ rest),
      refl,
      rw (to_dimacs-ne-zero l h.0, of_dimacs-to_dimacs l h.0, e)
          (r ∙ ap (λ (t : List Literal). some (t, rest)) (append_assoc acc (l ∷ []) ls)),
    )

pub read_clause_enough :
    (ls : List Literal) (rest : List ℤ) (d : ℤ) (fuel : ℕ)
    → All IsDimacs ls
    → length ls < fuel
    → read_clause fuel d (print_clause ls ++ rest) ≡ some (ls, rest)
unfolding read_clause
read_clause_enough ls rest d fuel h k =
    let (read, e, r) = read_loop-print ls [] rest fuel d h k in rw e r

-- Reading a printed clause gives its literals back and leaves the rest of the stream, whatever the
-- variable held before, with one round for each literal and one more.
pub read_clause-print_clause :
    (ls : List Literal) (rest : List ℤ) (d : ℤ)
    → All IsDimacs ls
    → read_clause (suc (length ls)) d (print_clause ls ++ rest) ≡ some (ls, rest)
read_clause-print_clause ls rest d h =
    read_clause_enough ls rest d (suc (length ls)) h (omega arith)

read_loop_stuck :
    (fuel : ℕ) (d : ℤ) (stream : List ℤ) (acc : List Literal)
    → is_zero d ≡ false
    → All (λ t. is_zero t ≡ false) stream
    → read_loop fuel d stream acc ≡ none
unfolding read_loop extract
read_loop_stuck zero d stream acc z h = refl
read_loop_stuck (suc fuel) d [] acc z h =
    rw z (read_loop_stuck fuel d [] (acc ++ of_dimacs d ∷ []) z tt)
read_loop_stuck (suc fuel) d (t ∷ stream) acc z h =
    rw z (read_loop_stuck fuel t stream (acc ++ of_dimacs d ∷ []) h.0 h.1)

-- On a stream that ends before a zero, the loop never ends: it runs out of every fuel.
pub read_clause_unterminated :
    (fuel : ℕ) (d t : ℤ) (stream : List ℤ)
    → All (λ x. is_zero x ≡ false) (t ∷ stream)
    → read_clause fuel d (t ∷ stream) ≡ none
unfolding read_clause
read_clause_unterminated fuel d t stream h = read_loop_stuck fuel t stream [] h.0 h.1
