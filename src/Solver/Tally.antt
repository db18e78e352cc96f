-- ===== src/Solver/Tally.antt =====
-- Sums over flags, and bytes that are toggled one after the other.
use latin_squares_diploma_it.Prelude.{
  ℕ, zero, suc, ◌+◌, ◌*◌, ◌<◌, ◌≡◌, refl, ap, ◌∙◌, arith, List, [], ◌∷◌, ◌++◌, length, length-set,
  get_or, set,
}
use latin_squares_diploma_it.Utils.Word.{add32}
use latin_squares_diploma_it.Cnf.Literal.{toggle}
use latin_squares_diploma_it.Solver.Apply.{toggle_all, add_deltas}

-- The sum of the weights of the flagged clauses, and the number of the flagged clauses.
unfoldable pub weigh : List ℕ → List ℕ → ℕ
weigh [] flags = 0
weigh (w ∷ weights) [] = 0
weigh (w ∷ weights) (f ∷ flags) = w * f + weigh weights flags

unfoldable pub total : List ℕ → ℕ
total [] = 0
total (f ∷ flags) = f + total flags

pub weigh-set :
    (ws fs : List ℕ) (i v : ℕ)
    → i < length fs
    → weigh ws (set fs i v) + get_or ws i 0 * get_or fs i 2 ≡ weigh ws fs + get_or ws i 0 * v
unfolding weigh
weigh-set ws [] i v h = absurd (omega arith)
weigh-set [] (f ∷ fs) i v h = omega arith
weigh-set (w ∷ ws) (f ∷ fs) zero v h = omega arith
weigh-set (w ∷ ws) (f ∷ fs) (suc i) v h = omega (arith, weigh-set ws fs i v (omega arith))

pub total-set :
    (fs : List ℕ) (i v : ℕ) → i < length fs → total (set fs i v) + get_or fs i 2 ≡ total fs + v
unfolding total
total-set [] i v h = absurd (omega arith)
total-set (f ∷ fs) zero v h = omega arith
total-set (f ∷ fs) (suc i) v h = omega (arith, total-set fs i v (omega arith))

pub length-toggle_all : (bytes indices : List ℕ) → length (toggle_all bytes indices) ≡ length bytes
unfolding toggle_all
length-toggle_all bytes [] = refl
length-toggle_all bytes (i ∷ indices) =
    length-toggle_all (set bytes i (toggle (get_or bytes i 2))) indices
    ∙ length-set bytes i (toggle (get_or bytes i 2))

pub toggle_all-append :
    (bytes indices : List ℕ) (i : ℕ)
    → toggle_all bytes (indices ++ i ∷ [])
      ≡ set (toggle_all bytes indices) i (toggle (get_or (toggle_all bytes indices) i 2))
unfolding toggle_all
toggle_all-append bytes [] i = refl
toggle_all-append bytes (j ∷ indices) i =
    toggle_all-append (set bytes j (toggle (get_or bytes j 2))) indices i

pub get_or-add_deltas :
    (counts deltas : List ℕ) (i : ℕ)
    → length counts ≡ length deltas
    → i < length counts
    → get_or (add_deltas counts deltas) i 0 ≡ add32 (get_or counts i 0) (get_or deltas i 0)
unfolding add_deltas
get_or-add_deltas [] deltas i e h = absurd (omega arith)
get_or-add_deltas (c ∷ counts) [] i e h = absurd (omega arith)
get_or-add_deltas (c ∷ counts) (d ∷ deltas) zero e h = refl
get_or-add_deltas (c ∷ counts) (d ∷ deltas) (suc i) e h =
    get_or-add_deltas counts deltas i (omega arith) (omega arith)

pub length-add_deltas : (counts deltas : List ℕ) → length (add_deltas counts deltas) ≡ length counts
unfolding add_deltas
length-add_deltas [] deltas = refl
length-add_deltas (c ∷ counts) [] = refl
length-add_deltas (c ∷ counts) (d ∷ deltas) = ap suc (length-add_deltas counts deltas)
