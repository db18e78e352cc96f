-- ===== src/Prelude/Permute.antt =====
-- What a permutation keeps: tests that all elements meet, and that no two elements are equal.
use mathlib.Core.Logic.Or
use mathlib.Core.List.{
  Mem, Perm, Nodup, Nodup-nil, not-mem-nil, mem-cons, mem-cons_self, Nodup-cons,
}
use mathlib.Core.List.Perm
use mathlib.Core.List
use mathlib.Core.Path.{◌≡◌, refl, sym, ap, ◌∙◌, subst}
use native.Mathlib.Bridge.{from_ℕ}
use mathlib.Core.HLevel.{⊥_prop}
use mathlib.Core.Logic.{◌≢◌}
use mathlib.Core.List.{List, [], ◌∷◌}
use Prim.Native.Nat.{ℕ, suc}
use latin_squares_diploma_it.Prelude.Lists.{length, All}

module _ {ℓ} {A : Type ℓ} where
  pub All-of_mem {κ} : {P : A → Type κ} (xs : List A) → ((x : A) → Mem x xs → P x) → All P xs
  All-of_mem [] f = tt
  All-of_mem (x ∷ xs) f = (f x mem-cons_self, All-of_mem xs (λ y m. f y (mem-cons.1 (Or.inr m))))

  mem-All {κ} :
      {P : A → Type κ} (xs : List A) (x : A) → ((y : A) → IsProp (P y)) → All P xs → Mem x xs → P x
  mem-All [] x prop h m = absurd (not-mem-nil m)
  mem-All {P} (y ∷ xs) x prop h m =
      Or.elim (prop x) (mem-cons.0 m) (λ e. subst P (sym e) h.0) (λ m'. mem-All xs x prop h.1 m')

  -- A property of all elements, where it is a proposition.
  pub All-perm {κ} :
      {P : A → Type κ} (xs ys : List A)
      → ((y : A) → IsProp (P y))
      → Perm ys xs
      → All P xs
      → All P ys
  All-perm xs ys prop e h = All-of_mem ys (λ y m. mem-All xs y prop h ((Perm.mem_iff e).0 m))

  length-from_ℕ : (xs : List A) → length xs ≡ from_ℕ (List.length xs)
  length-from_ℕ [] = refl
  length-from_ℕ (x ∷ xs) = ap suc (length-from_ℕ xs)

  pub length-perm : (xs ys : List A) → Perm ys xs → length ys ≡ length xs
  length-perm xs ys e = length-from_ℕ ys ∙ ap from_ℕ (Perm.length-eq e) ∙ sym (length-from_ℕ xs)

-- No element stands twice.
abbrev pub Distinct : List ℕ → Type 0
Distinct [] = Unit
Distinct (x ∷ xs) = All (λ y. y ≢ x) xs × Distinct xs

All-not_mem : (x : ℕ) (xs : List ℕ) → All (λ y. y ≢ x) xs → ¬ Mem x xs
All-not_mem x [] h m = not-mem-nil m
All-not_mem x (y ∷ xs) h m =
    Or.elim ⊥_prop (mem-cons.0 m) (λ e. h.0 (sym e)) (λ m'. All-not_mem x xs h.1 m')

Distinct-Nodup : (xs : List ℕ) → Distinct xs → Nodup xs
Distinct-Nodup [] h = Nodup-nil
Distinct-Nodup (x ∷ xs) h = Nodup-cons.1 (All-not_mem x xs h.0, Distinct-Nodup xs h.1)

Nodup-Distinct : (xs : List ℕ) → Nodup xs → Distinct xs
Nodup-Distinct [] h = tt
Nodup-Distinct (x ∷ xs) h =
    let (absent, rest) = Nodup-cons.0 h in
    (All-of_mem xs (λ y m e. absent (subst (λ z. Mem z xs) e m)), Nodup-Distinct xs rest)

pub Distinct-perm : (xs ys : List ℕ) → Perm ys xs → Distinct xs → Distinct ys
Distinct-perm xs ys e h = Nodup-Distinct ys ((Perm.Nodup-iff e).1 (Distinct-Nodup xs h))
