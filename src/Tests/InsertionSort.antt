-- ===== src/Tests/InsertionSort.antt =====
-- Insertion, as a sort that meets the laws.
use mathlib.Core.List.{Perm}
use mathlib.Core.List.Perm
use latin_squares_diploma_it.Prelude.{
  ℕ, ◌≤◌, arith, Bool, List, [], ◌∷◌, map, Sort, ltb, if◌then◌else◌, All, All-map, Ascending,
  Bool-cases, inl, inr, ltb→lt,
}

module _ {A : Type 0} where
  unfoldable pub insert : (A → A → Bool) → A → List A → List A
  insert less x [] = x ∷ []
  insert less x (y ∷ ys) = if less y x then y ∷ insert less x ys else x ∷ y ∷ ys

  unfoldable pub insertion_sort : (A → A → Bool) → List A → List A
  unfolding insert
  insertion_sort less [] = []
  insertion_sort less (x ∷ xs) = insert less x (insertion_sort less xs)

  insert-perm : (less : A → A → Bool) (x : A) (ys : List A) → Perm (insert less x ys) (x ∷ ys)
  unfolding insert
  insert-perm less x [] = Perm.refl (x ∷ [])
  insert-perm less x (y ∷ ys) = elim (Bool-cases (less y x)) [
    | inl e ↦ rw e (Perm.trans (Perm.cons y (insert-perm less x ys)) (Perm.swap x y ys))
    | inr e ↦ rw e (Perm.refl (x ∷ y ∷ ys))
  ]

  pub insertion_sort-perm : (less : A → A → Bool) (xs : List A) → Perm (insertion_sort less xs) xs
  unfolding insertion_sort
  insertion_sort-perm less [] = Perm.refl []
  insertion_sort-perm less (x ∷ xs) =
      Perm.trans (insert-perm less x (insertion_sort less xs))
        (Perm.cons x (insertion_sort-perm less xs))

  module _ (key : A → ℕ) where
    abbrev pub by_key : A → A → Bool
    by_key a b = ltb (key a) (key b)

    insert-above :
        (k : ℕ) (x : A) (ys : List A)
        → k ≤ key x
        → All (λ y. k ≤ y) (map key ys)
        → All (λ y. k ≤ y) (map key (insert by_key x ys))
    unfolding insert
    insert-above k x [] h a = (h, tt)
    insert-above k x (y ∷ ys) h a = elim (Bool-cases (by_key y x)) [
      | inl e ↦ rw e (a.0, insert-above k x ys h a.1)
      | inr e ↦ rw e (h, a)
    ]

    insert-Ascending :
        (x : A) (ys : List A) → Ascending (map key ys) → Ascending (map key (insert by_key x ys))
    unfolding insert
    insert-Ascending x [] a = (tt, tt)
    insert-Ascending x (y ∷ ys) a = elim (Bool-cases (by_key y x)) [
      | inl e ↦ rw e (
        insert-above (key y) x ys (omega (arith, ltb→lt (key y) (key x) e)) a.0,
        insert-Ascending x ys a.1,
      )
      | inr e ↦
          let h : key x ≤ key y = ground arith in
          rw e ((h, All-map (map key ys) (λ z p. omega arith) a.0), a)
    ]

    pub insertion_sort-Ascending : (xs : List A) → Ascending (map key (insertion_sort by_key xs))
    unfolding insertion_sort
    insertion_sort-Ascending [] = tt
    insertion_sort-Ascending (x ∷ xs) =
        insert-Ascending x (insertion_sort by_key xs) (insertion_sort-Ascending xs)

abbrev pub insertion : {A : Type 0} → Sort A
insertion = record {
  sort = insertion_sort;
  permutes = insertion_sort-perm;
  sorts = insertion_sort-Ascending;
}
