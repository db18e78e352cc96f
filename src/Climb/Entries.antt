-- ===== src/Climb/Entries.antt =====
-- The entries of a list, of which one is replaced.
use latin_squares_diploma_it.Prelude.{
  ℕ, zero, suc, ◌≡◌, ◌≢◌, refl, sym, ◌∙◌, ap, Bool, true, false, ◌||◌, ◌⊎◌, inl, inr, ◌&&◌, done,
  fault, stuck, List, [], ◌∷◌, none, some, any, get_elem?, set,
}

pub some_injective {ℓ} : {A : Type ℓ} {a b : A} → some a ≡ some b → a ≡ b
some_injective e = cc

pub none_ne_some {ℓ} : {A : Type ℓ} {a : A} → none ≢ some a
none_ne_some e = cc

pub done_injective {ℓ} : {A : Type ℓ} {a b : A} → done a ≡ done b → a ≡ b
done_injective e = cc

pub fault_ne_done {ℓ} : {A : Type ℓ} {a : A} → fault ≢ done a
fault_ne_done e = cc

pub stuck_ne_done {ℓ} : {A : Type ℓ} {a : A} → stuck ≢ done a
stuck_ne_done e = cc

pub and_true : (a b : Bool) → (a && b) ≡ true → (a ≡ true) × (b ≡ true)
and_true true b h = (refl, h)
and_true false b h = cc

pub or_true : (a : Bool) → (a || true) ≡ true
or_true true = refl
or_true false = refl

pub or_cases : (a b : Bool) → (a || b) ≡ true → (a ≡ true) ⊎ (b ≡ true)
or_cases true b h = inl refl
or_cases false b h = inr h

pub or_false : (a b : Bool) → (a || b) ≡ false → (a ≡ false) × (b ≡ false)
or_false true b h = cc
or_false false b h = (refl, h)

module _ {A : Type 0} where
  pub any-set :
      (q : A → Bool) (xs : List A) (i : ℕ) (x v : A)
      → get_elem? xs i ≡ some x
      → q v ≡ q x
      → any q (set xs i v) ≡ any q xs
  any-set q [] i x v e h = refl
  any-set q (y ∷ xs) zero x v e h = ap (λ b. b || any q xs) (h ∙ ap q (sym (some_injective e)))
  any-set q (y ∷ xs) (suc i) x v e h = ap (λ b. q y || b) (any-set q xs i x v e h)

  pub any-set-true :
      (q : A → Bool) (xs : List A) (i : ℕ) (x v : A)
      → get_elem? xs i ≡ some x
      → q v ≡ true
      → any q (set xs i v) ≡ true
  any-set-true q [] i x v e h = cc
  any-set-true q (y ∷ xs) zero x v e h = rw h refl
  any-set-true q (y ∷ xs) (suc i) x v e h = rw (any-set-true q xs i x v e h) (or_true (q y))

  pub any-get_elem? :
      (q : A → Bool) (xs : List A) (i : ℕ) (x : A)
      → get_elem? xs i ≡ some x
      → any q xs ≡ false
      → q x ≡ false
  any-get_elem? q [] i x e h = cc
  any-get_elem? q (y ∷ xs) zero x e h = ap q (sym (some_injective e)) ∙ (or_false (q y) _ h).0
  any-get_elem? q (y ∷ xs) (suc i) x e h = any-get_elem? q xs i x e (or_false (q y) _ h).1
