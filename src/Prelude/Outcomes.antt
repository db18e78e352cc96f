-- ===== src/Prelude/Outcomes.antt =====
-- What code comes to that can read out of range or run without end: `fault` is a read out of range,
-- `stuck` a loop or recursion of the model that ran out of fuel.
use mathlib.Core.Option.{Option, none, some}
use mathlib.Core.Path.{◌≡◌, refl, subst}

pub data Outcome {ℓ} (A : Type ℓ) : Type ℓ where
  done : A → Outcome A
  fault stuck : Outcome A

infixl 5 ◌>>=◌
abbrev pub ◌>>=◌ {ℓ κ} : {A : Type ℓ} {B : Type κ} → Outcome A → (A → Outcome B) → Outcome B
done a >>= f = f a
fault >>= f = fault
stuck >>= f = stuck

abbrev pub or_fault {ℓ} : {A : Type ℓ} → Option A → Outcome A
or_fault none = fault
or_fault (some a) = done a

-- A run returns what meets the predicate, or runs out of draws; it reads nothing out of range.
abbrev pub Ensures : {A : Type 0} → Outcome A → (A → Type 0) → Type 0
Ensures (done a) P = P a
Ensures fault P = ⊥
Ensures stuck P = Unit

pub Ensures-bind :
    {A B : Type 0} (o : Outcome A) (f : A → Outcome B) (P : A → Type 0) (Q : B → Type 0)
    → Ensures o P
    → ((a : A) → P a → Ensures (f a) Q)
    → Ensures (o >>= f) Q
Ensures-bind (done a) f P Q h k = k a h
Ensures-bind fault f P Q h k = h
Ensures-bind stuck f P Q h k = tt

pub Ensures-map :
    {A : Type 0} (o : Outcome A) (P Q : A → Type 0)
    → Ensures o P
    → ((a : A) → P a → Q a)
    → Ensures o Q
Ensures-map (done a) P Q h k = k a h
Ensures-map fault P Q h k = h
Ensures-map stuck P Q h k = tt

-- A run returns what meets the predicate.
abbrev pub Yields : {A : Type 0} → Outcome A → (A → Type 0) → Type 0
Yields (done a) P = P a
Yields fault P = ⊥
Yields stuck P = ⊥

pub Yields-bind :
    {A B : Type 0} (o : Outcome A) (f : A → Outcome B) (P : A → Type 0) (Q : B → Type 0)
    → Yields o P
    → ((a : A) → P a → Yields (f a) Q)
    → Yields (o >>= f) Q
Yields-bind (done a) f P Q h k = k a h
Yields-bind fault f P Q h k = absurd h
Yields-bind stuck f P Q h k = absurd h

pub Yields-map :
    {A : Type 0} (o : Outcome A) (P Q : A → Type 0)
    → Yields o P
    → ((a : A) → P a → Q a)
    → Yields o Q
Yields-map (done a) P Q h k = k a h
Yields-map fault P Q h k = h
Yields-map stuck P Q h k = h

pub Yields-done :
    {A : Type 0} (o : Outcome A) (P : A → Type 0) → Yields o P → (a : A) × (o ≡ done a) × P a
Yields-done (done a) P h = (a, refl, h)
Yields-done fault P h = absurd h
Yields-done stuck P h = absurd h

pub Yields-or_fault :
    {A : Type 0} (o : Option A) (P : A → Type 0)
    → (a : A) × (o ≡ some a) × P a
    → Yields (or_fault o) P
Yields-or_fault none P (a, e, p) = cc
Yields-or_fault (some b) P (a, e, p) = let same : a ≡ b = cc in subst P same p
