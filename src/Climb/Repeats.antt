-- ===== src/Climb/Repeats.antt =====
-- The loop over the sorted random bags against the removal of neighbours that are the same.
use latin_squares_diploma_it.Prelude.{
  ℕ, zero, suc, arith, replicate, ◌≡◌, refl, true, false, List, [], ◌∷◌, ◌++◌, done, ◌>>=◌,
  if◌then◌else◌,
}
use latin_squares_diploma_it.Climb.Bags.{same_bag, drop_repeats}

-- Of equal neighbours the last one stays.
unfoldable pub unique : List (List ℕ) → List (List ℕ)
unique [] = []
unique (a ∷ []) = a ∷ []
unique (a ∷ b ∷ bags) = let rest = unique (b ∷ bags) in if same_bag a b then rest else a ∷ rest

drop_step :
    (x y z : List ℕ) (bags zs : List (List ℕ))
    → drop_repeats (x ∷ y ∷ (bags ++ z ∷ zs)) ≡ (
        drop_repeats (y ∷ (bags ++ z ∷ zs)) >>= λ rest.
        done (if same_bag x y then rest else x ∷ rest))
unfolding drop_repeats
drop_step x y z [] zs = refl
drop_step x y z (b ∷ bags) zs = refl

-- Where the last two of the sorted random bags differ, the loop over them leaves out each bag that
-- is the same as the next one, and nothing else.
pub drop_repeats-unique :
    (bags : List (List ℕ)) (a b : List ℕ)
    → same_bag a b ≡ false
    → drop_repeats (bags ++ a ∷ b ∷ []) ≡ done (unique (bags ++ a ∷ b ∷ []))
unfolding drop_repeats unique
drop_repeats-unique [] a b h = rw h refl
drop_repeats-unique (x ∷ []) a b h = rw (h, drop_repeats) refl
drop_repeats-unique (x ∷ y ∷ bags) a b h =
    rw (drop_step x y a bags (b ∷ []), drop_repeats-unique (y ∷ bags) a b h) refl

pub same_bag_refl : (a : List ℕ) → same_bag a a ≡ true
same_bag_refl [] = refl
same_bag_refl (x ∷ a) = rw (same_bag_refl a) (ground arith)

drop_same : (k : ℕ) (a : List ℕ) → drop_repeats (a ∷ a ∷ replicate k a) ≡ done []
unfolding drop_repeats
drop_same zero a = rw (same_bag_refl a) refl
drop_same (suc k) a = rw (drop_same k a, same_bag_refl a) refl

-- Where the greatest of the sorted random bags was drawn more than once, the loop over them loses it:
-- what is left are the bags before it, each once.
pub drop_repeats_loses :
    (bags : List (List ℕ)) (x a : List ℕ) (k : ℕ)
    → same_bag x a ≡ false
    → drop_repeats (bags ++ x ∷ a ∷ a ∷ replicate k a) ≡ done (unique (bags ++ x ∷ []))
unfolding drop_repeats unique
drop_repeats_loses [] x a k h = rw (drop_same k a, h) refl
drop_repeats_loses (y ∷ []) x a k h =
    rw (drop_step y x a [] (a ∷ replicate k a), drop_repeats_loses [] x a k h) refl
drop_repeats_loses (y ∷ z ∷ bags) x a k h =
    rw (drop_step y z x bags (a ∷ a ∷ replicate k a), drop_repeats_loses (z ∷ bags) x a k h) refl
