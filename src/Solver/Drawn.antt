-- ===== src/Solver/Drawn.antt =====
-- What `random_combination_including` returns, whatever is drawn.
use mathlib.Core.Logic.Or
use mathlib.Core.List.{Mem, not-mem-nil, mem-cons, mem-cons_self}
use mathlib.Core.List.Perm
use native.Mathlib.Bridge.{le_prop}
use latin_squares_diploma_it.Prelude.{
  All-map, Option-cases, get_elem?, get_elem?-past, ℕ, zero, suc, ◌+◌, ◌-◌, ◌%◌, ◌≤◌, ◌<◌, ◌≡◌, ◌≢◌,
  refl, sym, ap, ◌∙◌, subst, arith, Bool, true, false, List, [], ◌∷◌, ◌++◌, map, Sort, ltb, ◌||◌,
  length, length-append, get_or, any, has, All, All-append, All-map₂, All-perm, length-perm,
  Distinct, Distinct-perm, Ascending, Increasing, Increasing-Ascending, Ensures, Ensures-bind,
  Ensures-map, Bool-cases, ◌⊎◌, inl, inr,
}
use latin_squares_diploma_it.Utils.Word.{u32_mod}
use latin_squares_diploma_it.Utils.Combination.{IsCombination, first_from}
use latin_squares_diploma_it.Utils.Binomial.{binom}
use latin_squares_diploma_it.Utils.Including.{
  IsIncluding, contains-any, next_combination_including_finds, next_combination_including-length,
}
use latin_squares_diploma_it.Solver.Bags.{MetaVariable, is_open, satisfy_predicate_for_metavars}
use latin_squares_diploma_it.Solver.Draws.{
  draw_new, draw_more, draw_combination, reads_within, try_combination,
  random_combination_including,
}

-- The number drawn is new, and below n unless it is the one that the loop starts with.
draw_new-Ensures :
    (n : ℕ) (cs : List ℕ) (val : ℕ) (draws : List ℕ)
    → 0 < n
    → Ensures (draw_new n cs val draws) (λ r. (has r.0 cs ≡ false) × ((r.0 ≡ val) ⊎ (r.0 < n)))
unfolding draw_new
draw_new-Ensures n cs val [] p = elim (Bool-cases (has val cs)) [
  | inl e ↦ rw e tt
  | inr e ↦ rw e (e, inl refl)
]
draw_new-Ensures n cs val (d ∷ draws) p = elim (Bool-cases (has val cs)) [
  | inl e ↦ rw e (
      Ensures-map (draw_new n cs (d % n) draws) _ _ (draw_new-Ensures n cs (d % n) draws p)
        (λ r h. (h.0, elim h.1 [ inl q ↦ inr (ground arith) | inr q ↦ inr q ])))
  | inr e ↦ rw e (e, inl refl)
]

-- The combination while it is drawn: its first element is one of those to include.
record IsDrawn (n : ℕ) (including cs : List ℕ) : Type 0 where
  head : ℕ
  tail : List ℕ
  shape : cs ≡ head ∷ tail
  included : has head including ≡ true
  distinct : Distinct cs
  below : All (λ c. c < n) cs

has-append : (x : ℕ) (xs ys : List ℕ) → has x (xs ++ ys) ≡ (has x xs || has x ys)
has-append x [] ys = refl
has-append x (y ∷ xs) ys = ground (arith, has-append x xs ys)

absent : (x : ℕ) (xs : List ℕ) → has x xs ≡ false → All (λ y. y ≢ x) xs
absent x [] h = tt
absent x (y ∷ xs) h = (λ e. ground arith, absent x xs (ground arith))

Distinct-append : (xs : List ℕ) (x : ℕ) → Distinct xs → has x xs ≡ false → Distinct (xs ++ x ∷ [])
Distinct-append [] x d h = (tt, tt)
Distinct-append (y ∷ xs) x d h = (
  All-append (λ z. z ≢ y) xs (x ∷ []) d.0 (λ e. ground arith, tt),
  Distinct-append xs x d.1 (ground arith),
)

IsDrawn-append :
    (n : ℕ) (including cs : List ℕ) (x : ℕ)
    → IsDrawn n including cs
    → has x cs ≡ false
    → x < n
    → IsDrawn n including (cs ++ x ∷ [])
IsDrawn-append n including cs x h e p = record {
  head = h.head;
  tail = h.tail ++ x ∷ [];
  shape = ap (λ (t : List ℕ). t ++ x ∷ []) h.shape;
  included = h.included;
  distinct = Distinct-append cs x h.distinct e;
  below = All-append (λ c. c < n) cs (x ∷ []) h.below (p, tt);
}

draw_more-Ensures :
    (n : ℕ) (including : List ℕ) (left : ℕ) (cs draws : List ℕ)
    → 0 < n
    → IsDrawn n including cs
    → Ensures
        (draw_more n left cs draws)
        (λ r. IsDrawn n including r.0 × (length r.0 ≡ length cs + left))
unfolding draw_more
draw_more-Ensures n including zero cs draws p h = (h, omega arith)
draw_more-Ensures n including (suc left) cs draws p h =
    let again : has (get_or cs 0 0) cs ≡ true = rw h.shape (ground arith) in
    Ensures-bind (draw_new n (cs ++ (u32_mod - 1) ∷ []) (get_or cs 0 0) draws) _ _ _
      (draw_new-Ensures n (cs ++ (u32_mod - 1) ∷ []) (get_or cs 0 0) draws p)
      (λ r q.
        let new : has r.0 cs ≡ false =
          ground (arith, has-append r.0 cs ((u32_mod - 1) ∷ []), q.0) in
        let small : r.0 < n = elim q.1 [
          | inl e ↦ absurd (cc (ap (λ (x : ℕ). has x cs) e))
          | inr k ↦ k
        ] in
        Ensures-map (draw_more n left (cs ++ r.0 ∷ []) r.1) _ _
          (draw_more-Ensures n including left (cs ++ r.0 ∷ []) r.1 p
            (IsDrawn-append n including cs r.0 h new small))
          (λ a k. (k.0, omega (arith, k.1, length-append cs (r.0 ∷ [])))))

has-get_or : (xs : List ℕ) (i : ℕ) → i < length xs → has (get_or xs i 0) xs ≡ true
has-get_or [] i h = absurd (omega arith)
has-get_or (x ∷ xs) zero h = ground arith
has-get_or (x ∷ xs) (suc i) h = ground (arith, has-get_or xs i (omega arith))

All-get_or : (P : ℕ → Type 0) (xs : List ℕ) (i : ℕ) → All P xs → i < length xs → P (get_or xs i 0)
All-get_or P [] i a h = absurd (omega arith)
All-get_or P (x ∷ xs) zero a h = a.0
All-get_or P (x ∷ xs) (suc i) a h = All-get_or P xs i a.1 (omega arith)

draw_combination-Ensures :
    (n k : ℕ) (including draws : List ℕ)
    → 0 < k
    → 0 < length including
    → All (λ x. x < n) including
    → Ensures
        (draw_combination n k including draws)
        (λ r. IsDrawn n including r.0 × (length r.0 ≡ k))
unfolding draw_combination
draw_combination-Ensures n k [] draws p q a = absurd (omega arith)
draw_combination-Ensures n k (x ∷ including) [] p q a = tt
draw_combination-Ensures n k (x ∷ including) (d ∷ draws) p q a =
    let i = d % length (x ∷ including) in
    let inside : i < length (x ∷ including) = grind arith in
    let first = get_or (x ∷ including) i 0 in
    let below : first < n = All-get_or (λ c. c < n) (x ∷ including) i a inside in
    Ensures-map (draw_more n (k - 1) (first ∷ []) draws) _ _
      (draw_more-Ensures n (x ∷ including) (k - 1) (first ∷ []) draws (omega arith) (record {
        head = first;
        tail = [];
        shape = refl;
        included = has-get_or (x ∷ including) i inside;
        distinct = (tt, tt);
        below = (below, tt);
      }))
      (λ r h. (h.0, omega (arith, h.1)))

Increasing-of_sorted : (xs : List ℕ) → Ascending xs → Distinct xs → Increasing xs
Increasing-of_sorted [] a d = tt
Increasing-of_sorted (x ∷ xs) a d = (
  All-map₂ xs (λ y p q. let ne : y ≢ x = q in omega (arith, ne)) a.0 d.0,
  Increasing-of_sorted xs a.1 d.1,
)

map_same : (xs : List ℕ) → map (λ (x : ℕ). x) xs ≡ xs
map_same [] = refl
map_same (x ∷ xs) = ap (◌∷◌ x) (map_same xs)

any_of_mem : (p : ℕ → Bool) (x : ℕ) (xs : List ℕ) → Mem x xs → p x ≡ true → any p xs ≡ true
any_of_mem p x [] m e = absurd (not-mem-nil m)
any_of_mem p x (y ∷ xs) m e =
    Or.elim (hlevel) (mem-cons.0 m) (λ q. rw (← q, e) refl)
      (λ m'. rw (any_of_mem p x xs m' e) (ground arith))

-- Indices below the number of meta-variables are read in range.
reads_within-true :
    (vs : List MetaVariable) (cs : List ℕ) → All (λ c. c < length vs) cs → reads_within vs cs ≡ true
unfolding reads_within
reads_within-true vs [] h = refl
reads_within-true vs (c ∷ cs) h = elim (Option-cases (get_elem? vs c)) [
  | inl past ↦ absurd (omega (arith, get_elem?-past vs c past, h.0))
  | inr (v, at) ↦ elim (Bool-cases (is_open v)) [
    | inl several ↦ rw (at, several, reads_within) (reads_within-true vs cs h.1)
    | inr closed ↦ rw (at, closed, reads_within) refl
  ]
]

module _ (sorting : Sort ℕ) where
  sorted-Ascending : (xs : List ℕ) → Ascending (sorting.sort ltb xs)
  sorted-Ascending xs = subst Ascending (map_same _) (sorting.sorts (λ x. x) xs)

  sorted-IsCombination :
      (n : ℕ) (including cs : List ℕ)
      → IsDrawn n including cs
      → IsCombination n (sorting.sort ltb cs)
  sorted-IsCombination n including cs h = (
    Increasing-of_sorted _ (sorted-Ascending cs)
        (Distinct-perm cs _ (sorting.permutes ltb cs) h.distinct),
    All-perm cs _ (λ y. le_prop) (sorting.permutes ltb cs) h.below,
  )

  sorted-included :
      (n : ℕ) (including cs : List ℕ)
      → IsDrawn n including cs
      → any (λ c. has c including) (sorting.sort ltb cs) ≡ true
  sorted-included n including cs h =
      any_of_mem (λ c. has c including) h.head (sorting.sort ltb cs)
        ((Perm.mem_iff (sorting.permutes ltb cs)).1 (rw h.shape mem-cons_self)) h.included

  sorted-length : (cs : List ℕ) → length (sorting.sort ltb cs) ≡ length cs
  sorted-length cs = length-perm cs _ (sorting.permutes ltb cs)

  try_combination-Ensures :
      (fuel : ℕ) (meta_variables : List MetaVariable) (n k : ℕ) (including cs : List ℕ)
      → n < u32_mod
      → n ≤ length meta_variables
      → Ascending including
      → binom n k ≤ fuel
      → IsIncluding n k including cs
      → Ensures
          (try_combination fuel meta_variables n including cs)
          (λ out. IsIncluding n k including out ⊎ (out ≡ first_from 0 k))
  unfolding try_combination
  try_combination-Ensures fuel meta_variables n k including cs w there a enough h =
      let read =
        reads_within-true meta_variables cs
          (All-map cs (λ c p. omega (arith, p, there)) h.combination.1) in
      let (out, more, e, f) =
        next_combination_including_finds fuel n including cs w h.combination a
          (rw h.size (omega (arith, enough))) in
      elim (Bool-cases (satisfy_predicate_for_metavars meta_variables cs)) [
        | inl good ↦ rw (read, good, try_combination) (inl h)
        | inr bad ↦
            rw (read, bad, e, try_combination)
              (elim (Bool-cases more) [
                | inl again ↦
                    let (c, later, found) = f.later again in
                    inl (record {
                      combination = c;
                      size =
                          next_combination_including-length fuel n including cs out more e ∙ h.size;
                      included =
                          sym (contains-any out including (Increasing-Ascending out c.0) a) ∙ found;
                    })
                | inr over ↦ inr (f.last over ∙ ap (first_from 0) h.size)
              ])
      ]

  -- For k at least 1, n a 32-bit word and at most the number of meta-variables, at least one
  -- element to include, elements to include that are sorted and below n, and fuel of C(n, k),
  -- whatever is drawn: nothing is read out of range, and unless the draws run out the result is a
  -- combination of k numbers below n with one of the elements, or the first combination.
  pub random_combination_including-Ensures :
      (fuel : ℕ) (meta_variables : List MetaVariable) (n k : ℕ) (including draws : List ℕ)
      → 0 < k
      → n < u32_mod
      → n ≤ length meta_variables
      → 0 < length including
      → Ascending including
      → All (λ x. x < n) including
      → binom n k ≤ fuel
      → Ensures
          (random_combination_including fuel sorting meta_variables n k including draws)
          (λ r. IsIncluding n k including r.0 ⊎ (r.0 ≡ first_from 0 k))
  unfolding random_combination_including
  random_combination_including-Ensures fuel meta_variables n k including draws p w there q a b
        enough =
      Ensures-bind (draw_combination n k including draws) _ _ _
        (draw_combination-Ensures n k including draws p q b)
        (λ r h.
          Ensures-bind (try_combination fuel meta_variables n including (sorting.sort ltb r.0)) _ _
            _
            (try_combination-Ensures fuel meta_variables n k including (sorting.sort ltb r.0) w
              there a enough
              (record {
                combination = sorted-IsCombination n including r.0 h.0;
                size = sorted-length r.0 ∙ h.1;
                included = sorted-included n including r.0 h.0;
              }))
            (λ out o. o))
