-- ===== src/Solver/Rests.antt =====
-- Unit propagation ends: each round that asks for another one has met a variable for the first time.
use latin_squares_diploma_it.Prelude.{
  ℕ, zero, suc, ◌+◌, ◌<◌, ◌≤◌, ◌≡◌, ◌≢◌, ◌⊎◌, refl, arith, Bool, true, false, ◌||◌, List, [], ◌∷◌,
  ◌++◌, Option, done, ◌==◌, ==_iff, if◌then◌else◌, length, has, All, Bool-cases, inl, inr,
}
use latin_squares_diploma_it.Cnf.Literal.{Literal}
use latin_squares_diploma_it.Solver.State.{Solver, clause_at}
use latin_squares_diploma_it.Solver.Apply.{clauses_with, opposite}
use latin_squares_diploma_it.Solver.Reduce.{
  Reduction, propagate_unit, visit_literals, reduce_round, reduce_loop,
}
use latin_squares_diploma_it.Solver.Erasing.{erase_number-All, erase_in_keeps}

-- The number of variables below the bound that have not been met.
unfoldable pub unmet : ℕ → List ℕ → ℕ
unmet zero cache = 0
unmet (suc n) cache = (if has n cache then 0 else 1) + unmet n cache

pub unmet-nil : (bound : ℕ) → unmet bound [] ≡ bound
unfolding unmet
unmet-nil zero = refl
unmet-nil (suc n) = omega (arith, unmet-nil n)

has-snoc : (n m : ℕ) (xs : List ℕ) → has n (xs ++ m ∷ []) ≡ (has n xs || m == n)
has-snoc n m [] = ground arith
has-snoc n m (x ∷ xs) = ground (arith, has-snoc n m xs)

unmet-snoc-le : (bound m : ℕ) (cache : List ℕ) → unmet bound (cache ++ m ∷ []) ≤ unmet bound cache
unfolding unmet
unmet-snoc-le zero m cache = omega arith
unmet-snoc-le (suc n) m cache = ground (arith, has-snoc n m cache, unmet-snoc-le n m cache)

unmet-snoc-lt :
    (bound m : ℕ) (cache : List ℕ)
    → m < bound
    → has m cache ≡ false
    → unmet bound (cache ++ m ∷ []) < unmet bound cache
unfolding unmet
unmet-snoc-lt zero m cache h e = absurd (omega arith)
unmet-snoc-lt (suc n) m cache h e = elim (Bool-cases (m == n)) [
  | inl here ↦
      let same : m ≡ n = (==_iff m n).0 here in
      let e' : has n cache ≡ false = rw same at e in
      ground (arith, has-snoc n m cache, unmet-snoc-le n m cache)
  | inr there ↦ ground (arith, has-snoc n m cache, unmet-snoc-lt n m cache (ground arith) e)
]

false_true : ◌≢◌ {A = Bool} false true
false_true e = cc

module _ (bound : ℕ) (s : Solver) (links : List (Option ℕ)) where
  -- The variables of the clauses lie below the bound.
  abbrev pub IsBounded : Reduction → Type 0
  IsBounded r = (c : ℕ) → All (λ l. l.number < bound) (clause_at r.clauses c).literals

  -- No variable is forgotten, and a change goes with a new one.
  record Advanced (r r' : Reduction) : Type 0 where
    bounded : IsBounded r'
    fewer : unmet bound r'.cache ≤ unmet bound r.cache
    moved : r'.changed ≡ true → (r.changed ≡ true) ⊎ (unmet bound r'.cache < unmet bound r.cache)

  still : (r : Reduction) → IsBounded r → Advanced r r
  still r h = record { bounded = h; fewer = omega arith; moved = λ e. inl e }

  visit_literals-Advanced :
      (ls : List Literal) (r : Reduction)
      → All (λ l. l.number < bound) ls
      → IsBounded r
      → Advanced r (visit_literals s links ls r)
  unfolding visit_literals propagate_unit
  visit_literals-Advanced [] r b h = still r h
  visit_literals-Advanced (l ∷ []) r b h = elim (Bool-cases (has l.number r.cache)) [
    | inl known ↦ rw known (still r h)
    | inr new ↦ rw new (record {
      bounded = λ c.
          erase_in_keeps (All (λ l'. l'.number < bound)) l.number
            (λ ls q. erase_number-All _ l.number ls q) (clauses_with s (opposite l.value) l.number)
            r.clauses c (h c);
      fewer = unmet-snoc-le bound l.number r.cache;
      moved = λ e. inr (unmet-snoc-lt bound l.number r.cache b.0 new);
    })
  ]
  visit_literals-Advanced (l ∷ k ∷ ls) r b h = still r h

  reduce_round-Advanced :
      (left i : ℕ) (r : Reduction) → IsBounded r → Advanced r (reduce_round s links left i r)
  unfolding reduce_round
  reduce_round-Advanced zero i r h = still r h
  reduce_round-Advanced (suc left) i r h =
      let one = visit_literals-Advanced (clause_at r.clauses i).literals r (h i) h in
      let rest = reduce_round-Advanced left (suc i) _ one.bounded in
      record {
        bounded = rest.bounded;
        fewer = omega (arith, one.fewer, rest.fewer);
        moved = λ e. elim (rest.moved e) [
          | inl before ↦ elim (one.moved before) [
            | inl old ↦ inl old
            | inr lt ↦ inr (omega (arith, lt, rest.fewer))
          ]
          | inr lt ↦ inr (omega (arith, lt, one.fewer))
        ];
      }

  -- With more rounds than there are variables that have not been met, the loop ends.
  pub reduce_loop-total :
      (fuel : ℕ) (r : Reduction)
      → IsBounded r
      → unmet bound r.cache < fuel
      → (r' : Reduction) × (reduce_loop fuel s links r ≡ done r')
  unfolding reduce_loop
  reduce_loop-total zero r h p = absurd (omega arith)
  reduce_loop-total (suc fuel) r h p =
      let start = record r { changed = false } in
      let next = reduce_round s links (length r.clauses) 0 start in
      let step = reduce_round-Advanced (length r.clauses) 0 start h in
      elim (Bool-cases next.changed) [
        | inl again ↦
            let less : unmet bound next.cache < fuel = elim (step.moved again) [
              | inl no_change ↦ absurd (false_true no_change)
              | inr lt ↦ omega (arith, lt, p)
            ] in
            let (r', e) = reduce_loop-total fuel next step.bounded less in
            (r', rw (again, reduce_loop) e)
        | inr over ↦ (next, rw (over, reduce_loop) refl)
      ]
