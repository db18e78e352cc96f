-- ===== src/Solver/Indexing.antt =====
-- The first loop of the constructor of `HillClimbingSolver`, which fills the index from literals to
-- clauses.
use latin_squares_diploma_it.Prelude.{
  ℕ, suc, ◌+◌, ◌-◌, ◌<◌, ◌≡◌, refl, ap, arith, Bool, true, false, List, [], ◌∷◌, ◌++◌, leb, ◌==◌,
  ==_iff, if◌then◌else◌, length, length-set, get_or, get_or-set_self, get_or-set_ne, count,
  count-append, All, All-append, All-map, has, Bool-cases, inl, inr,
}
use latin_squares_diploma_it.Utils.Word.{u32_mod}
use latin_squares_diploma_it.Cnf.Literal.{Literal}
use latin_squares_diploma_it.Cnf.Clause.{Clause}
use latin_squares_diploma_it.Solver.State.{Solver, clause_at}
use latin_squares_diploma_it.Solver.Apply.{clauses_with}
use latin_squares_diploma_it.Solver.Literals.{is_literal}
use latin_squares_diploma_it.Solver.Loops.{IsIndexed, occurrences}
use latin_squares_diploma_it.Solver.Construct.{
  push_at, index_literal, index_literals, index_clauses,
}

-- A property that does not depend on the index holds after the loops where it held before.
module _ (P : Solver → Type 0)
    (blind : (s : Solver) (xs ys : List (List ℕ))
      → P s
      → P (record s {
        literal_to_clause_with_positive_value = xs;
        literal_to_clause_with_negative_value = ys;
      })) where
  index_literals_keeps : (i : ℕ) (ls : List Literal) (s : Solver) → P s → P (index_literals i ls s)
  unfolding index_literals index_literal
  index_literals_keeps i [] s h = h
  index_literals_keeps i (l ∷ ls) s h = elim (Bool-cases l.value) [
    | inl e ↦ rw e (
        index_literals_keeps i ls _ (
          blind s (push_at s.literal_to_clause_with_positive_value l.number i)
            s.literal_to_clause_with_negative_value h))
    | inr e ↦ rw e (
        index_literals_keeps i ls _ (
          blind s s.literal_to_clause_with_positive_value
            (push_at s.literal_to_clause_with_negative_value l.number i) h))
  ]

  pub index_clauses_keeps :
      (to_compute : List ℕ) (i : ℕ) (cs : List Clause) (s : Solver)
      → P s
      → P (index_clauses to_compute i cs s)
  unfolding index_clauses
  index_clauses_keeps to_compute i [] s h = h
  index_clauses_keeps to_compute i (c ∷ cs) s h = elim (Bool-cases (has i to_compute)) [
    | inl e ↦
        rw e (index_clauses_keeps to_compute (suc i) cs _ (index_literals_keeps i c.literals s h))
    | inr e ↦ rw e (index_clauses_keeps to_compute (suc i) cs s h)
  ]

-- The literal has a list of each kind.
abbrev pub HasLists : Solver → Literal → Type 0
HasLists s l =
    (l.number < length s.literal_to_clause_with_positive_value)
    × (l.number < length s.literal_to_clause_with_negative_value)

get_or-push_at :
    (lists : List (List ℕ)) (n i m : ℕ)
    → n < length lists
    → get_or (push_at lists n i) m []
      ≡ (if n == m then get_or lists m [] ++ i ∷ [] else get_or lists m [])
get_or-push_at lists n i m h = elim (Bool-cases (n == m)) [
  | inl e ↦
      let same : n ≡ m = (==_iff n m).0 e in
      rw (e, ← same) (get_or-set_self lists n (get_or lists n [] ++ i ∷ []) [] h)
  | inr e ↦ rw e (get_or-set_ne lists n m _ [] (λ p. ground arith))
]

-- The body of the inner loop adds the clause to the one list of its literal.
module _ (i : ℕ) (l : Literal) (s : Solver) (h : HasLists s l) where
  index_literal_lem :
      (b : Bool) (n : ℕ)
      → clauses_with (index_literal i l s) b n
        ≡ (if is_literal n b l then clauses_with s b n ++ i ∷ [] else clauses_with s b n)
  unfolding index_literal
  index_literal_lem true n = elim (Bool-cases l.value) [
    | inl e ↦
        rw (e, get_or-push_at s.literal_to_clause_with_positive_value l.number i n h.0)
          (ground arith)
    | inr e ↦ rw e (ground arith)
  ]
  index_literal_lem false n = elim (Bool-cases l.value) [
    | inl e ↦ rw e (ground arith)
    | inr e ↦
        rw (e, get_or-push_at s.literal_to_clause_with_negative_value l.number i n h.1)
          (ground arith)
  ]

  index_literal_keeps : (k : Literal) → HasLists s k → HasLists (index_literal i l s) k
  unfolding index_literal
  index_literal_keeps k q = elim (Bool-cases l.value) [
    | inl e ↦
        rw
          (
            e,
            length-set s.literal_to_clause_with_positive_value l.number
                (get_or s.literal_to_clause_with_positive_value l.number [] ++ i ∷ []),
          )
          q
    | inr e ↦
        rw
          (
            e,
            length-set s.literal_to_clause_with_negative_value l.number
                (get_or s.literal_to_clause_with_negative_value l.number [] ++ i ∷ []),
          )
          q
  ]

  index_literal_all :
      (Q : ℕ → Type 0) (b : Bool) (n : ℕ)
      → Q i
      → All Q (clauses_with s b n)
      → All Q (clauses_with (index_literal i l s) b n)
  index_literal_all Q b n q qs = rw (index_literal_lem b n) (elim (Bool-cases (is_literal n b l)) [
    | inl e ↦ rw e (All-append Q (clauses_with s b n) (i ∷ []) qs (q, tt))
    | inr e ↦ rw e qs
  ])

  index_literal_often :
      (b : Bool) (n c : ℕ)
      → occurrences c (clauses_with (index_literal i l s) b n)
        ≡ occurrences c (clauses_with s b n)
          + (if i == c then count (is_literal n b) (l ∷ []) else 0)
  index_literal_often b n c =
      rw (index_literal_lem b n)
        (ground (arith, count-append (λ (k : ℕ). k == c) (clauses_with s b n) (i ∷ [])))

HasLists-index_literals :
    (i : ℕ) (ls : List Literal) (s : Solver) (k : Literal)
    → All (HasLists s) ls
    → HasLists s k
    → HasLists (index_literals i ls s) k
unfolding index_literals
HasLists-index_literals i [] s k h q = q
HasLists-index_literals i (l ∷ ls) s k h q =
    HasLists-index_literals i ls (index_literal i l s) k
      (All-map ls (λ j p. index_literal_keeps i l s h.0 j p) h.1)
      (index_literal_keeps i l s h.0 k q)

index_literals_all :
    (i : ℕ) (ls : List Literal) (s : Solver) (Q : ℕ → Type 0) (b : Bool) (n : ℕ)
    → All (HasLists s) ls
    → Q i
    → All Q (clauses_with s b n)
    → All Q (clauses_with (index_literals i ls s) b n)
unfolding index_literals
index_literals_all i [] s Q b n h q qs = qs
index_literals_all i (l ∷ ls) s Q b n h q qs =
    index_literals_all i ls (index_literal i l s) Q b n
      (All-map ls (λ j p. index_literal_keeps i l s h.0 j p) h.1) q
      (index_literal_all i l s h.0 Q b n q qs)

index_literals_often :
    (i : ℕ) (ls : List Literal) (s : Solver) (b : Bool) (n c : ℕ)
    → All (HasLists s) ls
    → occurrences c (clauses_with (index_literals i ls s) b n)
      ≡ occurrences c (clauses_with s b n) + (if i == c then count (is_literal n b) ls else 0)
unfolding index_literals
index_literals_often i [] s b n c h = ground arith
index_literals_often i (l ∷ ls) s b n c h = ground (
  arith,
  index_literal_often i l s h.0 b n c,
  index_literals_often i ls (index_literal i l s) b n c
      (All-map ls (λ j p. index_literal_keeps i l s h.0 j p) h.1),
)

-- The same for the loop over the clauses.
abbrev pub AllHaveLists : Solver → List Clause → Type 0
AllHaveLists s cs = All (λ c. All (HasLists s) c.literals) cs

AllHaveLists-index_literals :
    (i : ℕ) (ls : List Literal) (s : Solver) (cs : List Clause)
    → All (HasLists s) ls
    → AllHaveLists s cs
    → AllHaveLists (index_literals i ls s) cs
AllHaveLists-index_literals i ls s cs h =
    All-map cs (λ c. All-map c.literals (λ k q. HasLists-index_literals i ls s k h q))

index_clauses_all :
    (to_compute : List ℕ) (i : ℕ) (cs : List Clause) (s : Solver) (b : Bool) (n : ℕ)
    → AllHaveLists s cs
    → All (λ c. has c to_compute ≡ true) (clauses_with s b n)
    → All (λ c. has c to_compute ≡ true) (clauses_with (index_clauses to_compute i cs s) b n)
unfolding index_clauses
index_clauses_all to_compute i [] s b n h qs = qs
index_clauses_all to_compute i (c ∷ cs) s b n h qs = elim (Bool-cases (has i to_compute)) [
  | inl e ↦ rw e (
      index_clauses_all to_compute (suc i) cs (index_literals i c.literals s) b n
        (AllHaveLists-index_literals i c.literals s cs h.0 h.1)
        (index_literals_all i c.literals s (λ k. has k to_compute ≡ true) b n h.0 e qs))
  | inr e ↦ rw e (index_clauses_all to_compute (suc i) cs s b n h.1 qs)
]

-- What the clause at the index `c` contributes, with the clauses from index `i` on.
abbrev contribution : (List Literal → ℕ) → ℕ → List Clause → ℕ → ℕ
contribution f i cs c = if leb i c then f (clause_at cs (c - i)).literals else 0

contribution_step :
    (f : List Literal → ℕ) (i : ℕ) (x : Clause) (cs : List Clause) (c : ℕ)
    → contribution f i (x ∷ cs) c
      ≡ (if i == c then f x.literals else 0) + contribution f (suc i) cs c
contribution_step f i x cs c = elim (Bool-cases (i == c)) [
  | inl here ↦ let start : c - i ≡ 0 = ground arith in rw (here, start) (ground arith)
  | inr there ↦ elim (Bool-cases (leb i c)) [
    | inl below ↦
        let next : c - i ≡ suc (c - suc i) = ground arith in rw (there, next) (ground arith)
    | inr above ↦ rw there (ground arith)
  ]
]

index_clauses_often :
    (to_compute : List ℕ) (i : ℕ) (cs : List Clause) (s : Solver) (b : Bool) (n c : ℕ)
    → AllHaveLists s cs
    → has c to_compute ≡ true
    → occurrences c (clauses_with (index_clauses to_compute i cs s) b n)
      ≡ occurrences c (clauses_with s b n) + contribution (count (is_literal n b)) i cs c
unfolding index_clauses
index_clauses_often to_compute i [] s b n c h w = ground arith
index_clauses_often to_compute i (x ∷ cs) s b n c h w =
    let f = count (is_literal n b) in
    rw (contribution_step f i x cs c) (elim (Bool-cases (has i to_compute)) [
      | inl e ↦
          rw
            (
              e,
              index_clauses_often to_compute (suc i) cs (index_literals i x.literals s) b n c
                  (AllHaveLists-index_literals i x.literals s cs h.0 h.1) w,
              index_literals_often i x.literals s b n c h.0,
            )
            (omega arith)
      | inr e ↦
          let other : (i == c) ≡ false = elim (Bool-cases (i == c)) [
            | inl p ↦ absurd (cc (ap (λ (k : ℕ). has k to_compute) ((==_iff i c).0 p)))
            | inr p ↦ p
          ] in
          rw (e, other, index_clauses_often to_compute (suc i) cs s b n c h.1 w) (omega arith)
    ])

-- On a solver with no entries in the index, and lists for the literals of its clauses, the loop lists
-- each clause to compute once for each of its literals, under that literal's variable and value, and
-- no other clause.
pub index_clauses-IsIndexed :
    (to_compute : List ℕ) (s : Solver)
    → ((n : ℕ) (b : Bool) → clauses_with s b n ≡ [])
    → AllHaveLists s s.clauses
    → ((c : ℕ) → length (clause_at s.clauses c).literals < u32_mod)
    → IsIndexed (index_clauses to_compute 0 s.clauses s) (λ c. has c to_compute)
index_clauses-IsIndexed to_compute s empty lists short =
    let same : (index_clauses to_compute 0 s.clauses s).clauses ≡ s.clauses =
      index_clauses_keeps (λ t. t.clauses ≡ s.clauses) (λ t xs ys h. h) to_compute 0 s.clauses s
        refl in
    record {
      listed = λ n b. index_clauses_all to_compute 0 s.clauses s b n lists (rw (empty n b) tt);
      often = λ n b c w.
          rw (index_clauses_often to_compute 0 s.clauses s b n c lists w, empty n b, same)
            (ground arith);
      short = λ c. rw same (short c);
    }
