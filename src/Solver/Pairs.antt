-- ===== src/Solver/Pairs.antt =====
-- The loops of `satisfyPredicateForMetavars`: a cell is marked only where it has a neighbour.
use native.Mathlib.Nat.{zero-add}
use latin_squares_diploma_it.Prelude.{
  ℕ, zero, suc, ◌+◌, ◌<◌, ◌≡◌, ◌≢◌, refl, sym, ap, ◌∙◌, arith, true, List, [], ◌∷◌, ◌++◌, ◌⊎◌, inl,
  inr, ◌==◌, ==_iff, length, length-append, get_or, set, get_or-set_ne, Bool-cases,
}
use latin_squares_diploma_it.Solver.Bags.{MetaVariable, cell_at, near, mark_near, mark_bag}

near_sym : (a b : MetaVariable) → near a b ≡ near b a
unfolding near
near_sym a b = ground arith

-- The cell at `k` of a bag has a neighbour at another place.
pub record IsPaired (cells : List MetaVariable) (k : ℕ) : Type 0 where
  pub other : ℕ
  pub inside : other < length cells
  pub apart : other ≢ k
  pub is_near : near (cell_at cells k) (cell_at cells other) ≡ true

add_none : (k : ℕ) → k ≡ k + 0
add_none k = omega arith

shift_one : (k m : ℕ) → suc k + m ≡ k + suc m
shift_one k m = omega arith

pub mark_near-cases :
    (v : MetaVariable) (j k : ℕ) (found : List MetaVariable) (satisfied : List ℕ)
    → (mark_near v j k found satisfied ≡ satisfied)
      ⊎ ((m : ℕ) × (m < length found)
          × (near v (cell_at found m) ≡ true)
          × (mark_near v j k found satisfied ≡ set (set satisfied j 1) (k + m) 1))
unfolding mark_near
mark_near-cases v j k [] satisfied = inl refl
mark_near-cases v j k (f ∷ found) satisfied = elim (Bool-cases (near v f)) [
  | inl here ↦
      inr (0, omega arith, here, rw here (ap (λ (n : ℕ). set (set satisfied j 1) n 1) (add_none k)))
  | inr there ↦ elim (mark_near-cases v j (suc k) found satisfied) [
    | inl same ↦ inl (rw there same)
    | inr (m, inside, e, made) ↦ inr (
      suc m,
      omega arith,
      e,
      rw there (made ∙ ap (λ (n : ℕ). set (set satisfied j 1) n 1) (shift_one k m)),
    )
  ]
]

cell_at-left :
    (found : List MetaVariable) (v : MetaVariable) (m : ℕ)
    → m < length found
    → cell_at (found ++ v ∷ []) m ≡ cell_at found m
cell_at-left [] v m h = absurd (omega arith)
cell_at-left (f ∷ found) v zero h = refl
cell_at-left (f ∷ found) v (suc m) h = cell_at-left found v m (omega arith)

cell_at-last :
    (found : List MetaVariable) (v : MetaVariable) → cell_at (found ++ v ∷ []) (length found) ≡ v
cell_at-last [] v = refl
cell_at-last (f ∷ found) v = cell_at-last found v

-- Every marked place has a neighbour.
abbrev pub ArePaired : List MetaVariable → List ℕ → Type 0
ArePaired cells satisfied = (k : ℕ) → get_or satisfied k 0 ≢ 0 → IsPaired cells k

pair-ArePaired :
    (cells : List MetaVariable) (satisfied : List ℕ) (j m : ℕ)
    → m < j
    → j < length cells
    → near (cell_at cells j) (cell_at cells m) ≡ true
    → ArePaired cells satisfied
    → ArePaired cells (set (set satisfied j 1) m 1)
pair-ArePaired cells satisfied j m below inside e h k n = elim (Bool-cases (m == k)) [
  | inl at_m ↦
      let same : m ≡ k = (==_iff m k).0 at_m in
      record {
        other = j;
        inside = inside;
        apart = λ p. absurd (omega arith);
        is_near =
            ap (λ (i : ℕ). near (cell_at cells i) (cell_at cells j)) (sym same)
            ∙ near_sym (cell_at cells m) (cell_at cells j)
            ∙ e;
      }
  | inr off_m ↦ elim (Bool-cases (j == k)) [
    | inl at_j ↦
        let same : j ≡ k = (==_iff j k).0 at_j in
        record {
          other = m;
          inside = omega arith;
          apart = λ p. absurd (omega arith);
          is_near = ap (λ (i : ℕ). near (cell_at cells i) (cell_at cells m)) (sym same) ∙ e;
        }
    | inr off_j ↦ h k (λ z. n (
        get_or-set_ne (set satisfied j 1) m k 1 0 (λ p. ground arith)
        ∙ get_or-set_ne satisfied j k 1 0 (λ p. ground arith)
        ∙ z))
  ]
]

-- What the outer loop knows of the cells it has passed and of those to come.
pub record IsSplit (whole found cells : List MetaVariable) (j : ℕ) : Type 0 where
  pub place : j ≡ length found
  pub size : length whole ≡ length found + length cells
  pub firsts : (m : ℕ) → m < length found → cell_at found m ≡ cell_at whole m
  pub rests : (m : ℕ) → cell_at cells m ≡ cell_at whole (length found + m)

pub next-IsSplit :
    (whole found cells : List MetaVariable) (v : MetaVariable) (j : ℕ)
    → IsSplit whole found (v ∷ cells) j
    → IsSplit whole (found ++ v ∷ []) cells (suc j)
next-IsSplit whole found cells v j h =
    let longer : length (found ++ v ∷ []) ≡ length found + 1 = length-append found (v ∷ []) in
    record {
      place = omega (arith, h.place);
      size = omega (arith, h.size);
      firsts = λ m p. elim (Bool-cases (m == length found)) [
        | inl last ↦
            let same : m ≡ length found = (==_iff m (length found)).0 last in
            ap (cell_at (found ++ v ∷ [])) same
            ∙ cell_at-last found v
            ∙ h.rests 0
            ∙ ap (cell_at whole) (omega arith)
        | inr before ↦
            let lt : m < length found = ground arith in cell_at-left found v m lt ∙ h.firsts m lt
      ];
      rests = λ m. h.rests (suc m) ∙ ap (cell_at whole) (omega arith);
    }

pub at_place : (n j : ℕ) → j ≡ n → n + 0 ≡ j
at_place n j e = omega arith

pub mark_bag-ArePaired :
    (whole found cells : List MetaVariable) (j : ℕ) (satisfied : List ℕ)
    → IsSplit whole found cells j
    → ArePaired whole satisfied
    → ArePaired whole (mark_bag j found cells satisfied)
unfolding mark_bag
mark_bag-ArePaired whole found [] j satisfied h p = p
mark_bag-ArePaired whole found (v ∷ cells) j satisfied h p =
    mark_bag-ArePaired whole (found ++ v ∷ []) cells (suc j) _
      (next-IsSplit whole found cells v j h)
      (elim (mark_near-cases v j 0 found satisfied) [
        | inl same ↦ rw same p
        | inr (m, inside, e, made) ↦
            rw (made ∙ ap (λ (n : ℕ). set (set satisfied j 1) n 1) (zero-add m)) (
              pair-ArePaired whole satisfied j m (omega (arith, h.place))
                (omega (arith, h.place, h.size))
                (rw
                  (
                    sym (h.rests 0 ∙ ap (cell_at whole) (at_place _ j h.place)),
                    sym (h.firsts m inside),
                  )
                  e)
                p)
      ])

pub start-IsSplit : (cells : List MetaVariable) → IsSplit cells [] cells 0
start-IsSplit cells = record {
  place = refl;
  size = sym (zero-add (length cells));
  firsts = λ m p. absurd (omega arith);
  rests = λ m. ap (cell_at cells) (sym (zero-add m));
}
