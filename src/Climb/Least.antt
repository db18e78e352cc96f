-- ===== src/Climb/Least.antt =====
-- The bag that the loop of `solve` over all bags begins with.
use mathlib.Core.Bool.{false≢true}
use native.Mathlib.Nat.{zero-add}
use native.Mathlib.Decide.{dec_lt}
use latin_squares_diploma_it.Prelude.{
  ℕ, zero, suc, ◌+◌, ◌-◌, ◌≤◌, ◌<◌, ◌≡◌, refl, sym, ap, ◌∙◌, subst, arith, Bool, true, false, List,
  [], ◌∷◌, ◌++◌, length, length-append, any, has, All, All-map, All-append, Ascending, Increasing,
  Bool-cases, inl, inr, if◌then◌else◌, leb, has_of_below, leb→le, ==_iff,
}
use latin_squares_diploma_it.Utils.Binomial.{binom_of_lt, binom_mono}
use latin_squares_diploma_it.Utils.Combination.{
  IsCombination, first_from, rank, rank-lt, rank_from-first_from,
}
use latin_squares_diploma_it.Utils.Ranks.{ended, rank_from-snoc, Increasing-snoc}
use latin_squares_diploma_it.Utils.Skips.{includes}
use latin_squares_diploma_it.Climb.Entries.{or_true}

first_from-Increasing :
    (i k : ℕ) → Increasing (first_from i k) × All (λ x. (i ≤ x) × (x < i + k)) (first_from i k)
unfolding first_from
first_from-Increasing i zero = (tt, tt)
first_from-Increasing i (suc k) =
    let (inc, within) = first_from-Increasing (suc i) k in
    (
      (All-map (first_from (suc i) k) (λ x p. omega (arith, p.0)) within, inc),
      (
        (omega arith, omega arith),
        All-map (first_from (suc i) k) (λ x p. (omega (arith, p.0), omega (arith, p.1))) within,
      ),
    )

snoc-Increasing :
    (xs : List ℕ) (y : ℕ) → Increasing xs → All (λ x. x < y) xs → Increasing (xs ++ y ∷ [])
snoc-Increasing [] y h k = (tt, tt)
snoc-Increasing (x ∷ xs) y h k =
    (All-append (λ z. x < z) xs (y ∷ []) h.0 (k.0, tt), snoc-Increasing xs y h.1 k.1)

length-first_from : (i k : ℕ) → length (first_from i k) ≡ k
unfolding first_from
length-first_from i zero = refl
length-first_from i (suc k) = ap suc (length-first_from (suc i) k)

any-first_from :
    (p : ℕ → Bool) (i k v : ℕ) (ys : List ℕ)
    → i ≤ v
    → v < i + k
    → p v ≡ true
    → any p (first_from i k ++ ys) ≡ true
unfolding first_from
any-first_from p i zero v ys h l e = absurd (omega arith)
any-first_from p i (suc k) v ys h l e = elim (dec_lt i v) [
  | yes less ↦ rw (any-first_from p (suc i) k v ys less (omega arith) e) (or_true (p i))
  | no at ↦ let same : v ≡ i = omega arith in rw (sym (ap p same) ∙ e) refl
]

any-snoc : (p : ℕ → Bool) (xs : List ℕ) (y : ℕ) → p y ≡ true → any p (xs ++ y ∷ []) ≡ true
any-snoc p [] y e = rw e refl
any-snoc p (x ∷ xs) y e = rw (any-snoc p xs y e) (or_true (p x))

none_included :
    (v : ℕ) (rest cs : List ℕ)
    → Ascending (v ∷ rest)
    → All (λ c. c < v) cs
    → includes (v ∷ rest) cs ≡ false
none_included v rest [] a h = refl
none_included v rest (c ∷ cs) a h =
    rw
      (
        has_of_below c (v ∷ rest) (h.0, All-map rest (λ x p. omega (arith, p, h.0)) a.0),
        none_included v rest cs a h.1,
      )
      refl

pub record IsLeast (n k v : ℕ) (rest bag : List ℕ) : Type 0 where
  pub combination : IsCombination n bag
  pub size : length bag ≡ suc k
  pub included : includes (v ∷ rest) bag ≡ true
  pub least :
      (mid : List ℕ)
      → IsCombination n mid
      → length mid ≡ suc k
      → includes (v ∷ rest) mid ≡ true
      → rank bag ≤ rank mid

-- The last element of a combination is at least its index, and no less than the least element that
-- it contains.
last-ge :
    (k v y : ℕ) (rest init : List ℕ)
    → Ascending (v ∷ rest)
    → Increasing (init ++ y ∷ [])
    → length init ≡ k
    → includes (v ∷ rest) (init ++ y ∷ []) ≡ true
    → (k ≤ y) × (v ≤ y)
last-ge k v y rest init a h size i =
    let (inc, below) = Increasing-snoc init y h in
    (
      elim (dec_lt y k) [
        | no more ↦ omega arith
        | yes less ↦
            absurd (
              omega (arith, rank-lt y init (inc, below), binom_of_lt y (length init) (omega arith)))
      ],
      elim (dec_lt y v) [
        | no more ↦ omega arith
        | yes less ↦ absurd (
            false≢true (
              sym (
                none_included v rest (init ++ y ∷ []) a (
                  All-append (λ c. c < v) init (y ∷ [])
                    (All-map init (λ x p. omega (arith, p)) below) (less, tt)))
              ∙ i))
      ],
    )

has_self : (v : ℕ) (rest : List ℕ) → has v (v ∷ rest) ≡ true
has_self v rest = rw ((==_iff v v).1 refl) refl

least_place :
    (k v m : ℕ) (rest : List ℕ)
    → Ascending (v ∷ rest)
    → ((y : ℕ) → k ≤ y → v ≤ y → m ≤ y)
    → (mid : List ℕ) → Increasing mid
    → length mid ≡ suc k
    → includes (v ∷ rest) mid ≡ true
    → rank (first_from 0 k ++ m ∷ []) ≤ rank mid
least_place k v m rest a bound [] h size i = cc
least_place k v m rest a bound (x ∷ xs) h size i =
    let e = ended x xs in
    let init_size : length e.init ≡ k =
      omega (arith, size, ap length e.same, length-append e.init (e.last ∷ [])) in
    let (past_k, past_v) =
      last-ge k v e.last rest e.init a (subst Increasing e.same h) init_size
        (subst (λ cs. includes (v ∷ rest) cs ≡ true) e.same i) in
    let last_le : m ≤ e.last = bound e.last past_k past_v in
    omega (
      arith,
      rank_from-first_from 0 k,
      rw (length-first_from 0 k, zero-add) at (rank_from-snoc 0 (first_from 0 k) m),
      rw (init_size, zero-add) at (rank_from-snoc 0 e.init e.last),
      ap rank e.same,
      binom_mono (e.last - m) m e.last (suc k) (omega arith),
    )

IsLeast-bag :
    (n k v m : ℕ) (rest : List ℕ)
    → Ascending (v ∷ rest)
    → m < n
    → k ≤ m
    → includes (v ∷ rest) (first_from 0 k ++ m ∷ []) ≡ true
    → ((y : ℕ) → k ≤ y → v ≤ y → m ≤ y)
    → IsLeast n k v rest (first_from 0 k ++ m ∷ [])
IsLeast-bag n k v m rest a m_lt k_le i bound =
    let (inc, within) = first_from-Increasing 0 k in
    record {
      combination = (
        snoc-Increasing (first_from 0 k) m inc
            (All-map (first_from 0 k) (λ x p. omega (arith, p.1)) within),
        All-append (λ c. c < n) (first_from 0 k) (m ∷ [])
            (All-map (first_from 0 k) (λ x p. omega (arith, p.1)) within) (m_lt, tt),
      );
      size = length-append (first_from 0 k) (m ∷ []) ∙ omega (arith, length-first_from 0 k);
      included = i;
      least = λ mid c size some_in. least_place k v m rest a bound mid c.0 size some_in;
    }

pub first_bag-IsLeast :
    (n k v : ℕ) (rest : List ℕ)
    → Ascending (v ∷ rest)
    → v < n
    → k < n
    → IsLeast n k v rest (first_from 0 k ++ (if leb v k then k else v) ∷ [])
first_bag-IsLeast n k v rest a v_lt k_lt = elim (Bool-cases (leb v k)) [
  | inl low ↦
      let le : v ≤ k = leb→le v k low in
      rw low (
        IsLeast-bag n k v k rest a k_lt (omega arith)
          (elim (dec_lt v k) [
            | yes less ↦
                any-first_from (λ c. has c (v ∷ rest)) 0 k v (k ∷ []) (omega arith)
                  (omega (arith, less)) (has_self v rest)
            | no at ↦
                any-snoc (λ c. has c (v ∷ rest)) (first_from 0 k) k
                  (let same : v ≡ k = omega arith in
                    subst (λ x. has x (v ∷ rest) ≡ true) same (has_self v rest))
          ])
          (λ y p q. p))
  | inr high ↦ rw high (
      IsLeast-bag n k v v rest a v_lt (ground (arith, high))
        (any-snoc (λ c. has c (v ∷ rest)) (first_from 0 k) v (has_self v rest)) (λ y p q. q))
]
