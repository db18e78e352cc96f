-- ===== src/Net/Restore.antt =====
-- A vector of nodes in which the depths alone change: the original nodes with the depths of a function.
use latin_squares_diploma_it.Prelude.{
  ℕ, zero, suc, ◌≡◌, ◌≢◌, refl, ap, List, [], ◌∷◌, Option, some, get_elem?, set,
}
use latin_squares_diploma_it.Net.Node.{Node}
use latin_squares_diploma_it.Net.Finalize.{set_depth}

abbrev pub Depths : Type 0
Depths = ℕ → Option ℕ

abbrev pub with_depth : Node → Option ℕ → Node
with_depth n o = record n { depth = o }

unfoldable pub restore : List Node → Depths → List Node
restore [] f = []
restore (n ∷ nodes) f = with_depth n (f 0) ∷ restore nodes (λ i. f (suc i))

abbrev pub update : Depths → ℕ → ℕ → Depths
update f zero d zero = some d
update f zero d (suc j) = f (suc j)
update f (suc i) d zero = f zero
update f (suc i) d (suc j) = update (λ k. f (suc k)) i d j

pub update_self : (f : Depths) (i d : ℕ) → update f i d i ≡ some d
update_self f zero d = refl
update_self f (suc i) d = update_self (λ k. f (suc k)) i d

pub update_ne : (f : Depths) (i d j : ℕ) → i ≢ j → update f i d j ≡ f j
update_ne f zero d zero h = absurd (h refl)
update_ne f zero d (suc j) h = refl
update_ne f (suc i) d zero h = refl
update_ne f (suc i) d (suc j) h = update_ne (λ k. f (suc k)) i d j (λ e. h (ap suc e))

pub get_elem?-restore :
    (nodes : List Node) (f : Depths) (i : ℕ) (n : Node)
    → get_elem? nodes i ≡ some n
    → get_elem? (restore nodes f) i ≡ some (with_depth n (f i))
unfolding restore
get_elem?-restore [] f i n e = cc
get_elem?-restore (m ∷ nodes) f zero n e = cc
get_elem?-restore (m ∷ nodes) f (suc i) n e = get_elem?-restore nodes (λ j. f (suc j)) i n e

pub restore_congr :
    (nodes : List Node) (f g : Depths) → ((i : ℕ) → f i ≡ g i) → restore nodes f ≡ restore nodes g
unfolding restore
restore_congr [] f g e = refl
restore_congr (n ∷ nodes) f g e = rw (e 0, restore_congr nodes _ _ (λ i. e (suc i))) refl

set-restore :
    (nodes : List Node) (f : Depths) (i d : ℕ) (n : Node)
    → get_elem? nodes i ≡ some n
    → set (restore nodes f) i (with_depth n (some d)) ≡ restore nodes (update f i d)
unfolding restore
set-restore [] f i d n e = cc
set-restore (m ∷ nodes) f zero d n e = let same : m ≡ n = cc in rw same
set-restore (m ∷ nodes) f (suc i) d n e =
    ap (λ (rest : List Node). with_depth m (f 0) ∷ rest)
      (set-restore nodes (λ j. f (suc j)) i d n e)

pub set_depth-restore :
    (nodes : List Node) (f : Depths) (i d : ℕ) (n : Node)
    → get_elem? nodes i ≡ some n
    → set_depth (restore nodes f) i d ≡ restore nodes (update f i d)
unfolding set_depth
set_depth-restore nodes f i d n e =
    rw (get_elem?-restore nodes f i n e, set_depth) (set-restore nodes f i d n e)
