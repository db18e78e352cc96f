-- ===== src/Solver/Placed.antt =====
-- The first loop of the constructor over the meta-variables: what `place_cells` leaves.
use latin_squares_diploma_it.Prelude.{
  ℕ, suc, ◌+◌, ◌≤◌, ◌<◌, ◌≡◌, refl, ◌∙◌, arith, List, [], ◌∷◌, Option, none, some, lt→ltb, length,
  length-set, get_elem?, set, All, All-set, Yields, Yields-bind, Yields-map,
}
use latin_squares_diploma_it.Cnf.Literal.{Literal}
use latin_squares_diploma_it.Solver.Bags.{MetaVariable}
use latin_squares_diploma_it.Solver.Places.{grow_all}
use latin_squares_diploma_it.Solver.Settled.{IsCore, IsChoosable, IsLink}
use latin_squares_diploma_it.Solver.Construct.{Search, link_literals, place_cells}

-- The links are as many as before, and lead to one of n meta-variables where they did before.
record IsLinked (i : ℕ) (links out : List (Option ℕ)) : Type 0 where
  size : length out ≡ length links
  linked : (n : ℕ) → i < n → All (IsLink n) links → All (IsLink n) out

link_literals-Yields :
    (core i : ℕ) (literals : List Literal) (links : List (Option ℕ))
    → All (IsCore core) literals
    → core < length links
    → Yields (link_literals i literals links) (IsLinked i links)
unfolding link_literals
link_literals-Yields core i [] links h w = record { size = refl; linked = λ n p a. a }
link_literals-Yields core i (l ∷ literals) links h w =
    let inside : l.number < length links = omega (arith, h.0.1, w) in
    let size = length-set links l.number (some i) in
    rw (lt→ltb l.number (length links) inside) (
      Yields-map (link_literals i literals (set links l.number (some i))) _ _
        (link_literals-Yields core i literals (set links l.number (some i)) h.1
          (omega (arith, w, size)))
        (λ out k. record {
          size = k.size ∙ size;
          linked = λ n p a. k.linked n p (All-set (IsLink n) links l.number (some i) p a);
        }))

-- What the loop makes of the search: room for all the cells, and links to them.
pub record IsPlaced (i : ℕ) (vs : List MetaVariable) (q out : Search) : Type 0 where
  pub cells : out.meta_values ≡ grow_all 0 vs q.meta_values
  pub structured : out.structured_meta_variables ≡ grow_all none vs q.structured_meta_variables
  pub solver : out.solver ≡ q.solver
  pub same : out.meta_variables ≡ q.meta_variables
  pub core : out.core_size ≡ q.core_size
  pub links : length out.literal_to_meta_variable ≡ length q.literal_to_meta_variable
  pub linked :
      (n : ℕ)
      → i + length vs ≤ n
      → All (IsLink n) q.literal_to_meta_variable
      → All (IsLink n) out.literal_to_meta_variable

first_choice :
    (core : ℕ) (v : MetaVariable)
    → IsChoosable core v
    → (ls : List Literal) × (get_elem? v.variables 0 ≡ some ls) × All (IsCore core) ls
first_choice core v h = go v.variables h.choices h.literals
  where
    go :
        (choices : List (List Literal))
        → 0 < length choices
        → All (All (IsCore core)) choices
        → (ls : List Literal) × (get_elem? choices 0 ≡ some ls) × All (IsCore core) ls
    go [] p a = absurd (omega (arith, p))
    go (c ∷ choices) p a = (c, refl, a.0)

pub place_cells-Yields :
    (core i : ℕ) (vs : List MetaVariable) (q : Search)
    → All (IsChoosable core) vs
    → core < length q.literal_to_meta_variable
    → Yields (place_cells i vs q) (IsPlaced i vs q)
unfolding place_cells grow_all
place_cells-Yields core i [] q h w = record {
  cells = refl;
  structured = refl;
  solver = refl;
  same = refl;
  core = refl;
  links = refl;
  linked = λ n p a. a;
}
place_cells-Yields core i (v ∷ vs) q h w =
    let (ls, at, literals) = first_choice core v h.0 in
    rw at (
      Yields-bind (link_literals i ls q.literal_to_meta_variable) _ _ _
        (link_literals-Yields core i ls q.literal_to_meta_variable literals w)
        (λ links k.
          Yields-map (place_cells (suc i) vs _) _ _
            (place_cells-Yields core (suc i) vs _ h.1 (rw k.size w))
            (λ out r. record {
              cells = r.cells;
              structured = r.structured;
              solver = r.solver;
              same = r.same;
              core = r.core;
              links = r.links ∙ k.size;
              linked = λ n p a. r.linked n (omega arith) (k.linked n (omega arith) a);
            })))
