-- ===== src/Incremental/Models.antt =====
-- What the files of the incremental program hold.
use mathlib.Core.List.{append_assoc, append-nil}
use latin_squares_diploma_it.Prelude.{
  ℕ, zero, suc, ◌+◌, ◌≡◌, ◌≢◌, refl, sym, ap, ◌∙◌, arith, Bool, true, false, List, [], ◌∷◌, ◌++◌,
  ◌==◌, any, All, All-map, get_or, ℤ, pos, negsuc, ◌⊎◌, subst, Bool-cases, inl, inr,
}
use latin_squares_diploma_it.Incremental.Reading.{Lit}
use latin_squares_diploma_it.Incremental.Rounds.{
  Lbool, l_true, l_false, l_undef, is_true, SatSolver, print_model, add_clauses, run_groups, run,
}

-- The integer of a literal, and whether it stands among others.
abbrev pub int_of : Lit → ℤ
int_of l = elim l.inverted [ true ↦ negsuc l.var | false ↦ pos (l.var + 1) ]

abbrev pub same_int : ℤ → ℤ → Bool
same_int (pos n) (pos m) = n == m
same_int (negsuc n) (negsuc m) = n == m
same_int (pos n) (negsuc m) = false
same_int (negsuc n) (pos m) = false

-- Some literal of each clause is written.
abbrev pub Satisfies : List ℤ → List (List Lit) → Type 0
Satisfies written clauses = All (λ c. any (λ l. any (same_int (int_of l)) written) c ≡ true) clauses

written_true :
    (model : List Lbool) (i v : ℕ)
    → get_or model v l_undef ≡ l_true
    → any (same_int (pos (i + v + 1))) (print_model i model) ≡ true
unfolding print_model
written_true [] i v e = cc
written_true (l_true ∷ model) i zero e = ground arith
written_true (l_false ∷ model) i zero e = cc
written_true (l_undef ∷ model) i zero e = cc
written_true (l_true ∷ model) i (suc v) e = ground (arith, written_true model (suc i) v e)
written_true (l_false ∷ model) i (suc v) e = ground (arith, written_true model (suc i) v e)
written_true (l_undef ∷ model) i (suc v) e = ground (arith, written_true model (suc i) v e)

written_false :
    (model : List Lbool) (i v : ℕ)
    → get_or model v l_undef ≡ l_false
    → any (same_int (negsuc (i + v))) (print_model i model) ≡ true
unfolding print_model
written_false [] i v e = cc
written_false (l_true ∷ model) i zero e = cc
written_false (l_false ∷ model) i zero e = ground arith
written_false (l_undef ∷ model) i zero e = cc
written_false (l_true ∷ model) i (suc v) e = ground (arith, written_false model (suc i) v e)
written_false (l_false ∷ model) i (suc v) e = ground (arith, written_false model (suc i) v e)
written_false (l_undef ∷ model) i (suc v) e = ground (arith, written_false model (suc i) v e)

Lbool-cases : (b : Lbool) → (b ≡ l_true) ⊎ (b ≡ l_false) ⊎ (b ≡ l_undef)
Lbool-cases l_true = inl refl
Lbool-cases l_false = inr (inl refl)
Lbool-cases l_undef = inr (inr refl)

-- A literal that is true in the model is written.
written_literal :
    (model : List Lbool) (l : Lit)
    → is_true model l ≡ true
    → any (same_int (int_of l)) (print_model 0 model) ≡ true
written_literal model l h = elim (Lbool-cases (get_or model l.var l_undef)) [
  | inl e ↦ elim (Bool-cases l.inverted) [
    | inl k ↦ absurd (cc (rw (e, k, is_true) at h))
    | inr k ↦
        rw (k, int_of)
          (subst (λ (n : ℕ). any (same_int (pos n)) (print_model 0 model) ≡ true) (omega arith)
            (written_true model 0 l.var e))
  ]
  | inr (inl e) ↦ elim (Bool-cases l.inverted) [
    | inl k ↦
        rw (k, int_of)
          (subst (λ (n : ℕ). any (same_int (negsuc n)) (print_model 0 model) ≡ true) (omega arith)
            (written_false model 0 l.var e))
    | inr k ↦ absurd (cc (rw (e, k, is_true) at h))
  ]
  | inr (inr e) ↦ absurd (cc (rw (e, is_true) at h))
]

written_clause :
    (model : List Lbool) (c : List Lit)
    → any (is_true model) c ≡ true
    → any (λ l. any (same_int (int_of l)) (print_model 0 model)) c ≡ true
written_clause model [] h = cc
written_clause model (l ∷ c) h = elim (Bool-cases (is_true model l)) [
  | inl e ↦ rw (written_literal model l e) refl
  | inr e ↦ rw (written_clause model c (rw e at h)) (ground arith)
]

module _ {S : Type 0} (sat : SatSolver S) where
  -- File `i` is written for group `i` and satisfies the clauses before with those of the groups up to
  -- it. Where no file is written for a group, the solver did not answer true on these clauses.
  abbrev pub AreModels : List (List Lit) → ℕ → List (List (List Lit)) → List (ℕ × List ℤ) → Type 0
  AreModels clauses i [] [] = Unit
  AreModels clauses i [] (file ∷ files) = ⊥
  AreModels clauses i (group ∷ groups) [] =
      (s : S) × (sat.clauses s ≡ clauses ++ group) × ((sat.solve s).1 ≢ l_true)
  AreModels clauses i (group ∷ groups) ((j, written) ∷ files) =
      (j ≡ i)
      × Satisfies written (clauses ++ group)
      × AreModels (clauses ++ group) (suc i) groups files

  clauses-add_clauses :
      (cs : List (List Lit)) (s : S) → sat.clauses (add_clauses sat cs s) ≡ sat.clauses s ++ cs
  unfolding add_clauses
  clauses-add_clauses [] s = sym (append-nil (sat.clauses s))
  clauses-add_clauses (c ∷ cs) s =
      clauses-add_clauses cs (sat.add_clause c s)
      ∙ ap (λ (t : List (List Lit)). t ++ cs) (sat.added c s)
      ∙ append_assoc (sat.clauses s) (c ∷ []) cs

  run_groups-AreModels :
      (i : ℕ) (groups : List (List (List Lit))) (s : S) (clauses : List (List Lit))
      → sat.clauses s ≡ clauses
      → AreModels clauses i groups (run_groups sat i groups s)
  unfolding run_groups
  run_groups-AreModels i [] s clauses e = tt
  run_groups-AreModels i (group ∷ groups) s clauses e =
      let t = add_clauses sat group s in
      let r = sat.solve t in
      let after : sat.clauses t ≡ clauses ++ group =
        clauses-add_clauses group s ∙ ap (λ (cs : List (List Lit)). cs ++ group) e in
      elim (Lbool-cases r.1) [
        | inl answer ↦
            rw (answer, run_groups)
              (
                refl,
                subst (Satisfies (print_model 0 (sat.get_model r.0))) after (
                    All-map (sat.clauses t) (λ c h. written_clause (sat.get_model r.0) c h)
                      (sat.models t answer)),
                run_groups-AreModels (suc i) groups r.0 (clauses ++ group) (sat.kept t ∙ after),
              )
        | inr (inl answer) ↦ rw (answer, run_groups) (t, after, λ h. cc)
        | inr (inr answer) ↦ rw (answer, run_groups) (t, after, λ h. cc)
      ]

  -- With a SAT solver whose models make the added clauses true, the files are written for the first
  -- groups in their order, as many as the solver answers true on, and in file i every clause of the
  -- formula and of the groups up to i has a literal that is written there.
  pub run-AreModels :
      (literal_count : ℤ) (main_clauses : List (List Lit)) (groups : List (List (List Lit)))
      → AreModels main_clauses 0 groups (run sat literal_count main_clauses groups)
  unfolding run
  run-AreModels literal_count main_clauses groups = run_groups-AreModels 0 groups _ main_clauses (
      sat.kept (add_clauses sat main_clauses (sat.new_vars literal_count))
      ∙ clauses-add_clauses main_clauses (sat.new_vars literal_count)
      ∙ ap (λ (cs : List (List Lit)). cs ++ main_clauses) (sat.fresh literal_count))
