-- ===== src/Input/Lines.antt =====
-- When the loop of `readDimacs` over the comments ends.
use Prim.Native.String.{String}
use text.Mathlib.Text.{starts_with}
use latin_squares_diploma_it.Prelude.{
  ℕ, zero, suc, ◌+◌, ◌<◌, ◌≡◌, refl, arith, true, false, List, [], ◌∷◌, ◌++◌, Outcome, done, fault,
  stuck, ◌>>=◌, length, All, ℤ, replicate, ◌⊎◌, inl, inr,
}
use latin_squares_diploma_it.Input.Token.{Token}
use latin_squares_diploma_it.Input.Sections.{Sections, read_line, read_lines}

abbrev pub IsComment : String → Type 0
IsComment line = starts_with line "c" ≡ true

Outcome-cases : {A : Type 0} (o : Outcome A) → ((a : A) × (o ≡ done a)) ⊎ (o ≡ fault) ⊎ (o ≡ stuck)
Outcome-cases (done a) = inl (a, refl)
Outcome-cases fault = inr (inl refl)
Outcome-cases stuck = inr (inr refl)

-- The last of the lines after the given one, or that one.
abbrev pub last_line : String → List String → String
last_line line [] = line
last_line line (next ∷ lines) = last_line next lines

module _ (tokens : String → List Token) (unset : ℤ) where
  -- The lines one after the other.
  abbrev pub read_each : Sections → List String → Outcome Sections
  read_each s [] = done s
  read_each s (line ∷ lines) = read_line tokens unset s line >>= λ s'. read_each s' lines

  -- Where the lines before some line start with a c and that line does not, a round for each of them
  -- and two more are enough: each is read in its section, the one that ends the comments too, and what
  -- follows is left.
  pub read_lines-read_each :
      (before : List String) (last : String) (after : List String) (s : Sections) (line : String)
      (fuel : ℕ)
      → IsComment line
      → All IsComment before
      → starts_with last "c" ≡ false
      → length before + 1 < fuel
      → read_lines tokens unset fuel s line (before ++ last ∷ after)
        ≡ (read_each s (before ++ last ∷ []) >>= λ s'. done (s', last, after))
  unfolding read_lines
  read_lines-read_each before last after s line zero c h e k = absurd (omega arith)
  read_lines-read_each [] last after s line (suc zero) c h e k = absurd (omega arith)
  read_lines-read_each [] last after s line (suc (suc fuel)) c h e k =
      elim (Outcome-cases (read_line tokens unset s last)) [
        | inl (s', p) ↦ rw (c, read_lines, p, e, read_lines) refl
        | inr (inl p) ↦ rw (c, read_lines, p) refl
        | inr (inr p) ↦ rw (c, read_lines, p) refl
      ]
  read_lines-read_each (b ∷ before) last after s line (suc fuel) c h e k =
      elim (Outcome-cases (read_line tokens unset s b)) [
        | inl (s', p) ↦
            rw (c, read_lines, p)
              (read_lines-read_each before last after s' b fuel h.0 h.1 e (omega arith))
        | inr (inl p) ↦ rw (c, read_lines, p) refl
        | inr (inr p) ↦ rw (c, read_lines, p) refl
      ]

  again :
      (k : ℕ) (s : Sections) (line : String)
      → IsComment line
      → read_lines tokens unset k s line [] ≡ (read_each s (replicate k line) >>= λ s'. stuck)
  unfolding read_lines
  again zero s line c = refl
  again (suc k) s line c = elim (Outcome-cases (read_line tokens unset s line)) [
    | inl (s', p) ↦ rw (c, read_lines, p) (again k s' line c)
    | inr (inl p) ↦ rw (c, read_lines, p) refl
    | inr (inr p) ↦ rw (c, read_lines, p) refl
  ]

  -- On a file whose lines all start with a c, the last of which has no line end, the loop over the
  -- comments does not end: with k rounds more than there are lines left, whatever k, it reads each
  -- of these and then k times the last line again, and the rounds run out, unless it fails to read
  -- a line.
  pub read_lines_loops :
      (k : ℕ) (s : Sections) (line : String) (lines : List String)
      → IsComment line
      → All IsComment lines
      → read_lines tokens unset (length lines + k) s line lines
        ≡ (read_each s (lines ++ replicate k (last_line line lines)) >>= λ s'. stuck)
  unfolding read_lines
  read_lines_loops k s line [] c h =
      let rounds : 0 + k ≡ k = omega arith in rw rounds (again k s line c)
  read_lines_loops k s line (next ∷ lines) c h =
      let rounds : suc (length lines) + k ≡ suc (length lines + k) = omega arith in
      elim (Outcome-cases (read_line tokens unset s next)) [
        | inl (s', p) ↦ rw (rounds, c, read_lines, p) (read_lines_loops k s' next lines h.0 h.1)
        | inr (inl p) ↦ rw (rounds, c, read_lines, p) refl
        | inr (inr p) ↦ rw (rounds, c, read_lines, p) refl
      ]
