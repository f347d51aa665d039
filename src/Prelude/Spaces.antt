-- ===== src/Prelude/Spaces.antt =====
-- White space in a text, tidied: no run of spaces, and none at the ends.
use Prim.Native.Char.{Char}
use Prim.Native.String.{String, [], ◌∷◌}
use mathlib.Core.Path.{◌≡◌, refl, sym, ◌∙◌, ap, ap₂}
use mathlib.Core.Logic.{inl, inr}
use mathlib.Core.Bool.{Bool, true, false, ◌&&◌}
use native.Mathlib.Omega.{arith}
use hanamaru_shientool_prod.Prelude.Tests.{Bool-cases, if◌then◌else◌}
use hanamaru_shientool_prod.Prelude.Text.{
  is_space, blank, is_empty, any_char, trim_start, trim_end, trim, collapse_from, collapse, tidy,
}

-- No run of two spaces, and no space but the blank; the flag says that a space stands before.
abbrev Single : Bool → String → Type 0
Single seen [] = Unit
Single seen (c ∷ s) =
    if is_space c then (seen ≡ false) × (c ≡ blank) × Single true s else Single false s

blank-is_space : is_space blank ≡ true
unfolding is_space
blank-is_space = refl

collapse_from-Single : (seen : Bool) (s : String) → Single seen (collapse_from seen s)
unfolding collapse_from
collapse_from-Single seen [] = tt
collapse_from-Single true (c ∷ s) = elim (Bool-cases (is_space c)) [
  | inl space ↦ rw space (collapse_from-Single true s)
  | inr other ↦ rw other (rw other (collapse_from-Single false s))
]
collapse_from-Single false (c ∷ s) = elim (Bool-cases (is_space c)) [
  | inl space ↦ rw space (rw blank-is_space (refl, refl, collapse_from-Single true s))
  | inr other ↦ rw other (rw other (collapse_from-Single false s))
]

collapse_from_of_Single : (seen : Bool) (s : String) → Single seen s → collapse_from seen s ≡ s
unfolding collapse_from
collapse_from_of_Single seen [] h = refl
collapse_from_of_Single seen (c ∷ s) h = elim (Bool-cases (is_space c)) [
  | inl space ↦
      let (e, b, rest) : (seen ≡ false) × (c ≡ blank) × Single true s = rw space at h in
      rw (space, e) (ap₂ ◌∷◌ (sym b) (collapse_from_of_Single true s rest))
  | inr other ↦
      let rest : Single false s = rw other at h in
      rw other (ap (λ t. c ∷ t) (collapse_from_of_Single false s rest))
]

trim_start-Single : (seen : Bool) (s : String) → Single seen s → Single false (trim_start s)
unfolding trim_start
trim_start-Single seen [] h = tt
trim_start-Single seen (c ∷ s) h = elim (Bool-cases (is_space c)) [
  | inl space ↦
      let (e, b, rest) : (seen ≡ false) × (c ≡ blank) × Single true s = rw space at h in
      rw space (trim_start-Single true s rest)
  | inr other ↦ let rest : Single false s = rw other at h in rw other (rw other rest)
]

trim_end-Single : (seen : Bool) (s : String) → Single seen s → Single seen (trim_end s)
unfolding trim_end
trim_end-Single seen [] h = tt
trim_end-Single seen (c ∷ s) h = elim (Bool-cases (is_space c)) [
  | inl space ↦
      let (e, b, rest) : (seen ≡ false) × (c ≡ blank) × Single true s = rw space at h in
      elim (Bool-cases (is_empty (trim_end s))) [
        | inl gone ↦ rw (space, gone) tt
        | inr more ↦ rw (space, more) (rw space (e, b, trim_end-Single true s rest))
      ]
  | inr other ↦
      let rest : Single false s = rw other at h in
      rw other (rw other (trim_end-Single false s rest))
]

-- The first character is no space.
abbrev Starts : String → Type 0
Starts [] = Unit
Starts (c ∷ s) = is_space c ≡ false

trim_start-Starts : (s : String) → Starts (trim_start s)
unfolding trim_start
trim_start-Starts [] = tt
trim_start-Starts (c ∷ s) = elim (Bool-cases (is_space c)) [
  | inl space ↦ rw space (trim_start-Starts s)
  | inr other ↦ rw other other
]

trim_end-Starts : (s : String) → Starts s → Starts (trim_end s)
unfolding trim_end
trim_end-Starts [] h = tt
trim_end-Starts (c ∷ s) h = rw h h

trim_start_of_Starts : (s : String) → Starts s → trim_start s ≡ s
unfolding trim_start
trim_start_of_Starts [] h = refl
trim_start_of_Starts (c ∷ s) h = rw h

trim_end-trim_end : (s : String) → trim_end (trim_end s) ≡ trim_end s
unfolding trim_end
trim_end-trim_end [] = refl
trim_end-trim_end (c ∷ s) = elim (Bool-cases (is_space c && is_empty (trim_end s))) [
  | inl gone ↦ rw gone refl
  | inr more ↦ rw more (rw (trim_end-trim_end s) (rw more refl))
]

-- A trimmed text has nothing more to trim.
pub trim-trim : (s : String) → trim (trim s) ≡ trim s
unfolding trim
trim-trim s =
    let begun = trim_start s in
    let starts = trim_end-Starts begun (trim_start-Starts s) in
    ap trim_end (trim_start_of_Starts (trim_end begun) starts) ∙ trim_end-trim_end begun

-- Tidying twice changes nothing more.
pub tidy-tidy : (s : String) → tidy (tidy s) ≡ tidy s
unfolding tidy trim collapse
tidy-tidy s =
    let flat = collapse_from false s in
    let begun = trim_start flat in
    let single =
      trim_end-Single false begun (trim_start-Single false flat (collapse_from-Single false s)) in
    let starts = trim_end-Starts begun (trim_start-Starts flat) in
    ap (λ t. trim_end (trim_start t)) {y = trim_end begun}
      (collapse_from_of_Single false (trim_end begun) single)
    ∙ (ap trim_end (trim_start_of_Starts (trim_end begun) starts) ∙ trim_end-trim_end begun)

-- A class of characters that has no blank stays absent.
module _ (p : Char → Bool) (b : p blank ≡ false) where
  any_char-collapse_from :
      (seen : Bool) (s : String) → any_char p s ≡ false → any_char p (collapse_from seen s) ≡ false
  unfolding collapse_from
  any_char-collapse_from seen [] h = refl
  any_char-collapse_from seen (c ∷ s) h =
      ground (arith, any_char-collapse_from true s, any_char-collapse_from false s)

  any_char-trim_start : (s : String) → any_char p s ≡ false → any_char p (trim_start s) ≡ false
  unfolding trim_start
  any_char-trim_start [] h = refl
  any_char-trim_start (c ∷ s) h = ground (arith, any_char-trim_start s)

  any_char-trim_end : (s : String) → any_char p s ≡ false → any_char p (trim_end s) ≡ false
  unfolding trim_end
  any_char-trim_end [] h = refl
  any_char-trim_end (c ∷ s) h = ground (arith, any_char-trim_end s)

  pub any_char-tidy : (s : String) → any_char p s ≡ false → any_char p (tidy s) ≡ false
  unfolding tidy trim collapse
  any_char-tidy s h = any_char-trim_end _ (any_char-trim_start _ (any_char-collapse_from false s h))
