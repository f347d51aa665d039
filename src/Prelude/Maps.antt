-- ===== src/Prelude/Maps.antt =====
-- A Map with text keys, as the list of its entries in order of insertion.
use Prim.Native.Nat.{◌+◌, ◌≤◌}
use Prim.Native.String.{String}
use mathlib.Core.Path.{◌≡◌, refl, subst, ◌∙◌}
use mathlib.Core.Logic.{inl, inr}
use mathlib.Core.Bool.{Bool, true}
use mathlib.Core.Option.{Option, none, some}
use mathlib.Core.List.{List, [], ◌∷◌}
use native.Mathlib.Omega.{arith}
use text.Mathlib.TextEquality.{eq_iff}
use hanamaru_shientool_prod.Prelude.Tests.{if◌then◌else◌, Bool-cases, some-eq-some}
use hanamaru_shientool_prod.Prelude.Lists.{length, All, keep}
use hanamaru_shientool_prod.Prelude.Text.{str_eq}

-- `Map.get` and `Map.set`: a known key keeps its place.
unfoldable pub get {ℓ} : {V : Type ℓ} → String → List (String × V) → Option V
get k [] = none
get k ((j, v) ∷ m) = let rest = get k m in if str_eq j k then some v else rest

unfoldable pub put {ℓ} : {V : Type ℓ} → String → V → List (String × V) → List (String × V)
put k v [] = (k, v) ∷ []
put k v ((j, u) ∷ m) = let rest = put k v m in if str_eq j k then (j, v) ∷ m else (j, u) ∷ rest

module _ {ℓ} {V : Type ℓ} where
  pub get-put :
      (k j : String) (v : V) (m : List (String × V))
      → get j (put k v m) ≡ (if str_eq k j then some v else get j m)
  unfolding get put
  get-put k j v [] = refl
  get-put k j v ((i, u) ∷ m) = ground (arith, eq_iff k j, eq_iff i k, eq_iff i j, get-put k j v m)

  pub length-put : (k : String) (v : V) (m : List (String × V)) → length (put k v m) ≤ length m + 1
  unfolding put
  length-put k v [] = omega arith
  length-put k v ((j, u) ∷ m) = ground (arith, length-put k v m)

  -- A known key gets no second entry.
  pub length-put_known :
      (k : String) (v u : V) (m : List (String × V))
      → get k m ≡ some u
      → length (put k v m) ≡ length m
  unfolding get put
  length-put_known k v u [] e = cc
  length-put_known k v u ((j, x) ∷ m) e = ground (arith, length-put_known k v u m)

  -- An entry that a filter keeps is still found.
  pub get-keep :
      (p : String × V → Bool) (k : String) (v : V) (m : List (String × V))
      → get k m ≡ some v
      → ((j : String) → p (j, v) ≡ true)
      → get k (keep p m) ≡ some v
  unfolding get
  get-keep p k v [] e h = cc
  get-keep p k v ((j, u) ∷ m) e h = elim (Bool-cases (str_eq j k)) [
    | inl same ↦ let here : u ≡ v = some-eq-some (rw same at e) in ground (arith, h j)
    | inr other ↦ ground (arith, get-keep p k v m (rw other at e) h)
  ]

module _ {ℓ} {V : Type ℓ} where
  -- No key has two entries.
  unfoldable pub IsUnique : List (String × V) → Type ℓ
  IsUnique [] = Unit
  IsUnique ((k, v) ∷ m) = (get k m ≡ none) × IsUnique m

  pub put-IsUnique :
      (k : String) (v : V) (m : List (String × V)) → IsUnique m → IsUnique (put k v m)
  unfolding IsUnique put get
  put-IsUnique k v [] h = (refl, tt)
  put-IsUnique k v ((j, u) ∷ m) (alone, h) = elim (Bool-cases (str_eq j k)) [
    | inl same ↦ rw same (alone, h)
    | inr other ↦ rw other (
      get-put k j v m ∙ ground (arith, other, alone, eq_iff k j, eq_iff j k),
      put-IsUnique k v m h,
    )
  ]

module _ {ℓ κ} {V : Type ℓ} (P : V → Type κ) where
  pub All-put :
      (k : String) (v : V) (m : List (String × V))
      → P v
      → All (λ (e : String × V). P e.1) m
      → All (λ (e : String × V). P e.1) (put k v m)
  unfolding put
  All-put k v [] p h = (p, tt)
  All-put k v ((j, u) ∷ m) p (q, h) = ground (arith, All-put k v m p h)

  pub get-All :
      (k : String) (v : V) (m : List (String × V))
      → All (λ (e : String × V). P e.1) m
      → get k m ≡ some v
      → P v
  unfolding get
  get-All k v [] h e = cc
  get-All k v ((j, u) ∷ m) (q, h) e = elim (Bool-cases (str_eq j k)) [
    | inl same ↦ subst P (some-eq-some (rw same at e)) q
    | inr other ↦ get-All k v m h (rw other at e)
  ]
