-- ===== src/Prelude/Rows.antt =====
-- Rows of a table: what an UPDATE with a WHERE clause and an INSERT do to a map.
use Prim.Native.String.{String}
use mathlib.Core.Path.{◌≡◌, refl}
use mathlib.Core.Bool.{Bool}
use mathlib.Core.Option.{Option, none, some}
use mathlib.Core.List.{List, [], ◌∷◌}
use native.Mathlib.Omega.{arith}
use text.Mathlib.TextEquality.{eq_iff}
use hanamaru_shientool_prod.Prelude.Tests.{if◌then◌else◌}
use hanamaru_shientool_prod.Prelude.Text.{str_eq}
use hanamaru_shientool_prod.Prelude.Maps.{get}

abbrev pub change_if {ℓ} : {A : Type ℓ} → (A → Bool) → (A → A) → A → A
change_if p f a = if p a then f a else a

abbrev pub on_some {ℓ} : {A : Type ℓ} → (A → A) → Option A → Option A
on_some f none = none
on_some f (some a) = some (f a)

-- `UPDATE ... WHERE p`.
unfoldable pub update_rows {ℓ} :
    {V : Type ℓ} → (V → Bool) → (V → V) → List (String × V) → List (String × V)
update_rows p f [] = []
update_rows p f ((k, v) ∷ m) = (k, change_if p f v) ∷ update_rows p f m

-- `UPDATE ... WHERE id = k`.
unfoldable pub update_row {ℓ} :
    {V : Type ℓ} → String → (V → V) → List (String × V) → List (String × V)
update_row k f [] = []
update_row k f ((j, v) ∷ m) =
    let rest = update_row k f m in (j, if str_eq j k then f v else v) ∷ rest

module _ {ℓ} {V : Type ℓ} where
  pub get-update_rows :
      (p : V → Bool) (f : V → V) (k : String) (m : List (String × V))
      → get k (update_rows p f m) ≡ on_some (change_if p f) (get k m)
  unfolding get update_rows
  get-update_rows p f k [] = refl
  get-update_rows p f k ((j, v) ∷ m) = ground (arith, get-update_rows p f k m)

  pub get-update_row :
      (i k : String) (f : V → V) (m : List (String × V))
      → get k (update_row i f m) ≡ (if str_eq i k then on_some f (get k m) else get k m)
  unfolding get update_row
  get-update_row i k f [] = ground arith
  get-update_row i k f ((j, v) ∷ m) =
      ground (arith, eq_iff i k, eq_iff j i, eq_iff j k, get-update_row i k f m)
