-- ===== src/Yahoo/Registry.antt =====
-- The registry of categories and brands, and model numbers in titles:
-- packages/market-price/src/index.ts. A date that is no date compares as false, as `none` here.
pub mod Unique
use Prim.Native.Char.{Char, code}
use Prim.Native.String
use Prim.Native.String.{String}
use hanamaru_shientool_prod.Prelude.{
  ℕ, suc, ◌+◌, Bool, true, false, not, ◌&&◌, ◌||◌, Option, none, some, List, [], ◌∷◌, any, keep,
  ltb, if◌then◌else◌, ◌==◌,
}
use hanamaru_shientool_prod.Prelude.Text.{str_eq, is_empty, is_alnum, utf16_length}
use hanamaru_shientool_prod.Prelude.Substrings.{starts, drop_chars}
use hanamaru_shientool_prod.Yahoo.{Web, normalize_label}

pub data RegistryStatus : Type 0 where
  confirmed compatible deprecated : RegistryStatus

pub record Mapping : Type 0 where
  pub key : String
  pub source_id : String
  pub canonical_name : String
  pub aliases : List String
  pub status : RegistryStatus
  pub expires_at : Option ℕ

abbrev pub is_usable : RegistryStatus → Bool
is_usable deprecated = false
is_usable _ = true

abbrev pub is_expired : Option ℕ → ℕ → Bool
is_expired none now = false
is_expired (some t) now = ltb t now

abbrev pub only : {A : Type 0} → List A → Option A
only (x ∷ []) = some x
only _ = none

module _ (w : Web) where
  abbrev pub is_called : String → Mapping → Bool
  is_called needle m = any (λ s. str_eq (normalize_label w s) needle) (m.canonical_name ∷ m.aliases)

  abbrev pub applies : String → ℕ → Mapping → Bool
  applies needle now m =
      is_usable m.status && (not (is_expired m.expires_at now) && is_called needle m)

  -- `resolveYahooDimensionMapping`.
  unfoldable pub resolve : Option String → List Mapping → ℕ → Option Mapping
  unfolding normalize_label
  resolve none ms now = none
  resolve (some value) ms now =
      if is_empty value then none else only (keep (applies (normalize_label w value) now) ms)

  -- `normalizeModelNumber`.
  unfoldable pub normalize_model : String → String
  normalize_model s = drop_chars (λ c. not (w.is_word c)) (w.lower (w.nfkc s))

  -- The next character is no letter or digit of ASCII (the text has been lower-cased).
  abbrev ends_word : String → Bool
  ends_word String.[] = true
  ends_word (String.◌∷◌ c s) = not (is_alnum c)

  abbrev after : String → String → Option String
  after String.[] s = some s
  after (String.◌∷◌ c p) String.[] = none
  after (String.◌∷◌ c p) (String.◌∷◌ d s) =
      let rest = after p s in if code c == code d then rest else none

  abbrev ends_here : Option String → Bool
  ends_here none = false
  ends_here (some s) = ends_word s

  -- The loop over the positions of the model number.
  abbrev pub occurs : String → String → Bool
  occurs model String.[] = ends_here (after model String.[])
  occurs model (String.◌∷◌ c s) = ends_here (after model (String.◌∷◌ c s)) || occurs model s

  -- `titleMatchesModelNumber`.
  unfoldable pub title_matches_model : String → String → Bool
  unfolding normalize_model
  title_matches_model title model =
      let m = normalize_model model in
      if ltb (utf16_length m) 2 then false else occurs m (normalize_model title)
