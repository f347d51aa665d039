-- ===== src/Yahoo/Reading.antt =====
-- parseYahooClosedSearchUrl of packages/market-price/src/index.ts.
pub mod RoundTrip
mod Examples
use Prim.Native.Char.{Char, code}
use Prim.Native.String.{String}
use hanamaru_shientool_prod.Prelude.{
  ℕ, Bool, true, false, not, ◌&&◌, ◌||◌, Option, none, some, List, [], ◌∷◌, ◌==◌, any,
  if◌then◌else◌, Result, ok, err,
}
use hanamaru_shientool_prod.Prelude.Text.{str_eq, is_empty}
use hanamaru_shientool_prod.Prelude.Maps.{get}
use hanamaru_shientool_prod.Market.Prices.{sort}
use hanamaru_shientool_prod.Yahoo.{
  Url, Web, SearchError, parameter_invalid, url_invalid, normalize_keyword, ◌>>=◌,
}
use hanamaru_shientool_prod.Yahoo.Query.{
  SearchSpec, validated_offset, validated_source_id, ids_allowed, origin, path,
}

abbrev allowed_parameters : List String
allowed_parameters = "p" ∷ ("auccat" ∷ ("brand_id" ∷ ("istatus" ∷ ("select" ∷ ("n" ∷ ("b" ∷ []))))))

abbrev pub distinct : List String → Bool
distinct [] = true
distinct (k ∷ ks) = not (any (str_eq k) ks) && distinct ks

abbrev keys_of : List (String × String) → List String
keys_of [] = []
keys_of ((k, v) ∷ m) = k ∷ keys_of m

-- `pathname.replace(/\/$/u, "")`.
abbrev without_slash : String → String
without_slash String.[] = String.[]
without_slash (String.◌∷◌ c String.[]) =
    if code c == b'/' then String.[] else String.◌∷◌ c String.[]
without_slash (String.◌∷◌ c (String.◌∷◌ d s)) = String.◌∷◌ c (without_slash (String.◌∷◌ d s))

abbrev pub consed : Char → List String → List String
consed c [] = String.◌∷◌ c String.[] ∷ []
consed c (s ∷ ss) = String.◌∷◌ c s ∷ ss

-- `text.split(",")`.
abbrev pub split : String → List String
split String.[] = String.[] ∷ []
split (String.◌∷◌ c s) =
    let rest = split s in if code c == b',' then String.[] ∷ rest else consed c rest

-- A missing parameter is `null`, whose `Number` is 0.
abbrev number_of : Web → Option String → Option ℕ
number_of w none = some 0
number_of w (some s) = w.number s

abbrev pub numbers : Web → List String → Option (List ℕ)
numbers w [] = some []
numbers w (s ∷ ss) = elim (w.number s) [
  | none ↦ none
  | some n ↦ elim (numbers w ss) [ none ↦ none | some ns ↦ some (n ∷ ns) ]
]

abbrev is_number : Option ℕ → ℕ → Bool
is_number none m = false
is_number (some n) m = n == m

abbrev or_empty : Option String → String
or_empty none = String.[]
or_empty (some s) = s

-- What is no number of the list is refused after sorting; the order does not matter for that.
abbrev ids_from : Option (List ℕ) → Result SearchError (Option (List ℕ))
ids_from none = err parameter_invalid
ids_from (some ns) =
    if ids_allowed (some (sort ns)) then ok (some (sort ns)) else err parameter_invalid

abbrev ids_in : Web → Option String → Result SearchError (Option (List ℕ))
ids_in w none = ok none
ids_in w (some s) = if is_empty s then ok none else ids_from (numbers w (split s))

abbrev offset_from : Option ℕ → Result SearchError ℕ
offset_from none = err parameter_invalid
offset_from (some n) = validated_offset n

abbrev not_empty : Option String → Option String
not_empty none = none
not_empty (some s) = if is_empty s then none else some s

abbrev is_search : Url → Bool
is_search u =
    str_eq u.origin origin
    && (str_eq (without_slash u.pathname) path
        && (is_empty u.username && (is_empty u.password && is_empty u.hash)))

module _ (w : Web) where
  -- The parameters p, select, n, b, auccat, brand_id and istatus.
  unfoldable pub read_values :
      Option String
      → Option String
      → Option String
      → Option String
      → Option String
      → Option String
      → Option String
      → Result SearchError SearchSpec
  unfolding normalize_keyword
  read_values p select n b auccat brand_id istatus =
      let keyword = normalize_keyword w (or_empty p) in
      if is_empty keyword
        || (not (is_number (number_of w select) 6) || not (is_number (number_of w n) 100))
      then err parameter_invalid
      else offset_from (number_of w b) >>= (λ offset. validated_source_id auccat >>= (λ category.
        validated_source_id brand_id >>= (λ brand. ids_in w istatus >>= (λ ids. ok (record {
          keyword = keyword;
          category_id = not_empty category;
          brand_id = not_empty brand;
          condition_ids = ids;
          offset = offset;
        })))))

  unfoldable pub read_params : List (String × String) → Result SearchError SearchSpec
  unfolding read_values
  read_params ps =
      if not (distinct (keys_of ps))
        || any (λ k. not (any (str_eq k) allowed_parameters)) (keys_of ps)
      then err parameter_invalid
      else read_values (get "p" ps) (get "select" ps) (get "n" ps) (get "b" ps) (get "auccat" ps)
          (get "brand_id" ps) (get "istatus" ps)

  -- `parseYahooClosedSearchUrl`.
  unfoldable pub parse_url : String → Result SearchError SearchSpec
  unfolding read_params
  parse_url value = elim (w.read_url value) [
    | none ↦ err url_invalid
    | some u ↦ if is_search u then read_params u.params else err url_invalid
  ]
