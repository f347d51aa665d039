-- ===== src/Yahoo/Query.antt =====
-- Search requests and search URLs: packages/market-price/src/index.ts. The sort order and the page
-- size of a request are fixed by their types and are left out of the model.

pub mod Paging
use Prim.Native.Char.{Char, code}
use Prim.Native.String
use Prim.Native.String.{String}
use hanamaru_shientool_prod.Prelude.{
  ℕ, zero, suc, ◌+◌, ◌-◌, ◌*◌, ◌%◌, Bool, true, false, not, ◌&&◌, ◌||◌, Option, none, some, List,
  [], ◌∷◌, ◌++◌, map, length, any, all, keep, is_some, ltb, leb, ◌==◌, if◌then◌else◌, Result, ok,
  err,
}
use hanamaru_shientool_prod.Prelude.Text.{
  str_eq, is_empty, trim, utf16_length, is_digit, all_chars, size, is_alnum,
}
use hanamaru_shientool_prod.Prelude.Maps.{get}
use hanamaru_shientool_prod.Json.{safe_limit}
use hanamaru_shientool_prod.Market.Prices.{sort}
use hanamaru_shientool_prod.Yahoo.{
  ProductCondition, unspecified, unused, near_unused, good, fair, poor, very_poor, Url, Web,
  SearchError, parameter_invalid, url_invalid, normalize_keyword, ◌>>=◌,
}

pub data ItemStatus : Type 0 where
  new used : ItemStatus

pub data Period : Type 0 where
  latest three_months : Period

pub record AucfanRequest : Type 0 where
  pub keyword : String
  pub period : Period
  pub page : ℕ
  pub item_status : Option ItemStatus

pub record SearchSpec : Type 0 where
  pub keyword : String
  pub category_id : Option String
  pub brand_id : Option String
  pub condition_ids : Option (List ℕ)
  pub offset : ℕ

pub record GeneratedUrl : Type 0 where
  pub url : String
  pub canonical_params : List (String × String)
  pub canonical_spec : SearchSpec
  pub url_hash : String

-- `conditionIdByProductCondition`.
abbrev pub condition_id : ProductCondition → Option ℕ
condition_id unspecified = none
condition_id unused = some 1
condition_id near_unused = some 3
condition_id good = some 4
condition_id fair = some 5
condition_id poor = some 6
condition_id very_poor = some 7

abbrev pub is_unspecified : ProductCondition → Bool
is_unspecified unspecified = true
is_unspecified _ = false

abbrev pub is_unused : ProductCondition → Bool
is_unused unused = true
is_unused _ = false

abbrev status_of : Bool → Bool → Option ItemStatus
status_of true false = some new
status_of false true = some used
status_of _ _ = none

-- `aucfanItemStatus`.
unfoldable pub aucfan_item_status : List ProductCondition → Result SearchError (Option ItemStatus)
aucfan_item_status [] = err parameter_invalid
aucfan_item_status (c ∷ cs) =
    if any is_unspecified (c ∷ cs)
    then ok none
    else ok (status_of (any is_unused (c ∷ cs)) (any (λ x. not (is_unused x)) (c ∷ cs)))

-- `[...new Set(…)]` of numbers.
abbrev pub unique : List ℕ → List ℕ
unique [] = []
unique (n ∷ ns) = n ∷ keep (λ m. not (m == n)) (unique ns)

abbrev pub ids_of : List ProductCondition → Option (List ℕ)
ids_of [] = some []
ids_of (c ∷ cs) = elim (condition_id c) [
  | none ↦ none
  | some n ↦ elim (ids_of cs) [ none ↦ none | some ns ↦ some (n ∷ ns) ]
]

abbrev or_invalid : {A : Type 0} → Option A → Result SearchError A
or_invalid none = err parameter_invalid
or_invalid (some a) = ok a

-- `mapProductConditions`.
unfoldable pub map_product_conditions : List ProductCondition → Result SearchError (Option (List ℕ))
map_product_conditions [] = err parameter_invalid
map_product_conditions (c ∷ cs) =
    if any is_unspecified (c ∷ cs)
    then ok none
    else or_invalid (ids_of (c ∷ cs)) >>= (λ ns. ok (some (sort (unique ns))))

-- `pageOffset`.
unfoldable pub page_offset : ℕ → Result SearchError ℕ
page_offset page =
    if ltb page 1 || ltb 20 page then err parameter_invalid else ok (1 + (page - 1) * 100)

-- `validatedOffset`.
unfoldable pub validated_offset : ℕ → Result SearchError ℕ
validated_offset offset =
    if not (ltb offset safe_limit) || ltb offset 1 || not ((offset - 1) % 100 == 0)
    then err parameter_invalid
    else ok offset

abbrev pub starts_nonzero : String → Bool
starts_nonzero String.[] = false
starts_nonzero (String.◌∷◌ c s) = is_digit c && not (code c == b'0')

-- `validatedSourceId`.
unfoldable pub validated_source_id : Option String → Result SearchError (Option String)
validated_source_id none = ok none
validated_source_id (some s) =
    let t = trim s in
    if starts_nonzero t && all_chars is_digit t && leb (size t) 19
    then ok (some t)
    else err parameter_invalid

abbrev allowed_id : ℕ → Bool
allowed_id n = n == 1 || n == 3 || n == 4 || n == 5 || n == 6 || n == 7

abbrev pub param : String → Option String → List (String × String)
param k none = []
param k (some v) = (k, v) ∷ []

abbrev pub join : (ℕ → String) → List ℕ → String
join show [] = String.[]
join show (n ∷ []) = show n
join show (n ∷ (m ∷ ns)) = String.◌++◌ (show n) (String.◌++◌ "," (join show (m ∷ ns)))

abbrev pub id_text : (ℕ → String) → Option (List ℕ) → Option String
id_text show none = none
id_text show (some []) = none
id_text show (some (n ∷ ns)) = some (join show (n ∷ ns))

abbrev pub canonical_ids : Option (List ℕ) → Option (List ℕ)
canonical_ids none = none
canonical_ids (some ns) = some (sort (unique ns))

abbrev pub ids_allowed : Option (List ℕ) → Bool
ids_allowed none = true
ids_allowed (some ns) = all allowed_id ns

abbrev pub origin : String
origin = "https://auctions.yahoo.co.jp"

abbrev pub path : String
path = "/closedsearch/closedsearch"

module _ (w : Web) where
  -- `createAucfanSearchRequest`.
  unfoldable pub aucfan_request :
      String → Period → ℕ → List ProductCondition → Result SearchError AucfanRequest
  unfolding normalize_keyword aucfan_item_status
  aucfan_request keyword period page conditions =
      let k = normalize_keyword w keyword in
      if is_empty k || ltb 200 (utf16_length k) || ltb page 1 || ltb 20 page
      then err parameter_invalid
      else aucfan_item_status conditions
        >>= (λ s. ok (record { keyword = k; period = period; page = page; item_status = s }))

  abbrev pub params_of : SearchSpec → List (String × String)
  params_of spec =
      ("p", spec.keyword)
      ∷ (param "auccat" spec.category_id
          ++ (param "brand_id" spec.brand_id
              ++ (param "istatus" (id_text w.show spec.condition_ids)
                  ++ (("select", w.show 6)
                      ∷ (("n", w.show 100) ∷ (("b", w.show spec.offset) ∷ []))))))

  abbrev pub generated : SearchSpec → GeneratedUrl
  generated spec =
      let url =
        String.◌++◌ origin (String.◌++◌ path (String.◌++◌ "?" (w.query_text (params_of spec)))) in
      record {
        url = url;
        canonical_params = params_of spec;
        canonical_spec = spec;
        url_hash = w.sha256 url;
      }

  -- `generateYahooClosedSearchUrl`.
  unfoldable pub generate_url : SearchSpec → Result SearchError GeneratedUrl
  unfolding normalize_keyword validated_source_id validated_offset
  generate_url input = do
    let keyword = normalize_keyword w input.keyword
    let ids = canonical_ids input.condition_ids
    checked ←
        if is_empty keyword || ltb 200 (utf16_length keyword)
        then err parameter_invalid
        else ok keyword
    category ← validated_source_id input.category_id
    brand ← validated_source_id input.brand_id
    offset ← validated_offset input.offset
    allowed ← if ids_allowed ids then ok ids else err parameter_invalid
    ok (
        generated (record {
          keyword = checked;
          category_id = category;
          brand_id = brand;
          condition_ids = allowed;
          offset = offset;
        }))
