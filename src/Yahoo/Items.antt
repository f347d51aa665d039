-- ===== src/Yahoo/Items.antt =====
-- What the two parsers of result pages share: packages/market-price/src/index.ts. `Reader` is what they
-- take from outside: `String(v ?? "")` and `Number(v)` of a JSON value (where that is a natural
-- number), `Date.parse`, the calendar of Japan, `JSON.parse`, the size in bytes and the two regular
-- expressions on HTML. Instants are milliseconds. The hashes of items and pages are not modelled.

use Prim.Native.String.{String}
use hanamaru_shientool_prod.Prelude.{
  ℕ, ◌+◌, ◌*◌, Bool, true, not, ◌&&◌, ◌||◌, Option, none, some, List, [], ◌∷◌, length, ltb, ◌==◌,
  if◌then◌else◌, Result, ok, err,
}
use hanamaru_shientool_prod.Json.{Json, safe_limit}
use hanamaru_shientool_prod.Yahoo.{
  ProductCondition, SearchError, sort_contract_mismatch, price_parse_failure_rate,
}

pub record Reader : Type 0 where
  pub text : Json → String
  pub number : Json → Option ℕ
  pub date : String → Option ℕ
  pub noon : String → Option ℕ
  pub day : ℕ → String
  pub json : String → Option Json
  pub byte_length : String → ℕ
  pub encode : String → String

pub data SourceType : Type 0 where
  auction fleamarket : SourceType

pub data TaxDisplay : Type 0 where
  included not_included unknown : TaxDisplay

-- The last field says whether the item came from the interface of Aucfan.
pub record Item : Type 0 where
  pub source_item_id : String
  pub source_type : SourceType
  pub canonical_url : String
  pub title : String
  pub closing_price : ℕ
  pub ended_at : ℕ
  pub ended_on : Option String
  pub source_condition : Option String
  pub normalized_condition : ProductCondition
  pub tax_display : TaxDisplay
  pub category_id : Option String
  pub brand_id : Option String
  pub is_aucfan : Bool

pub record Page : Type 0 where
  pub items : List Item
  pub source_item_count : ℕ
  pub parse_failure_count : ℕ
  pub total_results_available : ℕ
  pub max_page_number : Option ℕ
  pub newest_ended_at : Option ℕ
  pub oldest_ended_at : Option ℕ

-- `aucfanInteger` and `finiteInteger`.
unfoldable pub integer : Reader → Json → ℕ → Option ℕ
integer r v least = elim (r.number v) [
  | none ↦ none
  | some n ↦ if not (ltb n safe_limit) || ltb n least then none else some n
]

abbrev added : Option Item → List Item × ℕ → List Item × ℕ
added none (is, n) = (is, n + 1)
added (some i) (is, n) = (i ∷ is, n)

-- The loop over the raw items: those that can be read, and the number of the others.
unfoldable pub read_items : (Json → Option Item) → List Json → List Item × ℕ
read_items f [] = ([], 0)
read_items f (v ∷ vs) = added (f v) (read_items f vs)

-- No item ended before the next one.
unfoldable pub newest_first : List Item → Bool
newest_first [] = true
newest_first (i ∷ []) = true
newest_first (i ∷ (j ∷ is)) = not (ltb i.ended_at j.ended_at) && newest_first (j ∷ is)

abbrev newest : List Item → Option ℕ
newest [] = none
newest (i ∷ is) = some i.ended_at

abbrev oldest : List Item → Option ℕ
oldest [] = none
oldest (i ∷ []) = some i.ended_at
oldest (i ∷ (j ∷ is)) = oldest (j ∷ is)

-- `count > 0 && (!items.length || failures / count > .05)`.
abbrev pub fails_rate : ℕ → ℕ → ℕ → Bool
fails_rate count read failures = ltb 0 count && (read == 0 || ltb count (failures * 20))

abbrev pub built : ℕ → List Item → ℕ → ℕ → Option ℕ → Page
built count is failures available pages = record {
  items = is;
  source_item_count = count;
  parse_failure_count = failures;
  total_results_available = available;
  max_page_number = pages;
  newest_ended_at = newest is;
  oldest_ended_at = oldest is;
}

-- The tests after the loop, and the page.
unfoldable pub page_of : ℕ → List Item × ℕ → ℕ → Option ℕ → Result SearchError Page
unfolding newest_first
page_of count read available pages =
    if fails_rate count (length read.0) read.1
    then err price_parse_failure_rate
    else if not (newest_first read.0)
    then err sort_contract_mismatch
    else ok (built count read.0 read.1 available pages)
