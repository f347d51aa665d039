-- ===== src/Yahoo/Pages.antt =====
-- parseAucfanSearchJson and parseYahooClosedSearchHtml: packages/market-price/src/index.ts.
pub mod Sound
use Prim.Native.Char.{Char, code}
use Prim.Native.String
use Prim.Native.String.{String}
use hanamaru_shientool_prod.Prelude.{
  ℕ, zero, suc, ◌+◌, ◌*◌, Bool, true, false, not, ◌&&◌, ◌||◌, Option, none, some, List, [], ◌∷◌,
  length, ltb, ◌==◌, if◌then◌else◌, Result, ok, err, take, is_some,
}
use hanamaru_shientool_prod.Prelude.Text.{str_eq, is_empty, trim, size, is_digit, all_chars}
use hanamaru_shientool_prod.Prelude.Substrings.{starts}
use hanamaru_shientool_prod.Json.{
  Json, undefined, null, bool, num, nat, str, arr, obj, Members, items, field, text_of,
}
use hanamaru_shientool_prod.Yahoo.{
  ProductCondition, unspecified, unused, near_unused, good, fair, poor, very_poor, Web, SearchError,
  response_too_large, captcha_detected, parser_contract_mismatch, sort_contract_mismatch, upstream,
  normalize_keyword, ◌>>=◌,
}
use hanamaru_shientool_prod.Yahoo.Script.{is_captcha, script}
use hanamaru_shientool_prod.Yahoo.Items.{
  Reader, SourceType, auction, fleamarket, TaxDisplay, Item, Page, integer, read_items, page_of,
}

abbrev pub is_object : Json → Bool
is_object (obj ms) = true
is_object _ = false

abbrev first_chars : ℕ → String → String
first_chars zero s = String.[]
first_chars (suc n) String.[] = String.[]
first_chars (suc n) (String.◌∷◌ c s) = String.◌∷◌ c (first_chars n s)

abbrev without : ℕ → String → String
without zero s = s
without (suc n) String.[] = String.[]
without (suc n) (String.◌∷◌ c s) = without n s

abbrev dashed : String → String
dashed s = String.◌++◌ (first_chars 4 s) (
    String.◌++◌ "-"
      (String.◌++◌ (first_chars 2 (without 4 s)) (String.◌++◌ "-" (first_chars 2 (without 6 s)))))

-- `aucfanEndedAt`: the day, and noon of it in Japan.
unfoldable pub aucfan_ended_at : Reader → Json → Option (String × ℕ)
aucfan_ended_at r v =
    let s = r.text v in
    if not (size s == 8 && all_chars is_digit s) then none else elim (r.noon (dashed s)) [
      | none ↦ none
      | some t ↦ if str_eq (r.day t) (dashed s) then some (dashed s, t) else none
    ]

abbrev pub lower_ascii_yahoo : String → Bool
lower_ascii_yahoo s = str_eq s "yahoo"

abbrev pub status_text : Option String → Option String
status_text none = none
status_text (some s) =
    if str_eq s "new" then some "new" else if str_eq s "used" then some "used" else none

abbrev pub is_new : Option String → Bool
is_new none = false
is_new (some s) = str_eq s "new"

abbrev pub https_only : Option String → String
https_only none = String.[]
https_only (some s) = if starts "https://" s then s else String.[]

-- `normalizedItemCondition`.
abbrev pub normalized_condition : String → ProductCondition
normalized_condition s =
    if str_eq s "NEW"
    then unused
    else if str_eq s "USED10"
    then near_unused
    else if str_eq s "USED20"
    then good
    else if str_eq s "USED40"
    then fair
    else if str_eq s "USED60"
    then poor
    else if str_eq s "USED80"
    then very_poor
    else unspecified

abbrev pub text_or_null : Reader → Json → Option String
text_or_null r undefined = none
text_or_null r null = none
text_or_null r v = some (r.text v)

abbrev pub is_true : Json → Bool
is_true (bool b) = b
is_true _ = false

abbrev pub tax_of : Json → TaxDisplay
tax_of (num (nat n)) =
    if n == 1
    then TaxDisplay.included
    else if n == 0
    then TaxDisplay.not_included
    else TaxDisplay.unknown
tax_of _ = TaxDisplay.unknown

abbrev pub source_type_of : Bool → SourceType
source_type_of true = fleamarket
source_type_of false = auction

abbrev pub yahoo_url : Reader → Bool → String → String
yahoo_url r true id = String.◌++◌ "https://paypayfleamarket.yahoo.co.jp/item/" (r.encode id)
yahoo_url r false id = String.◌++◌ "https://auctions.yahoo.co.jp/jp/auction/" (r.encode id)

abbrev pub list_of : Json → Option (List Json)
list_of (arr vs) = some (items vs)
list_of _ = none

abbrev pub needed : {A : Type 0} → Option A → Result SearchError A
needed none = err parser_contract_mismatch
needed (some a) = ok a

-- `object(value).key`, which throws where the value is no object.
abbrev pub member_of : String → Json → Result SearchError Json
member_of k v = if is_object v then ok (field k v) else err parser_contract_mismatch

-- `object(object(value).key₁).key₂` and so on.
abbrev pub walk : List String → Json → Result SearchError Json
walk [] v = ok v
walk (k ∷ ks) v = member_of k v >>= (λ x. walk ks x)

abbrev pub yahoo_path : List String
yahoo_path = "props" ∷ ("pageProps" ∷ ("initialState" ∷ ("search" ∷ ("items" ∷ ("listing" ∷ [])))))

module _ (w : Web) (r : Reader) where
  abbrev pub aucfan_built : Json → String → String → Option ℕ → Option (String × ℕ) → Option Item
  aucfan_built v id title (some price) (some (day, at)) =
      let status = status_text (text_of (field "item_status" v)) in
      if is_empty id
        || is_empty title
        || not (lower_ascii_yahoo (w.lower (r.text (field "sitecode" v))))
      then none
      else some (record {
        source_item_id = id;
        source_type = auction;
        canonical_url = https_only (text_of (field "siteurl" v));
        title = title;
        closing_price = price;
        ended_at = at;
        ended_on = some day;
        source_condition = status;
        normalized_condition = if is_new status then unused else unspecified;
        tax_display = TaxDisplay.unknown;
        category_id = none;
        brand_id = none;
        is_aucfan = true;
      })
  aucfan_built v id title _ _ = none

  unfoldable pub aucfan_item : Json → Option Item
  unfolding normalize_keyword integer aucfan_ended_at trim
  aucfan_item v =
      if not (is_object v)
      then none
      else aucfan_built v (trim (r.text (field "auction_id" v)))
          (normalize_keyword w (r.text (field "title" v))) (integer r (field "price" v) 1)
          (aucfan_ended_at r (field "time" v))

  abbrev pub aucfan_page : List Json → ℕ → ℕ → Result SearchError Page
  aucfan_page vs hits pages =
      if ltb 100 (length vs)
      then err parser_contract_mismatch
      else page_of (length vs) (read_items aucfan_item vs) hits (some pages)

  abbrev pub aucfan_root : Json → Option String → Result SearchError Page
  aucfan_root root (some e) = err (upstream (r.text (field "error_code" root)))
  aucfan_root root none = needed (list_of (field "items" root)) >>= (λ vs.
      needed (integer r (field "hit_count" root) 0) >>= (λ hits.
        needed (integer r (field "max_page_number" root) 0)
        >>= (λ pages. aucfan_page vs hits pages)))

  -- `parseAucfanSearchJson`.
  unfoldable pub parse_aucfan : String → Result SearchError Page
  unfolding integer read_items page_of aucfan_item
  parse_aucfan body =
      if ltb 5242880 (r.byte_length body)
      then err response_too_large
      else needed (r.json body) >>= (λ root.
        if is_object root
        then aucfan_root root (text_of (field "error" root))
        else err parser_contract_mismatch)

  abbrev pub yahoo_built : Json → String → String → Option ℕ → Option ℕ → Option Item
  yahoo_built v id title (some price) (some at) =
      let flea = is_true (field "isFleamarketItem" v) in
      let condition = text_of (field "itemCondition" v) in
      if is_empty id || is_empty title
      then none
      else some (record {
        source_item_id = id;
        source_type = source_type_of flea;
        canonical_url = yahoo_url r flea id;
        title = title;
        closing_price = price;
        ended_at = at;
        ended_on = none;
        source_condition = condition;
        normalized_condition = elim condition [
          | none ↦ unspecified
          | some s ↦ normalized_condition s
        ];
        tax_display = tax_of (field "taxFlag" v);
        category_id = text_or_null r (field "id" (field "category" v));
        brand_id = text_or_null r (field "brandId" v);
        is_aucfan = false;
      })
  yahoo_built v id title _ _ = none

  unfoldable pub yahoo_item : Json → Option Item
  unfolding normalize_keyword integer trim
  yahoo_item v =
      if not (is_object v)
      then none
      else yahoo_built v (trim (r.text (field "auctionId" v)))
          (normalize_keyword w (r.text (field "title" v))) (integer r (field "price" v) 1)
          (r.date (r.text (field "endTime" v)))

  abbrev pub is_hundred : ℕ → Bool
  is_hundred n = n == 100

  abbrev pub is_newest_sort : Option String → Bool
  is_newest_sort none = false
  is_newest_sort (some s) = str_eq s "-END_TIME"

  abbrev pub yahoo_page : List Json → ℕ → Result SearchError Page
  yahoo_page vs available =
      if ltb 100 (length vs) || ltb available (length vs)
      then err parser_contract_mismatch
      else page_of (length vs) (read_items yahoo_item vs) available none

  abbrev pub yahoo_listing : Json → Json → Result SearchError Page
  yahoo_listing listing metadata =
      if not (is_object metadata)
      then err parser_contract_mismatch
      else if not (is_newest_sort (text_of (field "sort" metadata)))
      then err sort_contract_mismatch
      else needed (integer r (field "limit" metadata) 1) >>= (λ limit.
        if not (is_hundred limit)
        then err sort_contract_mismatch
        else needed (list_of (field "items" listing)) >>= (λ vs.
          needed (integer r (field "totalResultsAvailable" listing) 0)
          >>= (λ available. yahoo_page vs available)))

  abbrev pub yahoo_root : Json → Result SearchError Page
  yahoo_root listing = member_of "metadata" listing >>= (λ metadata. yahoo_listing listing metadata)

  -- `parseYahooClosedSearchHtml`.
  unfoldable pub parse_yahoo : String → Result SearchError Page
  unfolding integer read_items page_of yahoo_item is_captcha script
  parse_yahoo html =
      if ltb 5242880 (r.byte_length html)
      then err response_too_large
      else if is_captcha html
      then err captcha_detected
      else needed (script html)
        >>= (λ text. needed (r.json text) >>= (λ root. walk yahoo_path root >>= yahoo_root))
