-- ===== src/Market/Pages.antt =====
-- The provider's page of results: parseSoldgraphPage of packages/market-price/src/soldgraph.ts with
-- the functions that it calls. `Reader` is what it takes from outside: `Number(v)` where that is a natural
-- number, `new Date(s)` as a text where it is valid, the test of a day of the calendar, `new URL`, NFKC
-- and lower case, and case folding.
pub mod Sound
mod Examples
use Prim.Native.Char.{Char, code}
use Prim.Native.String
use Prim.Native.String.{String}
use hanamaru_shientool_prod.Prelude.{
  ℕ, zero, suc, ◌+◌, ◌-◌, ◌*◌, ◌/◌, ◌%◌, Bool, true, false, not, ◌&&◌, ◌||◌, Option, none, some,
  List, [], ◌∷◌, ◌++◌, length, any, find, is_some, ltb, leb, ◌==◌, if◌then◌else◌, Result, ok, err,
}
use hanamaru_shientool_prod.Prelude.Text.{
  str_eq, is_empty, size, utf16_length, is_digit, all_chars, trim,
}
use hanamaru_shientool_prod.Json.{
  Json, undefined, null, num, nat, other, str, arr, items, field, text_of, bool_of,
}
use hanamaru_shientool_prod.Contracts.{
  Market, market_currency, Currency, usd, gbp, cad, aud, eur, Condition, conditions, ConditionGroup,
  known, Money, PriceExclusion, ListingFormat, Observation, ParsedPage, PageRequest, Location,
}
use hanamaru_shientool_prod.Soldgraph.Request.{
  Host, ContractError, invalid_page, validate_page_request,
}
use hanamaru_shientool_prod.Market.Amounts.{scale, units, whole_part, fraction_part, pad_end}
use hanamaru_shientool_prod.Market.Observations.{currency_index}
use hanamaru_shientool_prod.Market.Places.{classify_location}

pub record Link : Type 0 where
  pub protocol : String
  pub hostname : String
  pub username : String
  pub password : String
  pub port : String
  pub pathname : String

pub record Reader : Type 0 where
  pub number : Json → Option ℕ
  pub iso : String → Option String
  pub is_day : String → Bool
  pub link : String → Option Link
  pub lower : String → String
  pub fold : Char → ℕ

-- `text`.
abbrev pub text : Json → ℕ → Option String
text (str s) most = if is_empty s || ltb most (utf16_length s) then none else some s
text _ most = none

abbrev digit : ℕ → String
digit n =
    if n == 0
    then "0"
    else if n == 1
    then "1"
    else if n == 2
    then "2"
    else if n == 3
    then "3"
    else if n == 4
    then "4"
    else if n == 5
    then "5"
    else if n == 6
    then "6"
    else if n == 7
    then "7"
    else if n == 8
    then "8"
    else "9"

-- The last `k` decimal digits of a number.
abbrev digits : ℕ → ℕ → String
digits zero n = String.[]
digits (suc k) n = String.◌++◌ (digits k (n / 10)) (digit (n % 10))

abbrev without_zeros : String → String
without_zeros String.[] = String.[]
without_zeros (String.◌∷◌ c s) =
    let rest = without_zeros s in
    if is_empty rest && code c == b'0' then String.[] else String.◌∷◌ c rest

abbrev without_leading : String → String
without_leading String.[] = String.[]
without_leading (String.◌∷◌ c String.[]) = String.◌∷◌ c String.[]
without_leading (String.◌∷◌ c (String.◌∷◌ d s)) =
    let rest = without_leading (String.◌∷◌ d s) in
    if code c == b'0' then rest else String.◌∷◌ c (String.◌∷◌ d s)

-- `decimal`, of amounts whose whole part has twelve digits at most, as `decimalUnits` reads them.
unfoldable pub decimal : ℕ → String
decimal n =
    String.◌++◌ (without_leading (digits 12 (n / scale)))
      (String.◌++◌ "." (pad_end 2 (without_zeros (digits 6 (n % scale)))))

abbrev has_point : String → Bool
has_point String.[] = false
has_point (String.◌∷◌ c s) = code c == b'.' || has_point s

-- `/^\d{1,12}(?:\.\d{1,2})?$/` on the text of a number that is no natural one.
abbrev is_decimal : String → Bool
is_decimal s =
    let w = whole_part s in
    let f = fraction_part s in
    all_chars is_digit w
    && leb 1 (size w)
    && leb (size w) 12
    && (not (has_point s) || (all_chars is_digit f && leb 1 (size f) && leb (size f) 2))

-- `decimalUnits`.
unfoldable pub decimal_units : Json → Option ℕ
decimal_units (num (nat n)) = if ltb n 1000000000000 then some (n * scale) else none
decimal_units (num (other s)) = if is_decimal s then units s else none
decimal_units _ = none

abbrev pub currency_of : Option String → Option Currency
currency_of none = none
currency_of (some s) =
    if str_eq s "USD"
    then some usd
    else if str_eq s "GBP"
    then some gbp
    else if str_eq s "CAD"
    then some cad
    else if str_eq s "AUD"
    then some aud
    else if str_eq s "EUR"
    then some eur
    else none

abbrev priced : Option ℕ → Option Currency → Bool → Option Money
priced (some n) (some c) allow_zero =
    if not allow_zero && n == 0 then none else some (record { amount = decimal n; currency = c })
priced _ _ allow_zero = none

-- `money`.
unfoldable pub money : Json → Bool → Option Money
unfolding decimal_units decimal
money v allow_zero =
    priced (decimal_units (field "amount" v)) (currency_of (text_of (field "currency" v)))
      allow_zero

abbrev labels : Condition → List String
labels Condition.new = "new" ∷ ("brand new" ∷ ("neu" ∷ ("neuf" ∷ ("nuevo" ∷ ("nuovo" ∷ [])))))
labels Condition.open_box = "open box" ∷ ("new (other)" ∷ ("neuf : autre" ∷ ("neu: sonstige" ∷ [])))
labels Condition.refurbished =
    "refurbished"
    ∷ ("seller refurbished"
        ∷ ("certified refurbished"
            ∷ ("reconditionné" ∷ ("reacondicionado" ∷ ("ricondizionato" ∷ [])))))
labels Condition.used =
    "used" ∷ ("pre-owned" ∷ ("gebraucht" ∷ ("occasion" ∷ ("usado" ∷ ("usato" ∷ [])))))
labels Condition.for_parts =
    "for parts"
    ∷ ("for parts or not working"
        ∷ ("nur als ersatzteil oder defekt"
            ∷ ("pour pièces détachées" ∷ ("para piezas" ∷ ("per parti di ricambio" ∷ [])))))

abbrev group_of : Option Condition → ConditionGroup
group_of none = ConditionGroup.unknown
group_of (some c) = known c

abbrev ebay_host : Market → String
ebay_host Market.us = "www.ebay.com"
ebay_host Market.uk = "www.ebay.co.uk"
ebay_host Market.ca = "www.ebay.ca"
ebay_host Market.au = "www.ebay.com.au"
ebay_host Market.de = "www.ebay.de"
ebay_host Market.fr = "www.ebay.fr"
ebay_host Market.it = "www.ebay.it"
ebay_host Market.es = "www.ebay.es"

abbrev consed : Char → List String → List String
consed c [] = String.◌∷◌ c String.[] ∷ []
consed c (s ∷ ss) = String.◌∷◌ c s ∷ ss

abbrev segments : String → List String
segments String.[] = String.[] ∷ []
segments (String.◌∷◌ c s) =
    let rest = segments s in if code c == b'/' then String.[] ∷ rest else consed c rest

-- What may follow `/itm/`: an identifier, after one segment or none, with a slash or not.
abbrev is_tail : String → List String → Bool
is_tail id (s ∷ []) = str_eq s id
is_tail id (s ∷ (t ∷ [])) = (str_eq s id && is_empty t) || (not (is_empty s) && str_eq t id)
is_tail id (s ∷ (t ∷ (u ∷ []))) = not (is_empty s) && (str_eq t id && is_empty u)
is_tail id _ = false

abbrev is_item_path : String → List String → Bool
is_item_path id (s ∷ (t ∷ rest)) = is_empty s && (str_eq t "itm" && is_tail id rest)
is_item_path id _ = false

abbrev is_item_link : Market → String → Link → Bool
is_item_link m id u =
    str_eq u.protocol "https:"
    && (str_eq u.hostname (ebay_host m)
        && (is_empty u.username
            && (is_empty u.password && (is_empty u.port && is_item_path id (segments u.pathname)))))

abbrev canonical : Market → String → Option Link → Option String
canonical m id none = none
canonical m id (some u) =
    if is_item_link m id u
    then some (String.◌++◌ "https://" (String.◌++◌ (ebay_host m) (String.◌++◌ "/itm/" id)))
    else none

abbrev pub item_id : Option String → Option String
item_id none = none
item_id (some s) =
    if all_chars is_digit s && leb 9 (size s) && leb (size s) 15 then some s else none

abbrev pub or_empty : Option String → String
or_empty none = String.[]
or_empty (some s) = s

abbrev pub when : Bool → PriceExclusion → List PriceExclusion
when true x = x ∷ []
when false x = []

abbrev pub other_currency : Market → Option Money → Bool
other_currency m none = false
other_currency m (some p) = not (currency_index p.currency == currency_index (market_currency m))

abbrev is_present : Json → Bool
is_present undefined = false
is_present null = false
is_present _ = true

abbrev pub offer_exclusion : Option Bool → List PriceExclusion
offer_exclusion none = PriceExclusion.best_offer_unknown ∷ []
offer_exclusion (some true) = PriceExclusion.best_offer_accepted ∷ []
offer_exclusion (some false) = []

abbrev pub exclusions :
    Market → Option String → String → Option Money → Bool → Option Bool → List PriceExclusion
exclusions m id title price range offer =
    when (not (is_some id)) PriceExclusion.missing_item_id
    ++ (when (is_empty title) PriceExclusion.missing_title
        ++ (when (not (is_some price)) PriceExclusion.invalid_price
            ++ (when (other_currency m price) PriceExclusion.currency_mismatch
                ++ (when range PriceExclusion.price_range ++ offer_exclusion offer))))

abbrev format_of : Option String → ListingFormat
format_of none = ListingFormat.unknown
format_of (some s) =
    if str_eq s "auction"
    then ListingFormat.auction
    else if str_eq s "fixed_price"
    then ListingFormat.fixed_price
    else ListingFormat.unknown

-- `\d{2}:\d{2}` to the end.
abbrev is_offset : String → Bool
is_offset (String.◌∷◌ a (String.◌∷◌ b (String.◌∷◌ c (String.◌∷◌ d (String.◌∷◌ e String.[]))))) =
    is_digit a && (is_digit b && (code c == b':' && (is_digit d && is_digit e)))
is_offset _ = false

-- The text of a page number or an index, of at most six digits.
abbrev short : ℕ → String
short n = without_leading (digits 6 n)

abbrev market_text : Market → String
market_text Market.us = "us"
market_text Market.uk = "uk"
market_text Market.ca = "ca"
market_text Market.au = "au"
market_text Market.de = "de"
market_text Market.fr = "fr"
market_text Market.it = "it"
market_text Market.es = "es"

abbrev key_text : ℕ → ℕ → Option String → String
key_text page index (some id) = id
key_text page index none =
    String.◌++◌ "missing-" (String.◌++◌ (short page) (String.◌++◌ "-" (short index)))

module _ (h : Host) (r : Reader) where
  abbrev day : Option String → Option String
  day none = none
  day (some s) = if r.is_day s then some s else none

  -- `condition`.
  abbrev condition : Option String → ConditionGroup
  condition none = ConditionGroup.unknown
  condition (some s) =
      let t = trim (r.lower (h.nfkc s)) in
      group_of (find (λ c. any (str_eq t) (labels c)) conditions)

  -- `listingUrl`.
  abbrev listing_url : Option String → Market → Option String → Option String
  listing_url raw m none = none
  listing_url none m (some id) = none
  listing_url (some s) m (some id) = canonical m id (r.link s)

  -- One row of the page.
  unfoldable pub observation : PageRequest → Json → ℕ → Observation
  unfolding money classify_location trim
  observation request row index =
      let id = item_id (text_of (field "id" row)) in
      let title = or_empty (text (field "title" row) 1000) in
      let price = money (field "displayed_price" row) false in
      let offer = bool_of (field "best_offer_accepted" row) in
      let m = request.market in
      record {
        observation_key =
            String.◌++◌ (market_text m) (String.◌++◌ ":" (key_text request.page index id));
        market = m;
        source_item_id = id;
        title = title;
        canonical_url = listing_url (text_of (field "link" row)) m id;
        displayed_price = price;
        displayed_shipping = money (field "displayed_shipping" row) true;
        condition_group = condition (text (field "condition" row) 100);
        source_condition = text (field "condition" row) 100;
        format = format_of (text_of (field "format" row));
        best_offer = offer;
        sold_on = day (text_of (field "sold_date" row));
        location = classify_location r.fold (text (field "location_text" row) 500);
        hard_exclusions =
            exclusions m id title price (is_present (field "displayed_price_range" row)) offer;
      }

  unfoldable pub observations : PageRequest → List Json → ℕ → List Observation
  observations request [] index = []
  observations request (row ∷ rows) index =
      observation request row index ∷ observations request rows (index + 1)

  abbrev is_text : Json → String → Bool
  is_text (str s) t = str_eq s t
  is_text _ t = false

  abbrev is_nat : Json → ℕ → Bool
  is_nat (num (nat n)) m = n == m
  is_nat _ m = false

  abbrev is_version : Option ℕ → Bool
  is_version none = false
  is_version (some n) = n == 1 || n == 2

  -- `/Z$|[+-]\d{2}:\d{2}$/`.
  abbrev has_zone : String → Bool
  has_zone String.[] = false
  has_zone (String.◌∷◌ c s) =
      (code c == b'Z' && is_empty s)
      || ((code c == b'+' || code c == b'-') && is_offset s)
      || has_zone s

  abbrev next_of : Json → ℕ → Option (Option ℕ)
  next_of null page = some none
  next_of (num (nat n)) page = if n == page + 1 then some (some n) else none
  next_of _ page = none

  abbrev is_header : Json → PageRequest → Bool
  is_header raw request =
      is_text (field "provider" raw) "ebay"
      && (is_text (field "country" raw) (market_text request.market)
          && (is_nat (field "page" raw) request.page
              && (is_text (field "query" raw) request.keyword
                  && (is_nat (field "page_size" raw) 200
                      && (is_version (r.number (field "schema_version" raw))
                          && is_text (field "completeness" raw) "provider_page_only")))))

  abbrev zoned : Option String → Option String
  zoned none = none
  zoned (some s) = if has_zone s then r.iso s else none

  abbrev page_with :
      PageRequest
      → Json
      → Option (List Json)
      → Option String
      → Option (Option ℕ)
      → Result ContractError ParsedPage
  page_with request raw (some rows) (some at) (some next) =
      if ltb 200 (length rows) || not (is_nat (field "count" raw) (length rows))
      then err invalid_page
      else ok (record {
        market = request.market;
        page = request.page;
        next_page = next;
        collected_at = at;
        observations = observations request rows 0;
      })
  page_with request raw _ _ _ = err invalid_page

  abbrev rows_of : Json → Option (List Json)
  rows_of (arr vs) = some (items vs)
  rows_of _ = none

  abbrev page_of : Json → PageRequest → Result ContractError ParsedPage
  page_of raw request =
      if is_header raw request
      then page_with request raw (rows_of (field "data" raw))
          (zoned (text (field "collected_at" raw) 40))
          (next_of (field "next_page" raw) request.page)
      else err invalid_page

  abbrev after_request : Json → Result ContractError PageRequest → Result ContractError ParsedPage
  after_request raw (err e) = err e
  after_request raw (ok request) = page_of raw request

  -- `parseSoldgraphPage`.
  unfoldable pub parse_page : Json → PageRequest → Result ContractError ParsedPage
  unfolding observations observation
  parse_page raw input = after_request raw (validate_page_request h input)
