-- ===== src/Market/Pages/Examples.antt =====
-- A page of the provider with one row.
use hanamaru_shientool_prod.Prelude.{true, false, none, some, [], ◌∷◌, ok, ◌≡◌, refl}
use hanamaru_shientool_prod.Prelude.Text.{
  tidy, trim, trim_start, trim_end, collapse, collapse_from, is_space,
}
use hanamaru_shientool_prod.Json.{Json, num, nat, str, bool, arr, obj, null, nil, cons, end, member}
use hanamaru_shientool_prod.Contracts.{
  Market, ParsedPage, PageRequest, usd, ListingFormat, LocationStatus, known, Condition,
}
use hanamaru_shientool_prod.Contracts.Equality.{market_eq, condition_eq}
use hanamaru_shientool_prod.Soldgraph.Request.{
  Host, validate_page_request, create_search_plan, normalize_keyword,
}
use hanamaru_shientool_prod.Market.Amounts.{units, big_int}
use hanamaru_shientool_prod.Market.Places.{classify_location}
use hanamaru_shientool_prod.Market.Pages.{
  Reader, parse_page, observation, observations, money, decimal, decimal_units,
}
use hanamaru_shientool_prod.Market.Pages.Sound.{Sound, parse_page-Sound}

abbrev host : Host
host = record { nfkc = λ s. s; plan_digest = λ k ms cs f. "0"; operation_digest = λ s q n. "0" }

abbrev reader : Reader
reader = record {
  number = λ v. some 2;
  iso = λ s. some s;
  is_day = λ s. true;
  link = λ s. none;
  lower = λ s. s;
  fold = λ c. Prim.Native.Char.code c;
}

abbrev request : PageRequest
request = record {
  keyword = "lens";
  market = Market.us;
  page = 1;
  conditions = [];
  buying_format = none;
}

abbrev row : Json
row = obj (
    member "id" (str "123456789") (
      member "title" (str "lens") (
        member "displayed_price"
          (obj (member "amount" (num (nat 12)) (member "currency" (str "USD") end)))
          (member "best_offer_accepted" (bool false)
            (member "condition" (str "used") (member "location_text" (str "from japan") end))))))

abbrev raw : Json
raw = obj (
    member "provider" (str "ebay") (
      member "country" (str "us") (
        member "page" (num (nat 1)) (
          member "query" (str "lens") (
            member "page_size" (num (nat 200)) (
              member "completeness" (str "provider_page_only") (
                member "data" (arr (cons row nil)) (
                  member "count" (num (nat 1)) (
                    member "collected_at" (str "2026-09-01T00:00:00Z")
                      (member "next_page" null end))))))))))

abbrev page : ParsedPage
page = record {
  market = Market.us;
  page = 1;
  next_page = none;
  collected_at = "2026-09-01T00:00:00Z";
  observations =
      record {
        observation_key = "us:123456789";
        market = Market.us;
        source_item_id = some "123456789";
        title = "lens";
        canonical_url = none;
        displayed_price = some (record { amount = "12.00"; currency = usd });
        displayed_shipping = none;
        condition_group = known Condition.used;
        source_condition = some "used";
        format = ListingFormat.unknown;
        best_offer = some false;
        sold_on = none;
        location = record {
          status = LocationStatus.country_explicit;
          country_code = some "JP";
          text = some "from japan";
        };
        hard_exclusions = [];
      }
      ∷ [];
}

parsed : parse_page host reader raw request ≡ ok page
unfolding parse_page observations observation money decimal decimal_units units big_int
    classify_location validate_page_request create_search_plan normalize_keyword tidy collapse
    collapse_from trim trim_start trim_end is_space market_eq condition_eq
parsed = refl

parse_page-Sound_example :
    (v : PageRequest) × (validate_page_request host request ≡ ok v) × Sound host reader raw v page
parse_page-Sound_example = parse_page-Sound host reader raw request page parsed
