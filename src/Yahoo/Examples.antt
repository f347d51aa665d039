-- ===== src/Yahoo/Examples.antt =====
-- Runs of the Yahoo and Aucfan searches.
use Prim.Native.String.{String}
use hanamaru_shientool_prod.Prelude.{ℕ, true, false, Option, none, some, List, [], ◌∷◌, ◌≡◌, refl}
use hanamaru_shientool_prod.Prelude.Text.{
  tidy, trim, trim_start, trim_end, collapse, collapse_from, is_space,
}
use hanamaru_shientool_prod.Json.{Json, num, nat, str, arr, obj, nil, cons, end, member}
use hanamaru_shientool_prod.Yahoo.{Web, normalize_keyword, unspecified}
use hanamaru_shientool_prod.Yahoo.Registry.{Mapping, confirmed, deprecated}
use hanamaru_shientool_prod.Yahoo.Script.{is_captcha, script}
use hanamaru_shientool_prod.Yahoo.Items.{
  Reader, Page, integer, read_items, newest_first, page_of, built, auction, TaxDisplay,
}
use hanamaru_shientool_prod.Yahoo.Pages.{
  aucfan_item, aucfan_ended_at, yahoo_item, parse_aucfan, parse_yahoo,
}
use hanamaru_shientool_prod.Yahoo.Pages.Sound.{
  SoundPage, parse_aucfan-SoundPage, parse_yahoo-SoundPage,
}

abbrev web : Web
web = record {
  nfkc = λ s. s;
  lower = λ s. s;
  number = λ s. none;
  show = λ n. "1";
  sha256 = λ s. s;
  read_url = λ s. none;
  query_text = λ ps. "";
  is_word = λ c. true;
}

abbrev text : Json → String
text (str s) = s
text _ = ""

abbrev number : Json → Option ℕ
number (num (nat n)) = some n
number _ = none

abbrev item : Json
item = obj (
    member "auction_id" (str "x1") (
      member "title" (str "camera") (
        member "price" (num (nat 500))
          (member "time" (str "20260901") (member "sitecode" (str "yahoo") end)))))

abbrev yahoo : Json
yahoo = obj (
    member "auctionId" (str "x1") (
      member "title" (str "camera")
        (member "price" (num (nat 500)) (member "endTime" (str "t") end))))

abbrev root : Json
root = obj (
    member "items" (arr (cons item nil))
      (member "hit_count" (num (nat 1)) (member "max_page_number" (num (nat 1)) end)))

abbrev listing : Json
listing = obj (
    member "items" (arr (cons yahoo nil)) (
      member "totalResultsAvailable" (num (nat 1)) (
        member "metadata"
          (obj (member "sort" (str "-END_TIME") (member "limit" (num (nat 100)) end))) end)))

abbrev within : String → Json → Json
within k v = obj (member k v end)

abbrev next_data : Json
next_data = within "props" (
    within "pageProps"
      (within "initialState" (within "search" (within "items" (within "listing" listing)))))

abbrev reader : Json → Reader
reader v = record {
  text = text;
  number = number;
  date = λ s. some 5;
  noon = λ s. some 7;
  day = λ n. "2026-09-01";
  json = λ s. some v;
  byte_length = λ s. 10;
  encode = λ s. s;
}

abbrev aucfan_result : Page
aucfan_result =
    built 1
      (record {
        source_item_id = "x1";
        source_type = auction;
        canonical_url = "";
        title = "camera";
        closing_price = 500;
        ended_at = 7;
        ended_on = some "2026-09-01";
        source_condition = none;
        normalized_condition = unspecified;
        tax_display = TaxDisplay.unknown;
        category_id = none;
        brand_id = none;
        is_aucfan = true;
      }
        ∷ [])
      0 1 (some 1)

abbrev yahoo_result : Page
yahoo_result =
    built 1
      (record {
        source_item_id = "x1";
        source_type = auction;
        canonical_url = "https://auctions.yahoo.co.jp/jp/auction/x1";
        title = "camera";
        closing_price = 500;
        ended_at = 5;
        ended_on = none;
        source_condition = none;
        normalized_condition = unspecified;
        tax_display = TaxDisplay.unknown;
        category_id = none;
        brand_id = none;
        is_aucfan = false;
      }
        ∷ [])
      0 1 none

parse_aucfan-SoundPage_example : SoundPage aucfan_result
unfolding parse_aucfan aucfan_item aucfan_ended_at integer read_items newest_first page_of
    normalize_keyword tidy collapse collapse_from trim trim_start trim_end is_space
parse_aucfan-SoundPage_example = parse_aucfan-SoundPage web (reader root) "body" aucfan_result refl

abbrev yahoo_html : String
yahoo_html = "<script id=\"__NEXT_DATA__\" type=\"application/json\">{}</script>"

parse_yahoo-SoundPage_example : SoundPage yahoo_result × (is_captcha yahoo_html ≡ false)
unfolding parse_yahoo is_captcha script yahoo_item integer read_items newest_first page_of
    normalize_keyword tidy collapse collapse_from trim trim_start trim_end is_space
parse_yahoo-SoundPage_example =
    parse_yahoo-SoundPage web (reader next_data) yahoo_html yahoo_result refl

abbrev camera : Mapping
camera = record {
  key = "c";
  source_id = "23632";
  canonical_name = "camera";
  aliases = [];
  status = confirmed;
  expires_at = none;
}

abbrev registry : List Mapping
registry = record camera { status = deprecated } ∷ (camera ∷ [])
