-- ===== src/Market/Pages/Sound.antt =====
-- What the observations of a page are known to be.
use Prim.Native.String.{String}
use hanamaru_shientool_prod.Prelude.{
  ℕ, suc, ◌+◌, ◌≤◌, Bool, true, false, not, ◌&&◌, eq_iff, ◌||◌, Option, none, some, List, [], ◌∷◌,
  ◌++◌, length, is_some, ltb, Result, ok, err, ◌≡◌, refl, ap, subst, ◌⊎◌, inl, inr, All, Bool-cases,
  arith,
}
use hanamaru_shientool_prod.Prelude.Text.{is_empty}
use hanamaru_shientool_prod.Json.{str, num, nat, Json, field, text_of, bool_of}
use hanamaru_shientool_prod.Contracts.{
  Market, market_currency, Money, PriceExclusion, Observation, ParsedPage, PageRequest,
}
use hanamaru_shientool_prod.Soldgraph.Request.{Host, ContractError, validate_page_request}
use hanamaru_shientool_prod.Market.Observations.{currency_index}
use hanamaru_shientool_prod.Market.Pages.{
  Reader, market_text, is_text, is_version, exclusions, when, other_currency, offer_exclusion,
  observation, observations, parse_page, page_of, page_with, after_request, is_header, is_nat,
  rows_of, zoned, next_of, text, item_id, or_empty, money, is_present,
}

-- An observation without a hard exclusion: an item with an identifier and a title, sold at a price
-- that is shown in the currency of the market, and certainly not after an accepted offer.
pub record Usable (m : Market) (o : Observation) : Type 0 where
  pub market : o.market ≡ m
  pub id : is_some o.source_item_id ≡ true
  pub title : is_empty o.title ≡ false
  pub price :
      (p : Money) × (o.displayed_price ≡ some p)
      × (currency_index p.currency ≡ currency_index (market_currency m))
  pub offer : o.best_offer ≡ some false

when_empty :
    (b : Bool) (x : PriceExclusion) (xs : List PriceExclusion)
    → when b x ++ xs ≡ []
    → (b ≡ false) × (xs ≡ [])
when_empty true x xs e = absurd (ground arith)
when_empty false x xs e = (refl, e)

price_of_none :
    (m : Market) (p : Option Money)
    → not (is_some p) ≡ false
    → other_currency m p ≡ false
    → (q : Money) × (p ≡ some q) × (currency_index q.currency ≡ currency_index (market_currency m))
price_of_none m none e f = absurd (ground arith)
price_of_none m (some q) e f = (q, refl, ground arith)

offer_empty : (o : Option Bool) → offer_exclusion o ≡ [] → o ≡ some false
offer_empty none e = absurd (ground arith)
offer_empty (some true) e = absurd (ground arith)
offer_empty (some false) e = refl

record Facts (m : Market) (id : Option String) (title : String) (price : Option Money)
    (offer : Option Bool) : Type 0 where
  has_id : is_some id ≡ true
  has_title : is_empty title ≡ false
  has_price :
      (p : Money) × (price ≡ some p)
      × (currency_index p.currency ≡ currency_index (market_currency m))
  no_offer : offer ≡ some false

exclusions_empty :
    (m : Market) (id : Option String) (title : String) (price : Option Money) (range : Bool)
    (offer : Option Bool)
    → exclusions m id title price range offer ≡ []
    → Facts m id title price offer
exclusions_empty m id title price range offer e =
    let (a, e1) = when_empty (not (is_some id)) PriceExclusion.missing_item_id _ e in
    let (b, e2) = when_empty (is_empty title) PriceExclusion.missing_title _ e1 in
    let (c, e3) = when_empty (not (is_some price)) PriceExclusion.invalid_price _ e2 in
    let (d, e4) = when_empty (other_currency m price) PriceExclusion.currency_mismatch _ e3 in
    let (f, e5) = when_empty range PriceExclusion.price_range _ e4 in
    record {
      has_id = ground (arith, a);
      has_title = b;
      has_price = price_of_none m price c d;
      no_offer = offer_empty offer e5;
    }

ok_injective : {A : Type 0} {a b : A} → ◌≡◌ {A = Result ContractError A} (ok a) (ok b) → a ≡ b
ok_injective e = cc

module _ (h : Host) (r : Reader) where
  observation-Usable :
      (request : PageRequest) (row : Json) (index : ℕ)
      → (observation h r request row index).hard_exclusions ≡ []
      → Usable request.market (observation h r request row index)
  unfolding observation
  observation-Usable request row index e =
      let facts =
        exclusions_empty request.market (item_id (text_of (field "id" row)))
          (or_empty (text (field "title" row) 1000)) (money (field "displayed_price" row) false)
          (is_present (field "displayed_price_range" row))
          (bool_of (field "best_offer_accepted" row)) e in
      record {
        market = refl;
        id = facts.has_id;
        title = facts.has_title;
        price = facts.has_price;
        offer = facts.no_offer;
      }

  abbrev pub IsUsable : Market → Observation → Type 0
  IsUsable m o = o.hard_exclusions ≡ [] → Usable m o

  observations-Usable :
      (request : PageRequest) (rows : List Json) (index : ℕ)
      → All (IsUsable request.market) (observations h r request rows index)
        × (length (observations h r request rows index) ≡ length rows)
  unfolding observations
  observations-Usable request [] index = (tt, refl)
  observations-Usable request (row ∷ rows) index =
      let (all, size) = observations-Usable request rows (index + 1) in
      ((observation-Usable request row index, all), ap suc size)

  -- The JSON is the provider's answer to the request: its texts and numbers are these.
  pub record Answers (raw : Json) (request : PageRequest) : Type 0 where
    pub provider : text_of (field "provider" raw) ≡ some "ebay"
    pub country : text_of (field "country" raw) ≡ some (market_text request.market)
    pub number : field "page" raw ≡ num (nat request.page)
    pub query : text_of (field "query" raw) ≡ some request.keyword
    pub page_size : field "page_size" raw ≡ num (nat 200)
    pub schema :
        (r.number (field "schema_version" raw) ≡ some 1)
        ⊎ (r.number (field "schema_version" raw) ≡ some 2)
    pub completeness : text_of (field "completeness" raw) ≡ some "provider_page_only"

  text_is : (v : Json) (t : String) → is_text h r v t ≡ true → text_of v ≡ some t
  text_is (str s) t e = ap some ((eq_iff s t).0 e)
  text_is v t e = absurd (ground arith)

  nat_is : (v : Json) (n : ℕ) → is_nat h r v n ≡ true → v ≡ num (nat n)
  nat_is (num (nat m)) n e = ap (λ x. num (nat x)) (ground (arith, e))
  nat_is v n e = absurd (ground arith)

  version_is : (o : Option ℕ) → is_version h r o ≡ true → (o ≡ some 1) ⊎ (o ≡ some 2)
  version_is none e = absurd (ground arith)
  version_is (some n) e = ground (arith, e)

  two : (a b : Bool) → (a && b) ≡ true → (a ≡ true) × (b ≡ true)
  two true b e = (refl, e)
  two false b e = absurd (ground arith)

  is_header-Answers :
      (raw : Json) (request : PageRequest) → is_header h r raw request ≡ true → Answers raw request
  is_header-Answers raw request e =
      let (a, e1) = two (is_text h r (field "provider" raw) "ebay") _ e in
      let (b, e2) = two (is_text h r (field "country" raw) (market_text request.market)) _ e1 in
      let (c, e3) = two (is_nat h r (field "page" raw) request.page) _ e2 in
      let (d, e4) = two (is_text h r (field "query" raw) request.keyword) _ e3 in
      let (f, e5) = two (is_nat h r (field "page_size" raw) 200) _ e4 in
      let (g, i) = two (is_version h r (r.number (field "schema_version" raw))) _ e5 in
      record {
        provider = text_is _ _ a;
        country = text_is _ _ b;
        number = nat_is _ _ c;
        query = text_is _ _ d;
        page_size = nat_is _ _ f;
        schema = version_is _ g;
        completeness = text_is _ _ i;
      }

  -- What is known of a page.
  pub record Sound (raw : Json) (request : PageRequest) (p : ParsedPage) : Type 0 where
    pub answers : Answers raw request
    pub count : field "count" raw ≡ num (nat (length p.observations))
    pub market : p.market ≡ request.market
    pub page : p.page ≡ request.page
    pub next : (p.next_page ≡ none) ⊎ (p.next_page ≡ some (request.page + 1))
    pub size : length p.observations ≤ 200
    pub usable : All (IsUsable request.market) p.observations

  next_of-eq-some :
      (v : Json) (page : ℕ) (n : Option ℕ)
      → next_of h r v page ≡ some n
      → (n ≡ none) ⊎ (n ≡ some (page + 1))
  next_of-eq-some v page n e = ground arith

  page_with-Sound :
      (request : PageRequest) (raw : Json) (rows : Option (List Json)) (at : Option String)
      (next : Option (Option ℕ)) (p : ParsedPage)
      → Answers raw request
      → ((n : Option ℕ) → next ≡ some n → (n ≡ none) ⊎ (n ≡ some (request.page + 1)))
      → page_with h r request raw rows at next ≡ ok p
      → Sound raw request p
  page_with-Sound request raw none at next p ans k e = absurd (ground arith)
  page_with-Sound request raw (some rows) none next p ans k e = absurd (ground arith)
  page_with-Sound request raw (some rows) (some at) none p ans k e = absurd (ground arith)
  page_with-Sound request raw (some rows) (some at) (some n) p ans k e =
      elim (Bool-cases
        (ltb 200 (length rows) || not (is_nat h r (field "count" raw) (length rows)))) [
          | inl bad ↦ absurd (ground arith)
          | inr good ↦
              let (all, size) = observations-Usable request rows 0 in
              let page : ParsedPage = record {
                market = request.market;
                page = request.page;
                next_page = n;
                collected_at = at;
                observations = observations h r request rows 0;
              } in
              let same : page ≡ p = ok_injective (rw good at e) in
              subst (Sound raw request) same (record {
                answers = ans;
                count = nat_is _ _ (ground (arith, size, good));
                market = refl;
                page = refl;
                next = k n refl;
                size = ground (arith, size, good);
                usable = all;
              })
        ]

  page_of-Sound :
      (raw : Json) (request : PageRequest) (p : ParsedPage)
      → page_of h r raw request ≡ ok p
      → Sound raw request p
  page_of-Sound raw request p e = elim (Bool-cases (is_header h r raw request)) [
    | inr other ↦ absurd (ground arith)
    | inl good ↦
        page_with-Sound request raw (rows_of h r (field "data" raw))
          (zoned h r (text (field "collected_at" raw) 40))
          (next_of h r (field "next_page" raw) request.page) p (is_header-Answers raw request good)
          (next_of-eq-some (field "next_page" raw) request.page) (rw good at e)
  ]

  after_request-Sound :
      (raw : Json) (x : Result ContractError PageRequest) (p : ParsedPage)
      → after_request h r raw x ≡ ok p
      → (v : PageRequest) × (x ≡ ok v) × Sound raw v p
  after_request-Sound raw (err e) p f = absurd (ground arith)
  after_request-Sound raw (ok v) p f = (v, refl, page_of-Sound raw v p f)

  -- A page that is let through was read from an answer to the validated request: by the provider eBay, for
  -- the country of its market, its page and its keyword, with a page size of 200, a known schema version
  -- and the count of its rows. It carries the market and page of that request, has at most 200 observations, and no
  -- next page or the one after it. Every observation without a hard exclusion is of the market, has an
  -- identifier, a title and a price in the currency of the market, and no accepted offer.
  pub parse_page-Sound :
      (raw : Json) (input : PageRequest) (p : ParsedPage)
      → parse_page h r raw input ≡ ok p
      → (v : PageRequest) × (validate_page_request h input ≡ ok v) × Sound raw v p
  unfolding parse_page
  parse_page-Sound raw input p e = after_request-Sound raw (validate_page_request h input) p e
