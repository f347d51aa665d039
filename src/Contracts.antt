-- ===== src/Contracts.antt =====
-- The shared types of the eBay sold-listing search: packages/contracts/src/soldgraph.ts.
-- A TypeScript union of literals is an enumeration, an interface is a record, `null` is an Option.
-- Amounts of money are texts, as in the source. A page, an attempt and a version are integers.
pub mod Equality
use hanamaru_shientool_prod.Prelude.{ℕ, String, Bool, Option, List, [], ◌∷◌}

pub data Market : Type 0 where
  us uk ca au de fr it es : Market

pub data Currency : Type 0 where
  usd gbp cad aud eur : Currency

pub data Condition : Type 0 where
  new open_box refurbished used for_parts : Condition

pub data BuyingFormat : Type 0 where
  auction buy_it_now best_offer : BuyingFormat

-- `ebayMarkets`, in its order.
abbrev pub markets : List Market
markets = us ∷ uk ∷ ca ∷ au ∷ de ∷ fr ∷ it ∷ es ∷ []

-- `ebayConditions`, in its order.
abbrev pub conditions : List Condition
conditions = new ∷ open_box ∷ refurbished ∷ used ∷ for_parts ∷ []

-- `ebayMarketCurrencies`.
abbrev pub market_currency : Market → Currency
market_currency us = usd
market_currency uk = gbp
market_currency ca = cad
market_currency au = aud
market_currency de = eur
market_currency fr = eur
market_currency it = eur
market_currency es = eur

pub record PageRequest : Type 0 where
  pub keyword : String
  pub market : Market
  pub page : ℕ
  pub conditions : List Condition
  pub buying_format : Option BuyingFormat

pub record SearchPlan : Type 0 where
  pub keyword : String
  pub markets : List Market
  pub conditions : List Condition
  pub buying_format : Option BuyingFormat
  pub page_size : ℕ
  pub max_pages : ℕ
  pub max_pages_per_market : ℕ
  pub initial_reserved_credits : ℕ
  pub maximum_initial_rows : ℕ
  pub spec_hash : String

pub record Money : Type 0 where
  pub amount : String
  pub currency : Currency

pub data PriceExclusion : Type 0 where
  missing_item_id missing_title invalid_price currency_mismatch : PriceExclusion
  price_range best_offer_accepted best_offer_unknown observation_conflict : PriceExclusion

pub data ConditionGroup : Type 0 where
  known : Condition → ConditionGroup
  unknown : ConditionGroup

pub data ListingFormat : Type 0 where
  auction fixed_price unknown : ListingFormat

pub data LocationStatus : Type 0 where
  country_explicit unknown conflicting : LocationStatus

pub record Location : Type 0 where
  pub status : LocationStatus
  pub country_code : Option String
  pub text : Option String

-- `datePrecision` is determined by `soldOn` and is left out.
pub record Observation : Type 0 where
  pub observation_key : String
  pub market : Market
  pub source_item_id : Option String
  pub title : String
  pub canonical_url : Option String
  pub displayed_price : Option Money
  pub displayed_shipping : Option Money
  pub condition_group : ConditionGroup
  pub source_condition : Option String
  pub format : ListingFormat
  pub best_offer : Option Bool
  pub sold_on : Option String
  pub location : Location
  pub hard_exclusions : List PriceExclusion

pub record ParsedPage : Type 0 where
  pub market : Market
  pub page : ℕ
  pub next_page : Option ℕ
  pub collected_at : String
  pub observations : List Observation

-- A complete envelope carries its credits (0 or 1) and a result that nobody has read yet.
pub data Credits : Type 0 where
  zero_credits one_credit : Credits

abbrev pub credit_count : Credits → ℕ
credit_count zero_credits = 0
credit_count one_credit = 1

pub data Envelope (Raw : Type 0) : Type 0 where
  pending : String → Bool → Envelope Raw
  failed : String → Bool → Envelope Raw
  complete : String → Credits → Bool → Raw → Envelope Raw

pub data CreditState : Type 0 where
  reserved pending charged released unknown : CreditState

-- `soldgraphFailureClasses`, and the local `PARSE_FAILED`.
pub data FailureClass : Type 0 where
  external_disabled configuration rate_limit pending_limit quota : FailureClass
  upstream_limit idempotency_conflict result_unknown transport contract parse_failed : FailureClass

pub data PageState : Type 0 where
  reserved dispatching pending complete failed unknown parse_failed cancelled blocked : PageState

-- `retryNotBefore` as `Date.parse` reads it: an instant in milliseconds, or no date at all.
pub data Deadline : Type 0 where
  at : ℕ → Deadline
  unreadable : Deadline

pub record Checkpoint : Type 0 where
  pub operation_key : String
  pub search_id : String
  pub request : PageRequest
  pub attempt : ℕ
  pub request_id : Option String
  pub credit_state : CreditState
  pub credits : Option Credits
  pub state : PageState
  pub failure_class : Option FailureClass
  pub retry_not_before : Option Deadline
  pub result : Option ParsedPage
  pub version : ℕ
