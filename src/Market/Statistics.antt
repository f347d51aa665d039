-- ===== src/Market/Statistics.antt =====
-- evaluateEbayMarket of packages/market-price/src/soldgraph.ts. Amounts
-- are kept as the numbers that `decimal` prints, and rates as the two numbers that are divided.
pub mod Parts
pub mod Accounts
pub mod Reasons
pub mod Rules
pub mod Total
use Prim.Native.String.{String}
use hanamaru_shientool_prod.Prelude.{
  ℕ, suc, ◌+◌, ◌-◌, Bool, true, false, not, ◌&&◌, ◌||◌, Option, none, some, List, [], ◌∷◌, map,
  length, ltb, if◌then◌else◌, any, keep, is_some, Result, ok, err, ◌==◌,
}
use hanamaru_shientool_prod.Prelude.Text.{str_eq}
use hanamaru_shientool_prod.Prelude.Maps.{get, put}
use hanamaru_shientool_prod.Contracts.{
  Market, Currency, market_currency, conditions, LocationStatus, ListingFormat, Observation,
}
use hanamaru_shientool_prod.Contracts.Equality.{market_eq}
use hanamaru_shientool_prod.Market.Prices.{sort, quantile, first, last}
use hanamaru_shientool_prod.Market.Observations.{by_key, is_explicit, is_conflicting}
use hanamaru_shientool_prod.Market.Evaluate.{Folding, Policy, Decision, decide}
use hanamaru_shientool_prod.Market.Outliers.{prices_of, trim_groups}
use hanamaru_shientool_prod.Market.Histogram.{Bin, histogram}

pub record LocationQuality : Type 0 where
  pub denominator : ℕ
  pub explicit_country_count : ℕ
  pub unknown_count : ℕ
  pub conflicting_count : ℕ

pub record FormatQuality : Type 0 where
  pub denominator : ℕ
  pub auction_count : ℕ
  pub fixed_price_count : ℕ
  pub unknown_count : ℕ

pub record Statistics : Type 0 where
  pub market : Market
  pub currency : Currency
  pub received_rows : ℕ
  pub unique_observations : ℕ
  pub included_count : ℕ
  pub minimum : Option ℕ
  pub median : Option ℕ
  pub maximum : Option ℕ
  pub p25 : Option ℕ
  pub p75 : Option ℕ
  pub primary_exclusion_counts : List (String × ℕ)
  pub bins : List Bin
  pub location_quality : LocationQuality
  pub format_quality : FormatQuality
  pub decisions : List Decision

-- The errors of the evaluation: a policy that is refused, or an exception on broken data.
pub data Failure : Type 0 where
  invalid_request broken : Failure

abbrev pub or_broken : {A : Type 0} → Option A → Result Failure A
or_broken none = err broken
or_broken (some a) = ok a

infixl 5 ◌>>=◌
abbrev pub ◌>>=◌ : {A B : Type 0} → Result Failure A → (A → Result Failure B) → Result Failure B
ok a >>= f = f a
err e >>= f = err e

abbrev pub count {ℓ} : {A : Type ℓ} → (A → Bool) → List A → ℕ
count p xs = length (keep p xs)

abbrev pub primary : List String → String
primary [] = "undefined"
primary (r ∷ rs) = r

abbrev pub or_zero : Option ℕ → ℕ
or_zero none = 0
or_zero (some n) = n

-- `counts[reason] = (counts[reason] ?? 0) + 1` for the first reason of each excluded decision.
unfoldable pub tally : List (String × ℕ) → List Decision → List (String × ℕ)
tally m [] = m
tally m (d ∷ ds) =
    let r = primary d.reasons in
    tally (if d.included then m else put r (or_zero (get r m) + 1) m) ds

abbrev is_auction : ListingFormat → Bool
is_auction ListingFormat.auction = true
is_auction _ = false

abbrev is_fixed : ListingFormat → Bool
is_fixed ListingFormat.fixed_price = true
is_fixed _ = false

abbrev pub location_quality_of : List Decision → LocationQuality
location_quality_of ds =
    let explicit = count (λ (d : Decision). is_explicit d.observation.location.status) ds in
    let disputed = count (λ (d : Decision). is_conflicting d.observation.location.status) ds in
    record {
      denominator = length ds;
      explicit_country_count = explicit;
      unknown_count = length ds - explicit - disputed;
      conflicting_count = disputed;
    }

abbrev pub format_quality_of : List Decision → FormatQuality
format_quality_of ds =
    let auctions = count (λ (d : Decision). is_auction d.observation.format) ds in
    let fixed = count (λ (d : Decision). is_fixed d.observation.format) ds in
    record {
      denominator = length ds;
      auction_count = auctions;
      fixed_price_count = fixed;
      unknown_count = length ds - auctions - fixed;
    }

abbrev pub included_of : List Decision → List Decision
included_of ds = keep (λ (d : Decision). d.included) ds

-- The figures of the decisions on `n` rows.
abbrev pub figures : Market → ℕ → List Decision → List ℕ → List Bin → Statistics
figures market n ds selected bins = record {
  market = market;
  currency = market_currency market;
  received_rows = n;
  unique_observations = length ds;
  included_count = length selected;
  minimum = first selected;
  median = quantile selected 2;
  maximum = last selected;
  p25 = quantile selected 1;
  p75 = quantile selected 3;
  primary_exclusion_counts = tally [] ds;
  bins = bins;
  location_quality = location_quality_of ds;
  format_quality = format_quality_of (included_of ds);
  decisions = ds;
}

abbrev pub percent_of : Option ℕ → ℕ
percent_of none = 20
percent_of (some p) = p

abbrev pub in_market : Market → List Observation → List Observation
in_market market rows = keep (λ (r : Observation). market_eq r.market market) rows

module _ (f : Folding) (policy : Policy) where
  abbrev pub decisions_on : List Observation → List Decision
  decisions_on rows = map (λ (e : String × Observation). decide f policy e.1) (by_key [] rows)

  -- `evaluateEbayMarket`.
  unfoldable pub evaluate : Market → List Observation → Result Failure Statistics
  evaluate market rows =
      if ltb 100 (percent_of policy.outlier_percent) then err invalid_request else do
        let mine = in_market market rows
        ds ←
            or_broken (
              trim_groups policy (percent_of policy.outlier_percent) conditions (decisions_on mine))
        prices ← or_broken (prices_of (included_of ds))
        bins ← or_broken (histogram (sort prices))
        ok (figures market (length mine) ds (sort prices) bins)
