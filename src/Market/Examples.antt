-- ===== src/Market/Examples.antt =====
-- Runs of the evaluation of a market, on three rows: a sale, the same item once more, and a row
-- that the provider gave no price for.
use hanamaru_shientool_prod.Prelude.{
  ◌+◌, ◌≤◌, true, false, none, some, List, [], ◌∷◌, length, ok, ◌≡◌, refl, All, arith,
}
use hanamaru_shientool_prod.Prelude.Maps.{get, put}
use hanamaru_shientool_prod.Contracts.{
  Market, Currency, Condition, known, ListingFormat, LocationStatus, Location, Observation,
  PriceExclusion,
}
use hanamaru_shientool_prod.Contracts.Equality.{market_eq, condition_eq}
use hanamaru_shientool_prod.Market.Amounts.{units, big_int}
use hanamaru_shientool_prod.Market.Prices.{sort, insert, first, last}
use hanamaru_shientool_prod.Market.Prices.Order.{Below}
use hanamaru_shientool_prod.Market.Observations.{by_key, absorb, conflict, merge_location}
use hanamaru_shientool_prod.Market.Observations.Merging.{join, place_of, merge_location_order}
use hanamaru_shientool_prod.Market.Evaluate.{Folding, Policy, Decision, decide}
use hanamaru_shientool_prod.Market.Outliers.{price_of, prices_of, trim_group, trim_groups}
use hanamaru_shientool_prod.Market.Histogram.{Bin, histogram, put_price, fill}
use hanamaru_shientool_prod.Market.Histogram.Total.{total_count}
use hanamaru_shientool_prod.Market.Statistics.{Statistics, evaluate, figures, included_of}
use hanamaru_shientool_prod.Market.Statistics.Accounts.{sum, evaluate_accounts, evaluate_ordered}
use hanamaru_shientool_prod.Market.Statistics.Reasons.{Reasoned}
use hanamaru_shientool_prod.Market.Statistics.Rules.{IsMarked, Ruled, evaluate-Ruled}
use hanamaru_shientool_prod.Market.Statistics.Total.{evaluate_total}

abbrev folding : Folding
folding = record { lower = λ s. s; lower_trimmed = λ s. s }

abbrev policy : Policy
policy = record {
  product = none;
  excluded_item_ids = [];
  overrides = [];
  exclude_keywords = [];
  rejected_keys = [];
  outlier_percent = none;
}

abbrev japan : Location
japan = record {
  status = LocationStatus.country_explicit;
  country_code = some "JP";
  text = some "Japan";
}

abbrev nowhere : Location
nowhere = record { status = LocationStatus.unknown; country_code = none; text = none }

abbrev sale : Observation
sale = record {
  observation_key = "us:123456789";
  market = Market.us;
  source_item_id = some "123456789";
  title = "camera";
  canonical_url = none;
  displayed_price = some (record { amount = "12.50"; currency = Currency.usd });
  displayed_shipping = none;
  condition_group = known Condition.used;
  source_condition = some "used";
  format = ListingFormat.auction;
  best_offer = some false;
  sold_on = none;
  location = nowhere;
  hard_exclusions = [];
}

abbrev again : Observation
again = record sale { location = japan }

abbrev unpriced : Observation
unpriced = record sale {
  observation_key = "us:987654321";
  displayed_price = none;
  hard_exclusions = PriceExclusion.invalid_price ∷ [];
}

abbrev rows : List Observation
rows = sale ∷ (again ∷ (unpriced ∷ []))

abbrev decided : List Decision
decided =
    record {
      observation = again;
      product_match = none;
      reasons = [];
      auto_outlier = false;
      included = true;
    }
    ∷ (record {
      observation = unpriced;
      product_match = none;
      reasons = "invalid_price" ∷ [];
      auto_outlier = false;
      included = false;
    }
        ∷ [])

abbrev bins : List Bin
bins = record { lower = 12500000; upper = 12500000; upper_inclusive = true; count = 1 } ∷ []

abbrev stats : Statistics
stats = figures Market.us 3 decided (12500000 ∷ []) bins

evaluate-rows : evaluate folding policy Market.us rows ≡ ok stats
unfolding evaluate market_eq condition_eq by_key get put absorb conflict merge_location decide
    price_of units big_int prices_of trim_groups trim_group sort insert first last histogram
    put_price fill
evaluate-rows = refl

evaluate_accounts_example :
    (stats.included_count + sum stats.primary_exclusion_counts ≡ stats.unique_observations)
    × (length stats.decisions ≡ stats.unique_observations)
    × (stats.included_count ≡ length (included_of stats.decisions))
    × (stats.unique_observations ≤ stats.received_rows)
    × (stats.received_rows ≤ length rows)
evaluate_accounts_example = evaluate_accounts folding policy Market.us rows stats evaluate-rows

evaluate_ordered_example :
    Below stats.minimum stats.p25
    × Below stats.p25 stats.median
    × Below stats.median stats.p75
    × Below stats.p75 stats.maximum
evaluate_ordered_example = evaluate_ordered folding policy Market.us rows stats evaluate-rows

evaluate-Ruled_example :
    All
      (λ d.
        Reasoned folding policy d
        × Ruled folding policy d
        × IsMarked folding policy Market.us rows stats d)
      stats.decisions
evaluate-Ruled_example = evaluate-Ruled folding policy Market.us rows stats evaluate-rows

evaluate_total_example :
    (st : Statistics) × (evaluate folding policy Market.us rows ≡ ok st)
    × (total_count st.bins ≡ st.included_count)
unfolding price_of units big_int
evaluate_total_example =
    evaluate_total folding policy Market.us rows (omega arith)
      ((λ e. refl), ((λ e. refl), ((λ e. absurd (ground arith)), tt)))

merge_location_order_example :
    (place_of (merge_location japan nowhere) ≡ place_of (merge_location nowhere japan))
    × (place_of (merge_location japan nowhere) ≡ join (place_of japan) (place_of nowhere))
    × (place_of (merge_location (merge_location japan nowhere) japan)
        ≡ place_of (merge_location japan (merge_location nowhere japan)))
merge_location_order_example = merge_location_order japan nowhere japan
