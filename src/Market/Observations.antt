-- ===== src/Market/Observations.antt =====
-- One observation for each key: packages/market-price/src/soldgraph.ts (ebayObservationsConflict,
-- mergeEbayLocation and the first loop of evaluateEbayMarket). A text of `JSON.stringify` is compared
-- field by field, and a sorted array without repetitions is the list of the values that it has.
pub mod Merging
use Prim.Native.String.{String}
use hanamaru_shientool_prod.Prelude.{
  ℕ, Bool, true, false, not, ◌&&◌, ◌||◌, Option, none, some, List, [], ◌∷◌, ◌++◌, ◌==◌,
  if◌then◌else◌, any, keep, is_some,
}
use hanamaru_shientool_prod.Prelude.Text.{str_eq}
use hanamaru_shientool_prod.Prelude.Maps.{get, put}
use hanamaru_shientool_prod.Contracts.{
  Market, Currency, Condition, Money, PriceExclusion, ConditionGroup, known, ListingFormat,
  LocationStatus, country_explicit, conflicting, Location, Observation,
}
use hanamaru_shientool_prod.Contracts.Equality.{market_eq, condition_eq}

abbrev pub option_eq : {A : Type 0} → (A → A → Bool) → Option A → Option A → Bool
option_eq eq none none = true
option_eq eq (some a) (some b) = eq a b
option_eq eq _ _ = false

abbrev bool_eq : Bool → Bool → Bool
bool_eq true b = b
bool_eq false b = not b

abbrev pub currency_index : Currency → ℕ
currency_index Currency.usd = 0
currency_index Currency.gbp = 1
currency_index Currency.cad = 2
currency_index Currency.aud = 3
currency_index Currency.eur = 4

abbrev money_eq : Money → Money → Bool
money_eq a b = str_eq a.amount b.amount && currency_index a.currency == currency_index b.currency

abbrev pub group_eq : ConditionGroup → ConditionGroup → Bool
group_eq (known a) (known b) = condition_eq a b
group_eq ConditionGroup.unknown ConditionGroup.unknown = true
group_eq _ _ = false

abbrev format_index : ListingFormat → ℕ
format_index ListingFormat.auction = 0
format_index ListingFormat.fixed_price = 1
format_index ListingFormat.unknown = 2

abbrev exclusion_index : PriceExclusion → ℕ
exclusion_index PriceExclusion.missing_item_id = 0
exclusion_index PriceExclusion.missing_title = 1
exclusion_index PriceExclusion.invalid_price = 2
exclusion_index PriceExclusion.currency_mismatch = 3
exclusion_index PriceExclusion.price_range = 4
exclusion_index PriceExclusion.best_offer_accepted = 5
exclusion_index PriceExclusion.best_offer_unknown = 6
exclusion_index PriceExclusion.observation_conflict = 7

abbrev pub has_exclusion : List PriceExclusion → ℕ → Bool
has_exclusion rs n = any (λ r. exclusion_index r == n) rs

-- The sorted set of exclusions without `observation_conflict`: two are the same text if they have
-- the same members.
abbrev same_exclusions : List PriceExclusion → List PriceExclusion → Bool
same_exclusions a b =
    let same : ℕ → Bool = λ n. bool_eq (has_exclusion a n) (has_exclusion b n) in
    same 0 && same 1 && same 2 && same 3 && same 4 && same 5 && same 6

abbrev same_signature : Observation → Observation → Bool
same_signature a b =
    option_eq money_eq a.displayed_price b.displayed_price
    && group_eq a.condition_group b.condition_group
    && option_eq str_eq a.source_condition b.source_condition
    && option_eq bool_eq a.best_offer b.best_offer
    && format_index a.format == format_index b.format
    && same_exclusions a.hard_exclusions b.hard_exclusions

-- `ebayObservationsConflict`.
unfoldable pub conflict : Observation → Observation → Bool
conflict previous next =
    if not (market_eq previous.market next.market)
      || not (str_eq previous.observation_key next.observation_key)
    then false
    else not (same_signature previous next)

abbrev pub is_conflicting : LocationStatus → Bool
is_conflicting conflicting = true
is_conflicting _ = false

abbrev pub is_explicit : LocationStatus → Bool
is_explicit country_explicit = true
is_explicit _ = false

-- `previous.text ?? next.text`.
abbrev first_of : Option String → Option String → Option String
first_of none b = b
first_of (some a) b = some a

-- `mergeEbayLocation`.
unfoldable pub merge_location : Location → Location → Location
merge_location a b =
    if is_conflicting a.status
      || is_conflicting b.status
      || (is_explicit a.status
          && is_explicit b.status
          && not (option_eq str_eq a.country_code b.country_code))
    then record { status = conflicting; country_code = none; text = first_of a.text b.text }
    else if is_explicit a.status
    then a
    else if is_explicit b.status
    then b
    else a

-- `[...new Set(...)]`.
abbrev pub unique : List PriceExclusion → List PriceExclusion
unique [] = []
unique (r ∷ rs) = r ∷ keep (λ q. not (exclusion_index q == exclusion_index r)) (unique rs)

-- What a further row of the same key leaves of the first one.
unfoldable pub absorb : Observation → Observation → Observation
unfolding conflict merge_location
absorb previous row = record previous {
  hard_exclusions =
      if conflict previous row
      then unique (previous.hard_exclusions ++ (PriceExclusion.observation_conflict ∷ []))
      else previous.hard_exclusions;
  location = merge_location previous.location row.location;
}

abbrev pub entered : Option Observation → Observation → Observation
entered none row = row
entered (some previous) row = absorb previous row

-- The first loop: one entry for each key, in the order of their first rows.
unfoldable pub by_key : List (String × Observation) → List Observation → List (String × Observation)
by_key seen [] = seen
by_key seen (row ∷ rows) =
    let key = row.observation_key in by_key (put key (entered (get key seen) row) seen) rows
