-- ===== src/Market/Evaluate.antt =====
-- The decisions on the observations of one market and its figures: evaluateEbayMarket of
-- packages/market-price/src/soldgraph.ts. A step that throws on a missing price (`!`) or a text
-- that is no number gives `none`. The reasons are the source's texts. Arrays that are absent from a
-- policy are empty, and what `assessEbayProduct` says of an observation is a field of the policy.
use Prim.Native.String.{String}
use hanamaru_shientool_prod.Prelude.{
  ℕ, Bool, true, false, not, ◌&&◌, Option, none, some, List, [], ◌∷◌, ◌++◌, map, any,
}
use hanamaru_shientool_prod.Prelude.Text.{str_eq, trim, is_empty}
use hanamaru_shientool_prod.Prelude.Maps.{get}
use hanamaru_shientool_prod.Prelude.Substrings.{contains}
use hanamaru_shientool_prod.Contracts.{PriceExclusion, Observation}

pub data Match : Type 0 where
  matched mismatch unknown : Match

pub data Override : Type 0 where
  include exclude : Override

-- `lower` is `normalize("NFKC").toLowerCase()`; `lower_trimmed` trims in between.
pub record Folding : Type 0 where
  pub lower : String → String
  pub lower_trimmed : String → String

pub record Policy : Type 0 where
  pub product : Option (Observation → Match)
  pub excluded_item_ids : List String
  pub overrides : List (String × Override)
  pub exclude_keywords : List String
  pub rejected_keys : List String
  pub outlier_percent : Option ℕ

pub record Decision : Type 0 where
  pub observation : Observation
  pub product_match : Option Match
  pub reasons : List String
  pub auto_outlier : Bool
  pub included : Bool

abbrev pub reason_of : PriceExclusion → String
reason_of PriceExclusion.missing_item_id = "missing_item_id"
reason_of PriceExclusion.missing_title = "missing_title"
reason_of PriceExclusion.invalid_price = "invalid_price"
reason_of PriceExclusion.currency_mismatch = "currency_mismatch"
reason_of PriceExclusion.price_range = "price_range"
reason_of PriceExclusion.best_offer_accepted = "best_offer_accepted"
reason_of PriceExclusion.best_offer_unknown = "best_offer_unknown"
reason_of PriceExclusion.observation_conflict = "observation_conflict"

abbrev pub is_include : Option Override → Bool
is_include (some include) = true
is_include _ = false

abbrev pub is_exclude : Option Override → Bool
is_exclude (some exclude) = true
is_exclude _ = false

abbrev pub product_reasons : Option Match → Bool → List String
product_reasons (some mismatch) false = "product_mismatch" ∷ []
product_reasons (some Match.unknown) false = "product_confirmation_required" ∷ []
product_reasons _ _ = []

abbrev pub when : Bool → String → List String
when true r = r ∷ []
when false r = []

abbrev pub listed : List String → Option String → Bool
listed ids none = false
listed ids (some id) = not (is_empty id) && any (str_eq id) ids

abbrev pub assessed : Option (Observation → Match) → Observation → Option Match
assessed none o = none
assessed (some f) o = some (f o)

abbrev pub is_empty_list : {A : Type 0} → List A → Bool
is_empty_list [] = true
is_empty_list (x ∷ xs) = false

module _ (f : Folding) (policy : Policy) where
  abbrev pub override_of : Observation → Option Override
  override_of o = get o.observation_key policy.overrides

  -- `excludeKeywords.some(…)`: a blank keyword excludes nothing.
  abbrev pub excluded_by : String → String → Bool
  excluded_by title k = not (is_empty (trim k)) && contains (f.lower title) (f.lower_trimmed k)

  abbrev pub later_reasons : Observation → List String
  later_reasons o =
      product_reasons (assessed policy.product o) (is_include (override_of o))
      ++ (when (listed policy.excluded_item_ids o.source_item_id) "product_excluded"
          ++ (when (any (str_eq o.observation_key) policy.rejected_keys)
                "product_or_condition_mismatch"
              ++ (when (any (excluded_by o.title) policy.exclude_keywords) "excluded_keyword"
                  ++ when (is_exclude (override_of o)) "manual_excluded")))

  unfoldable pub decide : Observation → Decision
  decide o =
      let reasons = map reason_of o.hard_exclusions ++ later_reasons o in
      record {
        observation = o;
        product_match = assessed policy.product o;
        reasons = reasons;
        auto_outlier = false;
        included = is_empty_list reasons;
      }
