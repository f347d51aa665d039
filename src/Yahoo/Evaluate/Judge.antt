-- ===== src/Yahoo/Evaluate/Judge.antt =====
-- The two passes of evaluateMarketPriceCandidates and its statistics:
-- packages/market-price/src/index.ts.
use Prim.Native.Char.{Char}
use Prim.Native.String.{String}
use hanamaru_shientool_prod.Prelude.Integers.{ℤ, pos, negsuc, sub_ℕ}
use hanamaru_shientool_prod.Prelude.{
  ℕ, ◌+◌, ◌-◌, ◌*◌, Bool, true, false, not, ◌&&◌, ◌||◌, Option, none, some, List, [], ◌∷◌, ◌++◌,
  any, all, keep, length, map, min, ltb, leb, if◌then◌else◌,
}
use hanamaru_shientool_prod.Prelude.Integers.{ℤ, pos, negsuc}
use hanamaru_shientool_prod.Prelude.Text.{str_eq, is_empty}
use hanamaru_shientool_prod.Prelude.Substrings.{contains}
use hanamaru_shientool_prod.Yahoo.{Web, ProductCondition, unspecified, normalize_keyword}
use hanamaru_shientool_prod.Yahoo.Items.{Item, SourceType, auction, fleamarket}
use hanamaru_shientool_prod.Yahoo.Registry.{normalize_model}
use hanamaru_shientool_prod.Yahoo.Evaluate.{
  Reason, product_mismatch, source_type, period, condition, exclude_keyword, price_outlier,
  MatchReason, by_keyword, by_model_number, OutlierPolicy, Input, Score, median, quantile,
  condition_eq, selects, used_conditions, score_of, match_reasons, is_low, exclusions_of,
}

-- What the first pass makes of an item.
pub record Judged : Type 0 where
  pub item : Item
  pub reasons : List Reason
  pub condition_matched : Bool
  pub score : Score
  pub match_reasons : List MatchReason

pub record Candidate : Type 0 where
  pub judged : Judged
  pub exclusion_reasons : List Reason
  pub group_count : ℕ
  pub group_median : Option ℕ
  pub deviation : Option (ℕ × ℕ)
  pub lower_bound : Option ℤ
  pub upper_bound : Option ℕ
  pub auto_outlier : Bool
  pub included : Bool

pub record Statistics : Type 0 where
  pub candidate_count : ℕ
  pub included_count : ℕ
  pub minimum_price : Option ℕ
  pub median_before : Option ℕ
  pub median_price : Option ℕ
  pub maximum_price : Option ℕ
  pub exclusion_counts : List (Reason × ℕ)

abbrev is_auction : SourceType → Bool
is_auction auction = true
is_auction fleamarket = false

abbrev before : ℕ → ℤ → Bool
before t (pos n) = ltb t n
before t (negsuc n) = false

abbrev pub in_period : Input → Item → Bool
in_period i item = not (before item.ended_at i.period_start) && not (ltb i.period_end item.ended_at)

abbrev says_used : Option String → Bool
says_used none = false
says_used (some s) = str_eq s "used"

-- Aucfan tells used items only as such, whatever used condition was asked for.
abbrev broadly_used : Input → Item → Bool
broadly_used i item =
    item.is_aucfan
    && (says_used item.source_condition && any (selects i.selected_conditions) used_conditions)

abbrev pub fits_condition : Input → Item → Bool
fits_condition i item =
    selects i.selected_conditions unspecified
    || (selects i.selected_conditions item.normalized_condition || broadly_used i item)

abbrev pub reason_if : Bool → Reason → List Reason
reason_if b r = if b then r ∷ [] else []

-- The reasons of the first pass, in order.
abbrev pub reasons_from : Bool → Bool → Bool → Bool → Bool → List Reason
reasons_from mismatch other_type untimely other_condition excluded =
    reason_if mismatch product_mismatch
    ++ (reason_if other_type source_type
        ++ (reason_if untimely period
            ++ (reason_if other_condition condition ++ reason_if excluded exclude_keyword)))

module _ (w : Web) (is_mark : Char → Bool) where
  abbrev pub is_excluded : Input → Item → Bool
  is_excluded i item = any (λ s. contains (w.lower item.title) s) (exclusions_of w is_mark i)

  abbrev pub reasons_of : Input → Item → List Reason
  reasons_of i item =
      reasons_from (is_low (score_of w is_mark i item)) (not (is_auction item.source_type))
        (not (in_period i item)) (not (fits_condition i item)) (is_excluded i item)

  -- The first pass on one item.
  unfoldable pub judge : Input → Item → Judged
  unfolding score_of match_reasons is_low contains normalize_keyword
  judge i item = record {
    item = item;
    reasons = reasons_of i item;
    condition_matched = fits_condition i item;
    score = score_of w is_mark i item;
    match_reasons = match_reasons w is_mark i item (score_of w is_mark i item);
  }

abbrev pub no_reasons : List Reason → Bool
no_reasons [] = true
no_reasons (r ∷ rs) = false

abbrev pub is_eligible : Judged → Bool
is_eligible j = no_reasons j.reasons

-- `pricesByCondition`: a Map of lists of prices.
abbrev pub Groups : Type 0
Groups = List (ProductCondition × List ℕ)

unfoldable pub prices_at : ProductCondition → Groups → List ℕ
prices_at c [] = []
prices_at c ((d, ps) ∷ g) = let rest = prices_at c g in if condition_eq d c then ps else rest

unfoldable pub add_price : ProductCondition → ℕ → Groups → Groups
add_price c p [] = (c, p ∷ []) ∷ []
add_price c p ((d, ps) ∷ g) =
    let rest = add_price c p g in if condition_eq d c then (d, ps ++ p ∷ []) ∷ g else (d, ps) ∷ rest

-- The loop over the eligible items.
unfoldable pub group_prices : List Judged → Groups → Groups
unfolding add_price
group_prices [] g = g
group_prices (j ∷ js) g =
    group_prices js (add_price j.item.normalized_condition j.item.closing_price g)

-- What the prices of a group come to: the median in halves, and the bounds in eighths.
pub record Group : Type 0 where
  pub count : ℕ
  pub middle : Option ℕ
  pub lower : Option ℤ
  pub upper : Option ℕ

-- The lower bound may be under 0.
abbrev pub lower_of : Option ℕ → Option ℕ → Option ℤ
lower_of (some a) (some b) = some (sub_ℕ (2 * a) (3 * (b - a)))
lower_of _ _ = none

abbrev pub upper_of : Option ℕ → Option ℕ → Option ℕ
upper_of (some a) (some b) = some (2 * b + 3 * (b - a))
upper_of _ _ = none

unfoldable pub group_of : List ℕ → Group
unfolding median quantile
group_of ps = record {
  count = length ps;
  middle = median ps;
  lower = lower_of (quantile ps 1) (quantile ps 3);
  upper = upper_of (quantile ps 1) (quantile ps 3);
}

-- The distance from the median over the median, both in halves; none for a median of 0.
abbrev pub deviation_of : ℕ → Option ℕ → Option (ℕ × ℕ)
deviation_of price none = none
deviation_of price (some m) =
    if ltb 0 m then some (if ltb m (2 * price) then 2 * price - m else m - 2 * price, m) else none

abbrev pub deviates : ℕ × ℕ → Option (ℕ × ℕ) → Bool
deviates t none = false
deviates t (some d) = ltb (t.0 * d.1) (d.0 * t.1)

abbrev below : ℕ → ℤ → Bool
below n (pos m) = ltb n m
below n (negsuc m) = false

abbrev pub outside : ℕ → Option ℤ → Option ℕ → Bool
outside price (some lower) (some upper) = below (8 * price) lower || ltb upper (8 * price)
outside price _ _ = false

abbrev pub is_outlier : OutlierPolicy → Group → Judged → Bool
is_outlier p g j =
    is_eligible j
    && (p.enabled
        && (leb p.minimum_group_size g.count
            && (deviates p.threshold (deviation_of j.item.closing_price g.middle)
                && outside j.item.closing_price g.lower g.upper)))

-- The second pass on one item, with the prices of its group.
unfoldable pub decide : OutlierPolicy → Group → Judged → Candidate
decide p g j =
    let outlier = is_outlier p g j in
    let reasons = j.reasons ++ reason_if outlier price_outlier in
    record {
      judged = j;
      exclusion_reasons = reasons;
      group_count = g.count;
      group_median = g.middle;
      deviation = deviation_of j.item.closing_price g.middle;
      lower_bound = g.lower;
      upper_bound = g.upper;
      auto_outlier = outlier;
      included = no_reasons reasons;
    }

unfoldable pub decide_all : OutlierPolicy → Groups → List Judged → List Candidate
unfolding decide group_of prices_at
decide_all p g [] = []
decide_all p g (j ∷ js) =
    decide p (group_of (prices_at j.item.normalized_condition g)) j ∷ decide_all p g js

abbrev pub is_price_outlier : Reason → Bool
is_price_outlier price_outlier = true
is_price_outlier _ = false

-- `preOutlier`.
abbrev pub before_outliers : Candidate → Bool
before_outliers c = no_reasons c.exclusion_reasons || all is_price_outlier c.exclusion_reasons

abbrev pub price : Candidate → ℕ
price c = c.judged.item.closing_price

unfoldable pub reason_eq : Reason → Reason → Bool
reason_eq product_mismatch product_mismatch = true
reason_eq source_type source_type = true
reason_eq period period = true
reason_eq condition condition = true
reason_eq exclude_keyword exclude_keyword = true
reason_eq price_outlier price_outlier = true
reason_eq _ _ = false

-- `exclusionCounts[reason] = (exclusionCounts[reason] ?? 0) + 1`.
unfoldable pub count_reason : Reason → List (Reason × ℕ) → List (Reason × ℕ)
count_reason r [] = (r, 1) ∷ []
count_reason r ((q, n) ∷ m) =
    let rest = count_reason r m in if reason_eq q r then (q, n + 1) ∷ m else (q, n) ∷ rest

unfoldable pub count_reasons : List Reason → List (Reason × ℕ) → List (Reason × ℕ)
unfolding count_reason
count_reasons [] m = m
count_reasons (r ∷ rs) m = count_reasons rs (count_reason r m)

unfoldable pub count_all : List Candidate → List (Reason × ℕ) → List (Reason × ℕ)
unfolding count_reasons
count_all [] m = m
count_all (c ∷ cs) m = count_all cs (count_reasons c.exclusion_reasons m)

-- `Math.min` and `Math.max` of the prices, and null where there are none.
unfoldable pub least : List ℕ → Option ℕ
least [] = none
least (x ∷ xs) = elim (least xs) [ none ↦ some x | some y ↦ some (min x y) ]

unfoldable pub most : List ℕ → Option ℕ
most [] = none
most (x ∷ xs) = elim (most xs) [ none ↦ some x | some y ↦ some (if leb x y then y else x) ]

unfoldable pub statistics : List Candidate → Statistics
unfolding median least most count_all
statistics cs =
    let prices = map price (keep (λ c. c.included) cs) in
    record {
      candidate_count = length cs;
      included_count = length prices;
      minimum_price = least prices;
      median_before = median (map price (keep before_outliers cs));
      median_price = median prices;
      maximum_price = most prices;
      exclusion_counts = count_all cs [];
    }

module _ (w : Web) (is_mark : Char → Bool) where
  abbrev pub lacks_model : Input → Bool
  lacks_model i = elim i.basis [
    | by_keyword ↦ false
    | by_model_number ↦ is_empty (normalize_model w (normalize_keyword w i.model_number))
  ]

  abbrev pub evaluated : OutlierPolicy → List Judged → List Candidate × Statistics
  evaluated p js =
      let candidates = decide_all p (group_prices (keep is_eligible js) []) js in
      (candidates, statistics candidates)

  -- `evaluateMarketPriceCandidates`; nothing where the model number is missing, for which it throws.
  unfoldable pub evaluate : Input → Option (List Candidate × Statistics)
  unfolding judge normalize_model normalize_keyword decide_all group_prices statistics
  evaluate i =
      if lacks_model i then none else some (evaluated i.policy (map (judge w is_mark i) i.items))
