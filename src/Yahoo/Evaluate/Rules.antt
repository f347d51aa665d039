-- ===== src/Yahoo/Evaluate/Rules.antt =====
-- What the evaluation decides of each candidate, described without the groups that it builds.
use Prim.Native.Char.{Char}
use hanamaru_shientool_prod.Prelude.{
  ℕ, ◌+◌, ◌*◌, ◌-◌, ◌||◌, ltb, leb, Option, none, Bool, false, not, ◌&&◌, some, List, ◌++◌, map,
  length, All, ◌≡◌,
}
use hanamaru_shientool_prod.Yahoo.{Web}
use hanamaru_shientool_prod.Yahoo.Evaluate.{Input, OutlierPolicy, price_outlier, median, quantile}
use hanamaru_shientool_prod.Yahoo.Evaluate.Judge.{
  Judged, Candidate, Groups, is_eligible, price, reason_if, judge, deviation_of, lower_of, upper_of,
}
use hanamaru_shientool_prod.Yahoo.Evaluate.Groups.{eligible_prices}

-- The price is farther from the median than the threshold, a fraction of the median, allows: the median
-- is in halves, and above 0.
abbrev pub is_far : ℕ × ℕ → ℕ → Option ℕ → Bool
is_far t price none = false
is_far t price (some m) = ltb 0 m && ltb (t.0 * m) ((2 * price - m + (m - 2 * price)) * t.1)

-- The price is more than one and a half times the distance of the quartiles under the first or over the
-- third of them, which are in quarters.
abbrev pub is_beyond : ℕ → Option ℕ → Option ℕ → Bool
is_beyond price (some a) (some b) =
    ltb (8 * price + 3 * (b - a)) (2 * a) || ltb (2 * b + 3 * (b - a)) (8 * price)
is_beyond price _ _ = false

-- The verdict on a candidate among the judged items: it is included if the first pass found nothing
-- against it and it is no outlier. An outlier is exactly an eligible item, where the policy is enabled and the group is
-- large enough, that is far from the group's median and beyond its quartiles. The group is what the
-- eligible items of its condition cost.
pub record Verdict (p : OutlierPolicy) (js : List Judged) (c : Candidate) : Type 0 where
  pub group : c.group_count ≡ length (eligible_prices c.judged.item.normalized_condition js)
  pub middle : c.group_median ≡ median (eligible_prices c.judged.item.normalized_condition js)
  pub deviation :
      c.deviation
      ≡ deviation_of (price c) (median (eligible_prices c.judged.item.normalized_condition js))
  pub lower :
      let ps = eligible_prices c.judged.item.normalized_condition js in
      c.lower_bound ≡ lower_of (quantile ps 1) (quantile ps 3)
  pub upper :
      let ps = eligible_prices c.judged.item.normalized_condition js in
      c.upper_bound ≡ upper_of (quantile ps 1) (quantile ps 3)
  pub verdict : c.included ≡ (is_eligible c.judged && not c.auto_outlier)
  pub kept : c.exclusion_reasons ≡ c.judged.reasons ++ reason_if c.auto_outlier price_outlier
  pub outlier :
      let ps = eligible_prices c.judged.item.normalized_condition js in
      c.auto_outlier ≡ (
        is_eligible c.judged
        && (p.enabled
            && (leb p.minimum_group_size (length ps)
                && (is_far p.threshold (price c) (median ps)
                    && is_beyond (price c) (quantile ps 1) (quantile ps 3)))))

-- The candidates of an evaluation, one for each item and in order.
pub record Evaluated (w : Web) (is_mark : Char → Bool) (i : Input) (cs : List Candidate)
    : Type 0 where
  pub every : map (λ c. c.judged) cs ≡ map (judge w is_mark i) i.items
  pub verdicts : All (Verdict i.policy (map (judge w is_mark i) i.items)) cs
