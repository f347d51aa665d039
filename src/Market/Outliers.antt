-- ===== src/Market/Outliers.antt =====
-- The trimming of outliers in evaluateEbayMarket: packages/market-price/src/soldgraph.ts. A
-- comparison with `q1 - spread`, which may be negative, is written with a sum.
pub mod Trimming
pub mod Strays
use Prim.Native.String.{String}
use hanamaru_shientool_prod.Prelude.{
  ℕ, suc, ◌+◌, ◌-◌, ◌*◌, ◌/◌, Bool, true, false, not, ◌&&◌, ◌||◌, Option, none, some, List, [], ◌∷◌,
  ◌++◌, map, length, ltb, if◌then◌else◌, keep, ◌==◌,
}
use hanamaru_shientool_prod.Prelude.Maps.{get}
use hanamaru_shientool_prod.Contracts.{
  Condition, conditions, Money, ConditionGroup, known, Observation,
}
use hanamaru_shientool_prod.Market.Amounts.{units}
use hanamaru_shientool_prod.Market.Prices.{sort, quantile}
use hanamaru_shientool_prod.Market.Observations.{group_eq}
use hanamaru_shientool_prod.Market.Evaluate.{Policy, Decision, is_include}

infixl 5 ◌>>=◌
abbrev pub ◌>>=◌ : {A B : Type 0} → Option A → (A → Option B) → Option B
some a >>= f = f a
none >>= f = none

-- `units(r.displayedPrice!.amount)`.
unfoldable pub price_of : Observation → Option ℕ
price_of o = elim o.displayed_price [ none ↦ none | some m ↦ units m.amount ]

unfoldable pub prices_of : List Decision → Option (List ℕ)
prices_of [] = some []
prices_of (d ∷ ds) = do p ← price_of d.observation; ps ← prices_of ds; some (p ∷ ps)

abbrev pub is_base : Condition → Decision → Bool
is_base c d = d.included && group_eq d.observation.condition_group (known c)

-- The quartiles of the fixed set of a group before trimming.
pub record Quartiles : Type 0 where
  pub q1 : ℕ
  pub median : ℕ
  pub q3 : ℕ

unfoldable pub quartiles : List ℕ → Option Quartiles
quartiles ps = do
  m ← quantile ps 2
  a ← quantile ps 1
  b ← quantile ps 3
  some (record { q1 = a; median = m; q3 = b })

-- Whether a price is an outlier: farther from the median than the percentage allows, and outside of
-- the quartiles by more than one and a half times their distance.
abbrev pub is_outlier : ℕ → Quartiles → ℕ → Bool
is_outlier percent q amount =
    let spread = (q.q3 - q.q1) * 3 / 2 in
    let distance = if ltb q.median amount then amount - q.median else q.median - amount in
    ltb (q.median * percent) (distance * 100)
    && (ltb (amount + spread) q.q1 || ltb (q.q3 + spread) amount)

-- What trimming does to one decision of the group.
abbrev pub trimmed : Policy → Decision → Bool → Decision
trimmed policy d outlier =
    let marked : Decision = record d { auto_outlier = outlier } in
    if outlier && not (is_include (get d.observation.observation_key policy.overrides))
    then record marked { included = false; reasons = d.reasons ++ ("price_outlier" ∷ []) }
    else marked

module _ (policy : Policy) (percent : ℕ) where
  unfoldable pub trim_one : Condition → Quartiles → Decision → Option Decision
  trim_one c q d =
      if is_base c d
      then price_of d.observation
        >>= (λ amount. some (trimmed policy d (is_outlier percent q amount)))
      else some d

  unfoldable pub trim_each : Condition → Quartiles → List Decision → Option (List Decision)
  trim_each c q [] = some []
  trim_each c q (d ∷ ds) = do e ← trim_one c q d; es ← trim_each c q ds; some (e ∷ es)

  -- One round: a group of fewer than five is left alone.
  unfoldable pub trim_group : List Decision → Condition → Option (List Decision)
  trim_group ds c =
      if ltb (length (keep (is_base c) ds)) 5
      then some ds
      else do ps ← prices_of (keep (is_base c) ds); q ← quartiles (sort ps); trim_each c q ds

  unfoldable pub trim_groups : List Condition → List Decision → Option (List Decision)
  trim_groups [] ds = some ds
  trim_groups (c ∷ cs) ds = do es ← trim_group ds c; trim_groups cs es
