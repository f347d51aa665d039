-- ===== src/Market/Statistics/Accounts.antt =====
-- What the figures of a market add up to.
use Prim.Native.String.{String}
use hanamaru_shientool_prod.Prelude.{
  ℕ, suc, ◌+◌, ◌≤◌, some, List, [], ◌∷◌, map, length, ok, ◌≡◌, refl, sym, ap, inl, inr, Bool-cases,
  arith, length-keep,
}
use hanamaru_shientool_prod.Prelude.Maps.{get, put, length-put}
use hanamaru_shientool_prod.Contracts.{Market, conditions, Observation}
use hanamaru_shientool_prod.Contracts.Equality.{market_eq}
use hanamaru_shientool_prod.Market.Prices.{sort}
use hanamaru_shientool_prod.Market.Prices.Order.{Below, sort-Sorted, quantiles_ordered, length-sort}
use hanamaru_shientool_prod.Market.Observations.{by_key, entered}
use hanamaru_shientool_prod.Market.Evaluate.{Folding, Policy, Decision, decide}
use hanamaru_shientool_prod.Market.Outliers.{prices_of, price_of, ◌>>=◌}
use hanamaru_shientool_prod.Market.Outliers.Trimming.{
  >>=-eq-some, length-Each, Trims, trim_groups-Trims,
}
use hanamaru_shientool_prod.Market.Statistics.{
  Statistics, primary, or_zero, tally, included_of, percent_of, in_market, decisions_on, evaluate,
}
use hanamaru_shientool_prod.Market.Statistics.Parts.{evaluate-Parts}

abbrev pub sum : List (String × ℕ) → ℕ
sum [] = 0
sum ((k, n) ∷ m) = n + sum m

sum-put_next :
    (k : String) (m : List (String × ℕ)) → sum (put k (or_zero (get k m) + 1) m) ≡ sum m + 1
unfolding put get
sum-put_next k [] = refl
sum-put_next k ((j, n) ∷ m) = ground (arith, sum-put_next k m)

sum-tally :
    (m : List (String × ℕ)) (ds : List Decision)
    → sum (tally m ds) + length (included_of ds) ≡ sum m + length ds
unfolding tally
sum-tally m [] = refl
sum-tally m (d ∷ ds) = elim (Bool-cases d.included) [
  | inl in_it ↦ rw in_it (omega (arith, sum-tally m ds))
  | inr out ↦
      let r = primary d.reasons in
      let rest = sum-tally (put r (or_zero (get r m) + 1) m) ds in
      let one = sum-put_next r m in rw out (omega (arith, rest, one))
]

pub length-prices_of :
    (ds : List Decision) (ps : List ℕ) → prices_of ds ≡ some ps → length ps ≡ length ds
unfolding prices_of
length-prices_of [] ps e = ground arith
length-prices_of (d ∷ ds) ps e =
    let (p, one, rest) =
      >>=-eq-some (price_of d.observation) (λ p. prices_of ds >>= λ ps. some (p ∷ ps)) e in
    let (tail, others, same) = >>=-eq-some (prices_of ds) (λ ps. some (p ∷ ps)) rest in
    ground (arith, same, length-prices_of ds tail others)

length-by_key :
    (seen : List (String × Observation)) (rows : List Observation)
    → length (by_key seen rows) ≤ length seen + length rows
unfolding by_key
length-by_key seen [] = omega arith
length-by_key seen (row ∷ rows) =
    let o = entered (get row.observation_key seen) row in
    let here = length-put row.observation_key o seen in
    let rest = length-by_key (put row.observation_key o seen) rows in omega (arith, here, rest)

pub length-map : {A B : Type 0} (f : A → B) (xs : List A) → length (map f xs) ≡ length xs
length-map f [] = refl
length-map f (x ∷ xs) = ap suc (length-map f xs)

module _ (f : Folding) (policy : Policy) (market : Market) (rows : List Observation)
    (st : Statistics) where
  -- Where an evaluation succeeds, every distinct observation is accounted for: those included and the
  -- counts of the primary reasons of exclusion add up to the distinct observations, which are the
  -- decisions and are no more than the rows received, which are no more than the rows given.
  pub evaluate_accounts :
      evaluate f policy market rows ≡ ok st
      → (st.included_count + sum st.primary_exclusion_counts ≡ st.unique_observations)
        × (length st.decisions ≡ st.unique_observations)
        × (st.included_count ≡ length (included_of st.decisions))
        × (st.unique_observations ≤ st.received_rows)
        × (st.received_rows ≤ length rows)
  evaluate_accounts e =
      let p = evaluate-Parts f policy market rows st e in
      let mine = in_market market rows in
      let prices = length-prices_of (included_of p.ds) p.prices p.priced in
      let sorted = length-sort p.prices in
      let tallied = sum-tally [] p.ds in
      let trims = length-Each (Trims policy) (
        trim_groups-Trims policy (percent_of policy.outlier_percent) conditions
          (decisions_on f policy mine) p.ds p.trimmed) in
      let decided =
        length-map (λ (e : String × Observation). decide f policy e.1) (by_key [] mine) in
      let keys = length-by_key [] mine in
      let kept = length-keep (λ (r : Observation). market_eq r.market market) rows in
      rw (sym p.result) (
        omega (arith, prices, sorted, tallied),
        refl,
        omega (arith, prices, sorted),
        omega (arith, trims, decided, keys),
        kept,
      )

  -- The figures of an evaluation are ordered: minimum, first quartile, median, third quartile and
  -- maximum, each at most the next, or all missing.
  pub evaluate_ordered :
      evaluate f policy market rows ≡ ok st
      → Below st.minimum st.p25
        × Below st.p25 st.median
        × Below st.median st.p75
        × Below st.p75 st.maximum
  evaluate_ordered e =
      let p = evaluate-Parts f policy market rows st e in
      rw (sym p.result) (quantiles_ordered (sort p.prices) (sort-Sorted p.prices))
