-- ===== src/Market/Statistics/Parts.antt =====
-- The parts of an evaluation that succeeds.
use hanamaru_shientool_prod.Prelude.{
  ℕ, false, Option, none, some, List, length, ltb, Result, ok, ◌≡◌, refl, inl, inr, Bool-cases,
  arith,
}
use hanamaru_shientool_prod.Contracts.{Market, conditions, Observation}
use hanamaru_shientool_prod.Market.Prices.{sort}
use hanamaru_shientool_prod.Market.Evaluate.{Folding, Policy, Decision}
use hanamaru_shientool_prod.Market.Outliers.{prices_of, trim_groups}
use hanamaru_shientool_prod.Market.Histogram.{Bin, histogram}
use hanamaru_shientool_prod.Market.Statistics.{
  Statistics, Failure, or_broken, included_of, figures, percent_of, in_market, decisions_on,
  evaluate, ◌>>=◌,
}

module _ (f : Folding) (policy : Policy) (market : Market) (rows : List Observation) where
  abbrev pub trimming : Option (List Decision)
  trimming =
      trim_groups policy (percent_of policy.outlier_percent) conditions
        (decisions_on f policy (in_market market rows))

  pub record Parts (st : Statistics) : Type 0 where
    pub ds : List Decision
    pub prices : List ℕ
    pub bins : List Bin
    pub trimmed : trimming ≡ some ds
    pub priced : prices_of (included_of ds) ≡ some prices
    pub binned : histogram (sort prices) ≡ some bins
    pub result : figures market (length (in_market market rows)) ds (sort prices) bins ≡ st

  abbrev with_bins : List Decision → List ℕ → List Bin → Result Failure Statistics
  with_bins ds ps bins = ok (figures market (length (in_market market rows)) ds (sort ps) bins)

  abbrev with_prices : List Decision → List ℕ → Result Failure Statistics
  with_prices ds ps = or_broken (histogram (sort ps)) >>= with_bins ds ps

  abbrev with_decisions : List Decision → Result Failure Statistics
  with_decisions ds = or_broken (prices_of (included_of ds)) >>= with_prices ds

  binned-Parts :
      {st : Statistics} (ds : List Decision) (ps : List ℕ) (b : Option (List Bin))
      → trimming ≡ some ds
      → prices_of (included_of ds) ≡ some ps
      → histogram (sort ps) ≡ b
      → (or_broken b >>= with_bins ds ps) ≡ ok st
      → Parts st
  binned-Parts ds ps none t p h e = absurd (ground arith)
  binned-Parts ds ps (some bs) t p h e = record {
    ds = ds;
    prices = ps;
    bins = bs;
    trimmed = t;
    priced = p;
    binned = h;
    result = ground arith;
  }

  priced-Parts :
      {st : Statistics} (ds : List Decision) (p : Option (List ℕ))
      → trimming ≡ some ds
      → prices_of (included_of ds) ≡ p
      → (or_broken p >>= with_prices ds) ≡ ok st
      → Parts st
  priced-Parts ds none t p e = absurd (ground arith)
  priced-Parts ds (some ps) t p e = binned-Parts ds ps (histogram (sort ps)) t p refl e

  trimmed-Parts :
      {st : Statistics} (t : Option (List Decision))
      → trimming ≡ t
      → (or_broken t >>= with_decisions) ≡ ok st
      → Parts st
  trimmed-Parts none t e = absurd (ground arith)
  trimmed-Parts (some ds) t e = priced-Parts ds (prices_of (included_of ds)) t refl e

  pub evaluate-Parts : (st : Statistics) → evaluate f policy market rows ≡ ok st → Parts st
  unfolding evaluate
  evaluate-Parts st e = elim (Bool-cases (ltb 100 (percent_of policy.outlier_percent))) [
    | inl over ↦ absurd (ground arith)
    | inr fits ↦ trimmed-Parts trimming refl (rw fits at e)
  ]

  -- Where the percentage is accepted, only broken data can stop the evaluation.
  pub evaluate-ok :
      (ds : List Decision) (ps : List ℕ) (bs : List Bin)
      → ltb 100 (percent_of policy.outlier_percent) ≡ false
      → trimming ≡ some ds
      → prices_of (included_of ds) ≡ some ps
      → histogram (sort ps) ≡ some bs
      → evaluate f policy market rows ≡ with_bins ds ps bs
  unfolding evaluate
  evaluate-ok ds ps bs fits t p h = rw (fits, t, p, h) refl
