-- ===== src/Market/Histogram.antt =====
-- The bins of priceHistogram: packages/market-price/src/soldgraph.ts. A price that no bin takes, for
-- which the source throws, gives `none`. The hash of the population is not modelled.
pub mod Total
use hanamaru_shientool_prod.Prelude.{
  ℕ, zero, suc, ◌+◌, ◌-◌, ◌*◌, ◌/◌, min, Bool, true, false, ◌&&◌, ◌||◌, Option, none, some, List,
  [], ◌∷◌, ltb, leb, ◌==◌, if◌then◌else◌, map,
}
use hanamaru_shientool_prod.Market.Prices.{first, last}

pub record Bin : Type 0 where
  pub lower : ℕ
  pub upper : ℕ
  pub upper_inclusive : Bool
  pub count : ℕ

abbrev pub bin_count : ℕ → ℕ
bin_count span = if span == 0 then 1 else min span 5

-- The bins from an index on: `left` are still to come, of `count` in all.
abbrev pub bins_from : ℕ → ℕ → ℕ → ℕ → ℕ → List Bin
bins_from least span count index zero = []
bins_from least span count index (suc left) =
    record {
      lower = least + span * index / count;
      upper = least + span * (index + 1) / count;
      upper_inclusive = index + 1 == count;
      count = 0;
    }
    ∷ bins_from least span count (index + 1) left

abbrev pub takes : ℕ → Bin → Bool
takes price b = leb b.lower price && (ltb price b.upper || (b.upper_inclusive && leb price b.upper))

abbrev pub consed : Bin → Option (List Bin) → Option (List Bin)
consed b none = none
consed b (some bs) = some (b ∷ bs)

-- `bins.find(…)` and `bin.count++`.
unfoldable pub put_price : ℕ → List Bin → Option (List Bin)
put_price price [] = none
put_price price (b ∷ bs) =
    let rest = consed b (put_price price bs) in
    if takes price b then some (record b { count = b.count + 1 } ∷ bs) else rest

abbrev pub fill_next : (List Bin → Option (List Bin)) → Option (List Bin) → Option (List Bin)
fill_next f none = none
fill_next f (some bs) = f bs

unfoldable pub fill : List ℕ → List Bin → Option (List Bin)
fill [] bs = some bs
fill (p ∷ ps) bs = fill_next (fill ps) (put_price p bs)

abbrev pub between : List ℕ → Option ℕ → Option ℕ → Option (List Bin)
between ps (some least) (some most) =
    let span = most - least in fill ps (bins_from least span (bin_count span) 0 (bin_count span))
between ps _ _ = some []

-- The bins of sorted prices.
unfoldable pub histogram : List ℕ → Option (List Bin)
histogram ps = between ps (first ps) (last ps)
