-- ===== src/Market/Statistics/Total.antt =====
-- An evaluation of sound rows succeeds.
use Prim.Native.String.{String}
use hanamaru_shientool_prod.Prelude.{
  ℕ, ◌≤◌, ◌<◌, Bool, true, Option, none, some, List, [], ◌∷◌, ◌++◌, map, length, ltb, keep, is_some,
  ok, ◌≡◌, ◌≢◌, refl, sym, ◌∙◌, inl, inr, All, All-keep, Bool-cases, arith,
}
use hanamaru_shientool_prod.Prelude.Maps.{get, put, All-put, get-All}
use hanamaru_shientool_prod.Contracts.{Market, Condition, conditions, Observation, PriceExclusion}
use hanamaru_shientool_prod.Contracts.Equality.{market_eq}
use hanamaru_shientool_prod.Market.Prices.{sort, quantile}
use hanamaru_shientool_prod.Market.Prices.Order.{sort-Sorted, length-sort}
use hanamaru_shientool_prod.Market.Observations.{by_key, entered, absorb, conflict, unique}
use hanamaru_shientool_prod.Market.Evaluate.{Folding, Policy, Decision, decide}
use hanamaru_shientool_prod.Market.Outliers.{
  Quartiles, quartiles, prices_of, price_of, is_base, is_outlier, trimmed, trim_one, trim_each,
  trim_group, trim_groups,
}
use hanamaru_shientool_prod.Market.Outliers.Trimming.{Each, Trims, trim_group-Trims}
use hanamaru_shientool_prod.Market.Histogram.Total.{histogram_total, total_count}
use hanamaru_shientool_prod.Market.Statistics.{
  Statistics, included_of, figures, percent_of, in_market, decisions_on, evaluate,
}
use hanamaru_shientool_prod.Market.Statistics.Parts.{evaluate-ok}
use hanamaru_shientool_prod.Market.Statistics.Rules.{Ruled-Clean}
use hanamaru_shientool_prod.Market.Statistics.Accounts.{length-prices_of}

-- A row without a hard exclusion has a price that can be read, as parseSoldgraphPage makes it.
abbrev pub Priced : Observation → Type 0
Priced o = o.hard_exclusions ≡ [] → is_some (price_of o) ≡ true

unique_not_empty : (rs : List PriceExclusion) (r : PriceExclusion) → unique (rs ++ (r ∷ [])) ≢ []
unique_not_empty [] r e = absurd (ground arith)
unique_not_empty (q ∷ rs) r e = absurd (ground arith)

some_of : {A : Type 0} (o : Option A) → is_some o ≡ true → (a : A) × (o ≡ some a)
some_of none e = absurd (ground arith)
some_of (some a) e = (a, refl)

absorb-Priced : (p row : Observation) → Priced p → Priced (absorb p row)
unfolding absorb price_of
absorb-Priced p row h e = elim (Bool-cases (conflict p row)) [
  | inl c ↦
      absurd (unique_not_empty p.hard_exclusions PriceExclusion.observation_conflict (rw c at e))
  | inr c ↦ h (rw c at e)
]

entered-Priced :
    (o : Option Observation) (row : Observation)
    → ((p : Observation) → o ≡ some p → Priced p)
    → Priced row
    → Priced (entered o row)
entered-Priced none row h r = r
entered-Priced (some p) row h r = absorb-Priced p row (h p refl)

by_key-Priced :
    (seen : List (String × Observation)) (rows : List Observation)
    → All (λ (e : String × Observation). Priced e.1) seen
    → All Priced rows
    → All (λ (e : String × Observation). Priced e.1) (by_key seen rows)
unfolding by_key
by_key-Priced seen [] h r = h
by_key-Priced seen (row ∷ rows) h (r, rs) =
    let key = row.observation_key in
    by_key-Priced (put key (entered (get key seen) row) seen) rows
      (All-put Priced key (entered (get key seen) row) seen
        (entered-Priced (get key seen) row (λ p e. get-All Priced key p seen h e) r) h)
      rs

-- An included decision has a price.
abbrev Usable : Decision → Type 0
Usable d = d.included ≡ true → is_some (price_of d.observation) ≡ true

prices_ok :
    (ds : List Decision)
    → All (λ (d : Decision). is_some (price_of d.observation) ≡ true) ds
    → (ps : List ℕ) × (prices_of ds ≡ some ps)
unfolding prices_of
prices_ok [] h = ([], refl)
prices_ok (d ∷ ds) (h, hs) =
    let (p, e) = some_of (price_of d.observation) h in
    let (ps, es) = prices_ok ds hs in (p ∷ ps, rw (e, es) refl)

some_first : (ps : List ℕ) → 0 < length ps → (n : ℕ) → (v : ℕ) × (quantile ps n ≡ some v)
unfolding quantile
some_first [] l n = absurd (omega arith)
some_first (p ∷ ps) l n = (_, refl)

quartiles_ok : (ps : List ℕ) → 0 < length ps → (q : Quartiles) × (quartiles ps ≡ some q)
unfolding quartiles
quartiles_ok ps l =
    let (a, ea) = some_first ps l 1 in
    let (m, em) = some_first ps l 2 in
    let (b, eb) = some_first ps l 3 in (record { q1 = a; median = m; q3 = b }, rw (em, ea, eb) refl)

keep-Usable :
    (p : Decision → Bool) (ds : List Decision)
    → ((d : Decision) → p d ≡ true → d.included ≡ true)
    → All Usable ds
    → All (λ (d : Decision). is_some (price_of d.observation) ≡ true) (keep p ds)
keep-Usable p [] i h = tt
keep-Usable p (d ∷ ds) i (h, hs) = elim (Bool-cases (p d)) [
  | inl e ↦ rw e (h (i d e), keep-Usable p ds i hs)
  | inr e ↦ rw e (keep-Usable p ds i hs)
]

module _ (policy : Policy) where
  Each-Usable : (ds es : List Decision) → Each (Trims policy) ds es → All Usable ds → All Usable es
  Each-Usable [] [] Each.nil h = tt
  Each-Usable [] (e ∷ es) x h = elim x [ ]
  Each-Usable (d ∷ ds) [] x h = elim x [ ]
  Each-Usable (d ∷ ds) (e ∷ es) (Each.cons (Trims.left o i r) ts) (h, hs) =
      ((λ t. rw o (h (sym i ∙ t))), Each-Usable ds es ts hs)
  Each-Usable (d ∷ ds) (e ∷ es) (Each.cons (Trims.dropped o i out r m) ts) (h, hs) =
      ((λ t. absurd (ground (arith, out, t))), Each-Usable ds es ts hs)

  module _ (percent : ℕ) where
    trim_one_ok :
        (c : Condition) (q : Quartiles) (d : Decision)
        → Usable d
        → (e : Decision) × (trim_one policy percent c q d ≡ some e)
    unfolding trim_one
    trim_one_ok c q d h = elim (Bool-cases (is_base c d)) [
      | inl base ↦
          let (p, e) = some_of (price_of d.observation) (h (ground arith)) in
          (trimmed policy d (is_outlier percent q p), rw (base, e) refl)
      | inr other ↦ (d, rw other refl)
    ]

    trim_each_ok :
        (c : Condition) (q : Quartiles) (ds : List Decision)
        → All Usable ds
        → (es : List Decision) × (trim_each policy percent c q ds ≡ some es)
    unfolding trim_each
    trim_each_ok c q [] h = ([], refl)
    trim_each_ok c q (d ∷ ds) (h, hs) =
        let (e, one) = trim_one_ok c q d h in
        let (es, others) = trim_each_ok c q ds hs in (e ∷ es, rw (one, others) refl)

    trim_group_ok :
        (ds : List Decision) (c : Condition)
        → All Usable ds
        → (es : List Decision) × (trim_group policy percent ds c ≡ some es)
    unfolding trim_group
    trim_group_ok ds c h = elim (Bool-cases (ltb (length (keep (is_base c) ds)) 5)) [
      | inl few ↦ (ds, rw few refl)
      | inr many ↦
          let (ps, p) =
            prices_ok (keep (is_base c) ds) (keep-Usable (is_base c) ds (λ d b. ground arith) h) in
          let sized = length-prices_of (keep (is_base c) ds) ps p in
          let sorted = length-sort ps in
          let (q, found) = quartiles_ok (sort ps) (ground (arith, sized, sorted)) in
          let (es, each) = trim_each_ok c q ds h in (es, rw (many, p, found, each) refl)
    ]

    trim_groups_ok :
        (cs : List Condition) (ds : List Decision)
        → All Usable ds
        → (es : List Decision) × (trim_groups policy percent cs ds ≡ some es) × All Usable es
    unfolding trim_groups
    trim_groups_ok [] ds h = (ds, refl, h)
    trim_groups_ok (c ∷ cs) ds h =
        let (mid, one) = trim_group_ok ds c h in
        let (es, rest, usable) =
          trim_groups_ok cs mid
            (Each-Usable ds mid (trim_group-Trims policy percent ds mid c one) h) in
        (es, rw one rest, usable)

module _ (f : Folding) (policy : Policy) where
  decide-Usable : (o : Observation) → Priced o → Usable (decide f policy o)
  unfolding decide
  decide-Usable o h t = h (Ruled-Clean f policy (decide f policy o) (inl (refl, refl)) t).0

  decided-Usable :
      (entries : List (String × Observation))
      → All (λ (e : String × Observation). Priced e.1) entries
      → All Usable (map (λ (e : String × Observation). decide f policy e.1) entries)
  decided-Usable [] h = tt
  decided-Usable ((k, o) ∷ entries) (h, hs) = (decide-Usable o h, decided-Usable entries hs)

  -- Where the percentage is at most 100 and every row without a hard exclusion has a price, the
  -- evaluation succeeds, and its histogram counts every included observation in exactly one bin.
  pub evaluate_total :
      (market : Market) (rows : List Observation)
      → percent_of policy.outlier_percent ≤ 100
      → All Priced rows
      → (st : Statistics) × (evaluate f policy market rows ≡ ok st)
        × (total_count st.bins ≡ st.included_count)
  evaluate_total market rows l h =
      let mine = in_market market rows in
      let sound =
        by_key-Priced [] mine tt
          (All-keep Priced (λ (r : Observation). market_eq r.market market) rows h) in
      let (ds, t, usable) =
        trim_groups_ok policy (percent_of policy.outlier_percent) conditions
          (decisions_on f policy mine) (decided-Usable (by_key [] mine) sound) in
      let (ps, p) =
        prices_ok (included_of ds)
          (keep-Usable (λ (d : Decision). d.included) ds (λ d i. i) usable) in
      let (bins, b, total) = histogram_total (sort ps) (sort-Sorted ps) in
      (
        figures market (length mine) ds (sort ps) bins,
        evaluate-ok f policy market rows ds ps bins (ground arith) t p b,
        total,
      )
