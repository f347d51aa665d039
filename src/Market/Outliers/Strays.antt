-- ===== src/Market/Outliers/Strays.antt =====
-- Which decisions trimming marks as outliers, against the decisions that it starts from.
use hanamaru_shientool_prod.Prelude.{
  ℕ, ◌+◌, ◌-◌, ◌*◌, ◌/◌, ◌≤◌, ◌<◌, Bool, true, false, some, List, [], ◌∷◌, any, length, ltb, keep,
  All, ◌≡◌, refl, sym, ap, ◌∙◌, subst, ◌⊎◌, inl, inr, Bool-cases, some-eq-some, arith,
  if◌then◌else◌,
}
use hanamaru_shientool_prod.Prelude.Text.{str_eq}
use hanamaru_shientool_prod.Contracts.{Condition, known, ConditionGroup, Observation}
use hanamaru_shientool_prod.Contracts.Equality.{condition_eq, condition_eq_iff}
use hanamaru_shientool_prod.Market.Prices.{sort}
use hanamaru_shientool_prod.Market.Observations.{group_eq}
use hanamaru_shientool_prod.Market.Evaluate.{Policy, Decision}
use hanamaru_shientool_prod.Market.Outliers.{
  ◌>>=◌, Quartiles, quartiles, prices_of, price_of, is_base, is_outlier, trimmed, trim_one,
  trim_each, trim_group, trim_groups,
}
use hanamaru_shientool_prod.Market.Outliers.Trimming.{>>=-eq-some}

module _ (policy : Policy) (percent : ℕ) (start : List Decision) where
  -- The price is an outlier of its group: of five included observations of the condition or more, by
  -- the quartiles of their prices, it is farther from the median than the percentage of it, and under the
  -- first or over the third quartile by more than one and a half times their distance.
  pub record Stray (o : Observation) : Type 0 where
    pub condition : Condition
    pub group : group_eq o.condition_group (known condition) ≡ true
    pub large : 5 ≤ length (keep (is_base condition) start)
    pub ps : List ℕ
    pub prices : prices_of (keep (is_base condition) start) ≡ some ps
    pub q : Quartiles
    pub quarters : quartiles (sort ps) ≡ some q
    pub amount : ℕ
    pub price : price_of o ≡ some amount
    pub far : q.median * percent < (amount - q.median + (q.median - amount)) * 100
    pub beyond : (amount + (q.q3 - q.q1) * 3 / 2 < q.q1) ⊎ (q.q3 + (q.q3 - q.q1) * 3 / 2 < amount)

  -- A decision is not marked as an outlier and does not have that reason, or it is one.
  abbrev pub Marked : Decision → Type 0
  Marked e =
      ((e.auto_outlier ≡ false) × (any (str_eq "price_outlier") e.reasons ≡ false))
      ⊎ Stray e.observation

  -- A round over a condition with the quartiles of its group.
  record Round (c : Condition) (q : Quartiles) : Type 0 where
    large : 5 ≤ length (keep (is_base c) start)
    ps : List ℕ
    prices : prices_of (keep (is_base c) start) ≡ some ps
    quarters : quartiles (sort ps) ≡ some q

  Round-Stray :
      (c : Condition) (q : Quartiles) (d : Decision) (amount : ℕ)
      → Round c q
      → is_base c d ≡ true
      → price_of d.observation ≡ some amount
      → is_outlier percent q amount ≡ true
      → Stray d.observation
  Round-Stray c q d amount r base found out = record {
    condition = c;
    group = ground (arith, base);
    large = r.large;
    ps = r.ps;
    prices = r.prices;
    q = q;
    quarters = r.quarters;
    amount = amount;
    price = found;
    far = ground (arith, out);
    beyond = ground (arith, out);
  }

  observation-trimmed : (d : Decision) (b : Bool) → (trimmed policy d b).observation ≡ d.observation
  observation-trimmed d b = ground arith

  trimmed-Marked :
      (d : Decision) (b : Bool)
      → (b ≡ true → Stray d.observation)
      → Marked d
      → Marked (trimmed policy d b)
  trimmed-Marked d true stray m = inr (subst Stray (sym (observation-trimmed d true)) (stray refl))
  trimmed-Marked d false stray (inl (a, r)) = inl (refl, r)
  trimmed-Marked d false stray (inr s) = inr s

  trim_one-Marked :
      (c : Condition) (q : Quartiles) (d e : Decision)
      → Round c q
      → Marked d
      → trim_one policy percent c q d ≡ some e
      → Marked e
  unfolding trim_one
  trim_one-Marked c q d e r m h = elim (Bool-cases (is_base c d)) [
    | inr other ↦ subst Marked (some-eq-some (rw other at h)) m
    | inl base ↦
        let (amount, found, same) =
          >>=-eq-some (price_of d.observation)
            (λ amount. some (trimmed policy d (is_outlier percent q amount))) (rw base at h) in
        subst Marked (some-eq-some same) (
          trimmed-Marked d (is_outlier percent q amount)
            (λ out. Round-Stray c q d amount r base found out) m)
  ]

  group_other :
      (g : ConditionGroup) (c d : Condition)
      → condition_eq c d ≡ false
      → group_eq g (known c) ≡ true
      → group_eq g (known d) ≡ false
  group_other (known a) c d n e =
      ground (arith, n, e, condition_eq_iff a c, condition_eq_iff a d, condition_eq_iff c d)
  group_other ConditionGroup.unknown c d n e = absurd (ground (arith, e))

  keep_step :
      (c : Condition) (d : Decision) (ds es : List Decision) (e : Decision)
      → is_base c d ≡ false
      → is_base c e ≡ false
      → keep (is_base c) es ≡ keep (is_base c) ds
      → keep (is_base c) (e ∷ es) ≡ keep (is_base c) (d ∷ ds)
  keep_step c d ds es e f g h = rw (f, g) h

  trim_one-other :
      (c c' : Condition) (q : Quartiles) (d e : Decision) (ds es : List Decision)
      → condition_eq c c' ≡ false
      → trim_one policy percent c q d ≡ some e
      → keep (is_base c') es ≡ keep (is_base c') ds
      → keep (is_base c') (e ∷ es) ≡ keep (is_base c') (d ∷ ds)
  unfolding trim_one
  trim_one-other c c' q d e ds es n h k = elim (Bool-cases (is_base c d)) [
    | inr other ↦
        let same = some-eq-some (rw other at h) in
        subst (λ x. keep (is_base c') (x ∷ es) ≡ keep (is_base c') (d ∷ ds)) same
          (ap (λ zs. if is_base c' d then d ∷ zs else zs) k)
    | inl base ↦
        let (amount, found, same) =
          >>=-eq-some (price_of d.observation)
            (λ amount. some (trimmed policy d (is_outlier percent q amount))) (rw base at h) in
        let apart = group_other d.observation.condition_group c c' n (ground (arith, base)) in
        let b = is_outlier percent q amount in
        let there = ap (λ o. group_eq o.condition_group (known c')) (observation-trimmed d b) in
        keep_step c' d ds es e (ground (arith, apart))
          (subst (λ x. is_base c' x ≡ false) (some-eq-some same) (ground (arith, there, apart))) k
  ]

  trim_each-Marked :
      (c : Condition) (q : Quartiles) (ds es : List Decision)
      → Round c q
      → All Marked ds
      → trim_each policy percent c q ds ≡ some es
      → All Marked es
        × ((c' : Condition)
            → condition_eq c c' ≡ false
            → keep (is_base c') es ≡ keep (is_base c') ds)
  unfolding trim_each
  trim_each-Marked c q [] es r m h =
      let same : [] ≡ es = some-eq-some h in
      subst
        (λ (xs : List Decision).
          All Marked xs
          × ((c' : Condition) → condition_eq c c' ≡ false → keep (is_base c') xs ≡ []))
        same (tt, λ c' n. refl)
  trim_each-Marked c q (d ∷ ds) es r (m, ms) h =
      let (e, one, rest) =
        >>=-eq-some (trim_one policy percent c q d)
          (λ e. trim_each policy percent c q ds >>= λ es. some (e ∷ es)) h in
      let (tail, others, same) =
        >>=-eq-some (trim_each policy percent c q ds) (λ es. some (e ∷ es)) rest in
      let (marked, kept) = trim_each-Marked c q ds tail r ms others in
      subst
        (λ (xs : List Decision).
          All Marked xs
          × ((c' : Condition)
              → condition_eq c c' ≡ false
              → keep (is_base c') xs ≡ keep (is_base c') (d ∷ ds)))
        (some-eq-some same)
        (
          (trim_one-Marked c q d e r m one, marked),
          λ c' n. trim_one-other c c' q d e ds tail n one (kept c' n),
        )

  -- The group of a condition is still the one of the start.
  abbrev Same : List Decision → Condition → Type 0
  Same ds c = keep (is_base c) ds ≡ keep (is_base c) start

  trim_group-Marked :
      (c : Condition) (ds es : List Decision)
      → Same ds c
      → All Marked ds
      → trim_group policy percent ds c ≡ some es
      → All Marked es × ((c' : Condition) → condition_eq c c' ≡ false → Same ds c' → Same es c')
  unfolding trim_group
  trim_group-Marked c ds es s m h = elim (Bool-cases (ltb (length (keep (is_base c) ds)) 5)) [
    | inl few ↦
        let same : ds ≡ es = some-eq-some (rw few at h) in
        (subst (All Marked) same m, λ c' n k. subst (λ xs. Same xs c') same k)
    | inr many ↦
        let (ps, p, rest) =
          >>=-eq-some (prices_of (keep (is_base c) ds))
            (λ ps. quartiles (sort ps) >>= λ q. trim_each policy percent c q ds) (rw many at h) in
        let (q, found, last) =
          >>=-eq-some (quartiles (sort ps)) (λ q. trim_each policy percent c q ds) rest in
        let round : Round c q = record {
          large = subst (λ xs. 5 ≤ length xs) s (ground (arith, many));
          ps = ps;
          prices = subst (λ xs. prices_of xs ≡ some ps) s p;
          quarters = found;
        } in
        let (marked, kept) = trim_each-Marked c q ds es round m last in
        (marked, λ c' n k. kept c' n ∙ k)
  ]

  -- No condition comes twice.
  abbrev pub IsApart : List Condition → Type 0
  IsApart [] = Unit
  IsApart (c ∷ cs) = All (λ d. condition_eq c d ≡ false) cs × IsApart cs

  Same-kept :
      (c : Condition) (cs : List Condition) (ds es : List Decision)
      → ((c' : Condition) → condition_eq c c' ≡ false → Same ds c' → Same es c')
      → All (λ d. condition_eq c d ≡ false) cs
      → All (Same ds) cs
      → All (Same es) cs
  Same-kept c [] ds es k n s = tt
  Same-kept c (d ∷ cs) ds es k (n, ns) (s, ss) = (k d n s, Same-kept c cs ds es k ns ss)

  pub trim_groups-Marked :
      (cs : List Condition) (ds es : List Decision)
      → IsApart cs
      → All (Same ds) cs
      → All Marked ds
      → trim_groups policy percent cs ds ≡ some es
      → All Marked es
  unfolding trim_groups
  trim_groups-Marked [] ds es a s m h = subst (All Marked) (some-eq-some h) m
  trim_groups-Marked (c ∷ cs) ds es (n, a) (s, ss) m h =
      let (mid, first, rest) =
        >>=-eq-some (trim_group policy percent ds c) (λ es. trim_groups policy percent cs es) h in
      let (marked, kept) = trim_group-Marked c ds mid s m first in
      trim_groups-Marked cs mid es a (Same-kept c cs ds mid kept n ss) marked rest
