-- ===== src/Market/Outliers/Trimming.antt =====
-- What trimming may do to the decisions.
use hanamaru_shientool_prod.Prelude.{
  ℕ, Bool, true, false, Option, none, some, List, [], ◌∷◌, ◌++◌, length, ltb, keep, ◌≡◌, refl, sym,
  ap, ◌∙◌, subst, inl, inr, Bool-cases, some-eq-some, arith,
}
use hanamaru_shientool_prod.Prelude.Maps.{get}
use hanamaru_shientool_prod.Contracts.{Condition}
use hanamaru_shientool_prod.Market.Prices.{sort}
use hanamaru_shientool_prod.Market.Evaluate.{Policy, Decision, is_include}
use hanamaru_shientool_prod.Market.Outliers.{
  ◌>>=◌, Quartiles, quartiles, prices_of, price_of, is_base, is_outlier, trimmed, trim_one,
  trim_each, trim_group, trim_groups,
}

pub >>=-eq-some :
    {A B : Type 0} (o : Option A) (f : A → Option B) {b : B}
    → (o >>= f) ≡ some b
    → (a : A) × (o ≡ some a) × (f a ≡ some b)
>>=-eq-some (some a) f e = (a, refl, e)
>>=-eq-some none f e = absurd (ground arith)

-- Two lists of one length, related position by position.
pub data Each (R : Decision → Decision → Type 0) : List Decision → List Decision → Type 0 where
  nil : Each R [] []
  cons : {d e : Decision} {ds es : List Decision} → R d e → Each R ds es → Each R (d ∷ ds) (e ∷ es)

pub length-Each :
    (R : Decision → Decision → Type 0) {ds es : List Decision}
    → Each R ds es
    → length es ≡ length ds
length-Each R Each.nil = refl
length-Each R (Each.cons r rs) = omega (arith, length-Each R rs)

module _ (policy : Policy) where
  -- A decision is left as it was, or an included one is excluded as an outlier, unless it was included
  -- by hand.
  pub data Trims (d e : Decision) : Type 0 where
    left :
        e.observation ≡ d.observation → e.included ≡ d.included → e.reasons ≡ d.reasons → Trims d e
    dropped :
        e.observation ≡ d.observation
        → d.included ≡ true
        → e.included ≡ false
        → e.reasons ≡ d.reasons ++ ("price_outlier" ∷ [])
        → is_include (get d.observation.observation_key policy.overrides) ≡ false
        → Trims d e

  Trims-trans : {c d e : Decision} → Trims c d → Trims d e → Trims c e
  Trims-trans {c} {d} {e} (Trims.left o i r) (Trims.left p j s) = Trims.left (p ∙ o) (j ∙ i) (s ∙ r)
  Trims-trans {c} {d} {e} (Trims.left o i r) (Trims.dropped p j k s m) =
      Trims.dropped (p ∙ o) (sym i ∙ j) k (s ∙ ap (λ x. x ++ ("price_outlier" ∷ [])) r)
        (subst (λ x. is_include (get x.observation_key policy.overrides) ≡ false) o m)
  Trims-trans {c} {d} {e} (Trims.dropped o i k r m) (Trims.left p j s) =
      Trims.dropped (p ∙ o) i (j ∙ k) (s ∙ r) m
  Trims-trans {c} {d} {e} (Trims.dropped o i k r m) (Trims.dropped p j l s n) =
      absurd (ground (arith, k, j))

  Each-refl : (ds : List Decision) → Each Trims ds ds
  Each-refl [] = Each.nil
  Each-refl (d ∷ ds) = Each.cons (Trims.left refl refl refl) (Each-refl ds)

  Each-trans : {cs ds es : List Decision} → Each Trims cs ds → Each Trims ds es → Each Trims cs es
  Each-trans Each.nil Each.nil = Each.nil
  Each-trans (Each.cons r rs) (Each.cons s ss) = Each.cons (Trims-trans r s) (Each-trans rs ss)

  trimmed-Trims :
      (d : Decision) (outlier : Bool) → d.included ≡ true → Trims d (trimmed policy d outlier)
  trimmed-Trims d false i = Trims.left refl refl refl
  trimmed-Trims d true i =
      elim (Bool-cases (is_include (get d.observation.observation_key policy.overrides))) [
        | inl by_hand ↦ rw by_hand (Trims.left refl refl refl)
        | inr free ↦ rw free (Trims.dropped refl i refl refl free)
      ]

  trim_one-Trims :
      (percent : ℕ) (c : Condition) (q : Quartiles) (d e : Decision)
      → trim_one policy percent c q d ≡ some e
      → Trims d e
  unfolding trim_one
  trim_one-Trims percent c q d e h = elim (Bool-cases (is_base c d)) [
    | inl base ↦
        let (amount, found, same) =
          >>=-eq-some (price_of d.observation)
            (λ amount. some (trimmed policy d (is_outlier percent q amount))) (rw base at h) in
        subst (Trims d) (some-eq-some same)
          (trimmed-Trims d (is_outlier percent q amount) (ground arith))
    | inr other ↦ subst (Trims d) (some-eq-some (rw other at h)) (Trims.left refl refl refl)
  ]

  trim_each-Trims :
      (percent : ℕ) (c : Condition) (q : Quartiles) (ds es : List Decision)
      → trim_each policy percent c q ds ≡ some es
      → Each Trims ds es
  unfolding trim_each
  trim_each-Trims percent c q [] es h = subst (Each Trims []) (ground arith) Each.nil
  trim_each-Trims percent c q (d ∷ ds) es h =
      let (e, one, rest) =
        >>=-eq-some (trim_one policy percent c q d)
          (λ e. trim_each policy percent c q ds >>= λ es. some (e ∷ es)) h in
      let (tail, others, same) =
        >>=-eq-some (trim_each policy percent c q ds) (λ es. some (e ∷ es)) rest in
      subst (Each Trims (d ∷ ds)) (some-eq-some same) (
        Each.cons (trim_one-Trims percent c q d e one) (trim_each-Trims percent c q ds tail others))

  pub trim_group-Trims :
      (percent : ℕ) (ds es : List Decision) (c : Condition)
      → trim_group policy percent ds c ≡ some es
      → Each Trims ds es
  unfolding trim_group
  trim_group-Trims percent ds es c h = elim (Bool-cases (ltb (length (keep (is_base c) ds)) 5)) [
    | inl few ↦ subst (Each Trims ds) (ground arith) (Each-refl ds)
    | inr many ↦
        let (ps, p, rest) =
          >>=-eq-some (prices_of (keep (is_base c) ds))
            (λ ps. quartiles (sort ps) >>= λ q. trim_each policy percent c q ds) (rw many at h) in
        let (q, found, last) =
          >>=-eq-some (quartiles (sort ps)) (λ q. trim_each policy percent c q ds) rest in
        trim_each-Trims percent c q ds es last
  ]

  pub trim_groups-Trims :
      (percent : ℕ) (cs : List Condition) (ds es : List Decision)
      → trim_groups policy percent cs ds ≡ some es
      → Each Trims ds es
  unfolding trim_groups
  trim_groups-Trims percent [] ds es h = subst (Each Trims ds) (ground arith) (Each-refl ds)
  trim_groups-Trims percent (c ∷ cs) ds es h =
      let (mid, first, rest) =
        >>=-eq-some (trim_group policy percent ds c) (λ es. trim_groups policy percent cs es) h in
      Each-trans (trim_group-Trims percent ds mid c first)
        (trim_groups-Trims percent cs mid es rest)
