-- ===== src/Market/Statistics/Rules.antt =====
-- The rules that the decisions of an evaluation follow.
use Prim.Native.String.{String}
use hanamaru_shientool_prod.Prelude.{
  Bool, true, false, List, [], ◌∷◌, ◌++◌, map, any, ok, ◌≡◌, refl, sym, ap, ◌∙◌, ◌⊎◌, inl, inr, All,
  All-weaken, arith,
}
use hanamaru_shientool_prod.Prelude.Text.{str_eq}
use hanamaru_shientool_prod.Contracts.{Market, conditions, Observation}
use hanamaru_shientool_prod.Market.Evaluate.{
  Folding, Policy, Decision, decide, is_include, is_exclude, override_of, is_empty_list, reason_of,
  later_reasons, when,
}
use hanamaru_shientool_prod.Market.Observations.{by_key}
use hanamaru_shientool_prod.Market.Outliers.Trimming.{Each, Trims, trim_groups-Trims}
use hanamaru_shientool_prod.Market.Outliers.Strays.{Marked, IsApart, trim_groups-Marked}
use hanamaru_shientool_prod.Contracts.Equality.{condition_eq}
use hanamaru_shientool_prod.Market.Statistics.Reasons.{
  says, Reasoned, decide-Reasoned, no_outlier, other_right,
}
use hanamaru_shientool_prod.Market.Statistics.{
  Statistics, percent_of, in_market, decisions_on, evaluate,
}
use hanamaru_shientool_prod.Market.Statistics.Parts.{evaluate-Parts}

module _ (f : Folding) (policy : Policy) where
  -- What a decision says follows from its observation and the policy, but for the outliers: those
  -- have no other reason against them and were not included by hand.
  abbrev pub Ruled : Decision → Type 0
  Ruled d =
      let base = (decide f policy d.observation).reasons in
      ((d.reasons ≡ base) × (d.included ≡ is_empty_list base))
      ⊎ ((base ≡ [])
          × (d.included ≡ false)
          × (d.reasons ≡ "price_outlier" ∷ [])
          × (is_include (override_of f policy d.observation) ≡ false))

  empty_list : {A : Type 0} (xs : List A) → is_empty_list xs ≡ true → xs ≡ []
  empty_list [] e = refl
  empty_list (x ∷ xs) e = absurd (ground arith)

  append_empty : {A : Type 0} (xs ys : List A) → xs ++ ys ≡ [] → (xs ≡ []) × (ys ≡ [])
  append_empty [] ys e = (refl, e)
  append_empty (x ∷ xs) ys e = absurd (ground arith)

  map_empty : {A B : Type 0} (g : A → B) (xs : List A) → map g xs ≡ [] → xs ≡ []
  map_empty g [] e = refl
  map_empty g (x ∷ xs) e = absurd (ground arith)

  when_empty : (b : Bool) (r : String) → when b r ≡ [] → b ≡ false
  when_empty false r e = refl
  when_empty true r e = absurd (ground arith)

  -- An included observation has no hard exclusion and was not excluded by hand.
  abbrev pub Clean : Decision → Type 0
  Clean d =
      d.included ≡ true
      → (d.observation.hard_exclusions ≡ [])
        × (is_exclude (override_of f policy d.observation) ≡ false)
        × (any (str_eq d.observation.observation_key) policy.rejected_keys ≡ false)
        × (d.reasons ≡ [])

  pub Ruled-Clean : (d : Decision) → Ruled d → Clean d
  unfolding decide
  Ruled-Clean d (inl (r, i)) t =
      let o = d.observation in
      let none_left =
        empty_list (map reason_of o.hard_exclusions ++ later_reasons f policy o) (sym i ∙ t) in
      let (hard, later) =
        append_empty (map reason_of o.hard_exclusions) (later_reasons f policy o) none_left in
      let (p, rest) = append_empty _ _ later in
      let (q, rest') = append_empty _ _ rest in
      let (rejected, rest'') = append_empty _ _ rest' in
      let (k, by_hand) = append_empty _ _ rest'' in
      (
        map_empty reason_of o.hard_exclusions hard,
        when_empty (is_exclude (override_of f policy o)) "manual_excluded" by_hand,
        when_empty _ "product_or_condition_mismatch" rejected,
        r ∙ none_left,
      )
  Ruled-Clean d (inr (b, out, r, m)) t = absurd (ground arith)

  -- An outlier has no reason but one that the first pass does not give.
  alike :
      (r : String) (d : Decision)
      → d.reasons ≡ "price_outlier" ∷ []
      → (decide f policy d.observation).reasons ≡ []
      → str_eq r "price_outlier" ≡ false
      → says r d ≡ says r (decide f policy d.observation)
  alike r d e b n = ap (any (str_eq r)) e ∙ rw n (sym (ap (any (str_eq r)) b))

  Ruled-Reasoned : (d : Decision) → Ruled d → Reasoned f policy d
  unfolding decide
  Ruled-Reasoned d (inl (r, i)) =
      let base = decide-Reasoned f policy d.observation in
      record {
        product = ap (any (str_eq "product_mismatch")) r ∙ base.product;
        confirmation = ap (any (str_eq "product_confirmation_required")) r ∙ base.confirmation;
        item = ap (any (str_eq "product_excluded")) r ∙ base.item;
        rejected = ap (any (str_eq "product_or_condition_mismatch")) r ∙ base.rejected;
        keyword = ap (any (str_eq "excluded_keyword")) r ∙ base.keyword;
        by_hand = ap (any (str_eq "manual_excluded")) r ∙ base.by_hand;
        hard = λ x. ap (any (str_eq (reason_of x))) r ∙ base.hard x;
        whole = i ∙ ap is_empty_list (sym r);
      }
  Ruled-Reasoned d (inr (b, out, r, m)) =
      let base = decide-Reasoned f policy d.observation in
      record {
        product = alike "product_mismatch" d r b refl ∙ base.product;
        confirmation = alike "product_confirmation_required" d r b refl ∙ base.confirmation;
        item = alike "product_excluded" d r b refl ∙ base.item;
        rejected = alike "product_or_condition_mismatch" d r b refl ∙ base.rejected;
        keyword = alike "excluded_keyword" d r b refl ∙ base.keyword;
        by_hand = alike "manual_excluded" d r b refl ∙ base.by_hand;
        hard = λ x.
            alike (reason_of x) d r b (
              other_right "price_outlier"
                (refl, (refl, (refl, (refl, (refl, (refl, (refl, (refl, tt)))))))) x)
            ∙ base.hard x;
        whole = out ∙ ap is_empty_list (sym r);
      }

  Trims-Ruled : (o : Observation) (e : Decision) → Trims policy (decide f policy o) e → Ruled e
  unfolding decide
  Trims-Ruled o e (Trims.left same i r) = rw same (inl (r, i))
  Trims-Ruled o e (Trims.dropped same i out r m) =
      let clean = empty_list (map reason_of o.hard_exclusions ++ later_reasons f policy o) i in
      rw same (inr (clean, out, r ∙ ap (λ x. x ++ ("price_outlier" ∷ [])) clean, m))

  Each-Ruled :
      (entries : List (String × Observation)) (es : List Decision)
      → Each (Trims policy) (map (λ (x : String × Observation). decide f policy x.1) entries) es
      → All Ruled es
  Each-Ruled [] [] Each.nil = tt
  Each-Ruled [] (e ∷ es) x = elim x [ ]
  Each-Ruled ((k, o) ∷ entries) [] x = elim x [ ]
  Each-Ruled ((k, o) ∷ entries) (e ∷ es) (Each.cons t ts) =
      (Trims-Ruled o e t, Each-Ruled entries es ts)

  module _ (market : Market) (rows : List Observation) (st : Statistics) where
    decisions-Ruled : evaluate f policy market rows ≡ ok st → All Ruled st.decisions
    decisions-Ruled e =
        let p = evaluate-Parts f policy market rows st e in
        let entries = by_key [] (in_market market rows) in
        rw (sym p.result) (
          Each-Ruled entries p.ds (
            trim_groups-Trims policy (percent_of policy.outlier_percent) conditions
              (decisions_on f policy (in_market market rows)) p.ds p.trimmed))

    -- The decisions of the first pass.
    abbrev pub first_pass : List Decision
    first_pass = decisions_on f policy (in_market market rows)

    abbrev pub IsMarked : Decision → Type 0
    IsMarked = Marked policy (percent_of policy.outlier_percent) first_pass

    first-Marked :
        (entries : List (String × Observation))
        → All IsMarked (map (λ (e : String × Observation). decide f policy e.1) entries)
    unfolding decide
    first-Marked [] = tt
    first-Marked ((k, o) ∷ entries) = (inl (refl, no_outlier f policy o), first-Marked entries)

    distinct_conditions : IsApart policy (percent_of policy.outlier_percent) first_pass conditions
    unfolding condition_eq
    distinct_conditions = (
      (refl, (refl, (refl, (refl, tt)))),
      ((refl, (refl, (refl, tt))), ((refl, (refl, tt)), ((refl, tt), (tt, tt)))),
    )

    decisions-Marked : evaluate f policy market rows ≡ ok st → All IsMarked st.decisions
    decisions-Marked e =
        let p = evaluate-Parts f policy market rows st e in
        rw (sym p.result) (
          trim_groups-Marked policy (percent_of policy.outlier_percent) first_pass conditions
            first_pass p.ds distinct_conditions (refl, (refl, (refl, (refl, (refl, tt)))))
            (first-Marked (by_key [] (in_market market rows))) p.trimmed)

    -- Where an evaluation succeeds, each reason of the first pass stands in a decision exactly when what
    -- it says is so of the observation and the policy, and an observation is included exactly when its
    -- decision has no reason. The decision is that of the first pass, or the first pass has no reason
    -- and the observation is excluded as a price outlier only, which no observation is that was included
    -- by hand. A decision that is marked as a price outlier, or has that reason, is of a group of five
    -- included observations or more, from whose median and quartiles its price is that far.
    pub evaluate-Ruled :
        evaluate f policy market rows ≡ ok st
        → All (λ d. Reasoned f policy d × Ruled d × IsMarked d) st.decisions
    evaluate-Ruled e = together st.decisions (decisions-Ruled e) (decisions-Marked e)
      where
        together :
            (ds : List Decision)
            → All Ruled ds
            → All IsMarked ds
            → All (λ d. Reasoned f policy d × Ruled d × IsMarked d) ds
        together [] r m = tt
        together (d ∷ ds) (r, rs) (m, ms) = ((Ruled-Reasoned d r, r, m), together ds rs ms)

    -- Where an evaluation succeeds, no observation that is included in the figures has a hard exclusion,
    -- is excluded by hand or rejected, whatever the overrides and the other rows say.
    pub evaluate-Clean : evaluate f policy market rows ≡ ok st → All Clean st.decisions
    evaluate-Clean e = All-weaken Ruled Clean Ruled-Clean st.decisions (decisions-Ruled e)
