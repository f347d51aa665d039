-- ===== src/Market/Statistics/Reasons.antt =====
-- When each reason of the first pass of evaluateEbayMarket, packages/market-price/src/soldgraph.ts, stands
-- in a decision.
use Prim.Native.String.{String}
use hanamaru_shientool_prod.Prelude.{
  Bool, true, false, not, ◌&&◌, ◌||◌, Option, none, some, List, [], ◌∷◌, ◌++◌, map, any, ◌≡◌, refl,
  ap, ◌∙◌, All, arith,
}
use hanamaru_shientool_prod.Prelude.Text.{str_eq, is_empty, trim}
use hanamaru_shientool_prod.Prelude.Substrings.{contains}
use hanamaru_shientool_prod.Contracts.{Observation, PriceExclusion}
use hanamaru_shientool_prod.Market.Evaluate.{
  product_reasons, assessed, listed, excluded_by, Match, matched, mismatch, Folding, Policy,
  Decision, decide, is_include, is_exclude, override_of, is_empty_list, reason_of, when,
}

abbrev pub says : String → Decision → Bool
says r d = any (str_eq r) d.reasons

abbrev pub wrong_product : Option (Observation → Match) → Observation → Bool
wrong_product none o = false
wrong_product (some g) o = elim (g o) [ mismatch ↦ true | matched ↦ false | Match.unknown ↦ false ]

abbrev pub unsure_product : Option (Observation → Match) → Observation → Bool
unsure_product none o = false
unsure_product (some g) o = elim (g o) [ mismatch ↦ false | matched ↦ false | Match.unknown ↦ true ]

abbrev pub named_in : List String → Option String → Bool
named_in ids none = false
named_in ids (some id) = not (is_empty id) && any (str_eq id) ids

pub any-append :
    (r : String) (xs ys : List String)
    → any (str_eq r) (xs ++ ys) ≡ (any (str_eq r) xs || any (str_eq r) ys)
any-append r [] ys = refl
any-append r (x ∷ xs) ys = ground (arith, any-append r xs ys)

abbrev IsUnlisted : String → Type 0
IsUnlisted r = (xs : List PriceExclusion) → any (str_eq r) (map reason_of xs) ≡ false

listed-reasons :
    (r : String) (xs : List PriceExclusion)
    → any (str_eq r) (map reason_of xs) ≡ any (λ y. str_eq r (reason_of y)) xs
listed-reasons r [] = refl
listed-reasons r (x ∷ xs) = ap (λ b. str_eq r (reason_of x) || b) (listed-reasons r xs)

not_hard : (r : String) → ((x : PriceExclusion) → str_eq r (reason_of x) ≡ false) → IsUnlisted r
not_hard r h [] = refl
not_hard r h (x ∷ xs) = rw (h x) (not_hard r h xs)

abbrev apart : String → PriceExclusion → Bool
apart r x = not (str_eq r (reason_of x)) && not (str_eq (reason_of x) r)

-- A text that is none of the reasons of the hard exclusions.
abbrev IsOther : String → Type 0
IsOther r =
    All (λ x. apart r x ≡ true)
      (PriceExclusion.missing_item_id ∷ PriceExclusion.missing_title ∷ PriceExclusion.invalid_price
        ∷ PriceExclusion.currency_mismatch ∷ PriceExclusion.price_range
        ∷ PriceExclusion.best_offer_accepted ∷ PriceExclusion.best_offer_unknown
        ∷ PriceExclusion.observation_conflict ∷ [])

other : (r : String) (x : PriceExclusion) → IsOther r → apart r x ≡ true
other r PriceExclusion.missing_item_id e = e.0
other r PriceExclusion.missing_title e = e.1.0
other r PriceExclusion.invalid_price e = e.1.1.0
other r PriceExclusion.currency_mismatch e = e.1.1.1.0
other r PriceExclusion.price_range e = e.1.1.1.1.0
other r PriceExclusion.best_offer_accepted e = e.1.1.1.1.1.0
other r PriceExclusion.best_offer_unknown e = e.1.1.1.1.1.1.0
other r PriceExclusion.observation_conflict e = e.1.1.1.1.1.1.1.0

pub other_left : (r : String) → IsOther r → (x : PriceExclusion) → str_eq r (reason_of x) ≡ false
other_left r e x = ground (arith, other r x e)

pub other_right : (r : String) → IsOther r → (x : PriceExclusion) → str_eq (reason_of x) r ≡ false
other_right r e x = ground (arith, other r x e)

-- The reasons of the first pass but for the hard exclusions, from the tests that lead to them.
abbrev listed_by : Option Match → Bool → Bool → Bool → Bool → Bool → List String
listed_by m inc a b c d =
    product_reasons m inc
    ++ (when a "product_excluded"
        ++ (when b "product_or_condition_mismatch"
            ++ (when c "excluded_keyword" ++ when d "manual_excluded")))

abbrev is_wrong : Option Match → Bool
is_wrong (some mismatch) = true
is_wrong _ = false

abbrev is_unsure : Option Match → Bool
is_unsure (some Match.unknown) = true
is_unsure _ = false

listed_by_lem :
    (m : Option Match) (inc a b c d : Bool)
    → (any (str_eq "product_mismatch") (listed_by m inc a b c d) ≡ (is_wrong m && not inc))
      × (any (str_eq "product_confirmation_required") (listed_by m inc a b c d)
          ≡ (is_unsure m && not inc))
      × (any (str_eq "product_excluded") (listed_by m inc a b c d) ≡ a)
      × (any (str_eq "product_or_condition_mismatch") (listed_by m inc a b c d) ≡ b)
      × (any (str_eq "excluded_keyword") (listed_by m inc a b c d) ≡ c)
      × (any (str_eq "manual_excluded") (listed_by m inc a b c d) ≡ d)
listed_by_lem m inc a b c d = ground arith

unlisted :
    (r : String) (m : Option Match) (inc a b c d : Bool)
    → str_eq r "product_mismatch" ≡ false
    → str_eq r "product_confirmation_required" ≡ false
    → str_eq r "product_excluded" ≡ false
    → str_eq r "product_or_condition_mismatch" ≡ false
    → str_eq r "excluded_keyword" ≡ false
    → str_eq r "manual_excluded" ≡ false
    → any (str_eq r) (listed_by m inc a b c d) ≡ false
unlisted r m inc a b c d h1 h2 h3 h4 h5 h6 = ground (arith, h1, h2, h3, h4, h5, h6)

hard_alone :
    (x : PriceExclusion) (m : Option Match) (inc a b c d : Bool)
    → any (str_eq (reason_of x)) (listed_by m inc a b c d) ≡ false
hard_alone x m inc a b c d =
    unlisted (reason_of x) m inc a b c d
      (other_right "product_mismatch"
        (refl, (refl, (refl, (refl, (refl, (refl, (refl, (refl, tt)))))))) x)
      (other_right "product_confirmation_required"
        (refl, (refl, (refl, (refl, (refl, (refl, (refl, (refl, tt)))))))) x)
      (other_right "product_excluded"
        (refl, (refl, (refl, (refl, (refl, (refl, (refl, (refl, tt)))))))) x)
      (other_right "product_or_condition_mismatch"
        (refl, (refl, (refl, (refl, (refl, (refl, (refl, (refl, tt)))))))) x)
      (other_right "excluded_keyword"
        (refl, (refl, (refl, (refl, (refl, (refl, (refl, (refl, tt)))))))) x)
      (other_right "manual_excluded"
        (refl, (refl, (refl, (refl, (refl, (refl, (refl, (refl, tt)))))))) x)

wrong_lem :
    (g : Option (Observation → Match)) (o : Observation)
    → is_wrong (assessed g o) ≡ wrong_product g o
wrong_lem none o = refl
wrong_lem (some g) o = ground arith

unsure_lem :
    (g : Option (Observation → Match)) (o : Observation)
    → is_unsure (assessed g o) ≡ unsure_product g o
unsure_lem none o = refl
unsure_lem (some g) o = ground arith

later_only :
    (r : String) (xs : List PriceExclusion) (ys : List String) (b : Bool)
    → ((x : PriceExclusion) → str_eq r (reason_of x) ≡ false)
    → any (str_eq r) ys ≡ b
    → any (str_eq r) (map reason_of xs ++ ys) ≡ b
later_only r xs ys b h e = any-append r (map reason_of xs) ys ∙ rw (not_hard r h xs) e

named_lem : (ids : List String) (id : Option String) → listed ids id ≡ named_in ids id
named_lem ids none = refl
named_lem ids (some id) = refl

or_false : (b : Bool) → (b || false) ≡ b
or_false b = ground arith

module _ (f : Folding) (policy : Policy) where
  -- Each of the reasons stands in a decision exactly when what it says is so.
  pub record Reasoned (d : Decision) : Type 0 where
    pub product : says "product_mismatch" d ≡ (
        wrong_product policy.product d.observation
        && not (is_include (override_of f policy d.observation)))
    pub confirmation : says "product_confirmation_required" d ≡ (
        unsure_product policy.product d.observation
        && not (is_include (override_of f policy d.observation)))
    pub item :
        says "product_excluded" d ≡ named_in policy.excluded_item_ids d.observation.source_item_id
    pub rejected :
        says "product_or_condition_mismatch" d
        ≡ any (str_eq d.observation.observation_key) policy.rejected_keys
    pub keyword :
        says "excluded_keyword" d
        ≡ any
            (λ k.
              not (is_empty (trim k)) && contains (f.lower d.observation.title) (f.lower_trimmed k))
            policy.exclude_keywords
    pub by_hand : says "manual_excluded" d ≡ is_exclude (override_of f policy d.observation)
    pub hard :
        (x : PriceExclusion)
        → says (reason_of x) d
          ≡ any (λ y. str_eq (reason_of x) (reason_of y)) d.observation.hard_exclusions
    pub whole : d.included ≡ is_empty_list d.reasons

  -- What the reasons of the first pass come to.
  pub decide-Reasoned : (o : Observation) → Reasoned (decide f policy o)
  unfolding decide
  decide-Reasoned o =
      let later =
        listed_by_lem (assessed policy.product o) (is_include (override_of f policy o))
          (listed policy.excluded_item_ids o.source_item_id)
          (any (str_eq o.observation_key) policy.rejected_keys)
          (any (excluded_by f policy o.title) policy.exclude_keywords)
          (is_exclude (override_of f policy o)) in
      let free = not (is_include (override_of f policy o)) in
      record {
        product =
            later_only "product_mismatch" o.hard_exclusions _ _
              (other_left "product_mismatch"
                (refl, (refl, (refl, (refl, (refl, (refl, (refl, (refl, tt)))))))))
              later.0
            ∙ ap (λ b. b && free) (wrong_lem policy.product o);
        confirmation =
            later_only "product_confirmation_required" o.hard_exclusions _ _
              (other_left "product_confirmation_required"
                (refl, (refl, (refl, (refl, (refl, (refl, (refl, (refl, tt)))))))))
              later.1
            ∙ ap (λ b. b && free) (unsure_lem policy.product o);
        item =
            later_only "product_excluded" o.hard_exclusions _ _
              (other_left "product_excluded"
                (refl, (refl, (refl, (refl, (refl, (refl, (refl, (refl, tt)))))))))
              later.2
            ∙ named_lem policy.excluded_item_ids o.source_item_id;
        rejected =
            later_only "product_or_condition_mismatch" o.hard_exclusions _ _
              (other_left "product_or_condition_mismatch"
                (refl, (refl, (refl, (refl, (refl, (refl, (refl, (refl, tt)))))))))
              later.3;
        keyword =
            later_only "excluded_keyword" o.hard_exclusions _ _
              (other_left "excluded_keyword"
                (refl, (refl, (refl, (refl, (refl, (refl, (refl, (refl, tt)))))))))
              later.4;
        by_hand =
            later_only "manual_excluded" o.hard_exclusions _ _
              (other_left "manual_excluded"
                (refl, (refl, (refl, (refl, (refl, (refl, (refl, (refl, tt)))))))))
              later.5;
        hard = λ x.
            any-append (reason_of x) (map reason_of o.hard_exclusions) _
            ∙ rw
                (hard_alone x (assessed policy.product o) (is_include (override_of f policy o))
                  (listed policy.excluded_item_ids o.source_item_id)
                  (any (str_eq o.observation_key) policy.rejected_keys)
                  (any (excluded_by f policy o.title) policy.exclude_keywords)
                  (is_exclude (override_of f policy o)))
                (or_false _ ∙ listed-reasons (reason_of x) o.hard_exclusions);
        whole = refl;
      }

  pub no_outlier : (o : Observation) → says "price_outlier" (decide f policy o) ≡ false
  unfolding decide
  no_outlier o =
      later_only "price_outlier" o.hard_exclusions _ false
        (other_left "price_outlier"
          (refl, (refl, (refl, (refl, (refl, (refl, (refl, (refl, tt)))))))))
        (unlisted "price_outlier" (assessed policy.product o) (is_include (override_of f policy o))
          (listed policy.excluded_item_ids o.source_item_id)
          (any (str_eq o.observation_key) policy.rejected_keys)
          (any (excluded_by f policy o.title) policy.exclude_keywords)
          (is_exclude (override_of f policy o)) refl refl refl refl refl refl)
