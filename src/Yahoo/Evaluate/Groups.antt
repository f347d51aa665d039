-- ===== src/Yahoo/Evaluate/Groups.antt =====
-- The groups of prices that the loop builds, against a filter of the items.
use hanamaru_shientool_prod.Prelude.{
  ℕ, Bool, true, List, [], ◌∷◌, ◌++◌, map, keep, if◌then◌else◌, ◌≡◌, refl, sym, ◌∙◌, inl, inr,
  Bool-cases, arith,
}
use mathlib.Core.List.{append_assoc, append-nil}
use hanamaru_shientool_prod.Yahoo.{ProductCondition}
use hanamaru_shientool_prod.Yahoo.Evaluate.{condition_eq}
use hanamaru_shientool_prod.Yahoo.Evaluate.Judge.{
  Judged, Groups, prices_at, add_price, group_prices, is_eligible,
}

condition_eq_trans :
    (b c d : ProductCondition) → condition_eq b c ≡ true → condition_eq b d ≡ condition_eq c d
unfolding condition_eq
condition_eq_trans b c d e = ground arith

condition_eq_meet :
    (b d c : ProductCondition)
    → condition_eq b c ≡ true
    → condition_eq d c ≡ true
    → condition_eq b d ≡ true
unfolding condition_eq
condition_eq_meet b d c e f = ground arith

-- Whether an item is in the group of a condition.
abbrev pub in_group : ProductCondition → Judged → Bool
in_group c j = condition_eq j.item.normalized_condition c

abbrev pub prices : List Judged → List ℕ
prices js = map (λ j. j.item.closing_price) js

prices_at-add_price :
    (c d : ProductCondition) (p : ℕ) (g : Groups)
    → prices_at c (add_price d p g)
      ≡ (if condition_eq d c then prices_at c g ++ p ∷ [] else prices_at c g)
unfolding prices_at add_price
prices_at-add_price c d p [] = refl
prices_at-add_price c d p ((b, ps) ∷ g) =
    ground (arith, condition_eq_trans b d c, condition_eq_meet b d c, prices_at-add_price c d p g)

-- The loop puts the prices of the items of a condition, in order, in its group.
prices_at-group_prices :
    (c : ProductCondition) (js : List Judged) (g : Groups)
    → prices_at c (group_prices js g) ≡ prices_at c g ++ prices (keep (in_group c) js)
unfolding group_prices
prices_at-group_prices c [] g = sym (append-nil _)
prices_at-group_prices c (j ∷ js) g = elim (Bool-cases (in_group c j)) [
  | inl here ↦ rw here (
      prices_at-group_prices c js (add_price j.item.normalized_condition j.item.closing_price g)
      ∙ rw (prices_at-add_price c j.item.normalized_condition j.item.closing_price g, here)
          (append_assoc (prices_at c g) (j.item.closing_price ∷ [])
            (prices (keep (in_group c) js))))
  | inr other ↦ rw other (
      prices_at-group_prices c js (add_price j.item.normalized_condition j.item.closing_price g)
      ∙ rw (prices_at-add_price c j.item.normalized_condition j.item.closing_price g, other) refl)
]

-- The prices of the eligible items of a condition.
abbrev pub eligible_prices : ProductCondition → List Judged → List ℕ
eligible_prices c js = prices (keep (in_group c) (keep is_eligible js))

pub grouped_prices :
    (c : ProductCondition) (js : List Judged)
    → prices_at c (group_prices (keep is_eligible js) []) ≡ eligible_prices c js
unfolding prices_at
grouped_prices c js = prices_at-group_prices c (keep is_eligible js) []
