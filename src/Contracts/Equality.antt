-- ===== src/Contracts/Equality.antt =====
-- Tests for equality of the enumerations (`===` on the literals of packages/contracts).
use hanamaru_shientool_prod.Prelude.{
  ℕ, Bool, true, false, ◌≡◌, refl, eq_iff, ◌↔◌, arith, ◌==◌, Option, none, some, ◌&&◌, List, [],
  ◌∷◌,
}
use hanamaru_shientool_prod.Prelude.Text.{str_eq}
use hanamaru_shientool_prod.Contracts.{
  Market, us, uk, ca, au, de, fr, it, es, Condition, new, open_box, refurbished, used, for_parts,
  BuyingFormat, PageRequest,
}
use hanamaru_shientool_prod.Contracts.BuyingFormat.{auction, buy_it_now, best_offer}

abbrev market_index : Market → ℕ
market_index us = 0
market_index uk = 1
market_index ca = 2
market_index au = 3
market_index de = 4
market_index fr = 5
market_index it = 6
market_index es = 7

abbrev condition_index : Condition → ℕ
condition_index new = 0
condition_index open_box = 1
condition_index refurbished = 2
condition_index used = 3
condition_index for_parts = 4

unfoldable pub market_eq : Market → Market → Bool
market_eq a b = market_index a == market_index b

unfoldable pub condition_eq : Condition → Condition → Bool
condition_eq a b = condition_index a == condition_index b

pub market_eq_iff : (a b : Market) → (market_eq a b ≡ true) ↔ (a ≡ b)
unfolding market_eq
market_eq_iff a b = ground arith

pub condition_eq_iff : (a b : Condition) → (condition_eq a b ≡ true) ↔ (a ≡ b)
unfolding condition_eq
condition_eq_iff a b = ground arith

abbrev conditions_eq : List Condition → List Condition → Bool
conditions_eq [] [] = true
conditions_eq (a ∷ as') (b ∷ bs) = condition_eq a b && conditions_eq as' bs
conditions_eq _ _ = false

abbrev format_index : Option BuyingFormat → ℕ
format_index none = 0
format_index (some auction) = 1
format_index (some buy_it_now) = 2
format_index (some best_offer) = 3

-- Equality of two requests as `jsonb`.
unfoldable pub request_eq : PageRequest → PageRequest → Bool
unfolding condition_eq market_eq
request_eq a b =
    str_eq a.keyword b.keyword
    && market_eq a.market b.market
    && a.page == b.page
    && conditions_eq a.conditions b.conditions
    && format_index a.buying_format == format_index b.buying_format

conditions_eq_refl : (cs : List Condition) → conditions_eq cs cs ≡ true
conditions_eq_refl [] = refl
conditions_eq_refl (c ∷ cs) = rw ((condition_eq_iff c c).1 refl) (conditions_eq_refl cs)

pub request_eq_refl : (r : PageRequest) → request_eq r r ≡ true
unfolding request_eq
request_eq_refl r = ground (
  arith,
  eq_iff r.keyword r.keyword,
  market_eq_iff r.market r.market,
  conditions_eq_refl r.conditions,
)
