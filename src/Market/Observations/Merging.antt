-- ===== src/Market/Observations/Merging.antt =====
-- The order in which places are merged.
use Prim.Native.String.{String}
use hanamaru_shientool_prod.Prelude.{
  true, Option, none, some, if◌then◌else◌, ◌≡◌, sym, ap, ◌∙◌, ◌↔◌, arith, eq_iff,
}
use hanamaru_shientool_prod.Prelude.Text.{str_eq}
use hanamaru_shientool_prod.Contracts.{LocationStatus, country_explicit, conflicting, Location}
use hanamaru_shientool_prod.Market.Observations.{merge_location, option_eq}

-- What a place says: nothing, one country, or countries that disagree.
pub data Place : Type 0 where
  nowhere : Place
  country : Option String → Place
  disputed : Place

abbrev pub place_of : Location → Place
place_of l = elim l.status [
  | country_explicit ↦ country l.country_code
  | conflicting ↦ disputed
  | LocationStatus.unknown ↦ nowhere
]

abbrev pub join : Place → Place → Place
join nowhere q = q
join p nowhere = p
join (country a) (country b) = if option_eq str_eq a b then country a else disputed
join p q = disputed

merge_location-join :
    (a b : Location) → place_of (merge_location a b) ≡ join (place_of a) (place_of b)
unfolding merge_location
merge_location-join a b = ground arith

option_eq_iff : (a b : Option String) → (option_eq str_eq a b ≡ true) ↔ (a ≡ b)
option_eq_iff none none = ground arith
option_eq_iff none (some b) = ground arith
option_eq_iff (some a) none = ground arith
option_eq_iff (some a) (some b) = ground (arith, eq_iff a b)

join_comm : (p q : Place) → join p q ≡ join q p
join_comm (country a) (country b) = ground (arith, option_eq_iff a b, option_eq_iff b a)
join_comm p q = ground arith

join_assoc : (p q r : Place) → join (join p q) r ≡ join p (join q r)
join_assoc (country a) (country b) (country c) =
    ground (arith, option_eq_iff a b, option_eq_iff b c, option_eq_iff a c)
join_assoc p q r = ground arith

-- Merging two places says what the two say together: nothing only if neither says anything, the one
-- country that either names if no other is named, and a dispute if the countries differ or either place is
-- disputed. It is commutative and associative in what they say: the order in which pages and rows of one
-- item arrive does not decide its country.
pub merge_location_order :
    (a b c : Location)
    → (place_of (merge_location a b) ≡ place_of (merge_location b a))
      × (place_of (merge_location a b) ≡ join (place_of a) (place_of b))
      × (place_of (merge_location (merge_location a b) c)
          ≡ place_of (merge_location a (merge_location b c)))
merge_location_order a b c =
    let j = merge_location-join in
    (
      j a b ∙ join_comm (place_of a) (place_of b) ∙ sym (j b a),
      j a b,
      j (merge_location a b) c
          ∙ ap (λ p. join p (place_of c)) (j a b)
          ∙ join_assoc (place_of a) (place_of b) (place_of c)
          ∙ sym (ap (join (place_of a)) (j b c))
          ∙ sym (j a (merge_location b c)),
    )
