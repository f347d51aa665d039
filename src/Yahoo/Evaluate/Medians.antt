-- ===== src/Yahoo/Evaluate/Medians.antt =====
-- The statistics of an evaluation.
use hanamaru_shientool_prod.Prelude.{
  ℕ, suc, ◌-◌, ◌*◌, ◌/◌, ◌≤◌, Option, none, some, List, [], ◌∷◌, length, any, ◌==◌, leb, Bool, true,
  ◌||◌, Bool-cases, min, All, All-weaken, if◌then◌else◌, ◌≡◌, refl, sym, ◌∙◌, subst, inl, inr,
  Option-cases, some-eq-some, arith,
}
use hanamaru_shientool_prod.Market.Prices.{sort}
use hanamaru_shientool_prod.Market.Prices.Order.{nth-All, sort-All, length-sort}
use hanamaru_shientool_prod.Yahoo.Evaluate.{median}
use hanamaru_shientool_prod.Yahoo.Evaluate.Judge.{least, most}

least_some : (x : ℕ) (xs : List ℕ) → (a : ℕ) × (least (x ∷ xs) ≡ some a)
unfolding least
least_some x xs = elim (Option-cases (least xs)) [
  | inl e ↦ (x, rw e refl)
  | inr (y, e) ↦ (min x y, rw e refl)
]

most_some : (x : ℕ) (xs : List ℕ) → (a : ℕ) × (most (x ∷ xs) ≡ some a)
unfolding most
most_some x xs = elim (Option-cases (most xs)) [
  | inl e ↦ (x, rw e refl)
  | inr (y, e) ↦ ((if leb x y then y else x), rw e refl)
]

least-All : (xs : List ℕ) (a : ℕ) → least xs ≡ some a → All (λ x. a ≤ x) xs
unfolding least
least-All [] a e = tt
least-All (x ∷ []) a e = (ground (arith, e), tt)
least-All (x ∷ (y ∷ ys)) a e =
    let rest = least_some y ys in
    let there = rest.1 in
    let low : a ≡ min x rest.0 = some-eq-some (sym e ∙ rw there refl) in
    (
      omega (arith, low),
      All-weaken (λ z. rest.0 ≤ z) (λ z. a ≤ z) (λ z h. omega (arith, low, h)) (y ∷ ys)
          (least-All (y ∷ ys) rest.0 there),
    )

most-All : (xs : List ℕ) (a : ℕ) → most xs ≡ some a → All (λ x. x ≤ a) xs
unfolding most
most-All [] a e = tt
most-All (x ∷ []) a e = (ground (arith, e), tt)
most-All (x ∷ (y ∷ ys)) a e =
    let rest = most_some y ys in
    let there = rest.1 in
    let high : a ≡ (if leb x rest.0 then rest.0 else x) = some-eq-some (sym e ∙ rw there refl) in
    (
      ground (arith, high),
      All-weaken (λ z. z ≤ rest.0) (λ z. z ≤ a) (λ z h. ground (arith, high, h)) (y ∷ ys)
          (most-All (y ∷ ys) rest.0 there),
    )

any_here : (x a : ℕ) (ys : List ℕ) → x ≡ a → any (λ w. w == a) (x ∷ ys) ≡ true
any_here x a ys e = ground (arith, e)

any_later :
    (x a : ℕ) (ys : List ℕ) → any (λ w. w == a) ys ≡ true → any (λ w. w == a) (x ∷ ys) ≡ true
any_later x a ys e = rw e (or_true (x == a))
  where
    or_true : (b : Bool) → (b || true) ≡ true
    or_true b = ground arith

least-any : (xs : List ℕ) (a : ℕ) → least xs ≡ some a → any (λ x. x == a) xs ≡ true
unfolding least
least-any [] a e = absurd (ground arith)
least-any (x ∷ []) a e = ground (arith, e)
least-any (x ∷ (y ∷ ys)) a e =
    let rest = least_some y ys in
    let there = rest.1 in
    let low : min x rest.0 ≡ a = some-eq-some (sym (rw there refl) ∙ e) in
    elim (Bool-cases (leb x rest.0)) [
      | inl first ↦ any_here x a (y ∷ ys) (ground (arith, first, low))
      | inr after ↦
          let same : rest.0 ≡ a = ground (arith, after, low) in
          any_later x a (y ∷ ys)
            (subst (λ z. any (λ w. w == z) (y ∷ ys) ≡ true) same (least-any (y ∷ ys) rest.0 there))
    ]

most-any : (xs : List ℕ) (a : ℕ) → most xs ≡ some a → any (λ x. x == a) xs ≡ true
unfolding most
most-any [] a e = absurd (ground arith)
most-any (x ∷ []) a e = ground (arith, e)
most-any (x ∷ (y ∷ ys)) a e =
    let rest = most_some y ys in
    let there = rest.1 in
    let high : a ≡ (if leb x rest.0 then rest.0 else x) = some-eq-some (sym e ∙ rw there refl) in
    elim (Bool-cases (leb x rest.0)) [
      | inr first ↦ any_here x a (y ∷ ys) (ground (arith, first, high))
      | inl after ↦
          let same : rest.0 ≡ a = ground (arith, after, high) in
          any_later x a (y ∷ ys)
            (subst (λ z. any (λ w. w == z) (y ∷ ys) ≡ true) same (most-any (y ∷ ys) rest.0 there))
    ]

-- A median, in halves, is between twice the least and twice the greatest.
median_ge : (xs : List ℕ) (a m : ℕ) → All (λ x. a ≤ x) xs → median xs ≡ some m → 2 * a ≤ m
unfolding median
median_ge [] a m h e = absurd (ground arith)
median_ge (x ∷ xs) a m h e =
    let s = sort (x ∷ xs) in
    let all = sort-All (λ z. a ≤ z) (x ∷ xs) h in
    let size : length s ≡ suc (length xs) = length-sort (x ∷ xs) in
    let middle = nth-All (λ z. a ≤ z) s (length s / 2) all (omega (arith, size)) in
    let left = nth-All (λ z. a ≤ z) s (length s / 2 - 1) all (omega (arith, size)) in
    ground (arith, e, middle, left)

median_le : (xs : List ℕ) (a m : ℕ) → All (λ x. x ≤ a) xs → median xs ≡ some m → m ≤ 2 * a
unfolding median
median_le [] a m h e = absurd (ground arith)
median_le (x ∷ xs) a m h e =
    let s = sort (x ∷ xs) in
    let all = sort-All (λ z. z ≤ a) (x ∷ xs) h in
    let size : length s ≡ suc (length xs) = length-sort (x ∷ xs) in
    let middle = nth-All (λ z. z ≤ a) s (length s / 2) all (omega (arith, size)) in
    let left = nth-All (λ z. z ≤ a) s (length s / 2 - 1) all (omega (arith, size)) in
    ground (arith, e, middle, left)

-- The least and the greatest are prices, all the others are between them, and so is the median, or there
-- are no prices and none of the three.
pub data Ordered : List ℕ → Option ℕ → Option ℕ → Option ℕ → Type 0 where
  empty : Ordered [] none none none
  ordered :
      (x : ℕ) (xs : List ℕ) (low middle high : ℕ)
      → any (λ z. z == low) (x ∷ xs) ≡ true
      → any (λ z. z == high) (x ∷ xs) ≡ true
      → All (λ z. low ≤ z) (x ∷ xs)
      → All (λ z. z ≤ high) (x ∷ xs)
      → 2 * low ≤ middle
      → middle ≤ 2 * high
      → Ordered (x ∷ xs) (some low) (some middle) (some high)

median_some : (x : ℕ) (xs : List ℕ) → (m : ℕ) × (median (x ∷ xs) ≡ some m)
unfolding median
median_some x xs = (_, refl)

pub prices-Ordered : (xs : List ℕ) → Ordered xs (least xs) (median xs) (most xs)
unfolding least most median
prices-Ordered [] = empty
prices-Ordered (x ∷ xs) =
    let low = least_some x xs in
    let middle = median_some x xs in
    let high = most_some x xs in
    subst (λ z. Ordered (x ∷ xs) z (median (x ∷ xs)) (most (x ∷ xs))) (sym low.1)
      (subst (λ z. Ordered (x ∷ xs) (some low.0) z (most (x ∷ xs))) (sym middle.1)
        (subst (λ z. Ordered (x ∷ xs) (some low.0) (some middle.0) z) (sym high.1)
          (ordered x xs low.0 middle.0 high.0 (least-any (x ∷ xs) low.0 low.1)
            (most-any (x ∷ xs) high.0 high.1) (least-All (x ∷ xs) low.0 low.1)
            (most-All (x ∷ xs) high.0 high.1)
            (median_ge (x ∷ xs) low.0 middle.0 (least-All (x ∷ xs) low.0 low.1) middle.1)
            (median_le (x ∷ xs) high.0 middle.0 (most-All (x ∷ xs) high.0 high.1) middle.1))))
