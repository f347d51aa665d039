-- ===== src/Market/Prices/Order.antt =====
-- Sorted lists of prices, and the order of their quantiles.
use hanamaru_shientool_prod.Prelude.{
  ℕ, zero, suc, ◌+◌, ◌-◌, ◌*◌, ◌/◌, ◌%◌, min, ◌≤◌, ◌<◌, Option, none, some, List, [], ◌∷◌, length,
  leb, ◌≡◌, refl, sym, subst, ◌⊎◌, inl, inr, All, All-weaken, Bool-cases, arith,
}
use native.Mathlib.Nat.{mul-le-mul_left}
use hanamaru_shientool_prod.Market.Prices.{insert, sort, nth, quantile_at, quantile, first, last}

abbrev pub Sorted : List ℕ → Type 0
Sorted [] = Unit
Sorted (x ∷ xs) = All (λ y. x ≤ y) xs × Sorted xs

All-insert : (P : ℕ → Type 0) (x : ℕ) (ys : List ℕ) → P x → All P ys → All P (insert x ys)
unfolding insert
All-insert P x [] p h = (p, tt)
All-insert P x (y ∷ ys) p (q, h) = elim (Bool-cases (leb x y)) [
  | inl e ↦ rw e (p, (q, h))
  | inr e ↦ rw e (q, All-insert P x ys p h)
]

insert-Sorted : (x : ℕ) (ys : List ℕ) → Sorted ys → Sorted (insert x ys)
unfolding insert
insert-Sorted x [] s = (tt, tt)
insert-Sorted x (y ∷ ys) (h, s) = elim (Bool-cases (leb x y)) [
  | inl e ↦
      rw e ((ground arith, All-weaken (λ z. y ≤ z) (λ z. x ≤ z) (λ z q. ground arith) ys h), (h, s))
  | inr e ↦ rw e (All-insert (λ z. y ≤ z) x ys (ground arith) h, insert-Sorted x ys s)
]

pub sort-All : (P : ℕ → Type 0) (xs : List ℕ) → All P xs → All P (sort xs)
unfolding sort
sort-All P [] h = tt
sort-All P (x ∷ xs) (p, h) = All-insert P x (sort xs) p (sort-All P xs h)

pub sort-Sorted : (xs : List ℕ) → Sorted (sort xs)
unfolding sort
sort-Sorted [] = tt
sort-Sorted (x ∷ xs) = insert-Sorted x (sort xs) (sort-Sorted xs)

pub nth-All : (P : ℕ → Type 0) (xs : List ℕ) (i : ℕ) → All P xs → i < length xs → P (nth xs i)
unfolding nth
nth-All P [] i h l = absurd (omega arith)
nth-All P (x ∷ xs) zero (p, h) l = p
nth-All P (x ∷ xs) (suc i) (p, h) l = nth-All P xs i h (omega arith)

nth-le : (xs : List ℕ) (i j : ℕ) → Sorted xs → i ≤ j → j < length xs → nth xs i ≤ nth xs j
unfolding nth
nth-le [] i j s l b = absurd (omega arith)
nth-le (x ∷ xs) zero zero s l b = omega arith
nth-le (x ∷ xs) zero (suc j) (h, s) l b = nth-All (λ y. x ≤ y) xs j h (omega arith)
nth-le (x ∷ xs) (suc i) zero s l b = absurd (omega arith)
nth-le (x ∷ xs) (suc i) (suc j) (h, s) l b = nth-le xs i j s (omega arith) (omega arith)

le_cases : (i j : ℕ) → i ≤ j → (i ≡ j) ⊎ (i < j)
le_cases i j l = ground arith

lt_four : (w : ℕ) → w < 4 → w ≤ 3
lt_four w h = omega arith

-- A weighted step from a price to the next one does not pass the next one, and grows with the weight.
step-le : (a b w : ℕ) → a ≤ b → w < 4 → a + (b - a) * w / 4 ≤ b
step-le a b w l h = let most = mul-le-mul_left (b - a) (lt_four w h) in omega (arith, most)

step_mono : (a b v w : ℕ) → v ≤ w → a + (b - a) * v / 4 ≤ a + (b - a) * w / 4
step_mono a b v w l = let more = mul-le-mul_left (b - a) l in omega (arith, more)

quantile_at-le :
    (xs : List ℕ) (p q : ℕ)
    → Sorted xs
    → p ≤ q
    → q ≤ 4 * (length xs - 1)
    → 0 < length xs
    → quantile_at xs p ≤ quantile_at xs q
unfolding quantile_at
quantile_at-le xs p q s l b n =
    let next = min (p / 4 + 1) (length xs - 1) in
    elim (le_cases (p / 4) (q / 4) (omega arith)) [
      | inl same ↦ rw same (
          step_mono (nth xs (q / 4)) (nth xs (min (q / 4 + 1) (length xs - 1))) (p % 4) (q % 4)
            (omega arith))
      | inr less ↦
          let low = nth-le xs (p / 4) next s (ground arith) (ground arith) in
          let up = step-le (nth xs (p / 4)) (nth xs next) (p % 4) low (omega arith) in
          let high = nth-le xs next (q / 4) s (ground arith) (omega arith) in
          omega (arith, up, high)
    ]

-- Two values that are both there, the first at most the second, or both missing.
abbrev pub Below : Option ℕ → Option ℕ → Type 0
Below (some a) (some b) = a ≤ b
Below none none = Unit
Below _ _ = ⊥

quantile_at-start : (x : ℕ) (xs : List ℕ) → quantile_at (x ∷ xs) 0 ≡ x
unfolding quantile_at nth
quantile_at-start x xs = omega arith

last-nth : (x : ℕ) (xs : List ℕ) → last (x ∷ xs) ≡ some (nth (x ∷ xs) (length xs))
unfolding last nth
last-nth x [] = refl
last-nth x (y ∷ ys) = last-nth y ys

quantile_at-end :
    (x : ℕ) (xs : List ℕ) → quantile_at (x ∷ xs) (4 * length xs) ≡ nth (x ∷ xs) (length xs)
unfolding quantile_at
quantile_at-end x xs =
    let whole : 4 * length xs / 4 ≡ length xs = omega arith in
    let none_left : 4 * length xs % 4 ≡ 0 = omega arith in rw (whole, none_left) (omega arith)

pub quantiles_ordered :
    (xs : List ℕ)
    → Sorted xs
    → Below (first xs) (quantile xs 1)
      × Below (quantile xs 1) (quantile xs 2)
      × Below (quantile xs 2) (quantile xs 3)
      × Below (quantile xs 3) (last xs)
unfolding quantile first last
quantiles_ordered [] s = (tt, tt, tt, tt)
quantiles_ordered (x ∷ xs) s =
    let n = length xs in
    let up : (p q : ℕ) → p ≤ q → q ≤ 4 * n → quantile_at (x ∷ xs) p ≤ quantile_at (x ∷ xs) q =
      λ p q l b. quantile_at-le (x ∷ xs) p q s l (omega arith) (omega arith) in
    (
      subst (λ a. a ≤ quantile_at (x ∷ xs) (n * 1)) (quantile_at-start x xs)
          (up 0 (n * 1) (omega arith) (omega arith)),
      up (n * 1) (n * 2) (omega arith) (omega arith),
      up (n * 2) (n * 3) (omega arith) (omega arith),
      subst (Below (some (quantile_at (x ∷ xs) (n * 3)))) (sym (last-nth x xs)) (
          subst (λ a. quantile_at (x ∷ xs) (n * 3) ≤ a) (quantile_at-end x xs)
            (up (n * 3) (4 * n) (omega arith) (omega arith))),
    )

length-insert : (x : ℕ) (ys : List ℕ) → length (insert x ys) ≡ suc (length ys)
unfolding insert
length-insert x [] = refl
length-insert x (y ∷ ys) = ground (arith, length-insert x ys)

pub length-sort : (xs : List ℕ) → length (sort xs) ≡ length xs
unfolding sort
length-sort [] = refl
length-sort (x ∷ xs) = omega (arith, length-insert x (sort xs), length-sort xs)
