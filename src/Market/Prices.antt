-- ===== src/Market/Prices.antt =====
-- Sorting and quantiles of prices: packages/market-price/src/soldgraph.ts. In a sorted list the
-- difference of two neighbours is no negative number, so it is the one of the natural numbers.
pub mod Order
use hanamaru_shientool_prod.Prelude.{
  ℕ, zero, suc, ◌+◌, ◌-◌, ◌*◌, ◌/◌, ◌%◌, min, Option, none, some, List, [], ◌∷◌, length, leb,
  if◌then◌else◌,
}

-- The sort of `sortedPrices`.
unfoldable pub insert : ℕ → List ℕ → List ℕ
insert x [] = x ∷ []
insert x (y ∷ ys) = let rest = insert x ys in if leb x y then x ∷ (y ∷ ys) else y ∷ rest

unfoldable pub sort : List ℕ → List ℕ
unfolding insert
sort [] = []
sort (x ∷ xs) = insert x (sort xs)

-- `sorted[i]!`; 0 stands for what is read past the end, which `quantile` never does.
unfoldable pub nth : List ℕ → ℕ → ℕ
nth [] i = 0
nth (x ∷ xs) zero = x
nth (x ∷ xs) (suc i) = nth xs i

-- The quantile of a list with elements at a quarter of a position.
unfoldable pub quantile_at : List ℕ → ℕ → ℕ
unfolding nth
quantile_at sorted position =
    let left = nth sorted (position / 4) in
    let right = nth sorted (min (position / 4 + 1) (length sorted - 1)) in
    left + (right - left) * (position % 4) / 4

-- `quantile`.
unfoldable pub quantile : List ℕ → ℕ → Option ℕ
unfolding quantile_at
quantile [] numerator = none
quantile (x ∷ xs) numerator = some (quantile_at (x ∷ xs) (length xs * numerator))

-- `selected[0]` and `selected.at(-1)`.
unfoldable pub first : List ℕ → Option ℕ
first [] = none
first (x ∷ xs) = some x

unfoldable pub last : List ℕ → Option ℕ
last [] = none
last (x ∷ []) = some x
last (x ∷ (y ∷ xs)) = last (y ∷ xs)
