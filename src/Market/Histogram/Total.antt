-- ===== src/Market/Histogram/Total.antt =====
-- Every price has its bin.
use native.Mathlib.Nat.{mul-div_cancel}
use hanamaru_shientool_prod.Prelude.{
  ℕ, zero, suc, ◌+◌, ◌-◌, ◌*◌, ◌/◌, ◌≤◌, Bool, true, ◌||◌, some, List, [], ◌∷◌, length, any, ltb,
  ◌≡◌, refl, sym, ap, ◌∙◌, subst, inl, inr, All, All-weaken, Bool-cases, arith,
}
use hanamaru_shientool_prod.Market.Prices.{first, last}
use hanamaru_shientool_prod.Market.Prices.Order.{Sorted}
use hanamaru_shientool_prod.Market.Histogram.{
  Bin, bin_count, bins_from, takes, put_price, fill_next, fill, between, histogram,
}

abbrev pub total_count : List Bin → ℕ
total_count [] = 0
total_count (b ∷ bs) = b.count + total_count bs

abbrev taken_by : List Bin → ℕ → Bool
taken_by bs price = any (takes price) bs

-- A price that a bin takes is counted once, and every bin keeps its bounds.
record Counted (price : ℕ) (bs : List Bin) : Type 0 where
  after : List Bin
  put : put_price price bs ≡ some after
  one_more : total_count after ≡ total_count bs + 1
  same : (q : ℕ) → taken_by after q ≡ taken_by bs q

put_price-Counted : (price : ℕ) (bs : List Bin) → taken_by bs price ≡ true → Counted price bs
unfolding put_price
put_price-Counted price [] t = absurd (ground arith)
put_price-Counted price (b ∷ bs) t = elim (Bool-cases (takes price b)) [
  | inl here ↦ record {
    after = record b { count = b.count + 1 } ∷ bs;
    put = rw here refl;
    one_more = omega arith;
    same = λ q. refl;
  }
  | inr later ↦
      let rest = put_price-Counted price bs (rw later at t) in
      record {
        after = b ∷ rest.after;
        put = rw (later, rest.put) refl;
        one_more = let more = rest.one_more in omega (arith, more);
        same = λ q. ap (λ x. takes q b || x) (rest.same q);
      }
]

fill_ok :
    (ps : List ℕ) (bs : List Bin)
    → All (λ p. taken_by bs p ≡ true) ps
    → (after : List Bin) × (fill ps bs ≡ some after)
      × (total_count after ≡ total_count bs + length ps)
unfolding fill
fill_ok [] bs t = (bs, refl, omega arith)
fill_ok (p ∷ ps) bs (t, ts) =
    let c = put_price-Counted p bs t in
    let (after, filled, total) = fill_ok ps c.after (
      All-weaken (λ q. taken_by bs q ≡ true) (λ q. taken_by c.after q ≡ true) (λ q h. c.same q ∙ h)
        ps ts) in
    let more = c.one_more in
    (after, ap (fill_next (fill ps)) c.put ∙ filled, omega (arith, total, more))

-- Bins share their bounds, and the last one includes its upper bound.
bins_from-takes :
    (least span count index left price : ℕ)
    → index + suc left ≡ count
    → span * count / count ≡ span
    → least + span * index / count ≤ price
    → price ≤ least + span
    → taken_by (bins_from least span count index (suc left)) price ≡ true
bins_from-takes least span count index zero price e whole low high =
    let end : index + 1 ≡ count = omega (arith, e) in
    let top : span * (index + 1) / count ≡ span = rw end whole in ground (arith, top)
bins_from-takes least span count index (suc left) price e whole low high =
    elim (Bool-cases (ltb price (least + span * (index + 1) / count))) [
      | inl here ↦ ground arith
      | inr later ↦
          let rest =
            bins_from-takes least span count (index + 1) left price (omega arith) whole
              (ground arith) high in
          ground (arith, rest)
    ]

All-last :
    (x : ℕ) (xs : List ℕ) (m : ℕ)
    → Sorted (x ∷ xs)
    → last (x ∷ xs) ≡ some m
    → All (λ p. p ≤ m) (x ∷ xs)
unfolding last
All-last x [] m s e = (ground arith, tt)
All-last x (y ∷ ys) m ((h, hs), s) e =
    let (low, rest) = All-last y ys m s e in (omega (arith, h, low), (low, rest))

last-some : (x : ℕ) (xs : List ℕ) → (m : ℕ) × (last (x ∷ xs) ≡ some m)
unfolding last
last-some x [] = (x, refl)
last-some x (y ∷ ys) = last-some y ys

All-both : (P Q : ℕ → Type 0) (xs : List ℕ) → All P xs → All Q xs → All (λ x. P x × Q x) xs
All-both P Q [] h k = tt
All-both P Q (x ∷ xs) (p, h) (q, k) = ((p, q), All-both P Q xs h k)

bins_from_empty :
    (least span count index left : ℕ) → total_count (bins_from least span count index left) ≡ 0
bins_from_empty least span count index zero = refl
bins_from_empty least span count index (suc left) =
    omega (arith, bins_from_empty least span count (index + 1) left)

bin_count_pos : (span : ℕ) → (left : ℕ) × (bin_count span ≡ suc left)
bin_count_pos span = (bin_count span - 1, ground arith)

bins_take :
    (x m p : ℕ)
    → x ≤ p
    → p ≤ m
    → taken_by (bins_from x (m - x) (bin_count (m - x)) 0 (bin_count (m - x))) p ≡ true
bins_take x m p low high =
    let span = m - x in
    let (left, e) = bin_count_pos span in
    subst (λ n. taken_by (bins_from x span n 0 n) p ≡ true) (sym e)
      (bins_from-takes x span (suc left) 0 left p (omega arith) (mul-div_cancel span (omega arith))
        (ground arith) (omega arith))

-- The histogram of sorted prices never fails, and counts every price once.
pub histogram_total :
    (ps : List ℕ)
    → Sorted ps
    → (bins : List Bin) × (histogram ps ≡ some bins) × (total_count bins ≡ length ps)
unfolding histogram first
histogram_total [] s = ([], refl, refl)
histogram_total (x ∷ xs) (h, s) =
    let (m, e) = last-some x xs in
    let span = m - x in
    let bins = bins_from x span (bin_count span) 0 (bin_count span) in
    let bounds : All (λ p. (x ≤ p) × (p ≤ m)) (x ∷ xs) =
      All-both (λ p. x ≤ p) (λ p. p ≤ m) (x ∷ xs) (omega arith, h) (All-last x xs m (h, s) e) in
    let (after, filled, total) = fill_ok (x ∷ xs) bins (
      All-weaken (λ p. (x ≤ p) × (p ≤ m)) (λ p. taken_by bins p ≡ true)
        (λ p b. bins_take x m p b.0 b.1) (x ∷ xs) bounds) in
    (
      after,
      ap (between (x ∷ xs) (some x)) e ∙ filled,
      omega (arith, total, bins_from_empty x span (bin_count span) 0 (bin_count span)),
    )
