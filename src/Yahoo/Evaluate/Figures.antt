-- ===== src/Yahoo/Evaluate/Figures.antt =====
-- The statistics of an evaluation against what it decided.
use Prim.Native.Char.{Char}
use hanamaru_shientool_prod.Prelude.{
  ℕ, ◌+◌, Bool, true, false, not, ◌&&◌, ◌||◌, some, List, [], ◌∷◌, ◌++◌, map, keep, length, all,
  any, All, if◌then◌else◌, ◌≡◌, refl, ap, ◌∙◌, subst, inl, inr, Bool-cases, some-eq-some, arith,
}
use hanamaru_shientool_prod.Yahoo.{Web}
use hanamaru_shientool_prod.Yahoo.Items.{Item}
use hanamaru_shientool_prod.Yahoo.Evaluate.{Input, OutlierPolicy, Reason, price_outlier, median}
use hanamaru_shientool_prod.Yahoo.Evaluate.Judge.{
  Judged, Candidate, Statistics, Groups, Group, group_prices, is_eligible, no_reasons, is_outlier,
  decide, decide_all, group_of, prices_at, before_outliers, price, is_price_outlier, reason_if,
  reason_eq, judge, reasons_from, statistics, lacks_model, evaluate, count_reason, count_reasons,
  count_all,
}
use hanamaru_shientool_prod.Yahoo.Evaluate.Groups.{prices}
use hanamaru_shientool_prod.Yahoo.Evaluate.Medians.{Ordered, prices-Ordered}

-- The number for a reason, and how often it stands among the reasons against the candidates.
abbrev pub count_of : Reason → List (Reason × ℕ) → ℕ
count_of r [] = 0
count_of r ((q, n) ∷ m) = let rest = count_of r m in if reason_eq q r then n else rest

abbrev pub occurs_in : Reason → List Reason → ℕ
occurs_in r [] = 0
occurs_in r (q ∷ qs) = (if reason_eq q r then 1 else 0) + occurs_in r qs

abbrev pub occurrences : Reason → List Candidate → ℕ
occurrences r [] = 0
occurrences r (c ∷ cs) = occurs_in r c.exclusion_reasons + occurrences r cs

reason_eq_meet : (a b c : Reason) → reason_eq a b ≡ true → reason_eq a c ≡ reason_eq b c
unfolding reason_eq
reason_eq_meet a b c e = ground arith

reason_eq_join :
    (a b c : Reason) → reason_eq a c ≡ true → reason_eq b c ≡ true → reason_eq a b ≡ true
unfolding reason_eq
reason_eq_join a b c e f = ground arith

count_reason_lem :
    (r q : Reason) (m : List (Reason × ℕ))
    → count_of r (count_reason q m) ≡ count_of r m + (if reason_eq q r then 1 else 0)
unfolding count_reason
count_reason_lem r q [] = ground arith
count_reason_lem r q ((p, n) ∷ m) =
    ground (arith, reason_eq_meet p q r, reason_eq_join p q r, count_reason_lem r q m)

count_reasons_lem :
    (r : Reason) (qs : List Reason) (m : List (Reason × ℕ))
    → count_of r (count_reasons qs m) ≡ count_of r m + occurs_in r qs
unfolding count_reasons
count_reasons_lem r [] m = omega arith
count_reasons_lem r (q ∷ qs) m =
    omega (arith, count_reasons_lem r qs (count_reason q m), count_reason_lem r q m)

count_all_lem :
    (r : Reason) (cs : List Candidate) (m : List (Reason × ℕ))
    → count_of r (count_all cs m) ≡ count_of r m + occurrences r cs
unfolding count_all
count_all_lem r [] m = omega arith
count_all_lem r (c ∷ cs) m = omega (
  arith,
  count_all_lem r cs (count_reasons c.exclusion_reasons m),
  count_reasons_lem r c.exclusion_reasons m,
)

-- The first pass does not give the reason of the second.
abbrev Clean : Judged → Type 0
Clean j = any is_price_outlier j.reasons ≡ false

clean_reasons : (a b c d e : Bool) → any is_price_outlier (reasons_from a b c d e) ≡ false
clean_reasons a b c d e = ground arith

judge-Clean :
    (w : Web) (is_mark : Char → Bool) (i : Input) (item : Item) → Clean (judge w is_mark i item)
unfolding judge
judge-Clean w is_mark i item = clean_reasons _ _ _ _ _

all-Clean :
    (w : Web) (is_mark : Char → Bool) (i : Input) (items : List Item)
    → All Clean (map (judge w is_mark i) items)
all-Clean w is_mark i [] = tt
all-Clean w is_mark i (x ∷ xs) = (judge-Clean w is_mark i x, all-Clean w is_mark i xs)

is_outlier-eligible :
    (p : OutlierPolicy) (g : Group) (j : Judged) → is_outlier p g j ≡ true → is_eligible j ≡ true
is_outlier-eligible p g j e = ground arith

-- How the two passes on one item are told apart in its reasons.
before-append :
    (rs : List Reason) (b : Bool)
    → any is_price_outlier rs ≡ false
    → (no_reasons (rs ++ reason_if b price_outlier)
        || all is_price_outlier (rs ++ reason_if b price_outlier))
      ≡ no_reasons rs
before-append [] true e = refl
before-append [] false e = refl
before-append (r ∷ rs) b e = ground (arith, e)

decide-before :
    (p : OutlierPolicy) (g : Group) (j : Judged)
    → Clean j
    → before_outliers (decide p g j) ≡ is_eligible j
unfolding decide
decide-before p g j e = before-append j.reasons (is_outlier p g j) e

decide-included :
    (p : OutlierPolicy) (g : Group) (j : Judged)
    → (decide p g j).included ≡ (is_eligible j && not (decide p g j).auto_outlier)
unfolding decide
decide-included p g j = excluded-append j.reasons (is_outlier p g j)
  where
    excluded-append :
        (rs : List Reason) (b : Bool)
        → no_reasons (rs ++ reason_if b price_outlier) ≡ (no_reasons rs && not b)
    excluded-append [] true = refl
    excluded-append [] false = refl
    excluded-append (r ∷ rs) b = refl

abbrev pub included_of : List Candidate → List Candidate
included_of cs = keep (λ c. c.included) cs

before_prices :
    (p : OutlierPolicy) (g : Groups) (js : List Judged)
    → All Clean js
    → map price (keep before_outliers (decide_all p g js)) ≡ prices (keep is_eligible js)
unfolding decide_all
before_prices p g [] h = refl
before_prices p g (j ∷ js) (c, h) =
    let here = decide-before p (group_of (prices_at j.item.normalized_condition g)) j c in
    elim (Bool-cases (is_eligible j)) [
      | inl yes' ↦ rw (here, yes') (ap (λ x. j.item.closing_price ∷ x) (before_prices p g js h))
      | inr no' ↦ rw (here, no') (before_prices p g js h)
    ]

included_outliers :
    (p : OutlierPolicy) (g : Groups) (js : List Judged)
    → length (keep (λ c. c.included) (decide_all p g js))
        + length (keep (λ c. c.auto_outlier) (decide_all p g js))
      ≡ length (keep is_eligible js)
unfolding decide_all
included_outliers p g [] = refl
included_outliers p g (j ∷ js) =
    let group = group_of (prices_at j.item.normalized_condition g) in
    let here = decide-included p group j in
    elim (Bool-cases (is_outlier p group j)) [
      | inl out ↦
          let in_first = is_outlier-eligible p group j out in
          rw (here, out, in_first) (omega (arith, included_outliers p g js))
      | inr kept ↦ elim (Bool-cases (is_eligible j)) [
        | inl yes' ↦ rw (here, kept, yes') (omega (arith, included_outliers p g js))
        | inr no' ↦ rw (here, kept, no') (included_outliers p g js)
      ]
    ]

length-map : {A B : Type 0} (f : A → B) (xs : List A) → length (map f xs) ≡ length xs
length-map f [] = refl
length-map f (x ∷ xs) = omega (arith, length-map f xs)

length-decide_all :
    (p : OutlierPolicy) (g : Groups) (js : List Judged) → length (decide_all p g js) ≡ length js
unfolding decide_all
length-decide_all p g [] = refl
length-decide_all p g (j ∷ js) = omega (arith, length-decide_all p g js)

-- What the statistics say of the judged items and the candidates.
pub record Figures (js : List Judged) (cs : List Candidate) (s : Statistics) : Type 0 where
  pub candidates : s.candidate_count ≡ length js
  pub accounted :
      s.included_count + length (keep (λ c. c.auto_outlier) cs) ≡ length (keep is_eligible js)
  pub before : s.median_before ≡ median (prices (keep is_eligible js))
  pub middle : s.median_price ≡ median (map price (included_of cs))
  pub order : Ordered (map price (included_of cs)) s.minimum_price s.median_price s.maximum_price
  pub counts : (r : Reason) → count_of r s.exclusion_counts ≡ occurrences r cs

statistics-Figures :
    (p : OutlierPolicy) (g : Groups) (js : List Judged)
    → All Clean js
    → Figures js (decide_all p g js) (statistics (decide_all p g js))
unfolding statistics
statistics-Figures p g js h =
    let cs = decide_all p g js in
    record {
      candidates = length-decide_all p g js;
      accounted =
          ap (λ n. n + length (keep (λ c. c.auto_outlier) cs)) (length-map price (included_of cs))
          ∙ included_outliers p g js;
      before = ap median (before_prices p g js h);
      middle = refl;
      order = prices-Ordered (map price (included_of cs));
      counts = λ r. omega (arith, count_all_lem r cs []);
    }

-- The statistics of an evaluation that returns: one candidate for each item; the included ones and the
-- outliers make up the items that nothing was found against, of which the median before the exclusion
-- is; the median price is that of the included ones, and the least and the greatest price are prices of
-- them, with all of them and the median in between; and each
-- reason is counted as often as it was given.
pub evaluate-Figures :
    (w : Web) (is_mark : Char → Bool) (i : Input) (r : List Candidate × Statistics)
    → evaluate w is_mark i ≡ some r
    → Figures (map (judge w is_mark i) i.items) r.0 r.1
unfolding evaluate
evaluate-Figures w is_mark i r e = elim (Bool-cases (lacks_model w is_mark i)) [
  | inl lacks ↦ absurd (ground (arith, e, lacks))
  | inr has ↦
      let js = map (judge w is_mark i) i.items in
      subst (λ (x : List Candidate × Statistics). Figures js x.0 x.1) (some-eq-some (rw has at e))
        (statistics-Figures i.policy (group_prices (keep is_eligible js) []) js
          (all-Clean w is_mark i i.items))
]
