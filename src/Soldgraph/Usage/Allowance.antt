-- ===== src/Soldgraph/Usage/Allowance.antt =====
-- What may still be requested.
use hanamaru_shientool_prod.Prelude.{
  ℕ, ◌+◌, ◌-◌, ◌<◌, true, false, Option, none, some, leb, ◌==◌, ◌||◌, ◌&&◌, ◌≡◌, refl, ap, subst,
  some-eq-some, ◌⊎◌, inl, inr, Bool-cases, arith,
}
use hanamaru_shientool_prod.Json.{Json, field, text_of, bool_of, safe_limit, is_null, safe_nat}
use hanamaru_shientool_prod.Soldgraph.Usage.{
  Usage, safe, require, is_object, is_plan, window_of, both, bounds_of, parse_usage, available,
  ◌>>=◌,
}

abbrev Always : {A : Type 0} → (A → Type 0) → Option A → Type 0
Always {A = A} P x = (a : A) → x ≡ some a → P a

bind-Always :
    {A B : Type 0} (P : B → Type 0) (x : Option A) (f : A → Option B)
    → ((a : A) → x ≡ some a → Always P (f a))
    → Always P (x >>= f)
bind-Always P (some a) f h b eq = h a refl b eq
bind-Always P none f h b eq = absurd (ground arith)

-- A report that agrees with itself: without a limit nothing remains to be counted; with one, what
-- remains is the limit less what is used, and it is a safe integer.
abbrev pub Agrees : Usage → Type 0
Agrees u =
    ((u.limit ≡ none) × (u.remaining ≡ none))
    ⊎ ((l : ℕ) × (u.limit ≡ some l) × (u.remaining ≡ some (l - u.used)) × (l - u.used < safe_limit))

safe_nat-lt : (v : Json) (n : ℕ) → safe_nat v ≡ some n → n < safe_limit
safe_nat-lt v n e = ground arith

abbrev Fits : ℕ → Option ℕ × Option ℕ → Type 0
Fits used b =
    ((b.0 ≡ none) × (b.1 ≡ none))
    ⊎ ((l : ℕ) × (b.0 ≡ some l) × (b.1 ≡ some (l - used)) × (l - used < safe_limit))

both-Fits :
    (l r : Option ℕ) (used : ℕ)
    → ((n : ℕ) → r ≡ some n → n < safe_limit)
    → Always (Fits used) (both l r used)
both-Fits (some l) (some r) used safe b e = elim (Bool-cases (r == l - used)) [
  | inr other ↦ absurd (ground arith)
  | inl same ↦
      let eq : r ≡ l - used = ground arith in
      let small = safe r refl in
      subst (Fits used) (some-eq-some (rw same at e))
        (inr (l, refl, ap some eq, omega (arith, small, eq)))
]
both-Fits (some l) none used safe b e = absurd (ground arith)
both-Fits none r used safe b e = absurd (ground arith)

bounds_of-Fits : (l r : Json) (used : ℕ) → Always (Fits used) (bounds_of l r used)
bounds_of-Fits l r used b e = elim (Bool-cases (is_null l || is_null r)) [
  | inr numbers ↦ both-Fits (safe_nat l) (safe_nat r) used (safe_nat-lt r) b (rw numbers at e)
  | inl null ↦ elim (Bool-cases (is_null l && is_null r)) [
    | inr one ↦ absurd (ground arith)
    | inl two ↦ subst (Fits used) (some-eq-some (rw (null, two) at e)) (inl (refl, refl))
  ]
]

parse_usage-Agrees : (v : Json) → Always Agrees (parse_usage v)
unfolding parse_usage
parse_usage-Agrees v t e =
    bind-Always Agrees (require (is_object v)) _
      (λ x h. bind-Always Agrees (text_of (field "plan" v)) _ (λ plan h.
        bind-Always Agrees (require (is_plan plan)) _ (λ x h.
          bind-Always Agrees (safe_nat (field "used" v)) _ (λ used h.
            bind-Always Agrees (safe_nat (field "extra_requests" v)) _ (λ extra h.
              bind-Always Agrees (safe_nat (field "rate_limit_per_minute" v)) _ (λ rate h.
                bind-Always Agrees (require (leb 1 rate)) _ (λ x h.
                  bind-Always Agrees (bool_of (field "shared_allowance" v)) _ (λ shared h.
                    bind-Always Agrees (window_of (text_of (field "window" v))) _ (λ window h.
                      bind-Always Agrees (bounds_of (field "limit" v) (field "remaining" v) used) _
                        (λ b h. λ u same. subst Agrees (some-eq-some same) (
                          bounds_of-Fits (field "limit" v) (field "remaining" v) used b h)))))))))))
      t e

extra_amount : (a x n : ℕ) → safe (a + x) ≡ some (some n) → n ≡ a + x
extra_amount a x n e = ground arith

available_of :
    (u : Usage)
    → Agrees u
    → ((u.limit ≡ none) × (available u false ≡ some none) × (available u true ≡ some none))
      ⊎ ((l : ℕ) × (u.limit ≡ some l)
          × (available u false ≡ some (some (l - u.used)))
          × ((n : ℕ) → available u true ≡ some (some n) → n ≡ l - u.used + u.extra_requests))
unfolding available
available_of u (inl (l, r)) = inl (l, rw r refl, rw r refl)
available_of u (inr (l, e, r, small)) = inr (
  l,
  e,
  rw r (ground (arith, small)),
  λ n f. extra_amount (l - u.used) u.extra_requests n (rw r at f),
)

-- Of a usage report that is let through, the allowance without extra requests is the limit less what
-- is used and never an error; with them it is the same plus the extra requests, or an error; and a
-- report without a limit gives an allowance without a limit in both cases.
pub available_lem :
    (v : Json) (u : Usage)
    → parse_usage v ≡ some u
    → ((u.limit ≡ none) × (available u false ≡ some none) × (available u true ≡ some none))
      ⊎ ((l : ℕ) × (u.limit ≡ some l)
          × (available u false ≡ some (some (l - u.used)))
          × ((n : ℕ) → available u true ≡ some (some n) → n ≡ l - u.used + u.extra_requests))
available_lem v u e = available_of u (parse_usage-Agrees v u e)
