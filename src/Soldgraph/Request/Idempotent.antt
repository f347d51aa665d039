-- ===== src/Soldgraph/Request/Idempotent.antt =====
-- Validating a page request twice gives the same request: packages/market-price/src/soldgraph.ts.
use Prim.Native.String.{String}
use hanamaru_shientool_prod.Prelude.{
  ◌≡◌, refl, sym, ◌∙◌, ap, Bool, any, false, ◌||◌, Option, List, arith, ok, ltb, keep, [], ◌∷◌,
}
use hanamaru_shientool_prod.Prelude.Text.{is_empty, size, any_char, tidy}
use hanamaru_shientool_prod.Prelude.Spaces.{tidy-tidy, any_char-tidy}
use hanamaru_shientool_prod.Contracts.{
  Condition, conditions, Market, PageRequest, BuyingFormat, SearchPlan,
}
use hanamaru_shientool_prod.Contracts.Equality.{condition_eq}
use hanamaru_shientool_prod.Soldgraph.Request.{
  Host, is_control, normalize_keyword, has_condition, create_search_plan, validate_page_request,
}

-- What Unicode promises of NFKC: it brings in no control character, and a normalised text whose
-- white space is tidied is still normalised.
pub record Stable (h : Host) : Type 0 where
  pub clean : (s : String) → any_char is_control s ≡ false → any_char is_control (h.nfkc s) ≡ false
  pub normal : (s : String) → h.nfkc (tidy (h.nfkc s)) ≡ tidy (h.nfkc s)

keep_conditions :
    (p : Condition → Bool) → keep (has_condition (keep p conditions)) conditions ≡ keep p conditions
unfolding condition_eq
keep_conditions p = ground arith

module _ (h : Host) where
  -- What a keyword that was let through looks like.
  normalize_keyword-eq-ok :
      (s r : String)
      → normalize_keyword h s ≡ ok r
      → (any_char is_control s ≡ false)
        × (r ≡ tidy (h.nfkc s))
        × ((is_empty r || ltb 200 (size r)) ≡ false)
  unfolding normalize_keyword
  normalize_keyword-eq-ok s r e = ground arith

  normalize_keyword_of :
      (r : String)
      → any_char is_control r ≡ false
      → tidy (h.nfkc r) ≡ r
      → (is_empty r || ltb 200 (size r)) ≡ false
      → normalize_keyword h r ≡ ok r
  unfolding normalize_keyword
  normalize_keyword_of r c t l = rw (c, t) (rw l refl)

  create_search_plan-eq-ok :
      (k : String) (m : Market) (cs : List Condition) (f : Option BuyingFormat) (p : SearchPlan)
      → create_search_plan h k (m ∷ []) cs f ≡ ok p
      → (normalize_keyword h k ≡ ok p.keyword)
        × (p.conditions ≡ keep (has_condition cs) conditions)
        × (p.buying_format ≡ f)
  unfolding create_search_plan
  create_search_plan-eq-ok k m cs f p e = ground arith

  -- What a request that was let through looks like, and that such a request is let through.
  validate_page_request-eq-ok :
      (r v : PageRequest)
      → validate_page_request h r ≡ ok v
      → ((ltb r.page 1 || ltb 10 r.page) ≡ false)
        × (normalize_keyword h r.keyword ≡ ok v.keyword)
        × (v.market ≡ r.market)
        × (v.page ≡ r.page)
        × (v.conditions ≡ keep (has_condition r.conditions) conditions)
        × (v.buying_format ≡ r.buying_format)
  unfolding validate_page_request
  validate_page_request-eq-ok r v e = ground arith

  validate_page_request_of :
      (r : PageRequest)
      → (ltb r.page 1 || ltb 10 r.page) ≡ false
      → normalize_keyword h r.keyword ≡ ok r.keyword
      → keep (has_condition r.conditions) conditions ≡ r.conditions
      → validate_page_request h r ≡ ok r
  unfolding validate_page_request create_search_plan
  validate_page_request_of r p k c = ground arith

module _ (h : Host) (stable : Stable h) where
  normalize_keyword_twice :
      (s r : String) → normalize_keyword h s ≡ ok r → normalize_keyword h r ≡ ok r
  normalize_keyword_twice s r e =
      let (c, same, l) = normalize_keyword-eq-ok h s r e in
      let again : tidy (h.nfkc r) ≡ r =
        rw same (ap tidy (stable.normal s) ∙ tidy-tidy (h.nfkc s)) in
      let clean : any_char is_control r ≡ false =
        rw same (any_char-tidy is_control refl (h.nfkc s) (stable.clean s c)) in
      normalize_keyword_of h r clean again l

  -- If NFKC is stable, a request that validation returns is returned unchanged when it is validated
  -- again. Its conditions are those of the canonical list that the request has, in the order of that list;
  -- its market, page and buying format are the request's.
  pub validate_page_request_twice :
      (r v : PageRequest)
      → validate_page_request h r ≡ ok v
      → (validate_page_request h v ≡ ok v)
        × (v.conditions ≡ keep (λ c. any (condition_eq c) r.conditions) conditions)
        × (v.market ≡ r.market)
        × (v.page ≡ r.page)
        × (v.buying_format ≡ r.buying_format)
  validate_page_request_twice r v e =
      let (page, word, m, same_page, c, f) = validate_page_request-eq-ok h r v e in
      (
        validate_page_request_of h v (rw same_page page)
            (normalize_keyword_twice r.keyword v.keyword word)
            (ap (λ cs. keep (has_condition cs) conditions) c
              ∙ (keep_conditions (has_condition r.conditions) ∙ sym c)),
        c,
        m,
        same_page,
        f,
      )
