-- ===== src/Soldgraph/Request.antt =====
-- Search plans, page requests, operation keys and envelopes: packages/market-price/src/soldgraph.ts.
-- A value of a TypeScript type needs no test of its own keys or literals. `Host` is what the code
-- takes from outside: Unicode normalisation, and the SHA-256 digests (hexadecimal) of the JSON text
-- of a plan and of an operation.
pub mod Idempotent
use Prim.Native.Char.{Char, code}
use Prim.Native.String
use hanamaru_shientool_prod.Prelude.{
  ℕ, zero, ◌*◌, String, Bool, true, false, not, ◌&&◌, ◌||◌, Option, none, some, List, [], ◌∷◌, ltb,
  leb, ◌==◌, if◌then◌else◌, Result, ok, err, length, keep, any, is_some,
}
use hanamaru_shientool_prod.Prelude.Text.{
  is_empty, size, any_char, tidy, is_alnum, matches_class, str_eq,
}
use hanamaru_shientool_prod.Json.{Json, num, nat, field, text_of, bool_of, safe_limit}
use hanamaru_shientool_prod.Contracts.{
  Market, markets, Condition, conditions, BuyingFormat, PageRequest, SearchPlan, Envelope, pending,
  failed, complete, Credits, zero_credits, one_credit,
}
use hanamaru_shientool_prod.Contracts.Equality.{market_eq, condition_eq}

pub record Host : Type 0 where
  pub nfkc : String → String
  pub plan_digest : String → List Market → List Condition → Option BuyingFormat → String
  pub operation_digest : String → PageRequest → ℕ → String

-- `SoldgraphContractError`.
pub data ContractError : Type 0 where
  invalid_request invalid_envelope invalid_page : ContractError

infixl 5 ◌>>=◌
abbrev pub ◌>>=◌ :
    {A B : Type 0} → Result ContractError A → (A → Result ContractError B) → Result ContractError B
ok a >>= f = f a
err e >>= f = err e

-- The control characters that a keyword may not hold.
abbrev is_control : Char → Bool
is_control c = ltb (code c) 32 || code c == 127

unfoldable pub normalize_keyword : Host → String → Result ContractError String
normalize_keyword h s =
    if any_char is_control s
    then err invalid_request
    else (let r = tidy (h.nfkc s) in
        if is_empty r || ltb 200 (size r) then err invalid_request else ok r)

abbrev pub has_market : List Market → Market → Bool
has_market ms m = any (market_eq m) ms

abbrev pub has_condition : List Condition → Condition → Bool
has_condition cs c = any (condition_eq c) cs

-- `new Set(markets).size === markets.length`.
abbrev pub distinct : List Market → Bool
distinct [] = true
distinct (m ∷ ms) = not (has_market ms m) && distinct ms

module _ (h : Host) where
  unfoldable pub create_search_plan :
      String → List Market → List Condition → Option BuyingFormat → Result ContractError SearchPlan
  unfolding market_eq condition_eq
  create_search_plan keyword ms cs format =
      if leb (length ms) 0 || ltb 8 (length ms) || not (distinct ms)
      then err invalid_request
      else do
        word ← normalize_keyword h keyword
        let chosen = keep (has_market ms) markets
        let wanted = keep (has_condition cs) conditions
        ok (record {
          keyword = word;
          markets = chosen;
          conditions = wanted;
          buying_format = format;
          page_size = 200;
          max_pages = 20;
          max_pages_per_market = 10;
          initial_reserved_credits = length chosen;
          maximum_initial_rows = length chosen * 200;
          spec_hash = h.plan_digest word chosen wanted format;
        })

  unfoldable pub validate_page_request : PageRequest → Result ContractError PageRequest
  unfolding create_search_plan
  validate_page_request r = if ltb r.page 1 || ltb 10 r.page then err invalid_request else do
    plan ← create_search_plan r.keyword (r.market ∷ []) r.conditions r.buying_format
    ok (record {
      keyword = plan.keyword;
      market = r.market;
      page = r.page;
      conditions = plan.conditions;
      buying_format = plan.buying_format;
    })

  abbrev is_search_id : String → Bool
  is_search_id s = matches_class (λ c. is_alnum c || code c == b'-') 1 80 s

  unfoldable pub operation_key : String → PageRequest → ℕ → Result ContractError String
  operation_key search_id request attempt =
      if not (is_search_id search_id) || not (ltb attempt safe_limit) || ltb attempt 1
      then err invalid_request
      else do
        valid ← validate_page_request request
        ok (String.◌++◌ "sg-" (h.operation_digest search_id valid attempt))

unfoldable pub valid_request_id : String → Bool
valid_request_id s = matches_class (λ c. is_alnum c || code c == b'_' || code c == b'-') 1 128 s

-- `expectedRequestId && raw.request_id !== expectedRequestId`.
abbrev differs : Option String → String → Bool
differs none id = false
differs (some expected) id = not (is_empty expected) && not (str_eq id expected)

abbrev credits_of : Json → Option Credits
credits_of (num (nat zero)) = some zero_credits
credits_of (num (nat n)) = if n == 1 then some one_credit else none
credits_of _ = none

abbrev is_zero : Option Credits → Bool
is_zero (some zero_credits) = true
is_zero _ = false

abbrev complete_with : String → Bool → Json → Option Credits → Result ContractError (Envelope Json)
complete_with id cached result none = err invalid_envelope
complete_with id cached result (some c) = ok (complete id c cached result)

unfoldable pub envelope_of : String → Bool → Json → Result ContractError (Envelope Json)
envelope_of id cached raw = elim (text_of (field "status" raw)) [
  | none ↦ err invalid_envelope
  | some status ↦
      if str_eq status "pending" || str_eq status "failed"
      then (if is_zero (credits_of (field "credits" raw))
          then (if str_eq status "pending" then ok (pending id cached) else ok (failed id cached))
          else err invalid_envelope)
      else if str_eq status "complete"
      then complete_with id cached (field "result" raw) (credits_of (field "credits" raw))
      else err invalid_envelope
]

unfoldable pub parse_envelope : Json → Option String → Result ContractError (Envelope Json)
unfolding envelope_of valid_request_id
parse_envelope raw expected = elim (text_of (field "request_id" raw)) [
  | none ↦ err invalid_envelope
  | some id ↦ elim (bool_of (field "cached" raw)) [
    | none ↦ err invalid_envelope
    | some cached ↦
        if not (valid_request_id id) || differs expected id
        then err invalid_envelope
        else envelope_of id cached raw
  ]
]
