-- ===== src/Soldgraph/Usage.antt =====
-- The provider's usage report: packages/market-price/src/soldgraph-usage.ts, with SoldgraphUsage of
-- packages/contracts/src/soldgraph.ts. What the source throws on is `none`.
pub mod Allowance
mod Examples
use Prim.Native.Char.{Char, code}
use Prim.Native.String
use Prim.Native.String.{String}
use hanamaru_shientool_prod.Prelude.{
  ℕ, ◌+◌, ◌-◌, Bool, true, false, not, ◌&&◌, ◌||◌, Option, none, some, ltb, leb, ◌==◌,
  if◌then◌else◌, is_some,
}
use hanamaru_shientool_prod.Prelude.Text.{str_eq, is_lower, is_digit, all_chars, size}
use hanamaru_shientool_prod.Json.{Json, obj, field, text_of, bool_of, safe_nat, safe_limit, is_null}

pub data Window : Type 0 where
  one_time rolling_30_days : Window

pub record Usage : Type 0 where
  pub plan : String
  pub used : ℕ
  pub limit : Option ℕ
  pub remaining : Option ℕ
  pub extra_requests : ℕ
  pub window : Window
  pub shared_allowance : Bool
  pub rate_limit_per_minute : ℕ

abbrev is_plan_char : Char → Bool
is_plan_char c = is_lower c || is_digit c || code c == b'_' || code c == b'-'

-- `/^[a-z][a-z0-9_-]{0,39}$/u`.
abbrev is_plan : String → Bool
is_plan String.[] = false
is_plan (String.◌∷◌ c s) = is_lower c && (all_chars is_plan_char s && leb (size s) 39)

abbrev window_of : Option String → Option Window
window_of none = none
window_of (some s) =
    if str_eq s "one_time"
    then some one_time
    else if str_eq s "rolling_30_days"
    then some rolling_30_days
    else none

-- The limit and what remains of it: both `null`, or two numbers that agree with what is used.
abbrev pub both : Option ℕ → Option ℕ → ℕ → Option (Option ℕ × Option ℕ)
both (some limit) (some remaining) used =
    if remaining == limit - used then some (some limit, some remaining) else none
both _ _ used = none

abbrev pub bounds_of : Json → Json → ℕ → Option (Option ℕ × Option ℕ)
bounds_of limit remaining used =
    if is_null limit || is_null remaining
    then (if is_null limit && is_null remaining then some (none, none) else none)
    else both (safe_nat limit) (safe_nat remaining) used

abbrev is_object : Json → Bool
is_object (obj ms) = true
is_object _ = false

infixl 5 ◌>>=◌
abbrev pub ◌>>=◌ : {A B : Type 0} → Option A → (A → Option B) → Option B
some a >>= f = f a
none >>= f = none

abbrev require : Bool → Option (Unit {0})
require true = some tt
require false = none

-- `parseSoldgraphUsage`.
unfoldable pub parse_usage : Json → Option Usage
parse_usage v = require (is_object v) >>= (λ u. text_of (field "plan" v) >>= (λ plan.
    require (is_plan plan) >>= (λ u. safe_nat (field "used" v) >>= (λ used.
      safe_nat (field "extra_requests" v) >>= (λ extra.
        safe_nat (field "rate_limit_per_minute" v) >>= (λ rate. require (leb 1 rate) >>= (λ u.
          bool_of (field "shared_allowance" v) >>= (λ shared.
            window_of (text_of (field "window" v)) >>= (λ window.
              bounds_of (field "limit" v) (field "remaining" v) used >>= (λ b. some (record {
                plan = plan;
                used = used;
                limit = b.0;
                remaining = b.1;
                extra_requests = extra;
                window = window;
                shared_allowance = shared;
                rate_limit_per_minute = rate;
              })))))))))))

abbrev safe : ℕ → Option (Option ℕ)
safe n = if ltb n safe_limit then some (some n) else none

-- `soldgraphAvailableAllowance`: `some none` is an allowance without a limit.
unfoldable pub available : Usage → Bool → Option (Option ℕ)
available u extra = elim u.remaining [
  | none ↦ some none
  | some n ↦ safe (n + (if extra then u.extra_requests else 0))
]
