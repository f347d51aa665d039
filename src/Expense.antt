-- ===== src/Expense.antt =====
-- The expense records of a day: apps/api/src/expense.ts, with expensePersonalMutation of
-- apps/api/src/expense-cash.ts. A `Store` is the rows of one organization, and an operation is the body
-- of one transaction: what throws leaves the store as it was. The feature flag, which every operation
-- asks first, is a field of the store.
pub mod Items
pub mod Records
pub mod Followups
mod Examples
use Prim.Native.Char.{Char, code}
use Prim.Native.String
use Prim.Native.String.{String}
use hanamaru_shientool_prod.Prelude.{
  ℕ, zero, suc, ◌+◌, Bool, true, false, not, ◌&&◌, ◌||◌, Option, none, some, List, [], ◌∷◌, any,
  is_some, ltb, leb, ◌==◌, if◌then◌else◌, Result, ok, err,
}
use hanamaru_shientool_prod.Prelude.Text.{str_eq, is_empty, trim, utf16_length, is_digit}
use hanamaru_shientool_prod.Prelude.Maps.{get, put}
use hanamaru_shientool_prod.Json.{Json, undefined, null, str, safe_nat}

pub data Problem : Type 0 where
  invalid denied not_found feature_disabled version_conflict database_error : Problem

infixl 5 ◌>>=◌
abbrev pub ◌>>=◌ : {A B : Type 0} → Result Problem A → (A → Result Problem B) → Result Problem B
ok a >>= f = f a
err e >>= f = err e

pub record Scope : Type 0 where
  pub scope_type : String
  pub scope_id : String
  pub capabilities : List String

pub record Context : Type 0 where
  pub organization_id : String
  pub membership_id : String
  pub branch_id : String
  pub roles : List String
  pub scopes : List Scope

pub record Day : Type 0 where
  pub owner : String
  pub branch_id : String
  pub business_date : String
  pub opening_wallet_cash : Option ℕ
  pub purchase_total : Option ℕ
  pub purchase_source_note : Option String
  pub lock_version : ℕ

pub data ItemStatus : Type 0 where
  candidate confirmed excluded : ItemStatus

pub data PaymentSource : Type 0 where
  company_wallet personal : PaymentSource

pub data EntrySource : Type 0 where
  manual synthetic_ocr : EntrySource

pub record Item : Type 0 where
  pub day_id : String
  pub spent_by : String
  pub merchant : String
  pub category : String
  pub amount : ℕ
  pub payment_source : PaymentSource
  pub entry_source : EntrySource
  pub note : Option String
  pub status : ItemStatus
  pub excluded_reason : Option String
  pub confirmed_by : Option String
  pub lock_version : ℕ

pub record BranchDay : Type 0 where
  pub is_open : Bool
  pub lock_version : ℕ
  pub reconciliation_version : Option ℕ

pub record Store : Type 0 where
  pub enabled : Bool
  pub days : List (String × Day)
  pub items : List (String × Item)
  pub branch_days : List (String × BranchDay)
  pub ready : List (String × Bool)

abbrev pub has : List String → String → Bool
has xs x = any (str_eq x) xs

-- `string`.
unfoldable pub text_field : Json → ℕ → Result Problem String
text_field (str s) most =
    if is_empty (trim s) || ltb most (utf16_length s) then err invalid else ok (trim s)
text_field _ most = err invalid

abbrev in_range : Option ℕ → ℕ → Result Problem ℕ
in_range none least = err invalid
in_range (some n) least = if ltb n least || ltb 1000000000 n then err invalid else ok n

-- `amount`.
unfoldable pub amount_field : Json → Bool → Result Problem ℕ
amount_field v allow_zero = in_range (safe_nat v) (if allow_zero then 0 else 1)

abbrev non_empty : String → Option String
non_empty s = if is_empty s then none else some s

-- `optionalText`.
unfoldable pub optional_text : Json → ℕ → Result Problem (Option String)
optional_text undefined most = ok none
optional_text null most = ok none
optional_text (str s) most =
    if is_empty s
    then ok none
    else if ltb most (utf16_length s)
    then err invalid
    else ok (non_empty (trim s))
optional_text _ most = err invalid

abbrev is_hex : Char → Bool
is_hex c =
    is_digit c
    || (leb b'a' (code c) && leb (code c) b'f')
    || (leb b'A' (code c) && leb (code c) b'F')

-- The text after a run of hexadecimal digits and a separator, if they stand there.
abbrev after_run : ℕ → String → Option String
after_run zero (String.◌∷◌ c s) = if code c == b'-' then some s else none
after_run zero String.[] = none
after_run (suc n) String.[] = none
after_run (suc n) (String.◌∷◌ c s) = let rest = after_run n s in if is_hex c then rest else none

abbrev hex_only : ℕ → String → Bool
hex_only zero String.[] = true
hex_only zero (String.◌∷◌ c s) = false
hex_only (suc n) String.[] = false
hex_only (suc n) (String.◌∷◌ c s) = is_hex c && hex_only n s

abbrev then_run : ℕ → Option String → Option String
then_run n none = none
then_run n (some s) = after_run n s

abbrev ends_in : ℕ → Option String → Bool
ends_in n none = false
ends_in n (some s) = hex_only n s

-- The regular expression `uuid`. The models compare identifiers as texts: a request is taken to write them
-- in lower case, as the database does, which compares them without regard to case.
unfoldable pub is_uuid : String → Bool
is_uuid s = ends_in 12 (then_run 4 (then_run 4 (then_run 4 (after_run 8 s))))

abbrev can : Scope → String → Bool
can s c = has s.capabilities c

abbrev pub is_own : Context → Day → Bool
is_own ctx day =
    str_eq day.owner ctx.membership_id
    && any
        (λ (s : Scope).
          str_eq s.scope_type "self" && (str_eq s.scope_id ctx.membership_id && can s "visit:self"))
        ctx.scopes

abbrev pub is_manager : Context → Day → Bool
is_manager ctx day =
    any
      (λ (s : Scope).
        can s "visit:scope"
        && ((str_eq s.scope_type "branch" && str_eq s.scope_id day.branch_id)
            || (str_eq s.scope_type "organization" && str_eq s.scope_id ctx.organization_id)))
      ctx.scopes

-- `access`: whether the day is the actor's own.
unfoldable pub access : Context → Day → Result Problem Bool
access ctx day =
    if has ctx.roles "system_admin"
    then err denied
    else if not (is_own ctx day) && not (is_manager ctx day)
    then err not_found
    else ok (is_own ctx day)

abbrev pub or_missing : {A : Type 0} → Option A → Result Problem A
or_missing none = err not_found
or_missing (some a) = ok a

abbrev pub require : Bool → Problem → Result Problem (Unit {0})
require true p = ok tt
require false p = err p

unfoldable pub check_enabled : Store → Result Problem (Unit {0})
check_enabled s = if s.enabled then ok tt else err feature_disabled

abbrev pub branch_key : Day → String
branch_key d = String.◌++◌ d.branch_id (String.◌++◌ "|" d.business_date)

abbrev pub is_closed : Option BranchDay → Bool
is_closed none = false
is_closed (some b) = not b.is_open

abbrev reset : Option BranchDay → String → List (String × BranchDay) → List (String × BranchDay)
reset none k m = m
reset (some b) k m =
    put k (record b { lock_version = b.lock_version + 1; reconciliation_version = none }) m

abbrev unready : Option Bool → String → List (String × Bool) → List (String × Bool)
unready none id m = m
unready (some r) id m = put id false m

-- `expensePersonalMutation`: refused on a closed day; otherwise the participant is no longer ready, and
-- the reconciliation of the branch no longer holds.
unfoldable pub personal_mutation : Store → String → Day → Result Problem Store
personal_mutation s id day =
    if is_closed (get (branch_key day) s.branch_days)
    then err denied
    else ok (record s {
      ready = unready (get id s.ready) id s.ready;
      branch_days = reset (get (branch_key day) s.branch_days) (branch_key day) s.branch_days;
    })

-- `day(tx, ctx, id, true)` of an operation that only the owner may do; what is refused to others is the
-- last argument.
unfoldable pub own_day : Store → Context → String → Problem → Result Problem (Store × Day)
unfolding check_enabled is_uuid access personal_mutation
own_day s ctx id refusal = check_enabled s >>= (λ u. require (is_uuid id) not_found >>= (λ v.
    or_missing (get id s.days) >>= (λ day. access ctx day >>= (λ own.
      personal_mutation s id day >>= (λ s'. require own refusal >>= (λ x. ok (s', day)))))))
