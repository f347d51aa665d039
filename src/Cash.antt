-- ===== src/Cash.antt =====
-- The cash of a branch on a day, and its closing: apps/api/src/expense-cash.ts. A `Store` is the rows of
-- one organization, and an operation is the body of one transaction: what throws leaves the store as it
-- was, and the advisory lock that orders the transactions needs no counterpart. What a call takes from
-- the clock and from the database's defaults is in its `Call`. The details of an event, the feature
-- flag's expiry and the texts of the errors are not modelled, and an identifier is taken in the spelling
-- that the database gives it.
pub mod Roster
pub mod Entry
pub mod Transfers
pub mod Closing
pub mod Commands
use Prim.Native.String
use Prim.Native.String.{String}
use hanamaru_shientool_prod.Prelude.{
  ℕ, Bool, true, false, not, ◌&&◌, ◌||◌, Option, none, some, List, [], ◌∷◌, any, find, ltb, leb,
  if◌then◌else◌, Result, ok, err,
}
use hanamaru_shientool_prod.Prelude.Text.{str_eq, is_empty}
use hanamaru_shientool_prod.Prelude.Maps.{get, put}
use hanamaru_shientool_prod.Prelude.Integers.{ℤ}
use hanamaru_shientool_prod.Json.{Json, undefined, null, bool, num, nat, str}
use hanamaru_shientool_prod.Expense.{
  Problem, invalid, denied, not_found, feature_disabled, database_error, Context, Day, Item, has,
  require, or_missing, text_field, amount_field, is_uuid, ◌>>=◌,
}

pub data Rank : Type 0 where
  officer delegate : Rank

pub record Permission : Type 0 where
  pub branch_id : String
  pub membership_id : String
  pub authority : Rank
  pub can_close : Bool
  pub active : Bool
  pub valid_from : ℕ
  pub valid_until : Option ℕ

pub data Mode : Type 0 where
  external_reference vault_ledger : Mode

pub record Policy : Type 0 where
  pub reconciliation_mode : Mode
  pub policy_reference : String
  pub version : ℕ

pub data DayStatus : Type 0 where
  still_open closed_balanced closed_difference : DayStatus

-- What a reconciliation was computed from.
pub data Basis : Type 0 where
  given : ℕ → Basis
  computed : ℕ → ℕ → ℕ → ℤ → Basis

pub record Reconciliation : Type 0 where
  pub basis : Basis
  pub reference : String
  pub policy : Policy

pub record BranchDay : Type 0 where
  pub branch_id : String
  pub business_date : String
  pub roster_note : String
  pub status : DayStatus
  pub expected_cash : Option ℕ
  pub actual_cash : Option ℕ
  pub reconciliation_input : Option Reconciliation
  pub reconciliation_version : Option ℕ
  pub lock_version : ℕ
  pub review_required : Bool

pub record Participant : Type 0 where
  pub branch_day_id : String
  pub day_id : String
  pub ready : Bool

pub record Transfer : Type 0 where
  pub branch_day_id : String
  pub day_id : String
  pub amount : ℕ
  pub performed_by : String
  pub recorded_by : String
  pub occurred_at : String
  pub unreplenished_id : Option String
  pub reverses_id : Option String
  pub reason : String

pub data IssueKind : Type 0 where
  cash_difference post_close_correction : IssueKind

pub record Issue : Type 0 where
  pub branch_day_id : String
  pub kind : IssueKind
  pub is_open : Bool
  pub amount : Option ℤ
  pub note : String
  pub assignee_id : String
  pub resolution_note : Option String

-- What a closing puts on record.
pub record Snapshot : Type 0 where
  pub records : List (String × (Day × List (String × Item)))
  pub participants : List Participant
  pub transfers : List (String × Transfer)
  pub reconciliation : Option Reconciliation
  pub note : Option String
  pub assignee_id : String

pub record Closure : Type 0 where
  pub expected_cash : ℕ
  pub actual_cash : ℕ
  pub difference : ℤ
  pub snapshot : Snapshot
  pub closed_by : String

-- A follow-up of the kind `unreplenished`.
pub record Unreplenished : Type 0 where
  pub day_id : String
  pub amount : ℕ
  pub resolved : Bool
  pub lock_version : ℕ

-- A receipt of a day: whether it is neither registered nor set aside yet.
pub record Receipt : Type 0 where
  pub day_id : String
  pub unsettled : Bool

pub record Member : Type 0 where
  pub branch_id : String
  pub active : Bool

pub record Event : Type 0 where
  pub branch_day_id : String
  pub action : String
  pub actor_id : String

pub record Store : Type 0 where
  pub enabled : Bool
  pub members : List (String × Member)
  pub permissions : List Permission
  pub policies : List (String × Policy)
  pub days : List (String × Day)
  pub items : List (String × Item)
  pub receipts : List Receipt
  pub unreplenished : List (String × Unreplenished)
  pub branch_days : List (String × BranchDay)
  pub participants : List Participant
  pub transfers : List (String × Transfer)
  pub issues : List (String × Issue)
  pub closures : List (String × Closure)
  pub events : List Event

-- `now`, `instant` (the pattern of `time` and `Date.parse`) and `tokyo_date` (the formatter of
-- `transfer`) are the clock's; the others are the identifiers that the database gives to new rows.
pub record Call : Type 0 where
  pub context : Context
  pub now : ℕ
  pub instant : String → Option ℕ
  pub tokyo_date : ℕ → String
  pub is_date : String → Bool
  pub new_id : String
  pub issue_id : String
  pub new_day : String → String

-- The value of a field as a condition.
unfoldable pub truthy : Json → Bool
truthy undefined = false
truthy null = false
truthy (bool b) = b
truthy (num (nat n)) = ltb 0 n
truthy (str s) = not (is_empty s)
truthy _ = true

-- `id`.
unfoldable pub id_field : Json → Result Problem String
id_field (str s) = if is_uuid s then ok s else err invalid
id_field _ = err invalid

-- `money`.
abbrev pub money : Json → Result Problem ℕ
money v = amount_field v true

-- `date`.
unfoldable pub date_field : Call → Json → Result Problem String
date_field c v = do s ← text_field v 10; u ← require (c.is_date s) invalid; ok s

abbrev past : ℕ → String → Option ℕ → Result Problem (String × ℕ)
past now s none = err invalid
past now s (some t) = if ltb now t then err invalid else ok (s, t)

-- `time`, with the instant.
unfoldable pub time_field : Call → Json → Result Problem (String × ℕ)
time_field c v = do s ← text_field v 40; past c.now s (c.instant s)

abbrev not_yet : ℕ → Option ℕ → Bool
not_yet t none = true
not_yet t (some end) = ltb t end

-- The condition on a permission of the three queries that ask for one.
abbrev pub permits : String → String → ℕ → Permission → Bool
permits branch member t p =
    str_eq p.branch_id branch
    && (str_eq p.membership_id member
        && (p.active && (leb p.valid_from t && not_yet t p.valid_until)))

abbrev or_denied : {A : Type 0} → Option A → Result Problem A
or_denied none = err denied
or_denied (some a) = ok a

-- `enabled`.
unfoldable pub check_enabled : Store → Call → Result Problem (Unit {0})
check_enabled s c = do
  u ← require (not (has c.context.roles "system_admin")) denied
  require s.enabled feature_disabled

-- `authority`, for the member that the call is checked for.
unfoldable pub authority : Store → Call → String → String → Result Problem Permission
unfolding check_enabled
authority s c member branch = do
  u ← check_enabled s c
  or_denied (find (permits branch member c.now) s.permissions)

-- `get`: the day and the caller's permission in its branch.
unfoldable pub load : Store → Call → String → Result Problem (BranchDay × Permission)
unfolding authority
load s c id = do
  u ← require (is_uuid id) invalid
  day ← or_missing (get id s.branch_days)
  p ← authority s c c.context.membership_id day.branch_id
  ok (day, p)

abbrev vacant :
    {V : Type 0} → Option V → String → V → List (String × V) → Result Problem (List (String × V))
vacant (some old) k v m = err database_error
vacant none k v m = ok (put k v m)

-- An INSERT under a key that must be new.
unfoldable pub insert :
    {V : Type 0} → String → V → List (String × V) → Result Problem (List (String × V))
insert k v m = vacant (get k m) k v m

abbrev pub is_open_status : DayStatus → Bool
is_open_status still_open = true
is_open_status _ = false

-- `event`.
abbrev pub record_event : Call → String → String → Store → Store
record_event c id action s =
    let e : Event = record {
      branch_day_id = id;
      action = action;
      actor_id = c.context.membership_id;
    } in
    record s { events = e ∷ s.events }

abbrev pub is_member_of : String → Option Member → Bool
is_member_of branch none = false
is_member_of branch (some m) = str_eq m.branch_id branch && m.active

-- The participant of a branch day, as a condition on a row.
abbrev pub takes_part : String → String → Participant → Bool
takes_part branch_day day p = str_eq p.branch_day_id branch_day && str_eq p.day_id day

abbrev pub unready : Participant → Participant
unready p = record p { ready = false }

abbrev chosen : Store → String → String → Bool → Result Problem Day
chosen s branch_day day false = err not_found
chosen s branch_day day true = or_missing (get day s.days)

-- `participant`: the personal day that a command is about.
unfoldable pub participant : Store → String → Json → Result Problem (String × Day)
unfolding id_field
participant s branch_day v = do
  id ← id_field v
  day ← chosen s branch_day id (any (takes_part branch_day id) s.participants)
  ok (id, day)
