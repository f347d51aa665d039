-- ===== src/Cash/Transfers.antt =====
-- Replenishing a participant's wallet and taking that back: transfer of apps/api/src/expense-cash.ts.
pub mod Balance
pub mod Sums
use Prim.Native.String.{String}
use hanamaru_shientool_prod.Prelude.{
  ℕ, ◌+◌, ◌-◌, Bool, true, false, not, ◌&&◌, ◌||◌, Option, none, some, List, [], ◌∷◌, any, find,
  is_some, ltb, ◌==◌, if◌then◌else◌, Result, ok, err,
}
use hanamaru_shientool_prod.Prelude.Text.{str_eq, not_after}
use hanamaru_shientool_prod.Prelude.Maps.{get}
use hanamaru_shientool_prod.Prelude.Rows.{update_row}
use hanamaru_shientool_prod.Json.{Json, field}
use hanamaru_shientool_prod.Expense.{
  Problem, invalid, denied, version_conflict, Day, require, text_field, ◌>>=◌,
}
use hanamaru_shientool_prod.Cash.{
  BranchDay, Transfer, Unreplenished, Store, Call, truthy, id_field, money, time_field, permits,
  participant, insert,
}

abbrev pub names : String → Option String → Bool
names k none = false
names k (some j) = str_eq j k

-- The sums over the transfers with a property: what was handed out, and what was taken back.
abbrev pub given_out : (Transfer → Bool) → List (String × Transfer) → ℕ
given_out p [] = 0
given_out p ((k, t) ∷ ts) =
    let rest = given_out p ts in
    if p t && not (is_some t.reverses_id) then t.amount + rest else rest

abbrev pub taken_back : (Transfer → Bool) → List (String × Transfer) → ℕ
taken_back p [] = 0
taken_back p ((k, t) ∷ ts) =
    let rest = taken_back p ts in if p t && is_some t.reverses_id then t.amount + rest else rest

abbrev pub replenishes : String → Transfer → Bool
replenishes k t = names k t.unreplenished_id

-- What a transfer is for: the record of cash that is owed, and the transfer that it takes back.
pub record Purpose : Type 0 where
  pub outstanding : Option String
  pub reverses : Option String

abbrev outstanding_of : Json → Result Problem (Option String)
outstanding_of v =
    let read = id_field v >>= (λ k. ok (some k)) in if truthy v then read else ok none

abbrev is_original : String → String → Transfer → Bool
is_original branch_day day t =
    str_eq t.branch_day_id branch_day && (str_eq t.day_id day && not (is_some t.reverses_id))

abbrev original_of : String → String → ℕ → Option Transfer → Result Problem Transfer
original_of branch_day day amount none = err invalid
original_of branch_day day amount (some t) =
    if is_original branch_day day t && t.amount == amount then ok t else err invalid

abbrev pub reverses_it : String → String × Transfer → Bool
reverses_it k e = names k e.1.reverses_id

unfoldable pub reversal_of : Store → String → String → ℕ → Json → Result Problem Purpose
unfolding id_field
reversal_of s branch_day day amount b = do
  k ← id_field (field "transferId" b)
  t ← original_of branch_day day amount (get k s.transfers)
  u ← require (not (any (reverses_it k) s.transfers)) version_conflict
  ok (record { outstanding = t.unreplenished_id; reverses = some k })

abbrev replenishment : Option String → Purpose
replenishment o = record { outstanding = o; reverses = none }

abbrev pub purpose_of : Store → String → String → Bool → ℕ → Json → Result Problem Purpose
purpose_of s branch_day day reversing amount b =
    let reversal = reversal_of s branch_day day amount b in
    outstanding_of (field "unreplenishedId" b)
    >>= (λ o. if reversing then reversal else ok (replenishment o))

-- The sum over the transfers of a record, once the new one is counted; nothing if it fell under 0.
abbrev pub next_total : Bool → ℕ → ℕ → ℕ → Option ℕ
next_total reversing out back amount =
    if reversing
    then (if ltb out (back + amount) then none else some (out - back - amount))
    else if ltb (out + amount) back
    then none
    else some (out + amount - back)

abbrev same_wallet : BranchDay → Day → Option Day → Bool
same_wallet day d none = false
same_wallet day d (some origin) =
    str_eq origin.branch_id day.branch_id
    && (str_eq origin.owner d.owner && not_after origin.business_date day.business_date)

abbrev pub wallet_record :
    Store → BranchDay → Day → Option Unreplenished → Result Problem Unreplenished
wallet_record s day d none = err invalid
wallet_record s day d (some f) =
    if same_wallet day d (get f.day_id s.days) then ok f else err invalid

abbrev pub within : ℕ → Option ℕ → Result Problem ℕ
within most none = err invalid
within most (some n) = if ltb most n then err invalid else ok n

abbrev pub settled : Bool → Unreplenished → Unreplenished
settled b f = record f { resolved = b; lock_version = f.lock_version + 1 }

-- The record that a transfer is for, which no transfer may exceed.
unfoldable pub settle : Store → BranchDay → Day → String → Bool → ℕ → Result Problem Store
unfolding not_after
settle s day d k reversing amount = do
  f ← wallet_record s day d (get k s.unreplenished)
  next ← within f.amount (
      next_total reversing (given_out (replenishes k) s.transfers)
        (taken_back (replenishes k) s.transfers) amount)
  ok (record s { unreplenished = update_row k (settled (next == f.amount)) s.unreplenished })

abbrev pub settled_store :
    Store → BranchDay → Day → Purpose → ℕ → Option String → Result Problem Store
settled_store s day d p amount none = ok s
settled_store s day d p amount (some k) = settle s day d k (is_some p.reverses) amount

abbrev pub performs : Store → Call → BranchDay → String → ℕ → Bool
performs s c day performer at = any (permits day.branch_id performer at) s.permissions

abbrev pub new_transfer : Call → String → String → ℕ → String → String → Purpose → String → Transfer
new_transfer c branch_day day amount performer occurred p reason = record {
  branch_day_id = branch_day;
  day_id = day;
  amount = amount;
  performed_by = performer;
  recorded_by = c.context.membership_id;
  occurred_at = occurred;
  unreplenished_id = p.outstanding;
  reverses_id = p.reverses;
  reason = reason;
}

unfoldable pub add_transfer : Store → Call → Transfer → Result Problem Store
unfolding insert
add_transfer s c t = do
  transfers ← insert c.new_id t s.transfers
  ok (record s { transfers = transfers })

-- `transfer`, for the actions `transfer` and `reverse-transfer`.
unfoldable pub transfer : Store → Call → String → BranchDay → Bool → Json → Result Problem Store
unfolding participant id_field time_field reversal_of settle add_transfer truthy
transfer s c branch_day day reversing b = do
  r ← participant s branch_day (field "dayId" b)
  amount ← money (field "amount" b)
  u ← require (ltb 0 amount) invalid
  at ← time_field c (field "occurredAt" b)
  performer ← id_field (field "performedBy" b)
  reason ← text_field (field "reason" b) 1000
  v ← require (performs s c day performer at.1) denied
  w ← require (str_eq (c.tokyo_date at.1) day.business_date) invalid
  p ← purpose_of s branch_day r.0 reversing amount b
  t ← settled_store s day r.1 p amount p.outstanding
  add_transfer t c (new_transfer c branch_day r.0 amount performer at.0 p reason)
