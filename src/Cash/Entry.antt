-- ===== src/Cash/Entry.antt =====
-- What an officer or a delegate enters for a participant, and the report that an entry is complete:
-- entry of apps/api/src/expense-cash.ts. A payment source that is an array of one text, which `String`
-- makes that text, is not modelled.
use Prim.Native.String.{String}
use hanamaru_shientool_prod.Prelude.{
  ℕ, ◌+◌, Bool, true, false, not, ◌&&◌, Option, none, some, any, map, is_some, ltb, ◌==◌,
  if◌then◌else◌, Result, ok, err,
}
use hanamaru_shientool_prod.Prelude.Text.{str_eq, is_empty, not_after}
use hanamaru_shientool_prod.Prelude.Maps.{get}
use hanamaru_shientool_prod.Prelude.Rows.{change_if, update_row, update_rows}
use hanamaru_shientool_prod.Json.{Json, bool, str, field}
use hanamaru_shientool_prod.Expense.{
  Problem, invalid, not_found, version_conflict, Day, Item, ItemStatus, PaymentSource, candidate,
  confirmed, company_wallet, personal, manual, require, text_field, ◌>>=◌,
}
use hanamaru_shientool_prod.Cash.{
  BranchDay, Participant, Receipt, Issue, post_close_correction, Store, Call, truthy, id_field,
  money, participant, insert, is_open_status, takes_part,
}

abbrev is_candidate : ItemStatus → Bool
is_candidate candidate = true
is_candidate _ = false

abbrev candidate_of : String → String × Item → Bool
candidate_of day e = str_eq e.1.day_id day && is_candidate e.1.status

abbrev unsettled_of : String → Receipt → Bool
unsettled_of day r = str_eq r.day_id day && r.unsettled

abbrev named : Option String → Bool
named none = false
named (some s) = not (is_empty s)

-- What must be there before a participant is ready.
abbrev pub is_complete : Store → String → Day → Bool
is_complete s id d =
    not (any (candidate_of id) s.items)
    && (is_some d.opening_wallet_cash && (is_some d.purchase_total && named d.purchase_source_note))

abbrev pub set_ready : Bool → Participant → Participant
set_ready b p = record p { ready = b }

abbrev pub with_ready : Bool → String → String → Store → Store
with_ready b branch_day day s = record s {
  participants = map (change_if (takes_part branch_day day) (set_ready b)) s.participants;
}

unfoldable pub mark_ready : Store → String → String → Day → Result Problem Store
mark_ready s branch_day id d = do
  u ← require (not (any (unsettled_of id) s.receipts)) invalid
  w ← require (is_complete s id d) invalid
  ok (with_ready true branch_day id s)

abbrev entered : ℕ → ℕ → String → Day → Day
entered opening purchase source d = record d {
  opening_wallet_cash = some opening;
  purchase_total = some purchase;
  purchase_source_note = some source;
  lock_version = d.lock_version + 1;
}

unfoldable pub enter_daily : Store → String → String → Json → Result Problem Store
enter_daily s branch_day id b = do
  opening ← money (field "openingWalletCash" b)
  purchase ← money (field "purchaseTotal" b)
  source ← text_field (field "purchaseSourceNote" b) 1000
  ok (
      with_ready false branch_day id
        (record s { days = update_row id (entered opening purchase source) s.days }))

-- What a person confirmed of an expense.
pub record Expense : Type 0 where
  pub merchant : String
  pub category : String
  pub amount : ℕ
  pub payment_source : PaymentSource
  pub note : Option String

abbrev is_true : Json → Bool
is_true (bool b) = b
is_true _ = false

abbrev note_of : Json → Result Problem (Option String)
note_of v =
    let read = text_field v 1000 >>= (λ s. ok (some s)) in if truthy v then read else ok none

abbrev source_of : Json → Result Problem PaymentSource
source_of (str s) =
    if str_eq s "company_wallet"
    then ok company_wallet
    else if str_eq s "personal"
    then ok personal
    else err invalid
source_of _ = err invalid

unfoldable pub expense_of : Json → Result Problem Expense
unfolding truthy
expense_of b = do
  u ← require (is_true (field "humanConfirmed" b)) invalid
  amount ← money (field "amount" b)
  w ← require (ltb 0 amount) invalid
  merchant ← text_field (field "merchant" b) 200
  category ← text_field (field "category" b) 40
  note ← note_of (field "note" b)
  source ← source_of (field "paymentSource" b)
  ok (record {
    merchant = merchant;
    category = category;
    amount = amount;
    payment_source = source;
    note = note;
  })

abbrev corrected : Expense → Item → Item
corrected x i = record i {
  merchant = x.merchant;
  category = x.category;
  amount = x.amount;
  payment_source = x.payment_source;
  note = x.note;
  lock_version = i.lock_version + 1;
}

abbrev is_confirmed : ItemStatus → Bool
is_confirmed confirmed = true
is_confirmed _ = false

abbrev confirmed_of : String → Option Item → Result Problem Item
confirmed_of day none = err not_found
confirmed_of day (some i) =
    if str_eq i.day_id day && is_confirmed i.status then ok i else err not_found

unfoldable pub replace_item : Store → String → Expense → Json → Result Problem Store
unfolding id_field
replace_item s day x b = do
  id ← id_field (field "itemId" b)
  i ← confirmed_of day (get id s.items)
  version ← money (field "itemLockVersion" b)
  u ← require (i.lock_version == version) version_conflict
  ok (record s { items = update_row id (corrected x) s.items })

abbrev proxy_item : Call → String → Day → Expense → Item
proxy_item c id d x = record {
  day_id = id;
  spent_by = d.owner;
  merchant = x.merchant;
  category = x.category;
  amount = x.amount;
  payment_source = x.payment_source;
  entry_source = manual;
  note = x.note;
  status = confirmed;
  excluded_reason = none;
  confirmed_by = some c.context.membership_id;
  lock_version = 1;
}

unfoldable pub insert_item : Store → Call → String → Day → Expense → Result Problem Store
unfolding insert
insert_item s c id d x = do
  items ← insert c.new_id (proxy_item c id d x) s.items
  ok (record s { items = items })

abbrev correction_issue : Call → String → String → Issue
correction_issue c id reason = record {
  branch_day_id = id;
  kind = post_close_correction;
  is_open = true;
  amount = none;
  note = reason;
  assignee_id = c.context.membership_id;
  resolution_note = none;
}

-- The branch's days from this one on.
abbrev pub from_day : BranchDay → BranchDay → Bool
from_day day d = str_eq d.branch_id day.branch_id && not_after day.business_date d.business_date

abbrev pub flag_review : BranchDay → BranchDay
flag_review d = record d { review_required = true }

-- A correction of a closed day is an open matter, and the later days of the branch are to be reviewed.
unfoldable pub raise_correction : Store → Call → String → BranchDay → String → Result Problem Store
unfolding insert not_after
raise_correction s c id day reason = do
  issues ← insert c.issue_id (correction_issue c id reason) s.issues
  ok (record s {
    issues = issues;
    branch_days = update_rows (from_day day) flag_review s.branch_days;
  })

-- `entry` for the action `ready`.
unfoldable pub ready : Store → String → Json → Result Problem Store
unfolding participant mark_ready
ready s branch_day b = do
  r ← participant s branch_day (field "dayId" b)
  mark_ready s branch_day r.0 r.1

abbrev is_daily : Json → Bool
is_daily (str s) = str_eq s "daily"
is_daily _ = false

unfoldable pub enter_expense : Store → Call → String → String × Day → Json → Result Problem Store
unfolding expense_of insert_item
enter_expense s c branch_day r b = do
  x ← expense_of b
  t ← insert_item s c r.0 r.1 x
  ok (with_ready false branch_day r.0 t)

-- `entry` for the action `entry`.
unfoldable pub entry : Store → Call → String → Json → Result Problem Store
unfolding participant enter_daily enter_expense
entry s c branch_day b = do
  r ← participant s branch_day (field "dayId" b)
  if is_daily (field "entryType" b)
      then enter_daily s branch_day r.0 b
      else enter_expense s c branch_day r b

abbrev pub raised : Store → Call → String → BranchDay → String → Result Problem Store
raised s c id day reason =
    let issue = raise_correction s c id day reason in
    if is_open_status day.status then ok s else issue

abbrev pub corrected_store : Store → Call → String × Day → Expense → Json → Result Problem Store
corrected_store s c r x b =
    let replaced = replace_item s r.0 x b in
    let added = insert_item s c r.0 r.1 x in if truthy (field "itemId" b) then replaced else added

-- `entry` for the action `correct`.
unfoldable pub correct : Store → Call → String → BranchDay → Json → Result Problem Store
unfolding participant expense_of replace_item insert_item raise_correction truthy
correct s c branch_day day b = do
  r ← participant s branch_day (field "dayId" b)
  x ← expense_of b
  reason ← text_field (field "reason" b) 1000
  t ← corrected_store s c r x b
  raised (with_ready false branch_day r.0 t) c branch_day day reason
