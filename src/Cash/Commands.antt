-- ===== src/Cash/Commands.antt =====
-- The commands on a branch day: actionAuthority and command of apps/api/src/expense-cash.ts.
-- `command` is the body of its write transaction; the read transaction before it makes the same two
-- checks, and the idempotency of `write` is not modelled.
pub mod Effects
pub mod Days
pub mod Closed
pub mod Money
pub mod Authorised
pub mod Final
pub mod Stale
pub mod Runs
pub mod Once
mod Examples
use Prim.Native.String.{String}
use hanamaru_shientool_prod.Prelude.{
  ℕ, ◌+◌, Bool, true, false, not, ◌&&◌, ◌||◌, Option, none, some, List, ◌∷◌, ◌==◌, if◌then◌else◌,
  Result, ok, err, any,
}
use hanamaru_shientool_prod.Prelude.Integers.{ℤ}
use hanamaru_shientool_prod.Prelude.Text.{str_eq}
use hanamaru_shientool_prod.Prelude.Maps.{get}
use hanamaru_shientool_prod.Prelude.Rows.{update_row}
use hanamaru_shientool_prod.Json.{Json, field}
use hanamaru_shientool_prod.Expense.{
  Problem, invalid, denied, not_found, version_conflict, require, text_field, ◌>>=◌,
}
use hanamaru_shientool_prod.Cash.{
  Rank, officer, delegate, Permission, BranchDay, Issue, IssueKind, cash_difference,
  post_close_correction, Store, Call, id_field, money, time_field, check_enabled, load,
  record_event, is_open_status,
}
use hanamaru_shientool_prod.Cash.Roster.{roster}
use hanamaru_shientool_prod.Cash.Entry.{entry, ready, correct}
use hanamaru_shientool_prod.Cash.Transfers.{transfer}
use hanamaru_shientool_prod.Cash.Closing.{reconcile, close}

pub data Action : Type 0 where
  to_roster to_entry to_ready to_transfer to_reverse_transfer to_reconcile to_close : Action
  to_correct to_report to_resolve : Action

-- The names in `expenseCashActions`.
abbrev pub name_of : Action → String
name_of to_roster = "roster"
name_of to_entry = "entry"
name_of to_ready = "ready"
name_of to_transfer = "transfer"
name_of to_reverse_transfer = "reverse-transfer"
name_of to_reconcile = "reconcile"
name_of to_close = "close"
name_of to_correct = "correct"
name_of to_report = "report"
name_of to_resolve = "resolve"

abbrev pub for_officers : Action → Bool
for_officers to_correct = true
for_officers to_resolve = true
for_officers to_reverse_transfer = true
for_officers _ = false

abbrev pub for_closers : Action → Bool
for_closers to_close = true
for_closers to_reconcile = true
for_closers _ = false

-- What is still done after the closing.
abbrev pub after_closing : Action → Bool
after_closing to_correct = true
after_closing to_report = true
after_closing to_resolve = true
after_closing _ = false

-- What leaves a reconciliation standing.
abbrev pub keeps_reconciliation : Action → Bool
keeps_reconciliation to_reconcile = true
keeps_reconciliation to_close = true
keeps_reconciliation to_report = true
keeps_reconciliation to_resolve = true
keeps_reconciliation _ = false

abbrev pub carries_over : Action → Bool
carries_over to_report = true
carries_over to_resolve = true
carries_over _ = false

abbrev pub is_officer : Rank → Bool
is_officer officer = true
is_officer delegate = false

-- `actionAuthority`.
abbrev pub may : Permission → Action → Bool
may p a =
    not (for_officers a && not (is_officer p.authority)) && not (for_closers a && not p.can_close)

abbrev noted : String → BranchDay → BranchDay
noted note d = record d { roster_note = note }

unfoldable pub set_roster : Store → Call → String → BranchDay → Json → Result Problem Store
unfolding roster
set_roster s c id day b = do
  t ← roster s c id day.branch_id day.business_date (field "memberIds" b)
  note ← text_field (field "rosterNote" b) 1000
  ok (record t { branch_days = update_row id (noted note) t.branch_days })

unfoldable pub report : Store → Call → Json → Result Problem Store
unfolding time_field
report s c b = do
  at ← time_field c (field "reportedAt" b)
  note ← text_field (field "note" b) 1000
  ok s

abbrev open_issue : String → Option Issue → Result Problem Issue
open_issue id none = err version_conflict
open_issue id (some i) =
    if str_eq i.branch_day_id id && i.is_open then ok i else err version_conflict

abbrev is_difference : IssueKind → Bool
is_difference cash_difference = true
is_difference post_close_correction = false

abbrev resolved : String → Issue → Issue
resolved note i = record i { is_open = false; resolution_note = some note }

unfoldable pub resolve : Store → String → Json → Result Problem Store
unfolding id_field
resolve s id b = do
  k ← id_field (field "issueId" b)
  note ← text_field (field "note" b) 1000
  i ← open_issue id (get k s.issues)
  u ← require (is_difference i.kind) denied
  ok (record s { issues = update_row k (resolved note) s.issues })

unfoldable pub perform : Action → Store → Call → String → BranchDay → Json → Result Problem Store
unfolding set_roster entry ready correct transfer reconcile close report resolve
perform to_roster s c id day b = set_roster s c id day b
perform to_entry s c id day b = entry s c id b
perform to_ready s c id day b = ready s id b
perform to_transfer s c id day b = transfer s c id day false b
perform to_reverse_transfer s c id day b = transfer s c id day true b
perform to_reconcile s c id day b = reconcile s id day b
perform to_close s c id day b = close s c id day b
perform to_correct s c id day b = correct s c id day b
perform to_report s c id day b = report s c b
perform to_resolve s c id day b = resolve s id b

-- The version that the reconciliation stands for after the command. A report or a resolution takes the
-- one along that stood for the day as it was before.
abbrev pub kept_version : Action → BranchDay → BranchDay → Option ℕ
kept_version a before d =
    if carries_over a && stood before.reconciliation_version
    then some (d.lock_version + 1)
    else if keeps_reconciliation a
    then d.reconciliation_version
    else none
  where
    stood : Option ℕ → Bool
    stood none = false
    stood (some n) = n == before.lock_version

abbrev pub next_version : Action → BranchDay → BranchDay → BranchDay
next_version a before d = record d {
  lock_version = d.lock_version + 1;
  reconciliation_version = kept_version a before d;
}

abbrev pub finished : Action → Call → String → BranchDay → Store → Store
finished a c id before s =
    record_event c id (name_of a)
      (record s { branch_days = update_row id (next_version a before) s.branch_days })

-- `command`.
unfoldable pub command : Action → Store → Call → String → Json → Result Problem Store
unfolding load perform
command a s c id b = do
  r ← load s c id
  u ← require (may r.1 a) denied
  n ← money (field "expectedLockVersion" b)
  v ← require (n == r.0.lock_version) version_conflict
  w ← require (is_open_status r.0.status || after_closing a) denied
  t ← perform a s c id r.0 b
  ok (finished a c id r.0 t)
