-- ===== src/Cash/Closing.antt =====
-- Reconciling the vault of a branch and closing its day: policy, reconcile and close of
-- apps/api/src/expense-cash.ts. The hash of the snapshot is not modelled: the snapshot itself is kept.
use Prim.Native.String.{String}
use hanamaru_shientool_prod.Prelude.{
  ℕ, ◌+◌, ◌-◌, Bool, true, false, not, ◌&&◌, ◌||◌, Option, none, some, List, [], ◌∷◌, all, keep,
  length, ltb, ◌==◌, if◌then◌else◌, Result, ok, err,
}
use hanamaru_shientool_prod.Prelude.Integers.{ℤ, sub_ℕ, is_zero}
use hanamaru_shientool_prod.Prelude.Text.{str_eq}
use hanamaru_shientool_prod.Prelude.Maps.{get}
use hanamaru_shientool_prod.Prelude.Rows.{update_row}
use hanamaru_shientool_prod.Json.{Json, bool, field, safe_limit}
use hanamaru_shientool_prod.Expense.{
  Problem, invalid, denied, version_conflict, Day, Item, require, text_field, ◌>>=◌,
}
use hanamaru_shientool_prod.Cash.{
  Mode, external_reference, vault_ledger, Policy, DayStatus, closed_balanced, closed_difference,
  Basis, given, computed, Reconciliation, BranchDay, Participant, Transfer, Issue, cash_difference,
  Snapshot, Closure, Store, Call, id_field, money, authority, insert,
}
use hanamaru_shientool_prod.Cash.Transfers.{given_out, taken_back}

abbrev configured : Option Policy → Result Problem Policy
configured none = err denied
configured (some p) = ok p

-- `policy`.
unfoldable pub policy : Store → BranchDay → Result Problem Policy
policy s day = configured (get day.branch_id s.policies)

abbrev pub of_day : String → Transfer → Bool
of_day id t = str_eq t.branch_day_id id

-- `opening + inflow - outflow` less what was handed out and not taken back.
abbrev computed_cash : ℕ → ℕ → ℕ → ℕ → ℕ → Result Problem ℕ
computed_cash opening inflow outflow out back =
    let total = opening + inflow + back in
    let less = outflow + out in
    if ltb total less || not (ltb (total - less) safe_limit) then err invalid else ok (total - less)

unfoldable pub expected_of : Store → String → Mode → Json → Result Problem (ℕ × Basis)
expected_of s id external_reference b = do n ← money (field "expectedCash" b); ok (n, given n)
expected_of s id vault_ledger b = do
  opening ← money (field "openingVault" b)
  inflow ← money (field "externalInflow" b)
  outflow ← money (field "externalOutflow" b)
  n ←
      computed_cash opening inflow outflow (given_out (of_day id) s.transfers)
        (taken_back (of_day id) s.transfers)
  ok (
    n,
    computed opening inflow outflow
        (sub_ℕ (given_out (of_day id) s.transfers) (taken_back (of_day id) s.transfers)),
  )

abbrev pub reconciled : ℕ → ℕ → Reconciliation → BranchDay → BranchDay
reconciled expected actual input d = record d {
  expected_cash = some expected;
  actual_cash = some actual;
  reconciliation_input = some input;
  reconciliation_version = some (d.lock_version + 1);
}

-- `reconcile`.
unfoldable pub reconcile : Store → String → BranchDay → Json → Result Problem Store
unfolding policy expected_of
reconcile s id day b = do
  p ← policy s day
  actual ← money (field "actualCash" b)
  reference ← text_field (field "reference" b) 1000
  r ← expected_of s id p.reconciliation_mode b
  let input : Reconciliation = record { basis = r.1; reference = reference; policy = p }
  ok (record s { branch_days = update_row id (reconciled r.0 actual input) s.branch_days })

abbrev pub current : Option ℕ → ℕ → Bool
current none n = false
current (some m) n = m == n

abbrev pub both : Option ℕ → Option ℕ → Result Problem (ℕ × ℕ)
both none a = err version_conflict
both (some e) none = err version_conflict
both (some e) (some a) = ok (e, a)

-- The two amounts of a day that was reconciled at its present version.
unfoldable pub amounts_of : BranchDay → Result Problem (ℕ × ℕ)
amounts_of d =
    if current d.reconciliation_version d.lock_version
    then both d.expected_cash d.actual_cash
    else err version_conflict

abbrev same_mode : Mode → Mode → Bool
same_mode external_reference external_reference = true
same_mode vault_ledger vault_ledger = true
same_mode _ _ = false

abbrev pub same_policy : Policy → Option Reconciliation → Bool
same_policy p none = false
same_policy p (some r) =
    r.policy.version == p.version
    && (same_mode r.policy.reconciliation_mode p.reconciliation_mode
        && str_eq r.policy.policy_reference p.policy_reference)

abbrev pub participants_of : String → Store → List Participant
participants_of id s = keep (λ p. str_eq p.branch_day_id id) s.participants

abbrev pub all_ready : List Participant → Bool
all_ready ps = ltb 0 (length ps) && all (λ p. p.ready) ps

abbrev is_true : Json → Bool
is_true (bool b) = b
is_true _ = false

-- The note and the assignee of a day that closes with a difference, who must have authority there.
unfoldable pub difference_terms : Store → Call → BranchDay → Json → Result Problem (String × String)
unfolding id_field authority
difference_terms s c day b = do
  note ← text_field (field "note" b) 1000
  u ← require (is_true (field "acknowledgeDifference" b)) invalid
  assignee ← id_field (field "assigneeId" b)
  p ← authority s c assignee day.branch_id
  ok (note, assignee)

abbrev difference_issue : String → ℤ → String → String → Issue
difference_issue id difference note assignee = record {
  branch_day_id = id;
  kind = cash_difference;
  is_open = true;
  amount = some difference;
  note = note;
  assignee_id = assignee;
  resolution_note = none;
}

-- What is left to do of a difference: its note and assignee, and the store with the open matter.
unfoldable pub leave_difference :
    Store → Call → String → BranchDay → ℤ → Json → Result Problem (Store × (Option String × String))
unfolding difference_terms insert
leave_difference s c id day difference b = do
  r ← difference_terms s c day b
  issues ← insert c.issue_id (difference_issue id difference r.0 r.1) s.issues
  ok (record s { issues = issues }, (some r.0, r.1))

abbrev pub terms :
    Store → Call → String → BranchDay → ℤ → Json → Result Problem (Store × (Option String × String))
terms s c id day difference b =
    let left = leave_difference s c id day difference b in
    if is_zero difference then ok (s, (none, c.context.membership_id)) else left

abbrev records_of : Store → List Participant → List (String × (Day × List (String × Item)))
records_of s [] = []
records_of s (p ∷ ps) =
    let rest = records_of s ps in
    elim (get p.day_id s.days) [
      | none ↦ rest
      | some d ↦
          (p.day_id, (d, keep (λ (e : String × Item). str_eq e.1.day_id p.day_id) s.items)) ∷ rest
    ]

abbrev pub snapshot_of : Store → String → BranchDay → Option String → String → Snapshot
snapshot_of s id day note assignee = record {
  records = records_of s (participants_of id s);
  participants = participants_of id s;
  transfers = keep (λ (e : String × Transfer). of_day id e.1) s.transfers;
  reconciliation = day.reconciliation_input;
  note = note;
  assignee_id = assignee;
}

abbrev pub closed_status : ℤ → DayStatus
closed_status difference = if is_zero difference then closed_balanced else closed_difference

abbrev pub closed_day : ℤ → BranchDay → BranchDay
closed_day difference d = record d { status = closed_status difference }

abbrev pub closure_of : Call → ℕ × ℕ → Snapshot → Closure
closure_of c r snapshot = record {
  expected_cash = r.0;
  actual_cash = r.1;
  difference = sub_ℕ r.1 r.0;
  snapshot = snapshot;
  closed_by = c.context.membership_id;
}

-- `close`.
unfoldable pub close : Store → Call → String → BranchDay → Json → Result Problem Store
unfolding amounts_of policy leave_difference insert
close s c id day b = do
  r ← amounts_of day
  p ← policy s day
  u ← require (same_policy p day.reconciliation_input) version_conflict
  v ← require (all_ready (participants_of id s)) invalid
  t ← terms s c id day (sub_ℕ r.1 r.0) b
  closures ← insert id (closure_of c r (snapshot_of s id day t.1.0 t.1.1)) s.closures
  ok (record t.0 {
    closures = closures;
    branch_days = update_row id (closed_day (sub_ℕ r.1 r.0)) t.0.branch_days;
  })
