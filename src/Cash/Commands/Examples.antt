-- ===== src/Cash/Commands/Examples.antt =====
-- Runs of the commands on a branch day.
use Prim.Native.String.{String}
use hanamaru_shientool_prod.Prelude.{
  ℕ, true, false, none, some, List, [], ◌∷◌, ok, ◌≡◌, ◌≢◌, refl, arith,
}
use hanamaru_shientool_prod.Prelude.Integers.{pos}
use hanamaru_shientool_prod.Prelude.Text.{trim, trim_start, trim_end, is_space, not_after}
use hanamaru_shientool_prod.Prelude.Maps.{get, put}
use hanamaru_shientool_prod.Prelude.Rows.{update_row}
use hanamaru_shientool_prod.Json.{Json, str, num, nat, obj, end, member}
use hanamaru_shientool_prod.Expense.{Day, text_field, amount_field, is_uuid}
use hanamaru_shientool_prod.Cash.{
  officer, Permission, vault_ledger, Policy, still_open, closed_balanced, computed, Closure,
  BranchDay, Unreplenished, Store, Call, load, check_enabled, authority, id_field, time_field,
  participant, insert, truthy,
}
use hanamaru_shientool_prod.Cash.Transfers.{transfer, reversal_of, settle, add_transfer}
use hanamaru_shientool_prod.Cash.Transfers.Sums.{Balanced}
use hanamaru_shientool_prod.Cash.Closing.{close, closure_of, snapshot_of}
use hanamaru_shientool_prod.Cash.Commands.{
  Action, to_transfer, to_ready, to_reconcile, to_close, perform, command,
}
use hanamaru_shientool_prod.Cash.Commands.Runs.{Request, run}
use hanamaru_shientool_prod.Cash.Commands.Authorised.{Permitted, command-Permitted}
use hanamaru_shientool_prod.Cash.Commands.Closed.{Closed, close-Closed, close_balanced}
use hanamaru_shientool_prod.Cash.Commands.Final.{Settled, run-Settled, run-Balanced}
use hanamaru_shientool_prod.Cash.Commands.Once.{command_once}
use hanamaru_shientool_prod.Cash.Commands.Stale.{close_unreconciled}

abbrev branch_day : String
branch_day = "00000000-0000-4000-8000-0000000000b1"

abbrev day_id : String
day_id = "00000000-0000-4000-8000-0000000000d1"

abbrev chief : String
chief = "00000000-0000-4000-8000-0000000000a1"

abbrev owed_id : String
owed_id = "00000000-0000-4000-8000-0000000000f1"

abbrev permission : Permission
permission = record {
  branch_id = "b";
  membership_id = chief;
  authority = officer;
  can_close = true;
  active = true;
  valid_from = 0;
  valid_until = none;
}

abbrev day : Day
day = record {
  owner = "m";
  branch_id = "b";
  business_date = "2026-09-01";
  opening_wallet_cash = some 5000;
  purchase_total = some 0;
  purchase_source_note = some "ledger";
  lock_version = 1;
}

abbrev opened : BranchDay
opened = record {
  branch_id = "b";
  business_date = "2026-09-01";
  roster_note = "everybody";
  status = still_open;
  expected_cash = none;
  actual_cash = none;
  reconciliation_input = none;
  reconciliation_version = none;
  lock_version = 1;
  review_required = false;
}

abbrev owed : Unreplenished
owed = record { day_id = day_id; amount = 700; resolved = false; lock_version = 1 }

abbrev store : Store
store = record {
  enabled = true;
  members = [];
  permissions = permission ∷ [];
  policies =
      ("b", record { reconciliation_mode = vault_ledger; policy_reference = "p"; version = 1 })
      ∷ [];
  days = (day_id, day) ∷ [];
  items = [];
  receipts = [];
  unreplenished = (owed_id, owed) ∷ [];
  branch_days = (branch_day, opened) ∷ [];
  participants = record { branch_day_id = branch_day; day_id = day_id; ready = false } ∷ [];
  transfers = [];
  issues = [];
  closures = [];
  events = [];
}

abbrev caller : Call
caller = record {
  context = record {
    organization_id = "org";
    membership_id = chief;
    branch_id = "b";
    roles = [];
    scopes = [];
  };
  now = 100;
  instant = λ s. some 50;
  tokyo_date = λ t. "2026-09-01";
  is_date = λ s. true;
  new_id = "00000000-0000-4000-8000-0000000000e1";
  issue_id = "00000000-0000-4000-8000-0000000000e2";
  new_day = λ m. m;
}

abbrev number : ℕ → Json
number n = num (nat n)

abbrev transfer_body : Json
transfer_body = obj (
    member "expectedLockVersion" (number 1) (
      member "dayId" (str day_id) (
        member "amount" (number 700) (
          member "occurredAt" (str "2026-09-01T10:00:00+09:00") (
            member "performedBy" (str chief)
              (member "reason" (str "short") (member "unreplenishedId" (str owed_id) end)))))))

abbrev ready_body : ℕ → Json
ready_body n = obj (member "expectedLockVersion" (number n) (member "dayId" (str day_id) end))

abbrev reconcile_body : ℕ → Json
reconcile_body n = obj (
    member "expectedLockVersion" (number n) (
      member "openingVault" (number 10000) (
        member "externalInflow" (number 0) (
          member "externalOutflow" (number 0)
            (member "actualCash" (number 9300) (member "reference" (str "count") end))))))

abbrev close_body : ℕ → Json
close_body n = obj (member "expectedLockVersion" (number n) end)

abbrev request : Action → Json → Request
request a b = record { action = a; caller = caller; id = branch_day; body = b }

abbrev whole_day : List Request
whole_day =
    request to_transfer transfer_body
    ∷ (request to_ready (ready_body 2)
        ∷ (request to_reconcile (reconcile_body 3) ∷ (request to_close (close_body 4) ∷ [])))

store-Balanced : Balanced store
unfolding get
store-Balanced k f g = record {
  covered = ground (arith, g);
  within = ground (arith, g);
  exact = λ e. ground (arith, g, e);
  short = λ e h. ground (arith, g, e);
}

run-Balanced_example : Balanced (run whole_day store)
run-Balanced_example = run-Balanced whole_day store store-Balanced

abbrev settled_day : BranchDay
settled_day = record opened {
  status = closed_balanced;
  expected_cash = some 9300;
  actual_cash = some 9300;
  reconciliation_version = some 4;
  lock_version = 5;
}

abbrev settled_store : Store
settled_store = record store { branch_days = (branch_day, settled_day) ∷ [] }

run-Settled_example : Settled branch_day settled_store settled_day (run whole_day settled_store)
unfolding get
run-Settled_example = run-Settled whole_day settled_store branch_day settled_day refl refl

-- The store after the transfer of the whole day.
abbrev handed_out : Store
handed_out = record store {
  unreplenished = (owed_id, record owed { resolved = true; lock_version = 2 }) ∷ [];
  branch_days = (branch_day, record opened { lock_version = 2 }) ∷ [];
  transfers =
      (
        caller.new_id,
        record {
          branch_day_id = branch_day;
          day_id = day_id;
          amount = 700;
          performed_by = chief;
          recorded_by = chief;
          occurred_at = "2026-09-01T10:00:00+09:00";
          unreplenished_id = some owed_id;
          reverses_id = none;
          reason = "short";
        },
      )
      ∷ [];
  events = record { branch_day_id = branch_day; action = "transfer"; actor_id = chief } ∷ [];
}

first_command : command to_transfer store caller branch_day transfer_body ≡ ok handed_out
unfolding command load authority check_enabled id_field is_uuid time_field participant insert truthy
    transfer perform reversal_of settle add_transfer not_after text_field amount_field trim
    trim_start trim_end is_space get put update_row
first_command = refl

command_once_example :
    command to_ready (run [] handed_out) caller branch_day (ready_body 1) ≢ ok store
unfolding amount_field
command_once_example =
    command_once to_transfer to_ready store handed_out store caller caller branch_day transfer_body
      (ready_body 1) [] first_command refl

close_unreconciled_example :
    command to_close (run [] handed_out) caller branch_day (close_body 2) ≢ ok store
close_unreconciled_example =
    close_unreconciled to_transfer store handed_out store caller caller branch_day transfer_body
      (close_body 2) [] first_command refl tt

command-Permitted_example : Permitted to_transfer store caller branch_day transfer_body
command-Permitted_example =
    command-Permitted to_transfer store handed_out caller branch_day transfer_body first_command

abbrev plan : Policy
plan = record { reconciliation_mode = vault_ledger; policy_reference = "p"; version = 1 }

abbrev counted_day : BranchDay
counted_day = record opened {
  expected_cash = some 9300;
  actual_cash = some 9300;
  reconciliation_input =
      some (record { basis = computed 10000 0 0 (pos 700); reference = "count"; policy = plan });
  reconciliation_version = some 4;
  lock_version = 4;
}

abbrev counted_store : Store
counted_store = record handed_out {
  branch_days = (branch_day, counted_day) ∷ [];
  participants = record { branch_day_id = branch_day; day_id = day_id; ready = true } ∷ [];
}

abbrev balanced_closure : Closure
balanced_closure =
    closure_of caller (9300, 9300) (snapshot_of counted_store branch_day counted_day none chief)

close_balanced_example :
    close counted_store caller branch_day counted_day (close_body 4)
    ≡ ok (record counted_store {
      closures = put branch_day balanced_closure [];
      branch_days =
          update_row branch_day
            (λ d. record d { status = closed_balanced })
            counted_store.branch_days;
    })
unfolding get
close_balanced_example =
    close_balanced counted_store caller branch_day counted_day (close_body 4) 9300 plan refl refl
      refl refl refl refl refl

close-Closed_example : Closed counted_store caller branch_day counted_day (record counted_store {
  closures = put branch_day balanced_closure [];
  branch_days =
      update_row branch_day (λ d. record d { status = closed_balanced }) counted_store.branch_days;
})
close-Closed_example =
    close-Closed counted_store caller branch_day counted_day (close_body 4) _ close_balanced_example
