-- ===== src/Expense/Followups/Examples.antt =====
-- A correction that is proposed for an item of the day.
use Prim.Native.String.{String}
use hanamaru_shientool_prod.Prelude.{true, none, some, [], ◌∷◌, ok, ◌≡◌, refl}
use hanamaru_shientool_prod.Prelude.Maps.{get}
use hanamaru_shientool_prod.Prelude.Text.{trim, trim_start, trim_end, is_space}
use hanamaru_shientool_prod.Json.{undefined, str, num, nat}
use hanamaru_shientool_prod.Expense.{
  text_field, amount_field, is_uuid, access, check_enabled, Context, Item, Store, candidate,
  company_wallet, manual,
}
use hanamaru_shientool_prod.Expense.Followups.{add_followup, Followup, Input, correction_proposal}

abbrev day_id : String
day_id = "00000000-0000-4000-8000-000000000001"

abbrev item_id : String
item_id = "00000000-0000-4000-8000-000000000002"

abbrev owner : Context
owner = record {
  organization_id = "org";
  membership_id = "m";
  branch_id = "b";
  roles = [];
  scopes = record { scope_type = "self"; scope_id = "m"; capabilities = "visit:self" ∷ [] } ∷ [];
}

abbrev item : Item
item = record {
  day_id = day_id;
  spent_by = "m";
  merchant = "shop";
  category = "tools";
  amount = 1200;
  payment_source = company_wallet;
  entry_source = manual;
  note = none;
  status = candidate;
  excluded_reason = none;
  confirmed_by = none;
  lock_version = 4;
}

abbrev store : Store
store = record {
  enabled = true;
  days =
      (
        day_id,
        record {
          owner = "m";
          branch_id = "b";
          business_date = "2026-09-01";
          opening_wallet_cash = none;
          purchase_total = none;
          purchase_source_note = none;
          lock_version = 1;
        },
      )
      ∷ [];
  items = (item_id, item) ∷ [];
  branch_days = [];
  ready = [];
}

abbrev input : Input
input = record {
  kind = str "correction_proposal";
  reason = str "typo";
  amount = undefined;
  reported_at = undefined;
  target_item_id = str item_id;
  proposed_amount = num (nat 1300);
}

abbrev proposal : Followup
proposal = record {
  day_id = day_id;
  kind = correction_proposal;
  amount = none;
  reason = "typo";
  target_item_id = some item_id;
  proposed_before = some (1200, 4);
  proposed_after = some 1300;
  recorded_by = "m";
  reported_at = none;
}

proposed : add_followup some store owner day_id input ≡ ok proposal
unfolding add_followup text_field amount_field is_uuid access check_enabled get trim trim_start
    trim_end is_space
proposed = refl
