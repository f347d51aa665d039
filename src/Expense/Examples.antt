-- ===== src/Expense/Examples.antt =====
-- Runs of the operations on expense items.
use Prim.Native.String.{String}
use hanamaru_shientool_prod.Prelude.{true, none, List, [], ◌∷◌, ok, err, ◌≡◌, ◌≢◌, refl}
use hanamaru_shientool_prod.Prelude.Text.{trim, trim_start, trim_end, is_space}
use hanamaru_shientool_prod.Prelude.Maps.{get, put}
use hanamaru_shientool_prod.Json.{Json, undefined, str, num, nat}
use hanamaru_shientool_prod.Expense.{
  version_conflict, Context, Day, Item, Store, candidate, company_wallet, manual, text_field,
  amount_field, optional_text, is_uuid, access, check_enabled, personal_mutation, own_day,
}
use hanamaru_shientool_prod.Expense.Items.{
  ItemInput, change_candidate, updated_item, update_candidate, payment_source_of,
}
use hanamaru_shientool_prod.Expense.Items.Final.{Operation, confirm, exclude, run, Keeps, run-Keeps}
use hanamaru_shientool_prod.Expense.Items.Versions.{update_once}

abbrev day_id : String
day_id = "00000000-0000-4000-8000-000000000001"

abbrev item_id : String
item_id = "00000000-0000-4000-8000-000000000002"

abbrev owner : Context
owner = record {
  organization_id = "org";
  membership_id = "m";
  branch_id = "b";
  roles = [];
  scopes = record { scope_type = "self"; scope_id = "m"; capabilities = "visit:self" ∷ [] } ∷ [];
}

abbrev item : Item
item = record {
  day_id = day_id;
  spent_by = "m";
  merchant = "shop";
  category = "tools";
  amount = 1200;
  payment_source = company_wallet;
  entry_source = manual;
  note = none;
  status = candidate;
  excluded_reason = none;
  confirmed_by = none;
  lock_version = 1;
}

abbrev day : Day
day = record {
  owner = "m";
  branch_id = "b";
  business_date = "2026-09-01";
  opening_wallet_cash = none;
  purchase_total = none;
  purchase_source_note = none;
  lock_version = 1;
}

abbrev store : Store
store = record {
  enabled = true;
  days = (day_id, day) ∷ [];
  items = (item_id, item) ∷ [];
  branch_days = [];
  ready = [];
}

abbrev one : Json
one = num (nat 1)

abbrev input : ItemInput
input = record {
  merchant = str "shop";
  category = str "tools";
  amount = num (nat 1500);
  payment_source = str "company_wallet";
  entry_source = undefined;
  note = undefined;
}

abbrev operations : List Operation
operations =
    confirm owner day_id item_id one ∷ (exclude owner day_id item_id one (str "twice") ∷ [])

run-Keeps_example : Keeps store (run operations store)
run-Keeps_example = run-Keeps operations store

abbrev after : Store
after = record store {
  items = (item_id, updated_item "shop" "tools" 1500 company_wallet none item) ∷ [];
}

update_once_example :
    (update_candidate after owner day_id item_id one input ≢ ok after)
    × (update_candidate after owner day_id item_id one input ≡ err version_conflict)
unfolding update_candidate change_candidate own_day check_enabled is_uuid access personal_mutation
    amount_field text_field trim trim_start trim_end is_space optional_text payment_source_of get
    put
update_once_example =
    update_once store after after owner owner day_id day_id item_id one input input refl
