-- ===== src/Expense/Items.antt =====
-- The operations on the items of a day: addItem, updateCandidate, confirmItem and excludeCandidate of
-- apps/api/src/expense.ts. The identifier that the database gives to a new item is an argument.
pub mod Changes
pub mod Final
pub mod Repeats
pub mod Versions
use Prim.Native.String.{String}
use hanamaru_shientool_prod.Prelude.{
  ℕ, ◌+◌, Bool, true, false, not, ◌&&◌, ◌||◌, Option, none, some, List, [], ◌∷◌, ◌==◌,
  if◌then◌else◌, Result, ok, err,
}
use hanamaru_shientool_prod.Prelude.Text.{str_eq}
use hanamaru_shientool_prod.Prelude.Maps.{get, put}
use hanamaru_shientool_prod.Json.{Json, undefined, null, str}
use hanamaru_shientool_prod.Expense.{
  Problem, invalid, denied, not_found, version_conflict, database_error, Context, Day, Item,
  ItemStatus, candidate, confirmed, excluded, PaymentSource, company_wallet, personal, EntrySource,
  manual, synthetic_ocr, Store, text_field, amount_field, optional_text, is_uuid, own_day, require,
  ◌>>=◌,
}

unfoldable pub payment_source_of : Json → Result Problem PaymentSource
payment_source_of (str s) =
    if str_eq s "company_wallet"
    then ok company_wallet
    else if str_eq s "personal"
    then ok personal
    else err invalid
payment_source_of _ = err invalid

-- `b.entrySource ?? "manual"`, refused in production if it is `synthetic_ocr`.
unfoldable pub entry_source_of : Json → Bool → Result Problem EntrySource
entry_source_of undefined production = ok manual
entry_source_of null production = ok manual
entry_source_of (str s) production =
    if str_eq s "manual"
    then ok manual
    else if str_eq s "synthetic_ocr"
    then (if production then err denied else ok synthetic_ocr)
    else err invalid
entry_source_of _ production = err invalid

pub record ItemInput : Type 0 where
  pub merchant : Json
  pub category : Json
  pub amount : Json
  pub payment_source : Json
  pub entry_source : Json
  pub note : Json

abbrev pub is_candidate : ItemStatus → Bool
is_candidate candidate = true
is_candidate _ = false

-- The WHERE clause of an update of a candidate.
abbrev pub matches : Item → String → ℕ → Bool
matches i day_id expected =
    str_eq i.day_id day_id && (i.lock_version == expected && is_candidate i.status)

abbrev pub changed :
    Store → String → Option Item → String → ℕ → (Item → Item) → Result Problem Store
changed s id none day_id expected f = err version_conflict
changed s id (some i) day_id expected f =
    if matches i day_id expected
    then ok (record s { items = put id (f i) s.items })
    else err version_conflict

-- What the three operations on a candidate share.
unfoldable pub change_candidate :
    Store → Context → String → String → ℕ → (Item → Item) → Result Problem Store
change_candidate s ctx day_id item_id expected f = own_day s ctx day_id not_found >>= (λ r.
    require (is_uuid item_id) not_found
    >>= (λ u. changed r.0 item_id (get item_id r.0.items) day_id expected f))

abbrev pub confirmed_item : Context → Item → Item
confirmed_item ctx i = record i {
  status = confirmed;
  confirmed_by = some ctx.membership_id;
  lock_version = i.lock_version + 1;
}

abbrev pub excluded_item : String → Item → Item
excluded_item reason i = record i {
  status = excluded;
  excluded_reason = some reason;
  lock_version = i.lock_version + 1;
}

abbrev pub updated_item : String → String → ℕ → PaymentSource → Option String → Item → Item
updated_item merchant category amount source note i = record i {
  merchant = merchant;
  category = category;
  amount = amount;
  payment_source = source;
  note = note;
  lock_version = i.lock_version + 1;
}

-- The INSERT of an item under the identifier that the database gives it, which must be new.
abbrev pub inserted : Store → String → Option Item → Item → Result Problem Store
inserted s new_id (some old) i = err database_error
inserted s new_id none i = ok (record s { items = put new_id i s.items })

abbrev pub new_item :
    String → Context → String → String → ℕ → PaymentSource → EntrySource → Option String → Item
new_item id ctx merchant category amount source entry note = record {
  day_id = id;
  spent_by = ctx.membership_id;
  merchant = merchant;
  category = category;
  amount = amount;
  payment_source = source;
  entry_source = entry;
  note = note;
  status = candidate;
  excluded_reason = none;
  confirmed_by = none;
  lock_version = 1;
}

-- `addItem`.
unfoldable pub add_item :
    Bool → String → Store → Context → String → ItemInput → Result Problem Store
add_item production new_id s ctx id b = text_field b.merchant 200 >>= (λ merchant.
    text_field b.category 40 >>= (λ category. amount_field b.amount false >>= (λ amount.
      payment_source_of b.payment_source >>= (λ source.
        entry_source_of b.entry_source production >>= (λ entry.
          optional_text b.note 1000 >>= (λ note. own_day s ctx id denied >>= (λ r.
            inserted r.0 new_id (get new_id r.0.items)
              (new_item id ctx merchant category amount source entry note))))))))

-- `confirmItem`.
unfoldable pub confirm_item : Store → Context → String → String → Json → Result Problem Store
unfolding change_candidate
confirm_item s ctx id item_id version =
    amount_field version false
    >>= (λ expected. change_candidate s ctx id item_id expected (confirmed_item ctx))

-- `updateCandidate`.
unfoldable pub update_candidate :
    Store → Context → String → String → Json → ItemInput → Result Problem Store
unfolding change_candidate
update_candidate s ctx id item_id version b = amount_field version false >>= (λ expected.
    text_field b.merchant 200 >>= (λ merchant. text_field b.category 40 >>= (λ category.
      amount_field b.amount false >>= (λ amount. payment_source_of b.payment_source >>= (λ source.
        optional_text b.note 1000 >>= (λ note.
          change_candidate s ctx id item_id expected
            (updated_item merchant category amount source note)))))))

-- `excludeCandidate`.
unfoldable pub exclude_candidate :
    Store → Context → String → String → Json → Json → Result Problem Store
unfolding change_candidate
exclude_candidate s ctx id item_id version reason_value =
    amount_field version false >>= (λ expected.
      text_field reason_value 1000
      >>= (λ reason. change_candidate s ctx id item_id expected (excluded_item reason)))
