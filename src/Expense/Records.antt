-- ===== src/Expense/Records.antt =====
-- createDay, updateDay and the access of getDay: apps/api/src/expense.ts. The identifier of a new day is
-- an argument; `is_date` is what `date` checks of a text.
use Prim.Native.String.{String}
use hanamaru_shientool_prod.Prelude.{
  ℕ, ◌+◌, Bool, true, false, not, ◌&&◌, Option, none, some, ◌==◌, any, find, if◌then◌else◌, Result,
  ok, err,
}
use hanamaru_shientool_prod.Prelude.Text.{str_eq}
use hanamaru_shientool_prod.Prelude.Maps.{get, put}
use hanamaru_shientool_prod.Json.{Json, undefined, null, str}
use hanamaru_shientool_prod.Expense.{
  Problem, invalid, denied, version_conflict, Context, Scope, Day, Store, has, require,
  amount_field, optional_text, check_enabled, own_day, branch_key, is_closed, ◌>>=◌,
}

-- `date`.
unfoldable pub date_field : (String → Bool) → Json → Result Problem String
date_field is_date (str s) = if is_date s then ok s else err invalid
date_field is_date _ = err invalid

abbrev pub has_self : Context → Bool
has_self ctx =
    any
      (λ (s : Scope).
        str_eq s.scope_type "self"
        && (str_eq s.scope_id ctx.membership_id && has s.capabilities "visit:self"))
      ctx.scopes

abbrev same_day : String → String → String × Day → Bool
same_day owner date entry = str_eq entry.1.owner owner && str_eq entry.1.business_date date

abbrev fresh : Context → String → Day
fresh ctx date = record {
  owner = ctx.membership_id;
  branch_id = ctx.branch_id;
  business_date = date;
  opening_wallet_cash = none;
  purchase_total = none;
  purchase_source_note = none;
  lock_version = 1;
}

-- The INSERT, which returns the present day of the owner and the date if there is one.
abbrev pub placed : Store → Context → String → String → Option (String × Day) → Store × String
placed s ctx new_id date (some (id, day)) = (s, id)
placed s ctx new_id date none = (record s { days = put new_id (fresh ctx date) s.days }, new_id)

-- `createDay`.
unfoldable pub create_day :
    (String → Bool) → String → Store → Context → Json → Result Problem (Store × String)
unfolding date_field check_enabled
create_day is_date new_id s ctx value = date_field is_date value >>= (λ date.
    check_enabled s >>= (λ u.
      require (not (has ctx.roles "system_admin") && has_self ctx) denied >>= (λ v.
        require (not (is_closed (get (branch_key (fresh ctx date)) s.branch_days))) denied
        >>= (λ x. ok (placed s ctx new_id date (find (same_day ctx.membership_id date) s.days))))))

-- A field of an update: left alone, cleared or set.
pub data Change (A : Type 0) : Type 0 where
  leave : Change A
  set : Option A → Change A

unfoldable pub amount_change : Json → Result Problem (Change ℕ)
amount_change undefined = ok leave
amount_change null = ok (set none)
amount_change v = amount_field v true >>= (λ n. ok (set (some n)))

unfoldable pub note_change : Json → Result Problem (Change String)
note_change undefined = ok leave
note_change v = optional_text v 1000 >>= (λ o. ok (set o))

abbrev pub applied : {A : Type 0} → Change A → Option A → Option A
applied leave old = old
applied (set new) old = new

abbrev is_leave : {A : Type 0} → Change A → Bool
is_leave leave = true
is_leave (set new) = false

abbrev pub changed_day : Day → Change ℕ → Change ℕ → Change String → Day
changed_day d opening purchase note = record d {
  opening_wallet_cash = applied opening d.opening_wallet_cash;
  purchase_total = applied purchase d.purchase_total;
  purchase_source_note = applied note d.purchase_source_note;
  lock_version = d.lock_version + 1;
}

-- `updateDay`.
unfoldable pub update_day :
    Store → Context → String → Json → Json → Json → Json → Result Problem Store
unfolding amount_change note_change
update_day s ctx id version opening_value purchase_value note_value =
    amount_field version false >>= (λ expected. amount_change opening_value >>= (λ opening.
      amount_change purchase_value >>= (λ purchase. note_change note_value >>= (λ note.
        require (not (is_leave opening && (is_leave purchase && is_leave note))) invalid >>= (λ u.
          own_day s ctx id denied >>= (λ r.
            require (r.1.lock_version == expected) version_conflict >>= (λ v.
              ok (record r.0 {
                days = put id (changed_day r.1 opening purchase note) r.0.days;
              }))))))))
