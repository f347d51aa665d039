-- ===== src/Expense/Followups.antt =====
-- The follow-ups of a day: addFollowup of apps/api/src/expense.ts. `reported` is what `reportedAt` makes
-- of a text that is there: the instant as a text, or nothing if it is no instant or in the future. A
-- kind or a target that is an array of one text, which `String` makes that text, is not modelled.
pub mod Recorded
mod Examples
use Prim.Native.String.{String}
use hanamaru_shientool_prod.Prelude.{
  ℕ, Bool, true, false, not, ◌&&◌, ◌||◌, Option, none, some, List, [], ◌∷◌, is_some, if◌then◌else◌,
  Result, ok, err,
}
use hanamaru_shientool_prod.Prelude.Text.{str_eq, is_empty}
use hanamaru_shientool_prod.Prelude.Maps.{get}
use hanamaru_shientool_prod.Json.{Json, undefined, null, str}
use hanamaru_shientool_prod.Expense.{
  Problem, invalid, denied, not_found, Context, Day, Item, Store, require, or_missing, text_field,
  amount_field, is_uuid, access, check_enabled, ◌>>=◌,
}

pub data Kind : Type 0 where
  funding_request unreplenished vault_discrepancy report correction_proposal : Kind

pub record Followup : Type 0 where
  pub day_id : String
  pub kind : Kind
  pub amount : Option ℕ
  pub reason : String
  pub target_item_id : Option String
  pub proposed_before : Option (ℕ × ℕ)
  pub proposed_after : Option ℕ
  pub recorded_by : String
  pub reported_at : Option String

pub record Input : Type 0 where
  pub kind : Json
  pub reason : Json
  pub amount : Json
  pub reported_at : Json
  pub target_item_id : Json
  pub proposed_amount : Json

abbrev kind_text : String → Result Problem Kind
kind_text s =
    if str_eq s "funding_request"
    then ok funding_request
    else if str_eq s "unreplenished"
    then ok unreplenished
    else if str_eq s "vault_discrepancy"
    then ok vault_discrepancy
    else if str_eq s "report"
    then ok report
    else if str_eq s "correction_proposal"
    then ok correction_proposal
    else err denied

abbrev pub kind_of : Json → Result Problem Kind
kind_of (str s) = kind_text s
kind_of _ = err denied

abbrev pub optional_amount : Json → Result Problem (Option ℕ)
optional_amount undefined = ok none
optional_amount null = ok none
optional_amount v = amount_field v true >>= (λ n. ok (some n))

abbrev pub needs_amount : Kind → Bool
needs_amount funding_request = true
needs_amount unreplenished = true
needs_amount vault_discrepancy = true
needs_amount _ = false

abbrev pub is_report : Kind → Bool
is_report report = true
is_report _ = false

abbrev pub is_correction : Kind → Bool
is_correction correction_proposal = true
is_correction _ = false

abbrev pub is_missing : Json → Bool
is_missing undefined = true
is_missing _ = false

-- The conditions on the amount of each kind.
abbrev pub amount_fits : Kind → Option ℕ → Bool
amount_fits k a = not (needs_amount k && not (is_some a)) && not (is_report k && is_some a)

module _ (reported : String → Option String) where
  -- `reportedAt`.
  abbrev pub reported_at : Json → Result Problem (Option String)
  reported_at undefined = ok none
  reported_at null = ok none
  reported_at (str s) =
      if is_empty s
      then ok none
      else elim (reported s) [ none ↦ err invalid | some t ↦ ok (some t) ]
  reported_at _ = err invalid

  abbrev pub reported_of : Kind → Json → Result Problem (Option String)
  reported_of k v = if is_report k then reported_at v else ok none

  -- A target that is no text is no UUID in the source either; the empty text is no target.
  abbrev pub target_of : Json → Result Problem (Option String)
  target_of undefined = ok none
  target_of null = ok none
  target_of (str s) = if is_empty s then ok none else if is_uuid s then ok (some s) else err invalid
  target_of _ = err invalid

  abbrev pub proposed_of : Kind → Json → Result Problem (Option ℕ)
  proposed_of k v = if is_correction k then amount_field v false >>= (λ n. ok (some n)) else ok none

  abbrev pub in_day : String → Option Item → Result Problem (Option (ℕ × ℕ))
  in_day id none = err not_found
  in_day id (some i) =
      if str_eq i.day_id id then ok (some (i.amount, i.lock_version)) else err not_found

  -- The amount and the version of the target, which must be an item of the day.
  abbrev pub before_of : Store → String → Option String → Result Problem (Option (ℕ × ℕ))
  before_of s id none = ok none
  before_of s id (some t) = in_day id (get t s.items)

  abbrev pub only_for : {A : Type 0} → Bool → Option A → Option A
  only_for true o = o
  only_for false o = none

  -- `addFollowup`: the row that it inserts. It changes nothing else.
  unfoldable pub add_followup : Store → Context → String → Input → Result Problem Followup
  unfolding text_field amount_field is_uuid access check_enabled
  add_followup s ctx id b = kind_of b.kind >>= (λ k. text_field b.reason 1000 >>= (λ reason.
      optional_amount b.amount >>= (λ amount. require (amount_fits k amount) invalid >>= (λ u.
        require (is_report k || is_missing b.reported_at) invalid >>= (λ u.
          reported_of k b.reported_at >>= (λ at. target_of b.target_item_id >>= (λ target.
            require (not (is_correction k && not (is_some target))) invalid >>= (λ u.
              proposed_of k b.proposed_amount >>= (λ proposed. check_enabled s >>= (λ u.
                require (is_uuid id) not_found >>= (λ u. or_missing (get id s.days) >>= (λ day.
                  access ctx day >>= (λ own. require own denied >>= (λ u.
                    before_of s id target >>= (λ before. ok (record {
                      day_id = id;
                      kind = k;
                      amount = amount;
                      reason = reason;
                      target_item_id = target;
                      proposed_before = only_for (is_correction k) before;
                      proposed_after = proposed;
                      recorded_by = ctx.membership_id;
                      reported_at = at;
                    }))))))))))))))))
