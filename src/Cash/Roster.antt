-- ===== src/Cash/Roster.antt =====
-- Who takes part in a branch day: roster and create of apps/api/src/expense-cash.ts.
use Prim.Native.String.{String}
use hanamaru_shientool_prod.Prelude.{
  Bool, true, false, not, ◌&&◌, ◌||◌, Option, none, some, List, [], ◌∷◌, any, find, keep, length,
  ltb, leb, ◌==◌, if◌then◌else◌, Result, ok, err,
}
use hanamaru_shientool_prod.Prelude.Text.{str_eq, not_after}
use hanamaru_shientool_prod.Prelude.Maps.{get, put}
use hanamaru_shientool_prod.Prelude.Rows.{update_row}
use hanamaru_shientool_prod.Json.{
  Json, Number, undefined, null, bool, num, nat, other, str, arr, field, items,
}
use hanamaru_shientool_prod.Expense.{
  Problem, invalid, denied, version_conflict, Day, Item, ItemStatus, excluded, require, text_field,
  ◌>>=◌,
}
use hanamaru_shientool_prod.Cash.{
  BranchDay, still_open, Participant, Transfer, Issue, IssueKind, post_close_correction, Member,
  Store, Call, id_field, date_field, authority, insert, is_member_of, takes_part, record_event,
}

abbrev same_number : Number → Number → Bool
same_number (nat m) (nat n) = m == n
same_number (other s) (other t) = str_eq s t
same_number _ _ = false

-- `===` on the values of a parsed text, whose arrays and objects are all distinct.
abbrev same_value : Json → Json → Bool
same_value undefined undefined = true
same_value null null = true
same_value (bool true) (bool b) = b
same_value (bool false) (bool b) = not b
same_value (num m) (num n) = same_number m n
same_value (str s) (str t) = str_eq s t
same_value _ _ = false

-- `new Set(value).size === value.length`.
unfoldable pub distinct : List Json → Bool
distinct [] = true
distinct (v ∷ vs) = not (any (same_value v) vs) && distinct vs

abbrev checked_list : List Json → Result Problem (List Json)
checked_list vs =
    if leb 1 (length vs) && leb (length vs) 200 && distinct vs then ok vs else err invalid

-- The shape of a roster: a list of 1 to 200 values, each once.
unfoldable pub roster_list : Json → Result Problem (List Json)
unfolding distinct
roster_list (arr vs) = checked_list (items vs)
roster_list _ = err invalid

abbrev has_members : String → List (String × Member) → Bool
has_members branch = any (λ (e : String × Member). is_member_of branch (some e.1))

-- One value of the roster; in a branch without members it is refused before it is looked at.
abbrev member_id : Store → String → Json → Result Problem String
member_id s branch v = do
  u ← require (has_members branch s.members) denied
  m ← id_field v
  w ← require (is_member_of branch (get m s.members)) denied
  ok m

unfoldable pub member_ids : Store → String → List Json → Result Problem (List String)
unfolding id_field
member_ids s branch [] = ok []
member_ids s branch (v ∷ vs) = do m ← member_id s branch v; ms ← member_ids s branch vs; ok (m ∷ ms)

abbrev owner_of : Option Day → String
owner_of none = ""
owner_of (some d) = d.owner

abbrev purchased : Option Day → Bool
purchased none = false
purchased (some d) = elim d.purchase_total [ none ↦ false | some n ↦ ltb 0 n ]

abbrev is_excluded : ItemStatus → Bool
is_excluded excluded = true
is_excluded _ = false

abbrev counted : String → String × Item → Bool
counted day e = str_eq e.1.day_id day && not (is_excluded e.1.status)

abbrev moved : String → String → String × Transfer → Bool
moved branch_day day e = str_eq e.1.branch_day_id branch_day && str_eq e.1.day_id day

-- `used` and `financial`: a day with a transfer, an item or a purchase stays on the roster.
abbrev pub has_records : Store → String → String → Bool
has_records s branch_day day =
    any (moved branch_day day) s.transfers
    || (any (counted day) s.items || purchased (get day s.days))

abbrev dropped : Store → String → List String → Participant → Bool
dropped s id ms p =
    str_eq p.branch_day_id id && not (any (str_eq (owner_of (get p.day_id s.days))) ms)

-- The participants whom the new roster leaves out, which must have no records.
unfoldable pub remove_dropped : Store → String → List String → Result Problem Store
remove_dropped s id ms =
    if any (λ p. dropped s id ms p && has_records s id p.day_id) s.participants
    then err invalid
    else ok (record s { participants = keep (λ p. not (dropped s id ms p)) s.participants })

abbrev pub same_day : String → String → String × Day → Bool
same_day owner date e = str_eq e.1.owner owner && str_eq e.1.business_date date

abbrev blank_day : String → String → String → Day
blank_day member branch date = record {
  owner = member;
  branch_id = branch;
  business_date = date;
  opening_wallet_cash = none;
  purchase_total = none;
  purchase_source_note = none;
  lock_version = 1;
}

-- The INSERT of a personal day, which returns the present one if there is one.
abbrev pub placed :
    Store → Call → String → String → String → Option (String × Day) → Store × (String × Day)
placed s c member branch date (some e) = (s, e)
placed s c member branch date none =
    let d = blank_day member branch date in
    (record s { days = put (c.new_day member) d s.days }, (c.new_day member, d))

abbrev joined : String → String → List Participant → List Participant
joined id day ps =
    if any (takes_part id day) ps
    then ps
    else record { branch_day_id = id; day_id = day; ready = false } ∷ ps

abbrev pub join : String → String → Store × (String × Day) → Result Problem Store
join id branch r = do
  u ← require (str_eq r.1.1.branch_id branch) denied
  ok (record r.0 { participants = joined id r.1.0 r.0.participants })

unfoldable pub add_members :
    Store → Call → String → String → String → List String → Result Problem Store
add_members s c id branch date [] = ok s
add_members s c id branch date (m ∷ ms) = do
  t ← join id branch (placed s c m branch date (find (same_day m date) s.days))
  add_members t c id branch date ms

-- `roster`.
unfoldable pub roster : Store → Call → String → String → String → Json → Result Problem Store
unfolding roster_list member_ids remove_dropped add_members
roster s c id branch date v = do
  vs ← roster_list v
  ms ← member_ids s branch vs
  t ← remove_dropped s id ms
  add_members t c id branch date ms

abbrev is_correction : IssueKind → Bool
is_correction post_close_correction = true
is_correction _ = false

abbrev day_is : (BranchDay → Bool) → Option BranchDay → Bool
day_is p none = false
day_is p (some d) = p d

-- An open correction of the branch on this day or an earlier one.
abbrev pub under_review : Store → String → String → Bool
under_review s branch date =
    any
      (λ (e : String × Issue).
        is_correction e.1.kind
        && (e.1.is_open
            && day_is (λ d. str_eq d.branch_id branch && not_after d.business_date date)
                (get e.1.branch_day_id s.branch_days)))
      s.issues

abbrev pub taken : String → String → String × BranchDay → Bool
taken branch date e = str_eq e.1.branch_id branch && str_eq e.1.business_date date

abbrev pub first_version : String → String → String → BranchDay
first_version branch date note = record {
  branch_id = branch;
  business_date = date;
  roster_note = note;
  status = still_open;
  expected_cash = none;
  actual_cash = none;
  reconciliation_input = none;
  reconciliation_version = none;
  lock_version = 1;
  review_required = false;
}

abbrev reviewed : Bool → BranchDay → BranchDay
reviewed b d = record d { review_required = b }

-- `create`: the body of its transaction, after the same check of the authority that precedes it.
unfoldable pub create : Store → Call → Json → Result Problem Store
unfolding authority date_field roster insert not_after
create s c b = do
  branch ← id_field (field "branchId" b)
  date ← date_field c (field "businessDate" b)
  note ← text_field (field "rosterNote" b) 1000
  p ← authority s c c.context.membership_id branch
  u ← require (not (any (taken branch date) s.branch_days)) version_conflict
  days ← insert c.new_id (first_version branch date note) s.branch_days
  t ← roster (record s { branch_days = days }) c c.new_id branch date (field "memberIds" b)
  ok (
      record_event c c.new_id "create" (record t {
        branch_days = update_row c.new_id (reviewed (under_review t branch date)) t.branch_days;
      }))
