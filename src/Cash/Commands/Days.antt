-- ===== src/Cash/Commands/Days.antt =====
-- What a command does to the rows of the branch days, closures included.
use Prim.Native.String.{String}
use hanamaru_shientool_prod.Prelude.{
  Bool, true, false, some, ◌≡◌, refl, sym, ap, ◌∙◌, inl, inr, Bool-cases, arith,
}
use hanamaru_shientool_prod.Prelude.Integers.{ℤ, sub_ℕ}
use hanamaru_shientool_prod.Prelude.Text.{str_eq}
use hanamaru_shientool_prod.Prelude.Maps.{get}
use hanamaru_shientool_prod.Prelude.Rows.{
  on_some, change_if, update_row, update_rows, get-update_row, get-update_rows,
}
use hanamaru_shientool_prod.Json.{Json, field}
use hanamaru_shientool_prod.Expense.{version_conflict, invalid, Day, require, text_field}
use hanamaru_shientool_prod.Expense.Items.Changes.{Always, bind-Always, ok_injective}
use hanamaru_shientool_prod.Cash.{
  Store, Call, BranchDay, Reconciliation, money, insert, participant, is_open_status,
}
use hanamaru_shientool_prod.Cash.Roster.{roster}
use hanamaru_shientool_prod.Cash.Entry.{
  Expense, expense_of, raise_correction, raised, corrected_store, with_ready, correct, from_day,
  flag_review,
}
use hanamaru_shientool_prod.Cash.Closing.{
  reconcile, close, reconciled, policy, expected_of, terms, amounts_of, same_policy, all_ready,
  participants_of, closure_of, snapshot_of, closed_day, leave_difference,
}
use hanamaru_shientool_prod.Cash.Commands.{
  Action, to_reconcile, to_close, to_roster, to_entry, to_ready, to_transfer, to_reverse_transfer,
  to_correct, to_report, to_resolve, after_closing, set_roster, noted, report, resolve, perform,
}
use hanamaru_shientool_prod.Cash.Commands.Effects.{
  Same, roster-Same, insert_item-Same, replace_item-Same, entry-Same, ready-Same,
}
use hanamaru_shientool_prod.Cash.Transfers.Balance.{transfer-Transferred}

-- What the closing of a day fixes.
pub record Fixed (d e : BranchDay) : Type 0 where
  pub branch : e.branch_id ≡ d.branch_id
  pub date : e.business_date ≡ d.business_date
  pub note : e.roster_note ≡ d.roster_note
  pub status : e.status ≡ d.status
  pub expected : e.expected_cash ≡ d.expected_cash
  pub actual : e.actual_cash ≡ d.actual_cash
  pub input : e.reconciliation_input ≡ d.reconciliation_input

pub Fixed-refl : (d : BranchDay) → Fixed d d
Fixed-refl d = record {
  branch = refl;
  date = refl;
  note = refl;
  status = refl;
  expected = refl;
  actual = refl;
  input = refl;
}

abbrev pub is_reconcile : Action → Bool
is_reconcile to_reconcile = true
is_reconcile _ = false

-- What the body of a command may do to a row, which is the command's own if `here`.
pub record Moved (a : Action) (here : Bool) (d e : BranchDay) : Type 0 where
  pub fixed : (here ≡ true → after_closing a ≡ true) → Fixed d e
  pub version : e.lock_version ≡ d.lock_version
  pub standing :
      (here ≡ true → is_reconcile a ≡ false) → e.reconciliation_version ≡ d.reconciliation_version

pub Moved-refl : (a : Action) (here : Bool) (d : BranchDay) → Moved a here d d
Moved-refl a here d = record { fixed = λ h. Fixed-refl d; version = refl; standing = λ h. refl }

-- The rows after the body of a command on the day `id`.
abbrev pub Rows : Action → String → Store → Store → Type 0
Rows a id s t =
    (k : String) (d : BranchDay)
    → get k s.branch_days ≡ some d
    → (e : BranchDay) × (get k t.branch_days ≡ some e) × Moved a (str_eq id k) d e

same-Rows : (a : Action) (id : String) (s t : Store) → t.branch_days ≡ s.branch_days → Rows a id s t
same-Rows a id s t h k d g = (d, ap (get k) h ∙ g, Moved-refl a (str_eq id k) d)

-- One row is changed.
row-Rows :
    (a : Action) (id : String) (f : BranchDay → BranchDay) (s t u : Store)
    → t.branch_days ≡ s.branch_days
    → ((d : BranchDay) → Moved a true d (f d))
    → u.branch_days ≡ update_row id f t.branch_days
    → Rows a id s u
row-Rows a id f s t u same moves e k d g =
    let there : get k t.branch_days ≡ some d = ap (get k) same ∙ g in
    let after = ap (get k) e ∙ get-update_row id k f t.branch_days in
    elim (Bool-cases (str_eq id k)) [
      | inl here ↦ (f d, after ∙ rw (here, there) refl, rw here (moves d))
      | inr other ↦ (d, after ∙ rw (other, there) refl, Moved-refl a (str_eq id k) d)
    ]

set_roster-Rows :
    (s : Store) (c : Call) (id : String) (day : BranchDay) (b : Json)
    → Always (Rows to_roster id s) (set_roster s c id day b)
unfolding set_roster
set_roster-Rows s c id day b t e =
    bind-Always (Rows to_roster id s)
      (roster s c id day.branch_id day.business_date (field "memberIds" b)) _
      (λ u h.
        let same = roster-Same s c id day.branch_id day.business_date (field "memberIds" b) u h in
        bind-Always (Rows to_roster id s) (text_field (field "rosterNote" b) 1000) _ (λ note h t e.
          row-Rows to_roster id (noted note) s u t same.branch_days
            (λ d. record {
              fixed = λ h. absurd (ground (arith, h refl));
              version = refl;
              standing = λ h. refl;
            })
            (ap (λ x. x.branch_days) (sym (ok_injective e)))))
      t e

reconcile-Rows :
    (s : Store) (id : String) (day : BranchDay) (b : Json)
    → Always (Rows to_reconcile id s) (reconcile s id day b)
unfolding reconcile
reconcile-Rows s id day b t e =
    let P = Rows to_reconcile id s in
    bind-Always P (policy s day) _
      (λ p h. bind-Always P (money (field "actualCash" b)) _ (λ actual h.
        bind-Always P (text_field (field "reference" b) 1000) _ (λ reference h.
          bind-Always P (expected_of s id p.reconciliation_mode b) _ (λ r h t e.
            let input : Reconciliation = record {
              basis = r.1;
              reference = reference;
              policy = p;
            } in
            row-Rows to_reconcile id (reconciled r.0 actual input) s s t refl
              (λ d. record {
                fixed = λ h. absurd (ground (arith, h refl));
                version = refl;
                standing = λ h. absurd (ground (arith, h refl));
              })
              (ap (λ x. x.branch_days) (sym (ok_injective e)))))))
      t e

report-Rows :
    (s : Store) (c : Call) (id : String) (a : Action) (b : Json)
    → Always (Rows a id s) (report s c b)
unfolding report
report-Rows s c id a b t e = same-Rows a id s t (ground (arith, e))

resolve-Rows :
    (s : Store) (id : String) (a : Action) (b : Json) → Always (Rows a id s) (resolve s id b)
unfolding resolve
resolve-Rows s id a b t e = same-Rows a id s t (ground (arith, e))

flagged-Moved :
    (a : Action) (here : Bool) (day d : BranchDay)
    → Moved a here d (change_if (from_day day) flag_review d)
flagged-Moved a here day d = elim (Bool-cases (from_day day d)) [
  | inr other ↦ rw other (Moved-refl a here d)
  | inl later ↦ rw later (record {
    fixed = λ h. record {
      branch = refl;
      date = refl;
      note = refl;
      status = refl;
      expected = refl;
      actual = refl;
      input = refl;
    };
    version = refl;
    standing = λ h. refl;
  })
]

-- A correction flags rows for review, and no more.
raised-Rows :
    (s t : Store) (c : Call) (id : String) (a : Action) (day : BranchDay) (reason : String)
    → t.branch_days ≡ s.branch_days
    → Always (Rows a id s) (raised t c id day reason)
unfolding raise_correction
raised-Rows s t c id a day reason same u e = elim (Bool-cases (is_open_status day.status)) [
  | inl fine ↦
      same-Rows a id s u (ap (λ x. x.branch_days) (sym (ok_injective (rw fine at e))) ∙ same)
  | inr closed ↦ λ k d g.
      let there : get k t.branch_days ≡ some d = ap (get k) same ∙ g in
      let days : u.branch_days ≡ update_rows (from_day day) flag_review t.branch_days =
        ground (arith, e, closed) in
      (
        change_if (from_day day) flag_review d,
        ap (get k) days
            ∙ get-update_rows (from_day day) flag_review k t.branch_days
            ∙ ap (on_some (change_if (from_day day) flag_review)) there,
        flagged-Moved a (str_eq id k) day d,
      )
]

terms-days :
    (s : Store) (c : Call) (id : String) (day : BranchDay) (n : ℤ) (b : Json)
    → Always (λ r. r.0.branch_days ≡ s.branch_days) (terms s c id day n b)
unfolding leave_difference
terms-days s c id day n b t e = ground arith

close-Rows :
    (s : Store) (c : Call) (id : String) (day : BranchDay) (b : Json)
    → Always (Rows to_close id s) (close s c id day b)
unfolding close
close-Rows s c id day b t e =
    let P = Rows to_close id s in
    bind-Always P (amounts_of day) _
      (λ r h. bind-Always P (policy s day) _ (λ p h.
        bind-Always P (require (same_policy p day.reconciliation_input) version_conflict) _ (λ v h.
          bind-Always P (require (all_ready (participants_of id s)) invalid) _ (λ w h.
            bind-Always P (terms s c id day (sub_ℕ r.1 r.0) b) _ (λ u h.
              bind-Always P
                (insert id (closure_of c r (snapshot_of s id day u.1.0 u.1.1)) s.closures) _
                (λ closures h' t e.
                  row-Rows to_close id (closed_day (sub_ℕ r.1 r.0)) s u.0 t
                    (terms-days s c id day (sub_ℕ r.1 r.0) b u h)
                    (λ d. record {
                      fixed = λ h. absurd (ground (arith, h refl));
                      version = refl;
                      standing = λ h. refl;
                    })
                    (ap (λ x. x.branch_days) (sym (ok_injective e)))))))))
      t e

pub corrected-Same :
    (s : Store) (c : Call) (r : String × Day) (x : Expense) (b : Json)
    → Always (Same s) (corrected_store s c r x b)
corrected-Same s c r x b t e =
    ground (arith, e, insert_item-Same s c r.0 r.1 x t, replace_item-Same s r.0 x b t)

correct-Rows :
    (s : Store) (c : Call) (id : String) (a : Action) (day : BranchDay) (b : Json)
    → Always (Rows a id s) (correct s c id day b)
unfolding correct
correct-Rows s c id a day b t e =
    let P = Rows a id s in
    bind-Always P (participant s id (field "dayId" b)) _
      (λ r h. bind-Always P (expense_of b) _ (λ x h.
        bind-Always P (text_field (field "reason" b) 1000) _ (λ reason h.
          bind-Always P (corrected_store s c r x b) _ (λ u h.
            raised-Rows s (with_ready false id r.0 u) c id a day reason
              ((corrected-Same s c r x b u h).branch_days)))))
      t e

-- What the body of every command does to the rows of the days.
pub perform-Rows :
    (a : Action) (s : Store) (c : Call) (id : String) (day : BranchDay) (b : Json)
    → Always (Rows a id s) (perform a s c id day b)
unfolding perform
perform-Rows to_roster s c id day b t e = set_roster-Rows s c id day b t e
perform-Rows to_entry s c id day b t e =
    same-Rows to_entry id s t ((entry-Same s c id b t e).branch_days)
perform-Rows to_ready s c id day b t e =
    same-Rows to_ready id s t ((ready-Same s id b t e).branch_days)
perform-Rows to_transfer s c id day b t e =
    same-Rows to_transfer id s t ((transfer-Transferred s c id day false b t e).branch_days)
perform-Rows to_reverse_transfer s c id day b t e =
    same-Rows to_reverse_transfer id s t ((transfer-Transferred s c id day true b t e).branch_days)
perform-Rows to_reconcile s c id day b t e = reconcile-Rows s id day b t e
perform-Rows to_close s c id day b t e = close-Rows s c id day b t e
perform-Rows to_correct s c id day b t e = correct-Rows s c id to_correct day b t e
perform-Rows to_report s c id day b t e = report-Rows s c id to_report b t e
perform-Rows to_resolve s c id day b t e = resolve-Rows s id to_resolve b t e
