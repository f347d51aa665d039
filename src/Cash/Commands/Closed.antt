-- ===== src/Cash/Commands/Closed.antt =====
-- What closing a day takes and what it puts on record.
use Prim.Native.String.{String}
use hanamaru_shientool_prod.Prelude.{
  ℕ, suc, ◌+◌, Bool, true, not, if◌then◌else◌, Option, none, some, is_some, ok, ◌==◌, ◌≡◌, refl,
  sym, ap, ◌∙◌, inl, inr, leb, Bool-cases, arith,
}
use hanamaru_shientool_prod.Prelude.Integers.{ℤ, pos, negsuc, sub_ℕ, is_zero}
use hanamaru_shientool_prod.Prelude.Maps.{get, put}
use hanamaru_shientool_prod.Prelude.Rows.{update_row}
use hanamaru_shientool_prod.Json.{Json}
use hanamaru_shientool_prod.Expense.{version_conflict, invalid, require}
use hanamaru_shientool_prod.Expense.Items.Changes.{Always, bind-Always, ok_injective}
use hanamaru_shientool_prod.Cash.{
  closed_balanced, closed_difference, Store, Call, BranchDay, Policy, insert,
}
use hanamaru_shientool_prod.Cash.Transfers.Balance.{insert-unused}
use hanamaru_shientool_prod.Cash.Closing.{
  close, leave_difference, terms, amounts_of, both, current, policy, same_policy, all_ready,
  participants_of, closure_of, closed_day, snapshot_of,
}

-- A difference is what is to be added to the expected amount.
abbrev pub IsDifference : ℤ → ℕ → ℕ → Type 0
IsDifference (pos n) expected actual = actual ≡ expected + n
IsDifference (negsuc n) expected actual = expected ≡ actual + suc n

-- The day was reconciled at its present version, everybody who takes part is ready, and a difference is
-- noted. The closure holds the two amounts, their difference, and the records as they were.
pub record Closed (s : Store) (c : Call) (id : String) (day : BranchDay) (t : Store) : Type 0 where
  pub expected : ℕ
  pub actual : ℕ
  pub note : Option String
  pub assignee : String
  pub reconciled : day.reconciliation_version ≡ some day.lock_version
  pub expected_is : day.expected_cash ≡ some expected
  pub actual_is : day.actual_cash ≡ some actual
  pub everybody : all_ready (participants_of id s) ≡ true
  pub noted : is_some note ≡ not (expected == actual)
  pub first : get id s.closures ≡ none
  pub difference : ℤ
  pub difference_is : IsDifference difference expected actual
  pub recorded :
      t.closures
      ≡ put id
          (record {
            expected_cash = expected;
            actual_cash = actual;
            difference = difference;
            snapshot = snapshot_of s id day note assignee;
            closed_by = c.context.membership_id;
          })
          s.closures
  pub closing :
      t.branch_days
      ≡ update_row id
          (λ d. record d {
            status = if expected == actual then closed_balanced else closed_difference;
          })
          s.branch_days
  pub transfers : t.transfers ≡ s.transfers
  pub unreplenished : t.unreplenished ≡ s.unreplenished

-- A reconciliation of the present version, with both amounts.
record Present (day : BranchDay) (r : ℕ × ℕ) : Type 0 where
  standing : day.reconciliation_version ≡ some day.lock_version
  expected_is : day.expected_cash ≡ some r.0
  actual_is : day.actual_cash ≡ some r.1

current-standing : (o : Option ℕ) (n : ℕ) → current o n ≡ true → o ≡ some n
current-standing none n e = absurd (ground arith)
current-standing (some m) n e = ground arith

both-amounts : (a b : Option ℕ) (r : ℕ × ℕ) → both a b ≡ ok r → (a ≡ some r.0) × (b ≡ some r.1)
both-amounts none b r e = absurd (ground arith)
both-amounts (some a) none r e = absurd (ground arith)
both-amounts (some a) (some b) r e = ground arith

amounts_of-Present : (day : BranchDay) → Always (Present day) (amounts_of day)
unfolding amounts_of
amounts_of-Present day r e =
    elim (Bool-cases (current day.reconciliation_version day.lock_version)) [
      | inr stale ↦ absurd (ground (arith, e, stale))
      | inl standing ↦
          let there = both-amounts day.expected_cash day.actual_cash r (rw standing at e) in
          record {
            standing = current-standing day.reconciliation_version day.lock_version standing;
            expected_is = there.0;
            actual_is = there.1;
          }
    ]

-- Only the open matters change before the day is closed, and the note is there for a difference.
record Left (s : Store) (n : ℤ) (r : Store × (Option String × String)) : Type 0 where
  closures : r.0.closures ≡ s.closures
  branch_days : r.0.branch_days ≡ s.branch_days
  transfers : r.0.transfers ≡ s.transfers
  unreplenished : r.0.unreplenished ≡ s.unreplenished
  noted : is_some r.1.0 ≡ not (is_zero n)

terms-Left :
    (s : Store) (c : Call) (id : String) (day : BranchDay) (n : ℤ) (b : Json)
    → Always (Left s n) (terms s c id day n b)
unfolding leave_difference
terms-Left s c id day n b r e = ground arith

zero-same : (e a : ℕ) → is_zero (sub_ℕ a e) ≡ (e == a)
zero-same e a = ground arith

sub_ℕ-IsDifference : (e a : ℕ) → IsDifference (sub_ℕ a e) e a
sub_ℕ-IsDifference e a = elim (Bool-cases (leb e a)) [
  | inl more ↦ rw more (ground arith)
  | inr less ↦ rw less (ground arith)
]

-- A closing that succeeds was reconciled at the day's present version, with everybody who takes part
-- ready, and with a note exactly if the two amounts differ. It records the first closure of the day, with
-- the amounts, what the vault has beyond the expected amount or lacks of it, and the records of that
-- moment, sets the status to balanced exactly if the two amounts are equal and to closed with a difference
-- otherwise, and leaves the transfers and what is owed as they are.
pub close-Closed :
    (s : Store) (c : Call) (id : String) (day : BranchDay) (b : Json)
    → Always (Closed s c id day) (close s c id day b)
unfolding close
close-Closed s c id day b t e =
    let P = Closed s c id day in
    bind-Always P (amounts_of day) _
      (λ r amounts. bind-Always P (policy s day) _ (λ p h.
        bind-Always P (require (same_policy p day.reconciliation_input) version_conflict) _ (λ v h.
          bind-Always P (require (all_ready (participants_of id s)) invalid) _ (λ w ready.
            bind-Always P (terms s c id day (sub_ℕ r.1 r.0) b) _ (λ u left.
              bind-Always P
                (insert id (closure_of c r (snapshot_of s id day u.1.0 u.1.1)) s.closures) _
                (λ closures new t e.
                  let present = amounts_of-Present day r amounts in
                  let kept = terms-Left s c id day (sub_ℕ r.1 r.0) b u left in
                  let row = insert-unused id _ s.closures closures new in
                  record {
                    expected = r.0;
                    actual = r.1;
                    note = u.1.0;
                    assignee = u.1.1;
                    reconciled = present.standing;
                    expected_is = present.expected_is;
                    actual_is = present.actual_is;
                    everybody = ground (arith, ready);
                    noted = kept.noted ∙ ap not (zero-same r.0 r.1);
                    difference = sub_ℕ r.1 r.0;
                    difference_is = sub_ℕ-IsDifference r.0 r.1;
                    first = row.0;
                    recorded = ap (λ x. x.closures) (sym (ok_injective e)) ∙ row.1;
                    closing =
                        ap (λ x. x.branch_days) (sym (ok_injective e))
                        ∙ ap (update_row id (closed_day (sub_ℕ r.1 r.0))) kept.branch_days
                        ∙ ap
                            (λ (z : Bool).
                              update_row id
                                (λ (d : BranchDay). record d {
                                  status = if z then closed_balanced else closed_difference;
                                })
                                s.branch_days)
                            (zero-same r.0 r.1);
                    transfers = ap (λ x. x.transfers) (sym (ok_injective e)) ∙ kept.transfers;
                    unreplenished =
                        ap (λ x. x.unreplenished) (sym (ok_injective e)) ∙ kept.unreplenished;
                  }))))))
      t e

sub_ℕ-same : (n : ℕ) → sub_ℕ n n ≡ pos 0
sub_ℕ-same n = ground arith

==_refl : (n : ℕ) → (n == n) ≡ true
==_refl n = ground arith

pub close_balanced :
    (s : Store) (c : Call) (id : String) (day : BranchDay) (b : Json) (n : ℕ) (p : Policy)
    → day.reconciliation_version ≡ some day.lock_version
    → day.expected_cash ≡ some n
    → day.actual_cash ≡ some n
    → get day.branch_id s.policies ≡ some p
    → same_policy p day.reconciliation_input ≡ true
    → all_ready (participants_of id s) ≡ true
    → get id s.closures ≡ none
    → close s c id day b
      ≡ ok (record s {
        closures =
            put id
              (record {
                expected_cash = n;
                actual_cash = n;
                difference = pos 0;
                snapshot = snapshot_of s id day none c.context.membership_id;
                closed_by = c.context.membership_id;
              })
              s.closures;
        branch_days = update_row id (λ d. record d { status = closed_balanced }) s.branch_days;
      })
unfolding close amounts_of policy
close_balanced s c id day b n p standing expected actual configured same ready free =
    rw
      (
        standing,
        expected,
        actual,
        configured,
        same,
        ready,
        ==_refl day.lock_version,
        sub_ℕ-same n,
        free,
      )
      refl
