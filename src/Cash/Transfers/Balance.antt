-- ===== src/Cash/Transfers/Balance.antt =====
-- What a transfer does, and the balance of what is owed to a wallet.
use Prim.Native.String.{String}
use hanamaru_shientool_prod.Prelude.{
  ℕ, ◌≤◌, ◌<◌, Bool, true, false, Option, none, some, is_some, List, ok, ltb, ◌==◌, ◌≡◌, refl, sym,
  ap, ◌∙◌, subst, arith,
}
use hanamaru_shientool_prod.Prelude.Maps.{get, put}
use hanamaru_shientool_prod.Prelude.Rows.{update_row}
use hanamaru_shientool_prod.Prelude.Text.{str_eq}
use hanamaru_shientool_prod.Json.{Json, field}
use hanamaru_shientool_prod.Expense.{invalid, denied, Day, require, text_field}
use hanamaru_shientool_prod.Expense.Items.Changes.{Always, bind-Always, ok_injective}
use hanamaru_shientool_prod.Cash.{
  BranchDay, Transfer, Unreplenished, Store, Call, participant, money, time_field, id_field, insert,
  vacant,
}
use hanamaru_shientool_prod.Cash.Transfers.{
  replenishes, given_out, taken_back, next_total, settled, settle, wallet_record, within, Purpose,
  purpose_of, settled_store, new_transfer, add_transfer, performs, transfer, reversal_of,
}

-- A record `k` after a transfer on it: the sum over the transfers is counted, and is within the amount.
pub record Against (s t : Store) (k : String) (reversing : Bool) (amount : ℕ) : Type 0 where
  pub owed : Unreplenished
  pub total : ℕ
  pub found : get k s.unreplenished ≡ some owed
  pub counted :
      next_total reversing
        (given_out (replenishes k) s.transfers)
        (taken_back (replenishes k) s.transfers)
        amount
      ≡ some total
  pub fits : total ≤ owed.amount
  pub after : t.unreplenished ≡ update_row k (settled (total == owed.amount)) s.unreplenished

abbrev pub Settles : Store → Store → Option String → Bool → ℕ → Type 0
Settles s t none reversing amount = t.unreplenished ≡ s.unreplenished
Settles s t (some k) reversing amount = Against s t k reversing amount

pub record Transferred (s : Store) (c : Call) (id : String) (reversing : Bool) (t : Store)
    : Type 0 where
  pub added : Transfer
  pub day : added.branch_day_id ≡ id
  pub kind : is_some added.reverses_id ≡ reversing
  pub positive : 0 < added.amount
  pub unused : get c.new_id s.transfers ≡ none
  pub transfers : t.transfers ≡ put c.new_id added s.transfers
  pub branch_days : t.branch_days ≡ s.branch_days
  pub closures : t.closures ≡ s.closures
  pub settles : Settles s t added.unreplenished_id reversing added.amount

-- What `settle` leaves alone.
pub record Kept (s t : Store) : Type 0 where
  transfers : t.transfers ≡ s.transfers
  branch_days : t.branch_days ≡ s.branch_days
  closures : t.closures ≡ s.closures

wallet_record-found :
    (s : Store) (day : BranchDay) (d : Day) (o : Option Unreplenished) (f : Unreplenished)
    → wallet_record s day d o ≡ ok f
    → o ≡ some f
wallet_record-found s day d none f e = absurd (ground arith)
wallet_record-found s day d (some g) f e = ground arith

within-fits : (most : ℕ) (o : Option ℕ) (n : ℕ) → within most o ≡ ok n → (o ≡ some n) × (n ≤ most)
within-fits most none n e = absurd (ground arith)
within-fits most (some m) n e = ground arith

settle-Against :
    (s : Store) (day : BranchDay) (d : Day) (k : String) (reversing : Bool) (amount : ℕ)
    → Always (λ t. Kept s t × Against s t k reversing amount) (settle s day d k reversing amount)
unfolding settle
settle-Against s day d k reversing amount t e =
    let P : Store → Type 0 = λ t. Kept s t × Against s t k reversing amount in
    let sum =
      next_total reversing (given_out (replenishes k) s.transfers)
        (taken_back (replenishes k) s.transfers) amount in
    bind-Always P (wallet_record s day d (get k s.unreplenished)) _
      (λ f h. bind-Always P (within f.amount sum) _ (λ n h' t e.
        let there = within-fits f.amount sum n h' in
        (
          record {
            transfers = ap (λ x. x.transfers) (sym (ok_injective e));
            branch_days = ap (λ x. x.branch_days) (sym (ok_injective e));
            closures = ap (λ x. x.closures) (sym (ok_injective e));
          },
          record {
            owed = f;
            total = n;
            found = wallet_record-found s day d (get k s.unreplenished) f h;
            counted = there.0;
            fits = there.1;
            after = ap (λ x. x.unreplenished) (sym (ok_injective e));
          },
        )))
      t e

settled_store-Settles :
    (s : Store) (day : BranchDay) (d : Day) (p : Purpose) (amount : ℕ) (o : Option String)
    → Always
        (λ t. Kept s t × Settles s t o (is_some p.reverses) amount)
        (settled_store s day d p amount o)
settled_store-Settles s day d p amount none t e = (
  record {
    transfers = ap (λ x. x.transfers) (sym (ok_injective e));
    branch_days = ap (λ x. x.branch_days) (sym (ok_injective e));
    closures = ap (λ x. x.closures) (sym (ok_injective e));
  },
  ap (λ x. x.unreplenished) (sym (ok_injective e)),
)
settled_store-Settles s day d p amount (some k) t e =
    settle-Against s day d k (is_some p.reverses) amount t e

reversal_of-kind :
    (s : Store) (k day : String) (n : ℕ) (b : Json)
    → Always (λ p. is_some p.reverses ≡ true) (reversal_of s k day n b)
unfolding reversal_of
reversal_of-kind s k day n b p e = ground arith

purpose_of-kind :
    (s : Store) (k day : String) (reversing : Bool) (n : ℕ) (b : Json)
    → Always (λ p. is_some p.reverses ≡ reversing) (purpose_of s k day reversing n b)
purpose_of-kind s k day true n b p e = ground (arith, reversal_of-kind s k day n b p)
purpose_of-kind s k day false n b p e = ground arith

-- The row is new, and only the transfers change.
pub record Added (s : Store) (c : Call) (x : Transfer) (t : Store) : Type 0 where
  unused : get c.new_id s.transfers ≡ none
  transfers : t.transfers ≡ put c.new_id x s.transfers
  branch_days : t.branch_days ≡ s.branch_days
  closures : t.closures ≡ s.closures
  unreplenished : t.unreplenished ≡ s.unreplenished

vacant-unused :
    {V : Type 0} (o : Option V) (k : String) (v : V) (m n : List (String × V))
    → vacant o k v m ≡ ok n
    → (o ≡ none) × (n ≡ put k v m)
vacant-unused none k v m n e = (refl, sym (ok_injective e))
vacant-unused (some u) k v m n e = absurd (ground arith)

pub insert-unused :
    {V : Type 0} (k : String) (v : V) (m n : List (String × V))
    → insert k v m ≡ ok n
    → (get k m ≡ none) × (n ≡ put k v m)
unfolding insert
insert-unused k v m n e = vacant-unused (get k m) k v m n e

add_transfer-Added :
    (s : Store) (c : Call) (x : Transfer) → Always (Added s c x) (add_transfer s c x)
unfolding add_transfer
add_transfer-Added s c x t e =
    bind-Always (Added s c x) (insert c.new_id x s.transfers) _
      (λ m h t e.
        let new = insert-unused c.new_id x s.transfers m h in
        record {
          unused = new.0;
          transfers = ap (λ x. x.transfers) (sym (ok_injective e)) ∙ new.1;
          branch_days = ap (λ x. x.branch_days) (sym (ok_injective e));
          closures = ap (λ x. x.closures) (sym (ok_injective e));
          unreplenished = ap (λ x. x.unreplenished) (sym (ok_injective e));
        })
      t e

settled-Transferred :
    (s u t : Store) (c : Call) (id : String) (reversing : Bool) (x : Transfer)
    → x.branch_day_id ≡ id
    → is_some x.reverses_id ≡ reversing
    → 0 < x.amount
    → Kept s u × Settles s u x.unreplenished_id reversing x.amount
    → Added u c x t
    → Transferred s c id reversing t
settled-Transferred s u t c id reversing x day kind positive (kept, settles) new = record {
  added = x;
  day = day;
  kind = kind;
  positive = positive;
  unused = ap (get c.new_id) (sym kept.transfers) ∙ new.unused;
  transfers = new.transfers ∙ ap (put c.new_id x) kept.transfers;
  branch_days = new.branch_days ∙ kept.branch_days;
  closures = new.closures ∙ kept.closures;
  settles = Settles-after s u t x.unreplenished_id reversing x.amount new.unreplenished settles;
}
  where
    Settles-after :
        (s u t : Store) (o : Option String) (reversing : Bool) (amount : ℕ)
        → t.unreplenished ≡ u.unreplenished
        → Settles s u o reversing amount
        → Settles s t o reversing amount
    Settles-after s u t none reversing amount e h = e ∙ h
    Settles-after s u t (some k) reversing amount e h = record {
      owed = h.owed;
      total = h.total;
      found = h.found;
      counted = h.counted;
      fits = h.fits;
      after = e ∙ h.after;
    }

-- What `transfer` does when it succeeds.
pub transfer-Transferred :
    (s : Store) (c : Call) (id : String) (day : BranchDay) (reversing : Bool) (b : Json)
    → Always (Transferred s c id reversing) (transfer s c id day reversing b)
unfolding transfer
transfer-Transferred s c id day reversing b t e =
    let P = Transferred s c id reversing in
    bind-Always P (participant s id (field "dayId" b)) _
      (λ r h. bind-Always P (money (field "amount" b)) _ (λ amount h.
        bind-Always P (require (ltb 0 amount) invalid) _ (λ u positive.
          bind-Always P (time_field c (field "occurredAt" b)) _ (λ at h.
            bind-Always P (id_field (field "performedBy" b)) _ (λ performer h.
              bind-Always P (text_field (field "reason" b) 1000) _ (λ reason h.
                bind-Always P (require (performs s c day performer at.1) denied) _ (λ v h.
                  bind-Always P (require (str_eq (c.tokyo_date at.1) day.business_date) invalid) _
                    (λ w h. bind-Always P (purpose_of s id r.0 reversing amount b) _ (λ p kind.
                      bind-Always P (settled_store s day r.1 p amount p.outstanding) _
                        (λ u settled t e.
                          let x = new_transfer c id r.0 amount performer at.0 p reason in
                          let same = purpose_of-kind s id r.0 reversing amount b p kind in
                          settled-Transferred s u t c id reversing x refl same
                            (ground (arith, positive))
                            (subst (λ z. Kept s u × Settles s u p.outstanding z amount) same
                              (settled_store-Settles s day r.1 p amount p.outstanding u settled))
                            (add_transfer-Added u c x t e)))))))))))
      t e
