-- ===== src/Cash/Commands/Money.antt =====
-- What a command does to the transfers, the closures and what is owed to a wallet.
use Prim.Native.String.{String}
use hanamaru_shientool_prod.Prelude.{
  Bool, true, false, none, some, List, [], ◌∷◌, ◌≡◌, refl, sym, ap, ◌∙◌, arith, eq_iff, keep,
}
use hanamaru_shientool_prod.Prelude.Text.{str_eq}
use hanamaru_shientool_prod.Prelude.Maps.{get, put, get-put}
use hanamaru_shientool_prod.Json.{Json, field}
use hanamaru_shientool_prod.Expense.{text_field}
use hanamaru_shientool_prod.Expense.Items.Changes.{Always, bind-Always}
use hanamaru_shientool_prod.Cash.{Store, Call, BranchDay, Transfer, Closure, participant}
use hanamaru_shientool_prod.Cash.Roster.{roster}
use hanamaru_shientool_prod.Cash.Entry.{
  expense_of, raise_correction, raised, corrected_store, with_ready, correct,
}
use hanamaru_shientool_prod.Cash.Transfers.Balance.{Transferred, transfer-Transferred}
use hanamaru_shientool_prod.Cash.Transfers.Sums.{Balanced, Transferred-Balanced}
use hanamaru_shientool_prod.Cash.Closing.{of_day, reconcile}
use hanamaru_shientool_prod.Cash.Commands.{
  Action, to_reconcile, to_close, to_roster, to_entry, to_ready, to_transfer, to_reverse_transfer,
  to_correct, to_report, to_resolve, after_closing, set_roster, report, resolve, perform,
}
use hanamaru_shientool_prod.Cash.Commands.Effects.{Same, roster-Same, entry-Same, ready-Same}
use hanamaru_shientool_prod.Cash.Commands.Days.{corrected-Same}
use hanamaru_shientool_prod.Cash.Commands.Closed.{Closed, close-Closed}

-- The money is left alone.
pub record Apart (s t : Store) : Type 0 where
  pub closures : t.closures ≡ s.closures
  pub transfers : t.transfers ≡ s.transfers
  pub unreplenished : t.unreplenished ≡ s.unreplenished

Same-Apart : (s t : Store) → Same s t → Apart s t
Same-Apart s t h = record {
  closures = h.closures;
  transfers = h.transfers;
  unreplenished = h.unreplenished;
}

Apart-trans : (s t u : Store) → Apart s t → Apart t u → Apart s u
Apart-trans s t u h k = record {
  closures = k.closures ∙ h.closures;
  transfers = k.transfers ∙ h.transfers;
  unreplenished = k.unreplenished ∙ h.unreplenished;
}

set_roster-Apart :
    (s : Store) (c : Call) (id : String) (day : BranchDay) (b : Json)
    → Always (Apart s) (set_roster s c id day b)
unfolding set_roster
set_roster-Apart s c id day b t e =
    bind-Always (Apart s) (roster s c id day.branch_id day.business_date (field "memberIds" b)) _
      (λ u h.
        let first = roster-Same s c id day.branch_id day.business_date (field "memberIds" b) u h in
        bind-Always (Apart s) (text_field (field "rosterNote" b) 1000) _ (λ note h t e.
          Apart-trans s u t (Same-Apart s u first) (record {
            closures = ground (arith, e);
            transfers = ground (arith, e);
            unreplenished = ground (arith, e);
          })))
      t e

reconcile-Apart :
    (s : Store) (id : String) (day : BranchDay) (b : Json) → Always (Apart s) (reconcile s id day b)
unfolding reconcile
reconcile-Apart s id day b t e = ground arith

report-Apart : (s : Store) (c : Call) (b : Json) → Always (Apart s) (report s c b)
unfolding report
report-Apart s c b t e = ground arith

resolve-Apart : (s : Store) (id : String) (b : Json) → Always (Apart s) (resolve s id b)
unfolding resolve
resolve-Apart s id b t e = ground arith

raised-Apart :
    (s : Store) (c : Call) (id : String) (day : BranchDay) (reason : String)
    → Always (Apart s) (raised s c id day reason)
unfolding raise_correction
raised-Apart s c id day reason t e = ground arith

correct-Apart :
    (s : Store) (c : Call) (id : String) (day : BranchDay) (b : Json)
    → Always (Apart s) (correct s c id day b)
unfolding correct
correct-Apart s c id day b t e =
    bind-Always (Apart s) (participant s id (field "dayId" b)) _
      (λ r h. bind-Always (Apart s) (expense_of b) _ (λ x h.
        bind-Always (Apart s) (text_field (field "reason" b) 1000) _ (λ reason h.
          bind-Always (Apart s) (corrected_store s c r x b) _ (λ u h t e.
            Apart-trans s u t (Same-Apart s u (corrected-Same s c r x b u h)) (
              let last = raised-Apart (with_ready false id r.0 u) c id day reason t e in
              record {
                closures = last.closures;
                transfers = last.transfers;
                unreplenished = last.unreplenished;
              })))))
      t e

-- A command does one of three things to the money.
pub data Effect (a : Action) (s : Store) (c : Call) (id : String) (day : BranchDay) (t : Store)
    : Type 0 where
  nothing : Apart s t → Effect a s c id day t
  transferred :
      (reversing : Bool)
      → after_closing a ≡ false
      → Transferred s c id reversing t
      → Effect a s c id day t
  closing : after_closing a ≡ false → Closed s c id day t → Effect a s c id day t

pub perform-Effect :
    (a : Action) (s : Store) (c : Call) (id : String) (day : BranchDay) (b : Json)
    → Always (Effect a s c id day) (perform a s c id day b)
unfolding perform
perform-Effect to_roster s c id day b t e = nothing (set_roster-Apart s c id day b t e)
perform-Effect to_entry s c id day b t e = nothing (Same-Apart s t (entry-Same s c id b t e))
perform-Effect to_ready s c id day b t e = nothing (Same-Apart s t (ready-Same s id b t e))
perform-Effect to_transfer s c id day b t e =
    transferred false refl (transfer-Transferred s c id day false b t e)
perform-Effect to_reverse_transfer s c id day b t e =
    transferred true refl (transfer-Transferred s c id day true b t e)
perform-Effect to_reconcile s c id day b t e = nothing (reconcile-Apart s id day b t e)
perform-Effect to_close s c id day b t e = closing refl (close-Closed s c id day b t e)
perform-Effect to_correct s c id day b t e = nothing (correct-Apart s c id day b t e)
perform-Effect to_report s c id day b t e = nothing (report-Apart s c b t e)
perform-Effect to_resolve s c id day b t e = nothing (resolve-Apart s id b t e)

-- A row that is there stays when another is put under a key that was free.
get-put_free :
    {V : Type 0} (i k : String) (v x : V) (m : List (String × V))
    → get i m ≡ none
    → get k m ≡ some x
    → get k (put i v m) ≡ some x
get-put_free i k v x m free there = ground (arith, get-put i k v m, eq_iff i k)

-- No command changes or removes a closure.
pub Effect-closures :
    (a : Action) (s : Store) (c : Call) (id : String) (day : BranchDay) (t : Store)
    → Effect a s c id day t
    → (k : String) (x : Closure) → get k s.closures ≡ some x
    → get k t.closures ≡ some x
Effect-closures a s c id day t (nothing h) k x g = ap (get k) h.closures ∙ g
Effect-closures a s c id day t (transferred r p h) k x g = ap (get k) h.closures ∙ g
Effect-closures a s c id day t (closing p h) k x g =
    ap (get k) h.recorded ∙ get-put_free id k _ x s.closures h.first g

abbrev pub day_transfers : String → Store → List (String × Transfer)
day_transfers k s = keep (λ (e : String × Transfer). of_day k e.1) s.transfers

keep-put_other :
    (k i : String) (x : Transfer) (m : List (String × Transfer))
    → get i m ≡ none
    → of_day k x ≡ false
    → keep (λ (e : String × Transfer). of_day k e.1) (put i x m)
      ≡ keep (λ (e : String × Transfer). of_day k e.1) m
unfolding get put
keep-put_other k i x [] free other = rw other refl
keep-put_other k i x ((j, y) ∷ m) free other = ground (arith, keep-put_other k i x m)

-- Only a command on the day itself, and before its closing, adds to its transfers.
pub Effect-day_transfers :
    (a : Action) (s : Store) (c : Call) (id : String) (day : BranchDay) (t : Store)
    → Effect a s c id day t
    → (k : String) → (str_eq id k ≡ true → after_closing a ≡ true)
    → day_transfers k t ≡ day_transfers k s
Effect-day_transfers a s c id day t (nothing h) k p = rw h.transfers refl
Effect-day_transfers a s c id day t (closing q h) k p = rw h.transfers refl
Effect-day_transfers a s c id day t (transferred r q h) k p =
    let other : of_day k h.added ≡ false = ground (arith, h.day, p, q) in
    ap (keep (λ (e : String × Transfer). of_day k e.1)) h.transfers
    ∙ keep-put_other k c.new_id h.added s.transfers h.unused other

kept-Balanced :
    (s t : Store)
    → t.transfers ≡ s.transfers
    → t.unreplenished ≡ s.unreplenished
    → Balanced s
    → Balanced t
kept-Balanced s t e h b k f g = rw e (b k f (ap (get k) (sym h) ∙ g))

pub Effect-Balanced :
    (a : Action) (s : Store) (c : Call) (id : String) (day : BranchDay) (t : Store)
    → Effect a s c id day t
    → Balanced s
    → Balanced t
Effect-Balanced a s c id day t (nothing h) b = kept-Balanced s t h.transfers h.unreplenished b
Effect-Balanced a s c id day t (closing p h) b = kept-Balanced s t h.transfers h.unreplenished b
Effect-Balanced a s c id day t (transferred r p h) b = Transferred-Balanced s t c id r h b
