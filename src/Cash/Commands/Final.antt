-- ===== src/Cash/Commands/Final.antt =====
-- What a closing makes final, and the balances, through any sequence of commands.
use Prim.Native.String.{String}
use text.Mathlib.TextEquality.{eq_iff}
use hanamaru_shientool_prod.Prelude.{
  Bool, true, false, some, List, [], ◌∷◌, ◌≡◌, refl, sym, ap, ◌∙◌, subst, some-eq-some, arith,
}
use hanamaru_shientool_prod.Prelude.Text.{str_eq}
use hanamaru_shientool_prod.Prelude.Maps.{get}
use hanamaru_shientool_prod.Cash.{Store, Call, BranchDay, Closure, is_open_status}
use hanamaru_shientool_prod.Cash.Transfers.Sums.{Balanced}
use hanamaru_shientool_prod.Cash.Commands.{Action, after_closing}
use hanamaru_shientool_prod.Json.{Json}
use hanamaru_shientool_prod.Cash.Commands.Authorised.{Ran}
use hanamaru_shientool_prod.Cash.Commands.Days.{Fixed, Fixed-refl}
use hanamaru_shientool_prod.Cash.Commands.Money.{
  perform-Effect, Effect-closures, Effect-day_transfers, Effect-Balanced, day_transfers,
}
use hanamaru_shientool_prod.Cash.Commands.Runs.{Request, step, run, step_cases, Stepped, Ran-row}

-- The row of the closed day `k` keeps what is fixed, and the day's closure and transfers stay.
pub record Settled (k : String) (s : Store) (d : BranchDay) (t : Store) : Type 0 where
  pub row : BranchDay
  pub there : get k t.branch_days ≡ some row
  pub fixed : Fixed d row
  pub closure : (x : Closure) → get k s.closures ≡ some x → get k t.closures ≡ some x
  pub transfers : day_transfers k t ≡ day_transfers k s

Fixed-trans : (a b c : BranchDay) → Fixed a b → Fixed b c → Fixed a c
Fixed-trans a b c h k = record {
  branch = k.branch ∙ h.branch;
  date = k.date ∙ h.date;
  note = k.note ∙ h.note;
  status = k.status ∙ h.status;
  expected = k.expected ∙ h.expected;
  actual = k.actual ∙ h.actual;
  input = k.input ∙ h.input;
}

Stepped-Fixed :
    (a : Action) (here : Bool) (day d e : BranchDay)
    → (here ≡ true → after_closing a ≡ true)
    → Stepped a here day d e
    → Fixed d e
Stepped-Fixed a true day d e p h = subst (Fixed d) (sym h.last) (
    let f = h.moved.fixed p in
    record {
      branch = f.branch;
      date = f.date;
      note = f.note;
      status = f.status;
      expected = f.expected;
      actual = f.actual;
      input = f.input;
    })
Stepped-Fixed a false day d e p h = subst (Fixed d) (sym h.last) (h.moved.fixed p)

-- A command on a closed day is one of the three that are done after the closing.
closed-after_closing :
    (a : Action) (s t : Store) (c : Call) (id : String) (b : Json) (r : Ran a s c id b t)
    → (k : String) (d : BranchDay) → get k s.branch_days ≡ some d
    → is_open_status d.status ≡ false
    → str_eq id k ≡ true
    → after_closing a ≡ true
closed-after_closing a s t c id b r k d g closed here =
    let same = (eq_iff id k).0 here in
    let day : r.day ≡ d = some-eq-some (sym r.found ∙ ap (λ x. get x s.branch_days) same ∙ g) in
    let shut = ap (λ x. is_open_status x.status) day ∙ closed in ground (arith, r.timely, shut)

step-Settled :
    (k : String) (d : BranchDay) (r : Request) (s : Store)
    → get k s.branch_days ≡ some d
    → is_open_status d.status ≡ false
    → Settled k s d (step r s)
step-Settled k d r s g closed =
    step_cases (Settled k s d) r s
      (record { row = d; there = g; fixed = Fixed-refl d; closure = λ x e. e; transfers = refl })
      (λ t ran.
        let p = closed-after_closing r.action s t r.caller r.id r.body ran k d g closed in
        let row = Ran-row r.action s t r.caller r.id r.body ran k d g in
        let effect =
          perform-Effect r.action s r.caller r.id ran.day r.body ran.result ran.performed in
        record {
          row = row.0;
          there = row.1;
          fixed = Stepped-Fixed r.action (str_eq r.id k) ran.day d row.0 p row.2;
          closure = λ x e.
              ap (λ y. get k y.closures) (sym ran.finish)
              ∙ Effect-closures r.action s r.caller r.id ran.day ran.result effect k x e;
          transfers =
              ap (day_transfers k) (sym ran.finish)
              ∙ Effect-day_transfers r.action s r.caller r.id ran.day ran.result effect k p;
        })

-- Whatever commands follow, a closed day keeps its branch, date, status, amounts and reconciliation input, its
-- closure and its transfers.
pub run-Settled :
    (rs : List Request) (s : Store) (k : String) (d : BranchDay)
    → get k s.branch_days ≡ some d
    → is_open_status d.status ≡ false
    → Settled k s d (run rs s)
unfolding run
run-Settled [] s k d g closed = record {
  row = d;
  there = g;
  fixed = Fixed-refl d;
  closure = λ x e. e;
  transfers = refl;
}
run-Settled (r ∷ rs) s k d g closed =
    let one = step-Settled k d r s g closed in
    let more =
      run-Settled rs (step r s) k one.row one.there (ap is_open_status one.fixed.status ∙ closed) in
    record {
      row = more.row;
      there = more.there;
      fixed = Fixed-trans d one.row more.row one.fixed more.fixed;
      closure = λ x e. more.closure x (one.closure x e);
      transfers = more.transfers ∙ one.transfers;
    }

step-Balanced : (r : Request) (s : Store) → Balanced s → Balanced (step r s)
step-Balanced r s h = step_cases Balanced r s h (λ t ran. subst Balanced ran.finish (
    Effect-Balanced r.action s r.caller r.id ran.day ran.result
      (perform-Effect r.action s r.caller r.id ran.day r.body ran.result ran.performed) h))

-- Any sequence of commands keeps the balance of every record of cash owed to a wallet: what was handed
-- out for it less what was taken back is from 0 to its amount, and is the amount exactly if it is resolved.
pub run-Balanced : (rs : List Request) (s : Store) → Balanced s → Balanced (run rs s)
unfolding run
run-Balanced [] s h = h
run-Balanced (r ∷ rs) s h = run-Balanced rs (step r s) (step-Balanced r s h)
