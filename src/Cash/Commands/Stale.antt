-- ===== src/Cash/Commands/Stale.antt =====
-- A reconciliation that no longer stands: the day cannot be closed before it is reconciled again.
use Prim.Native.String.{String}
use text.Mathlib.TextEquality.{eq_iff}
use text.Mathlib.TextPositions.{eq_refl}
use hanamaru_shientool_prod.Prelude.{
  Bool, true, false, ◌&&◌, none, some, List, [], ◌∷◌, All, ok, ◌≡◌, ◌≢◌, refl, sym, ap, ◌∙◌,
  some-eq-some, arith,
}
use hanamaru_shientool_prod.Prelude.Text.{str_eq}
use hanamaru_shientool_prod.Prelude.Maps.{get}
use hanamaru_shientool_prod.Json.{Json}
use hanamaru_shientool_prod.Cash.{Store, Call, BranchDay}
use hanamaru_shientool_prod.Cash.Commands.{
  Action, to_close, to_report, to_resolve, keeps_reconciliation, carries_over, perform, command,
}
use hanamaru_shientool_prod.Cash.Commands.Authorised.{Ran, command-Ran}
use hanamaru_shientool_prod.Cash.Commands.Closed.{close-Closed}
use hanamaru_shientool_prod.Cash.Commands.Days.{is_reconcile}
use hanamaru_shientool_prod.Cash.Commands.Runs.{Request, step, run, step_cases, Stepped, Ran-row}

-- The day is there, and no reconciliation stands.
record Unreconciled (k : String) (s : Store) : Type 0 where
  row : BranchDay
  there : get k s.branch_days ≡ some row
  nothing : row.reconciliation_version ≡ none

Stepped-unreconciled :
    (a : Action) (here : Bool) (day d e : BranchDay)
    → (here ≡ true → (day ≡ d) × (is_reconcile a ≡ false))
    → d.reconciliation_version ≡ none
    → Stepped a here day d e
    → e.reconciliation_version ≡ none
Stepped-unreconciled a false day d e p n h =
    ap (λ x. x.reconciliation_version) h.last
    ∙ h.moved.standing (λ q. absurd (ground (arith, q)))
    ∙ n
Stepped-unreconciled a true day d e p n h =
    let before = ap (λ x. x.reconciliation_version) (p refl).0 ∙ n in
    let middle = h.moved.standing (λ q. (p refl).1) ∙ n in
    ap (λ x. x.reconciliation_version) h.last ∙ ground (arith, before, middle)

abbrev reconciles : String → Request → Bool
reconciles k r = is_reconcile r.action && str_eq r.id k

step-Unreconciled :
    (k : String) (r : Request) (s : Store)
    → reconciles k r ≡ false
    → Unreconciled k s
    → Unreconciled k (step r s)
step-Unreconciled k r s p h = step_cases (Unreconciled k) r s h (λ t ran.
    let row = Ran-row r.action s t r.caller r.id r.body ran k h.row h.there in
    record {
      row = row.0;
      there = row.1;
      nothing =
          Stepped-unreconciled r.action (str_eq r.id k) ran.day h.row row.0
            (λ here. (
              some-eq-some (
                  sym ran.found ∙ ap (λ x. get x s.branch_days) ((eq_iff r.id k).0 here) ∙ h.there),
              ground (arith, p, here),
            ))
            h.nothing row.2;
    })

run-Unreconciled :
    (k : String) (rs : List Request) (s : Store)
    → All (λ r. reconciles k r ≡ false) rs
    → Unreconciled k s
    → Unreconciled k (run rs s)
unfolding run
run-Unreconciled k [] s p h = h
run-Unreconciled k (r ∷ rs) s (p, ps) h =
    run-Unreconciled k rs (step r s) ps (step-Unreconciled k r s p h)

carries_over-keeps : (a : Action) → keeps_reconciliation a ≡ false → carries_over a ≡ false
carries_over-keeps to_report p = p
carries_over-keeps to_resolve p = p
carries_over-keeps a p = refl

Stepped-cleared :
    (a : Action) (here : Bool) (day d e : BranchDay)
    → here ≡ true
    → keeps_reconciliation a ≡ false
    → Stepped a here day d e
    → e.reconciliation_version ≡ none
Stepped-cleared a false day d e q p h = absurd (ground arith)
Stepped-cleared a true day d e q p h =
    let c = carries_over-keeps a p in
    ap (λ x. x.reconciliation_version) h.last ∙ ground (arith, p, c)

Ran-Unreconciled :
    (a : Action) (s t : Store) (c : Call) (id : String) (b : Json)
    → keeps_reconciliation a ≡ false
    → Ran a s c id b t
    → Unreconciled id t
Ran-Unreconciled a s t c id b p r =
    let row = Ran-row a s t c id b r id r.day r.found in
    record {
      row = row.0;
      there = row.1;
      nothing = Stepped-cleared a (str_eq id id) r.day r.day row.0 (eq_refl id) p row.2;
    }

-- After a command that may change what a reconciliation was computed from, and whatever commands follow
-- that do not reconcile that day, closing the day fails.
pub close_unreconciled :
    (a : Action) (s t u : Store) (c d : Call) (id : String) (b e : Json) (rs : List Request)
    → command a s c id b ≡ ok t
    → keeps_reconciliation a ≡ false
    → All (λ r. reconciles id r ≡ false) rs
    → command to_close (run rs t) d id e ≢ ok u
unfolding perform
close_unreconciled a s t u c d id b e rs first p ps closes =
    let stale =
      run-Unreconciled id rs t ps
        (Ran-Unreconciled a s t c id b p (command-Ran a s c id b t first)) in
    let ran = command-Ran to_close (run rs t) d id e u closes in
    let closed = close-Closed (run rs t) d id ran.day e ran.result ran.performed in
    let same : ran.day ≡ stale.row = some-eq-some (sym ran.found ∙ stale.there) in
    let v = ap (λ x. x.reconciliation_version) same ∙ stale.nothing in
    absurd (ground (arith, v, closed.reconciled))
