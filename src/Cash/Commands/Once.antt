-- ===== src/Cash/Commands/Once.antt =====
-- The version of a day: each one is good for one command.
use Prim.Native.String.{String}
use text.Mathlib.TextPositions.{eq_refl}
use hanamaru_shientool_prod.Prelude.{
  ℕ, suc, ◌+◌, ◌≤◌, Bool, true, false, some, List, [], ◌∷◌, ok, ◌≡◌, ◌≢◌, sym, ap, ◌∙◌,
  some-eq-some, arith, if◌then◌else◌,
}
use hanamaru_shientool_prod.Prelude.Text.{str_eq}
use hanamaru_shientool_prod.Prelude.Maps.{get}
use hanamaru_shientool_prod.Json.{Json, field}
use hanamaru_shientool_prod.Expense.Items.Changes.{ok_injective}
use hanamaru_shientool_prod.Cash.{Store, Call, BranchDay, money}
use hanamaru_shientool_prod.Cash.Commands.{Action, command}
use hanamaru_shientool_prod.Cash.Commands.Authorised.{Ran, command-Ran}
use hanamaru_shientool_prod.Cash.Commands.Runs.{Request, step, run, step_cases, Stepped, Ran-row}

-- The day is there, at a version of at least `n`.
record AtLeast (k : String) (n : ℕ) (s : Store) : Type 0 where
  row : BranchDay
  there : get k s.branch_days ≡ some row
  version : n ≤ row.lock_version

Stepped-version :
    (a : Action) (here : Bool) (day d e : BranchDay)
    → Stepped a here day d e
    → e.lock_version ≡ (if here then suc d.lock_version else d.lock_version)
Stepped-version a true day d e h =
    ap (λ x. x.lock_version) h.last ∙ ap (λ n. n + 1) h.moved.version ∙ omega arith
Stepped-version a false day d e h = ap (λ x. x.lock_version) h.last ∙ h.moved.version

step-AtLeast :
    (k : String) (n : ℕ) (r : Request) (s : Store) → AtLeast k n s → AtLeast k n (step r s)
step-AtLeast k n r s h = step_cases (AtLeast k n) r s h (λ t ran.
    let row = Ran-row r.action s t r.caller r.id r.body ran k h.row h.there in
    let v = h.version in
    let later = Stepped-version r.action (str_eq r.id k) ran.day h.row row.0 row.2 in
    record { row = row.0; there = row.1; version = ground (arith, v, later) })

run-AtLeast :
    (rs : List Request) (k : String) (n : ℕ) (s : Store) → AtLeast k n s → AtLeast k n (run rs s)
unfolding run
run-AtLeast [] k n s h = h
run-AtLeast (r ∷ rs) k n s h = run-AtLeast rs k n (step r s) (step-AtLeast k n r s h)

Ran-AtLeast :
    (a : Action) (s t : Store) (c : Call) (id : String) (b : Json) (r : Ran a s c id b t)
    → AtLeast id (suc r.day.lock_version) t
Ran-AtLeast a s t c id b r =
    let row = Ran-row a s t c id b r id r.day r.found in
    let later = Stepped-version a (str_eq id id) r.day r.day row.0 row.2 in
    let here = eq_refl id in
    record { row = row.0; there = row.1; version = ground (arith, later, here) }

-- A command that succeeds uses up the version that it names: whatever commands follow it, no command on
-- that day that names the same version succeeds.
pub command_once :
    (a other : Action) (s t u : Store) (c d : Call) (id : String) (b e : Json) (rs : List Request)
    → command a s c id b ≡ ok t
    → money (field "expectedLockVersion" e) ≡ money (field "expectedLockVersion" b)
    → command other (run rs t) d id e ≢ ok u
command_once a other s t u c d id b e rs first same again =
    let one = command-Ran a s c id b t first in
    let two = command-Ran other (run rs t) d id e u again in
    let later = run-AtLeast rs id (suc one.day.lock_version) t (Ran-AtLeast a s t c id b one) in
    let day : two.day ≡ later.row = some-eq-some (sym two.found ∙ later.there) in
    let named : two.day.lock_version ≡ one.day.lock_version =
      ok_injective (sym two.version ∙ same ∙ one.version) in
    let v = later.version in
    let w = ap (λ x. x.lock_version) day in absurd (ground (arith, v, w, named))
