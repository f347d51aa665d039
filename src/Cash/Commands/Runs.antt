-- ===== src/Cash/Commands/Runs.antt =====
-- Sequences of commands: a command that fails leaves the store as it was.
use Prim.Native.String.{String}
use hanamaru_shientool_prod.Prelude.{
  Bool, some, List, [], ◌∷◌, Result, ok, err, ◌≡◌, refl, sym, ap, ◌∙◌, inl, inr, Bool-cases,
  Result-cases, if◌then◌else◌,
}
use hanamaru_shientool_prod.Prelude.Text.{str_eq}
use hanamaru_shientool_prod.Prelude.Maps.{get}
use hanamaru_shientool_prod.Prelude.Rows.{get-update_row}
use hanamaru_shientool_prod.Json.{Json}
use hanamaru_shientool_prod.Expense.{Problem}
use hanamaru_shientool_prod.Cash.{Store, Call, BranchDay}
use hanamaru_shientool_prod.Cash.Commands.{Action, next_version, command}
use hanamaru_shientool_prod.Cash.Commands.Authorised.{Ran, command-Ran}
use hanamaru_shientool_prod.Cash.Commands.Days.{Moved, perform-Rows}

pub record Request : Type 0 where
  pub action : Action
  pub caller : Call
  pub id : String
  pub body : Json

abbrev after : Store → Result Problem Store → Store
after s (ok t) = t
after s (err e) = s

unfoldable pub step : Request → Store → Store
unfolding command
step r s = after s (command r.action s r.caller r.id r.body)

unfoldable pub run : List Request → Store → Store
unfolding step
run [] s = s
run (r ∷ rs) s = run rs (step r s)

-- To show something of a step: it holds if nothing happened, and after a command that succeeded.
pub step_cases {ℓ} :
    (P : Store → Type ℓ) (r : Request) (s : Store)
    → P s
    → ((t : Store) → Ran r.action s r.caller r.id r.body t → P t)
    → P (step r s)
unfolding step
step_cases P r s same moves = elim (Result-cases (command r.action s r.caller r.id r.body)) [
  | inl (t, e) ↦ rw e (moves t (command-Ran r.action s r.caller r.id r.body t e))
  | inr (p, e) ↦ rw e same
]

-- The row of a day after a command: the body's, and the command's own has a new version.
pub record Stepped (a : Action) (here : Bool) (day d e : BranchDay) : Type 0 where
  pub middle : BranchDay
  pub moved : Moved a here d middle
  pub last : e ≡ (if here then next_version a day middle else middle)

pub Ran-row :
    (a : Action) (s t : Store) (c : Call) (id : String) (b : Json) (r : Ran a s c id b t)
    → (k : String) (d : BranchDay) → get k s.branch_days ≡ some d
    → (e : BranchDay) × (get k t.branch_days ≡ some e) × Stepped a (str_eq id k) r.day d e
Ran-row a s t c id b r k d g =
    let moved = perform-Rows a s c id r.day b r.result r.performed k d g in
    let last =
      ap (λ x. get k x.branch_days) (sym r.finish)
      ∙ get-update_row id k (next_version a r.day) r.result.branch_days in
    elim (Bool-cases (str_eq id k)) [
      | inl here ↦ (
        next_version a r.day moved.0,
        last ∙ rw (here, moved.1) refl,
        record { middle = moved.0; moved = moved.2; last = rw here refl },
      )
      | inr other ↦ (
        moved.0,
        last ∙ rw (other, moved.1) refl,
        record { middle = moved.0; moved = moved.2; last = rw other refl },
      )
    ]
