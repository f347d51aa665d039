-- ===== src/Cash/Commands/Effects.antt =====
-- What the commands that are no transfer leave alone.
use Prim.Native.String.{String}
use hanamaru_shientool_prod.Prelude.{
  Option, none, some, List, [], ◌∷◌, Result, ok, ◌≡◌, refl, ◌∙◌, subst, find, arith,
}
use hanamaru_shientool_prod.Json.{Json, field}
use hanamaru_shientool_prod.Expense.{Problem, Day}
use hanamaru_shientool_prod.Expense.Items.Changes.{Always, bind-Always, ok_injective}
use hanamaru_shientool_prod.Cash.{Store, Call, participant}
use hanamaru_shientool_prod.Cash.Roster.{
  roster_list, member_ids, remove_dropped, add_members, roster, join, placed, same_day,
}
use hanamaru_shientool_prod.Cash.Entry.{
  mark_ready, enter_daily, replace_item, insert_item, Expense, ready, enter_expense, entry,
}

pub record Same (s t : Store) : Type 0 where
  pub branch_days : t.branch_days ≡ s.branch_days
  pub closures : t.closures ≡ s.closures
  pub transfers : t.transfers ≡ s.transfers
  pub unreplenished : t.unreplenished ≡ s.unreplenished

pub Same-refl : (s : Store) → Same s s
Same-refl s = record { branch_days = refl; closures = refl; transfers = refl; unreplenished = refl }

pub Same-trans : (s t u : Store) → Same s t → Same t u → Same s u
Same-trans s t u h k = record {
  branch_days = k.branch_days ∙ h.branch_days;
  closures = k.closures ∙ h.closures;
  transfers = k.transfers ∙ h.transfers;
  unreplenished = k.unreplenished ∙ h.unreplenished;
}

-- A call returns a store that is the same in these.
pub ok-Same : (s t u : Store) → Same s t → ◌≡◌ {A = Result Problem Store} (ok t) (ok u) → Same s u
ok-Same s t u h e = subst (Same s) (ok_injective e) h

remove_dropped-Same :
    (s : Store) (id : String) (ms : List String) → Always (Same s) (remove_dropped s id ms)
unfolding remove_dropped
remove_dropped-Same s id ms t e = ground arith

mark_ready-Same : (s : Store) (k id : String) (d : Day) → Always (Same s) (mark_ready s k id d)
unfolding mark_ready
mark_ready-Same s k id d t e = ground arith

enter_daily-Same : (s : Store) (k id : String) (b : Json) → Always (Same s) (enter_daily s k id b)
unfolding enter_daily
enter_daily-Same s k id b t e = ground arith

pub insert_item-Same :
    (s : Store) (c : Call) (id : String) (d : Day) (x : Expense)
    → Always (Same s) (insert_item s c id d x)
unfolding insert_item
insert_item-Same s c id d x t e = ground arith

pub replace_item-Same :
    (s : Store) (id : String) (x : Expense) (b : Json) → Always (Same s) (replace_item s id x b)
unfolding replace_item
replace_item-Same s id x b t e = ground arith

joined-Same :
    (s : Store) (c : Call) (m id branch date : String) (o : Option (String × Day))
    → Always (Same s) (join id branch (placed s c m branch date o))
joined-Same s c m id branch date none t e = ground arith
joined-Same s c m id branch date (some d) t e = ground arith

add_members-Same :
    (ms : List String) (s : Store) (c : Call) (id branch date : String)
    → Always (Same s) (add_members s c id branch date ms)
unfolding add_members
add_members-Same [] s c id branch date t e = ok-Same s s t (Same-refl s) e
add_members-Same (m ∷ ms) s c id branch date t e =
    bind-Always (Same s) _ _
      (λ u h t e.
        Same-trans s u t (joined-Same s c m id branch date (find (same_day m date) s.days) u h)
          (add_members-Same ms u c id branch date t e))
      t e

pub roster-Same :
    (s : Store) (c : Call) (id branch date : String) (v : Json)
    → Always (Same s) (roster s c id branch date v)
unfolding roster
roster-Same s c id branch date v t e =
    bind-Always (Same s) (roster_list v) _
      (λ vs h. bind-Always (Same s) (member_ids s branch vs) _ (λ ms h.
        bind-Always (Same s) (remove_dropped s id ms) _ (λ u h t e.
          Same-trans s u t (remove_dropped-Same s id ms u h)
            (add_members-Same ms u c id branch date t e))))
      t e

pub ready-Same : (s : Store) (id : String) (b : Json) → Always (Same s) (ready s id b)
unfolding ready
ready-Same s id b t e =
    bind-Always (Same s) (participant s id (field "dayId" b)) _
      (λ r h. mark_ready-Same s id r.0 r.1) t e

enter_expense-Same :
    (s : Store) (c : Call) (id : String) (r : String × Day) (b : Json)
    → Always (Same s) (enter_expense s c id r b)
unfolding enter_expense
enter_expense-Same s c id r b t e = ground (arith, insert_item-Same s c r.0 r.1)

pub entry-Same : (s : Store) (c : Call) (id : String) (b : Json) → Always (Same s) (entry s c id b)
unfolding entry
entry-Same s c id b t e =
    bind-Always (Same s) (participant s id (field "dayId" b)) _
      (λ r h t e. ground (arith, e, enter_daily-Same s id r.0 b t, enter_expense-Same s c id r b t))
      t e
