-- ===== src/Expense/Items/Changes.antt =====
-- What the operations on a candidate do to the items.
use Prim.Native.String.{String}
use hanamaru_shientool_prod.Prelude.{
  ℕ, true, Option, none, some, Result, ok, err, ◌≡◌, refl, sym, ap, ◌∙◌, inl, inr, Bool-cases,
  arith,
}
use hanamaru_shientool_prod.Prelude.Maps.{get, put}
use hanamaru_shientool_prod.Expense.{
  Problem, Context, Day, Item, Store, is_uuid, access, check_enabled, or_missing, personal_mutation,
  own_day, ◌>>=◌, not_found, require,
}
use hanamaru_shientool_prod.Expense.Items.{matches, changed, change_candidate}

-- A call whose every value has a property.
abbrev pub Always : {A : Type 0} → (A → Type 0) → Result Problem A → Type 0
Always {A = A} P x = (a : A) → x ≡ ok a → P a

pub bind-Always :
    {A B : Type 0} (P : B → Type 0) (x : Result Problem A) (f : A → Result Problem B)
    → ((a : A) → x ≡ ok a → Always P (f a))
    → Always P (x >>= f)
bind-Always P (ok a) f h b eq = h a refl b eq
bind-Always P (err e) f h b eq = absurd (ground arith)

pub ok_injective : {A : Type 0} {a b : A} → ◌≡◌ {A = Result Problem A} (ok a) (ok b) → a ≡ b
ok_injective e = cc

personal_mutation-items :
    (s : Store) (id : String) (day : Day)
    → Always (λ t. t.items ≡ s.items) (personal_mutation s id day)
unfolding personal_mutation
personal_mutation-items s id day t e = ground arith

pub own_day-items :
    (s : Store) (ctx : Context) (id : String) (p : Problem)
    → Always (λ r. r.0.items ≡ s.items) (own_day s ctx id p)
unfolding own_day
own_day-items s ctx id p r e =
    bind-Always (λ r. r.0.items ≡ s.items) (check_enabled s) _
      (λ u h.
        bind-Always (λ r. r.0.items ≡ s.items) (require (is_uuid id) not_found) _
          (λ v h.
            bind-Always (λ r. r.0.items ≡ s.items) (or_missing (get id s.days)) _
              (λ day h.
                bind-Always (λ r. r.0.items ≡ s.items) (access ctx day) _
                  (λ own h.
                    bind-Always (λ r. r.0.items ≡ s.items) (personal_mutation s id day) _
                      (λ t m.
                        bind-Always (λ r. r.0.items ≡ s.items) (require own p) _
                          (λ x h. λ r e.
                            ap (λ y. y.0.items) (sym (ok_injective e))
                            ∙ personal_mutation-items s id day t m))))))
      r e

-- What an operation on a candidate does to the items.
pub record Changes (s : Store) (day_id id : String) (n : ℕ) (f : Item → Item) (t : Store)
    : Type 0 where
  pub item : Item
  pub found : get id s.items ≡ some item
  pub matching : matches item day_id n ≡ true
  pub items : t.items ≡ put id (f item) s.items

changed-Changes :
    (s r : Store) (id day_id : String) (n : ℕ) (f : Item → Item) (o : Option Item)
    → get id s.items ≡ o
    → r.items ≡ s.items
    → Always (Changes s day_id id n f) (changed r id o day_id n f)
changed-Changes s r id day_id n f none g same t e = absurd (ground arith)
changed-Changes s r id day_id n f (some i) g same t e = elim (Bool-cases (matches i day_id n)) [
  | inr other ↦ absurd (ground arith)
  | inl good ↦ record {
    item = i;
    found = g;
    matching = good;
    items = ap (λ y. y.items) (sym (ok_injective (rw good at e))) ∙ ap (put id (f i)) same;
  }
]

pub change_candidate-Changes :
    (s : Store) (ctx : Context) (day_id id : String) (n : ℕ) (f : Item → Item)
    → Always (Changes s day_id id n f) (change_candidate s ctx day_id id n f)
unfolding change_candidate
change_candidate-Changes s ctx day_id id n f t e =
    bind-Always (Changes s day_id id n f) (own_day s ctx day_id not_found) _
      (λ r h. bind-Always (Changes s day_id id n f) (require (is_uuid id) not_found) _ (λ u h'.
        let same = own_day-items s ctx day_id not_found r h in
        changed-Changes s r.0 id day_id n f (get id r.0.items) (ap (get id) (sym same)) same))
      t e
