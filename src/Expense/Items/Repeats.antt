-- ===== src/Expense/Items/Repeats.antt =====
-- A change of a candidate that is requested once more: apps/api/src/expense.ts.
use Prim.Native.String.{String}
use hanamaru_shientool_prod.Prelude.{
  ℕ, ◌+◌, Bool, true, false, Option, none, some, List, Result, ok, err, inl, inr, Bool-cases, subst,
  if◌then◌else◌, ◌≡◌, refl, sym, ap, ◌∙◌, arith, eq_refl,
}
use hanamaru_shientool_prod.Prelude.Maps.{get, get-put}
use hanamaru_shientool_prod.Json.{Json}
use hanamaru_shientool_prod.Expense.{
  Problem, feature_disabled, BranchDay, Day, branch_key, is_closed, reset, personal_mutation,
  own_day, check_enabled, is_uuid, access, or_missing, require, not_found, version_conflict, ◌>>=◌,
  Context, Item, Store, text_field, amount_field, optional_text,
}
use hanamaru_shientool_prod.Expense.Items.{
  ItemInput, matches, changed, change_candidate, updated_item, update_candidate, payment_source_of,
}
use hanamaru_shientool_prod.Expense.Items.Changes.{Always, bind-Always, ok_injective}

pub matching_version :
    (i : Item) (day_id : String) (n : ℕ) → matches i day_id n ≡ true → i.lock_version ≡ n
matching_version i day_id n m = ground arith

-- A chain of calls that went through, and another one with the same first call.
bind-both :
    {A B C : Type 0} (P : Result Problem C → Type 0) (x y : Result Problem A)
    (f : A → Result Problem B) (g : A → Result Problem C) (b : B)
    → y ≡ x
    → (x >>= f) ≡ ok b
    → ((a : A) → x ≡ ok a → f a ≡ ok b → P (g a))
    → P (y >>= g)
bind-both P (ok a) y f g b same e h = rw same (h a refl e)
bind-both P (err q) y f g b same e h = absurd (ground arith)

-- The row of a day stays open where it is reset.
is_closed-reset :
    (o : Option BranchDay) (k : String) (m : List (String × BranchDay))
    → get k m ≡ o
    → is_closed o ≡ false
    → is_closed (get k (reset o k m)) ≡ false
is_closed-reset none k m g e = rw g refl
is_closed-reset (some b) k m g e =
    rw
      (
        get-put k k (record b { lock_version = b.lock_version + 1; reconciliation_version = none })
            m,
        eq_refl k,
      )
      e

personal_mutation-kept :
    (s t : Store) (id : String) (day : Day)
    → personal_mutation s id day ≡ ok t
    → (is_closed (get (branch_key day) t.branch_days) ≡ false)
      × (t.days ≡ s.days)
      × (t.enabled ≡ s.enabled)
unfolding personal_mutation
personal_mutation-kept s t id day e =
    elim (Bool-cases (is_closed (get (branch_key day) s.branch_days))) [
      | inl shut ↦ absurd (ground (arith, e, shut))
      | inr usable ↦
          let same = ok_injective (rw usable at e) in
          let k = branch_key day in
          (
            subst (λ x. is_closed (get k x.branch_days) ≡ false) same
                (is_closed-reset (get k s.branch_days) k s.branch_days refl usable),
            ap (λ x. x.days) (sym same),
            ap (λ x. x.enabled) (sym same),
          )
    ]

-- The owner of an open day, who has changed it once, comes as far again.
abbrev Reaches : Store → Day → Result Problem (Store × Day) → Type 0
Reaches q day x = (t : Store) × (x ≡ ok (t, day)) × (t.items ≡ q.items)

mutation-Reaches :
    (s q t : Store) (id : String) (p : Problem) (day : Day) (own : Bool)
    → personal_mutation s id day ≡ ok t
    → require own p ≡ ok tt
    → q.branch_days ≡ t.branch_days
    → Reaches q day (personal_mutation q id day >>= (λ s'. require own p >>= (λ x. ok (s', day))))
unfolding personal_mutation
mutation-Reaches s q t id p day own e mine b =
    let usable : is_closed (get (branch_key day) q.branch_days) ≡ false =
      ap (λ m. is_closed (get (branch_key day) m)) b ∙ (personal_mutation-kept s t id day e).0 in
    rw (usable, mine) (_, refl, refl)

reset-Reaches :
    (s q : Store) (id : String) (p : Problem) (day : Day) (own : Bool) (r : Store × Day)
    (x : Result Problem Store)
    → personal_mutation s id day ≡ x
    → (x >>= (λ s'. require own p >>= (λ u. ok (s', day)))) ≡ ok r
    → q.branch_days ≡ r.0.branch_days
    → Reaches q r.1 (personal_mutation q id day >>= (λ s'. require own p >>= (λ u. ok (s', day))))
reset-Reaches s q id p day own r (err x) m e b = absurd (ground (arith, e))
reset-Reaches s q id p day false r (ok t) m e b = absurd (ground (arith, e))
reset-Reaches s q id p day true r (ok t) m e b =
    let same : (t, day) ≡ r = ok_injective e in
    subst
      (λ d.
        Reaches q d (personal_mutation q id day >>= (λ s'. require true p >>= (λ u. ok (s', day)))))
      (ap (λ z. z.1) same)
      (mutation-Reaches s q t id p day true m refl (b ∙ ap (λ z. z.0.branch_days) (sym same)))

own_day-again :
    (s q : Store) (ctx : Context) (id : String) (p : Problem) (r : Store × Day)
    → own_day s ctx id p ≡ ok r
    → q.days ≡ s.days
    → q.enabled ≡ s.enabled
    → q.branch_days ≡ r.0.branch_days
    → Reaches q r.1 (own_day q ctx id p)
unfolding own_day check_enabled
own_day-again s q ctx id p r e d on b =
    let P = Reaches q r.1 in
    bind-both P (check_enabled s) (check_enabled q) _ _ r
      (ap (λ x. if x then ok tt else err feature_disabled) on) e
      (λ u h e. bind-both P (require (is_uuid id) not_found) _ _ _ r refl e (λ v h e.
        bind-both P (or_missing (get id s.days)) _ _ _ r (ap (λ m. or_missing (get id m)) d) e
          (λ day h e.
            bind-both P (access ctx day) _ _ _ r refl e
              (λ own h e. reset-Reaches s q id p day own r (personal_mutation s id day) refl e b))))

-- Opening a day changes neither the days nor whether the feature is on.
abbrev Alike : Store → Store → Type 0
Alike s t = (t.days ≡ s.days) × (t.enabled ≡ s.enabled)

own_day-Alike :
    (s : Store) (ctx : Context) (id : String) (p : Problem)
    → Always (λ r. Alike s r.0) (own_day s ctx id p)
unfolding own_day
own_day-Alike s ctx id p r e =
    let P : Store × Day → Type 0 = λ r. Alike s r.0 in
    bind-Always P (check_enabled s) _
      (λ u h. bind-Always P (require (is_uuid id) not_found) _ (λ v h.
        bind-Always P (or_missing (get id s.days)) _ (λ day h.
          bind-Always P (access ctx day) _ (λ own h.
            bind-Always P (personal_mutation s id day) _ (λ t m.
              bind-Always P (require own p) _ (λ x h. λ r e.
                let kept = personal_mutation-kept s t id day m in
                subst P (ok_injective e) (kept.1, kept.2)))))))
      r e

-- The update of a row changes nothing but the items, and cannot be made twice.
record Once (r t : Store) (day_id id : String) (n : ℕ) (f : Item → Item) : Type 0 where
  days : t.days ≡ r.days
  enabled : t.enabled ≡ r.enabled
  branch_days : t.branch_days ≡ r.branch_days
  never :
      (q : Store)
      → q.items ≡ t.items
      → changed q id (get id q.items) day_id n f ≡ err version_conflict

stale : (i : Item) (day_id : String) (n : ℕ) → i.lock_version ≡ n + 1 → matches i day_id n ≡ false
stale i day_id n e = ground (arith, e)

changed-Once :
    (r : Store) (day_id id : String) (n : ℕ) (f : Item → Item) (o : Option Item)
    → ((i : Item) → (f i).lock_version ≡ i.lock_version + 1)
    → Always (λ t. Once r t day_id id n f) (changed r id o day_id n f)
changed-Once r day_id id n f none next t e = absurd (ground arith)
changed-Once r day_id id n f (some i) next t e = elim (Bool-cases (matches i day_id n)) [
  | inr other ↦ absurd (ground arith)
  | inl good ↦
      let P : Store → Type 0 = λ t. Once r t day_id id n f in
      let late =
        stale (f i) day_id n (next i ∙ ap (λ x. x + 1) (matching_version i day_id n good)) in
      subst P (ok_injective (rw good at e)) (record {
        days = refl;
        enabled = refl;
        branch_days = refl;
        never = λ q same. rw (same, get-put id id (f i) r.items, eq_refl id) (rw late refl);
      })
]

change_candidate-again :
    (s : Store) (ctx : Context) (day_id id : String) (n : ℕ) (f : Item → Item)
    → ((i : Item) → (f i).lock_version ≡ i.lock_version + 1)
    → Always
        (λ t. change_candidate t ctx day_id id n f ≡ err version_conflict)
        (change_candidate s ctx day_id id n f)
unfolding change_candidate
change_candidate-again s ctx day_id id n f next t e =
    let P : Store → Type 0 = λ t. change_candidate t ctx day_id id n f ≡ err version_conflict in
    bind-Always P (own_day s ctx day_id not_found) _
      (λ r h. bind-Always P (require (is_uuid id) not_found) _ (λ u named. λ t e.
        let once = changed-Once r.0 day_id id n f (get id r.0.items) next t e in
        let alike = own_day-Alike s ctx day_id not_found r h in
        let (q, reached, items) =
          own_day-again s t ctx day_id not_found r h (once.days ∙ alike.0) (once.enabled ∙ alike.1)
            once.branch_days in
        rw (reached, named) (once.never q items)))
      t e

pub repeated :
    (s t : Store) (ctx : Context) (id k : String) (v : Json) (b : ItemInput)
    → update_candidate s ctx id k v b ≡ ok t
    → update_candidate t ctx id k v b ≡ err version_conflict
unfolding update_candidate
repeated s t ctx id k v b e =
    let P : Result Problem Store → Type 0 = λ x. x ≡ err version_conflict in
    bind-both P (amount_field v false) _ _ _ t refl e (λ n h e.
      bind-both P (text_field b.merchant 200) _ _ _ t refl e (λ m h e.
        bind-both P (text_field b.category 40) _ _ _ t refl e (λ c h e.
          bind-both P (amount_field b.amount false) _ _ _ t refl e (λ a h e.
            bind-both P (payment_source_of b.payment_source) _ _ _ t refl e (λ p h e.
              bind-both P (optional_text b.note 1000) _ _ _ t refl e (λ o h e.
                change_candidate-again s ctx id k n (updated_item m c a p o) (λ i. refl) t e))))))
