-- ===== src/Expense/Items/Versions.antt =====
-- Two updates under one version.
use Prim.Native.String.{String}
use hanamaru_shientool_prod.Prelude.{
  ℕ, ◌+◌, false, some, ok, err, ◌≡◌, ◌≢◌, refl, sym, ap, ◌∙◌, some-eq-some, arith, eq_refl,
}
use hanamaru_shientool_prod.Prelude.Maps.{get, get-put}
use hanamaru_shientool_prod.Json.{Json}
use hanamaru_shientool_prod.Expense.{
  version_conflict, Context, Item, Store, text_field, amount_field, optional_text,
}
use hanamaru_shientool_prod.Expense.Items.{
  ItemInput, updated_item, update_candidate, payment_source_of,
}
use hanamaru_shientool_prod.Expense.Items.Repeats.{matching_version, repeated}
use hanamaru_shientool_prod.Expense.Items.Changes.{
  Always, bind-Always, ok_injective, Changes, change_candidate-Changes,
}

-- An update that succeeded: the version that it expected was the item's, and the next one is now.
record Updated (v : Json) (k : String) (s t : Store) : Type 0 where
  version : ℕ
  parsed : amount_field v false ≡ ok version
  old : Item
  found : get k s.items ≡ some old
  was : old.lock_version ≡ version
  new : Item
  stored : get k t.items ≡ some new
  is : new.lock_version ≡ version + 1

Changes-Updated :
    (v : Json) (s t : Store) (day_id k : String) (n : ℕ) (f : Item → Item)
    → amount_field v false ≡ ok n
    → ((i : Item) → (f i).lock_version ≡ i.lock_version + 1)
    → Changes s day_id k n f t
    → Updated v k s t
Changes-Updated v s t day_id k n f parsed next c =
    let m = c.matching in
    let was : c.item.lock_version ≡ n = matching_version c.item day_id n m in
    record {
      version = n;
      parsed = parsed;
      old = c.item;
      found = c.found;
      was = was;
      new = f c.item;
      stored = ap (get k) c.items ∙ (get-put k k (f c.item) s.items ∙ rw (eq_refl k) refl);
      is = next c.item ∙ ap (λ x. x + 1) was;
    }

update-Updated :
    (s : Store) (ctx : Context) (id k : String) (v : Json) (b : ItemInput)
    → Always (Updated v k s) (update_candidate s ctx id k v b)
unfolding update_candidate
update-Updated s ctx id k v b t e =
    bind-Always (Updated v k s) (amount_field v false) _
      (λ n parsed. bind-Always (Updated v k s) (text_field b.merchant 200) _ (λ m h.
        bind-Always (Updated v k s) (text_field b.category 40) _ (λ c h.
          bind-Always (Updated v k s) (amount_field b.amount false) _ (λ a h.
            bind-Always (Updated v k s) (payment_source_of b.payment_source) _ (λ p h.
              bind-Always (Updated v k s) (optional_text b.note 1000) _ (λ o h. λ t e.
                Changes-Updated v s t id k n (updated_item m c a p o) parsed (λ i. refl)
                  (change_candidate-Changes s ctx id k n (updated_item m c a p o) t e)))))))
      t e

never :
    (s t u : Store) (ctx ctx' : Context) (id id' k : String) (v : Json) (b b' : ItemInput)
    → update_candidate s ctx id k v b ≡ ok t
    → update_candidate t ctx' id' k v b' ≢ ok u
never s t u ctx ctx' id id' k v b b' e f =
    let x = update-Updated s ctx id k v b t e in
    let y = update-Updated t ctx' id' k v b' u f in
    let same : x.version ≡ y.version = ok_injective (sym x.parsed ∙ y.parsed) in
    let one : x.new ≡ y.old = some-eq-some (sym x.stored ∙ y.found) in
    let i = x.is in
    let w = y.was in
    let eq : x.new.lock_version ≡ y.old.lock_version = ap (λ z. z.lock_version) one in
    absurd (omega (arith, i, w, eq, same))

-- Where an update of a candidate succeeds, a further update by anyone that expects the same version of
-- it does not, and the same request made again is told of the conflict of versions.
pub update_once :
    (s t u : Store) (ctx ctx' : Context) (id id' k : String) (v : Json) (b b' : ItemInput)
    → update_candidate s ctx id k v b ≡ ok t
    → (update_candidate t ctx' id' k v b' ≢ ok u)
      × (update_candidate t ctx id k v b ≡ err version_conflict)
update_once s t u ctx ctx' id id' k v b b' e =
    (λ f. never s t u ctx ctx' id id' k v b b' e f, repeated s t ctx id k v b e)
