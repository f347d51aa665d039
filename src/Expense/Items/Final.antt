-- ===== src/Expense/Items/Final.antt =====
-- Sequences of the four operations on items: what is confirmed or excluded stays so. The corrections of
-- a closed day by a manager, Cash/Entry, are no operations of this kind.
use Prim.Native.String.{String}
use text.Mathlib.TextEquality.{eq_iff}
use hanamaru_shientool_prod.Prelude.{
  ℕ, ◌≤◌, Bool, true, false, Option, none, some, List, [], ◌∷◌, is_some, Result, ok, err, ◌≡◌, ◌≢◌,
  refl, sym, ap, ◌∙◌, subst, inl, inr, All, Bool-cases, some-eq-some, arith,
}
use hanamaru_shientool_prod.Prelude.Text.{str_eq}
use hanamaru_shientool_prod.Prelude.Maps.{get, put, get-put, All-put, get-All}
use hanamaru_shientool_prod.Json.{Json}
use hanamaru_shientool_prod.Expense.{
  Problem, Context, Item, ItemStatus, PaymentSource, EntrySource, Store, text_field, amount_field,
  optional_text, own_day, confirmed, excluded, denied,
}
use hanamaru_shientool_prod.Expense.Items.{
  ItemInput, is_candidate, matches, change_candidate, confirmed_item, excluded_item, updated_item,
  inserted, new_item, add_item, confirm_item, update_candidate, exclude_candidate,
  payment_source_of, entry_source_of,
}
use hanamaru_shientool_prod.Expense.Items.Changes.{
  Always, bind-Always, ok_injective, own_day-items, Changes, change_candidate-Changes,
}

-- An amount of 1 to a thousand million yen, and a reason exactly where the item is excluded.
abbrev is_excluded : ItemStatus → Bool
is_excluded excluded = true
is_excluded _ = false

abbrev is_confirmed : ItemStatus → Bool
is_confirmed confirmed = true
is_confirmed _ = false

pub record Valid (i : Item) : Type 0 where
  pub least : 1 ≤ i.amount
  pub most : i.amount ≤ 1000000000
  pub reason : is_some i.excluded_reason ≡ is_excluded i.status
  pub confirmer : is_some i.confirmed_by ≡ is_confirmed i.status

-- What every operation keeps: settled items stay as they are, and items stay valid.
pub record Keeps (s t : Store) : Type 0 where
  pub settled :
      (k : String) (i : Item)
      → get k s.items ≡ some i
      → is_candidate i.status ≡ false
      → get k t.items ≡ some i
  pub valid :
      All (λ (e : String × Item). Valid e.1) s.items
      → All (λ (e : String × Item). Valid e.1) t.items

candidate_of :
    (i : Item) (day_id : String) (n : ℕ) → matches i day_id n ≡ true → is_candidate i.status ≡ true
candidate_of i day_id n e = ground arith

get-put_other :
    (k id : String) (i j : Item) (m : List (String × Item))
    → get k m ≡ some i
    → str_eq id k ≡ false
    → get k (put id j m) ≡ some i
get-put_other k id i j m g d = get-put id k j m ∙ rw d g

clash :
    (a b : Item) (day_id : String) (n : ℕ)
    → matches a day_id n ≡ true
    → is_candidate b.status ≡ false
    → a ≢ b
clash a b day_id n m f e =
    let t = subst (λ x. is_candidate x.status ≡ true) e (candidate_of a day_id n m) in
    absurd (ground (arith, t, f))

Changes-Keeps :
    (s t : Store) (day_id id : String) (n : ℕ) (f : Item → Item)
    → ((i : Item) → is_candidate i.status ≡ true → Valid i → Valid (f i))
    → Changes s day_id id n f t
    → Keeps s t
Changes-Keeps s t day_id id n f v c = record {
  settled = λ k i g settled.
      subst (λ m. get k m ≡ some i) (sym c.items)
        (elim (Bool-cases (str_eq id k)) [
          | inr other ↦ get-put_other k id i (f c.item) s.items g other
          | inl same ↦
              let one : id ≡ k = (eq_iff id k).0 same in
              let two : some c.item ≡ some i = sym c.found ∙ ap (λ x. get x s.items) one ∙ g in
              absurd (clash c.item i day_id n c.matching settled (some-eq-some two))
        ]);
  valid = λ all. subst (All (λ (e : String × Item). Valid e.1)) (sym c.items) (
      All-put Valid id (f c.item) s.items
        (v c.item (candidate_of c.item day_id n c.matching)
          (get-All Valid id c.item s.items all c.found))
        all);
}

amount_field-range : (v : Json) (n : ℕ) → amount_field v false ≡ ok n → (1 ≤ n) × (n ≤ 1000000000)
unfolding amount_field
amount_field-range v n e = ground arith

confirmed_item-Valid :
    (ctx : Context) (i : Item)
    → is_candidate i.status ≡ true
    → Valid i
    → Valid (confirmed_item ctx i)
confirmed_item-Valid ctx i c v =
    let r = v.reason in
    record { least = v.least; most = v.most; reason = ground (arith, r); confirmer = refl }

excluded_item-Valid :
    (reason : String) (i : Item)
    → is_candidate i.status ≡ true
    → Valid i
    → Valid (excluded_item reason i)
excluded_item-Valid reason i c v =
    let r = v.confirmer in
    record { least = v.least; most = v.most; reason = refl; confirmer = ground (arith, r) }

updated_item-Valid :
    (m c : String) (n : ℕ) (p : PaymentSource) (o : Option String)
    → (1 ≤ n) × (n ≤ 1000000000)
    → (i : Item) → is_candidate i.status ≡ true
    → Valid i
    → Valid (updated_item m c n p o i)
updated_item-Valid m c n p o (low, high) i t v = record {
  least = low;
  most = high;
  reason = v.reason;
  confirmer = v.confirmer;
}

new_item-Valid :
    (id : String) (ctx : Context) (m c : String) (n : ℕ) (p : PaymentSource) (e : EntrySource)
    (o : Option String)
    → (1 ≤ n) × (n ≤ 1000000000)
    → Valid (new_item id ctx m c n p e o)
new_item-Valid id ctx m c n p e o (low, high) = record {
  least = low;
  most = high;
  reason = refl;
  confirmer = refl;
}

change_candidate-Keeps :
    (s : Store) (ctx : Context) (day_id id : String) (n : ℕ) (f : Item → Item)
    → ((i : Item) → is_candidate i.status ≡ true → Valid i → Valid (f i))
    → Always (Keeps s) (change_candidate s ctx day_id id n f)
change_candidate-Keeps s ctx day_id id n f v t e =
    Changes-Keeps s t day_id id n f v (change_candidate-Changes s ctx day_id id n f t e)

none-some : {A : Type 0} {a : A} → none ≢ some a
none-some e = absurd (ground arith)

inserted-Keeps :
    (s r : Store) (id : String) (o : Option Item) (j : Item)
    → r.items ≡ s.items
    → get id r.items ≡ o
    → Valid j
    → Always (Keeps s) (inserted r id o j)
inserted-Keeps s r id (some old) j same g v t e = absurd (ground arith)
inserted-Keeps s r id none j same g v t e =
    let result : t.items ≡ put id j s.items =
      ap (λ y. y.items) (sym (ok_injective e)) ∙ ap (put id j) same in
    record {
      settled = λ k i found settled.
          subst (λ m. get k m ≡ some i) (sym result)
            (elim (Bool-cases (str_eq id k)) [
              | inr other ↦ get-put_other k id i j s.items found other
              | inl one ↦
                  let absent : get id s.items ≡ none = ap (get id) (sym same) ∙ g in
                  let here : get id s.items ≡ some i =
                    ap (λ x. get x s.items) ((eq_iff id k).0 one) ∙ found in
                  absurd (none-some (sym absent ∙ here))
            ]);
      valid = λ all.
          subst (All (λ (e : String × Item). Valid e.1)) (sym result)
            (All-put Valid id j s.items v all);
    }

-- One of the four operations of ExpenseService on items, with the arguments of its request.
pub data Operation : Type 0 where
  add : Bool → String → Context → String → ItemInput → Operation
  confirm : Context → String → String → Json → Operation
  update : Context → String → String → Json → ItemInput → Operation
  exclude : Context → String → String → Json → Json → Operation

abbrev pub perform : Operation → Store → Result Problem Store
perform (add production new_id ctx id b) s = add_item production new_id s ctx id b
perform (confirm ctx id item_id version) s = confirm_item s ctx id item_id version
perform (update ctx id item_id version b) s = update_candidate s ctx id item_id version b
perform (exclude ctx id item_id version reason) s =
    exclude_candidate s ctx id item_id version reason

perform-Keeps : (op : Operation) (s : Store) → Always (Keeps s) (perform op s)
unfolding add_item confirm_item update_candidate exclude_candidate
perform-Keeps (confirm ctx id item_id version) s t e =
    bind-Always (Keeps s) (amount_field version false) _
      (λ n h.
        change_candidate-Keeps s ctx id item_id n (confirmed_item ctx) (confirmed_item-Valid ctx))
      t e
perform-Keeps (exclude ctx id item_id version reason) s t e =
    bind-Always (Keeps s) (amount_field version false) _
      (λ n h. bind-Always (Keeps s) (text_field reason 1000) _ (λ r h'.
        change_candidate-Keeps s ctx id item_id n (excluded_item r) (excluded_item-Valid r)))
      t e
perform-Keeps (update ctx id item_id version b) s t e =
    bind-Always (Keeps s) (amount_field version false) _
      (λ n h. bind-Always (Keeps s) (text_field b.merchant 200) _ (λ m h.
        bind-Always (Keeps s) (text_field b.category 40) _ (λ c h.
          bind-Always (Keeps s) (amount_field b.amount false) _ (λ a ha.
            bind-Always (Keeps s) (payment_source_of b.payment_source) _ (λ p h.
              bind-Always (Keeps s) (optional_text b.note 1000) _ (λ o h.
                change_candidate-Keeps s ctx id item_id n (updated_item m c a p o)
                  (updated_item-Valid m c a p o (amount_field-range b.amount a ha))))))))
      t e
perform-Keeps (add production new_id ctx id b) s t e =
    bind-Always (Keeps s) (text_field b.merchant 200) _
      (λ m h. bind-Always (Keeps s) (text_field b.category 40) _ (λ c h.
        bind-Always (Keeps s) (amount_field b.amount false) _ (λ a ha.
          bind-Always (Keeps s) (payment_source_of b.payment_source) _ (λ p h.
            bind-Always (Keeps s) (entry_source_of b.entry_source production) _ (λ y h.
              bind-Always (Keeps s) (optional_text b.note 1000) _ (λ o h.
                bind-Always (Keeps s) (own_day s ctx id denied) _ (λ r h.
                  inserted-Keeps s r.0 new_id (get new_id r.0.items) (new_item id ctx m c a p y o)
                    (own_day-items s ctx id denied r h) refl
                    (new_item-Valid id ctx m c a p y o (amount_field-range b.amount a ha)))))))))
      t e

-- A transaction that throws leaves the store as it was.
abbrev settle : Store → Result Problem Store → Store
settle s (ok t) = t
settle s (err e) = s

unfoldable pub run : List Operation → Store → Store
run [] s = s
run (op ∷ ops) s = run ops (settle s (perform op s))

settle-Keeps : (s : Store) (x : Result Problem Store) → Always (Keeps s) x → Keeps s (settle s x)
settle-Keeps s (ok t) h = h t refl
settle-Keeps s (err e) h = record { settled = λ k i g c. g; valid = λ a. a }

-- Through any sequence of addItem, confirmItem, updateCandidate and excludeCandidate by anyone, with the
-- failed ones in between: an item that is confirmed or excluded is not changed, and if every item is valid before (an amount from 1 to
-- a thousand million, a reason exactly where it is excluded, a confirmer exactly where it is
-- confirmed), every item is valid after.
pub run-Keeps : (ops : List Operation) (s : Store) → Keeps s (run ops s)
unfolding run
run-Keeps [] s = record { settled = λ k i g c. g; valid = λ a. a }
run-Keeps (op ∷ ops) s =
    let first = settle-Keeps s (perform op s) (perform-Keeps op s) in
    let rest = run-Keeps ops (settle s (perform op s)) in
    record {
      settled = λ k i g c. rest.settled k i (first.settled k i g c) c;
      valid = λ all. rest.valid (first.valid all);
    }
