-- ===== src/Soldgraph/Ledger/Owners.antt =====
-- A request ID belongs to one operation: `soldgraphBudgetHeld` of
-- packages/market-price/src/soldgraph-workflow.ts.
use hanamaru_shientool_prod.Prelude.{
  ℕ, ◌≡◌, refl, sym, ◌∙◌, ap, some-eq-some, ◌⊎◌, inl, inr, Option, none, some, List, [], ◌∷◌, arith,
  String, ok, Bool-cases, Option-cases, eq_iff, All,
}
use hanamaru_shientool_prod.Prelude.Maps.{get, put, get-put, get-All}
use hanamaru_shientool_prod.Prelude.Text.{str_eq}
use hanamaru_shientool_prod.Contracts.{Checkpoint}
use hanamaru_shientool_prod.Soldgraph.Ledger.{latest, own, owned, budget_held, total, ◌>>=◌}
use hanamaru_shientool_prod.Soldgraph.Ledger.Budget.{ok-injective, >>=-eq-ok}

-- The owner on record of the checkpoint's request ID, if it has one.
abbrev Owns : List (String × String) → Checkpoint → Type 0
Owns owners c = (id : String) → c.request_id ≡ some id → get id owners ≡ some c.operation_key

-- What is on record stays on record.
abbrev Grows : List (String × String) → List (String × String) → Type 0
Grows o o' = (id k : String) → get id o ≡ some k → get id o' ≡ some k

put-Grows : (id k : String) (o : List (String × String)) → get id o ≡ none → Grows o (put id k o)
put-Grows id k o fresh j v e = elim (Bool-cases (str_eq id j)) [
  | inl same ↦
      let gone : get j o ≡ none = ap (λ x. get x o) (sym ((eq_iff id j).0 same)) ∙ fresh in cc
  | inr other ↦ get-put id j k o ∙ rw other e
]

put_same-Grows :
    (id k : String) (o : List (String × String)) → get id o ≡ some k → Grows o (put id k o)
put_same-Grows id k o old j v e = elim (Bool-cases (str_eq id j)) [
  | inl same ↦ get-put id j k o ∙ rw same (sym old ∙ (ap (λ x. get x o) ((eq_iff id j).0 same) ∙ e))
  | inr other ↦ get-put id j k o ∙ rw other e
]

own_cases :
    (o o' : List (String × String)) (c : Checkpoint) (r : Option String)
    → c.request_id ≡ r
    → own o c ≡ ok o'
    → ((r ≡ none) × (o' ≡ o))
      ⊎ ((id : String) × (r ≡ some id)
          × (o' ≡ put id c.operation_key o)
          × ((get id o ≡ none) ⊎ (get id o ≡ some c.operation_key)))
unfolding own
own_cases o o' c none i e = inl (refl, ground arith)
own_cases o o' c (some id) i e = elim (Option-cases (get id o)) [
  | inl fresh ↦ inr (id, refl, ground arith, inl fresh)
  | inr (k, old) ↦ elim (Bool-cases (str_eq k c.operation_key)) [
    | inl same ↦
        inr (id, refl, ground arith, inr (old ∙ ap some ((eq_iff k c.operation_key).0 same)))
    | inr other ↦ absurd (ground arith)
  ]
]

owner_put :
    (o o' : List (String × String)) (c : Checkpoint) (id j : String)
    → c.request_id ≡ some id
    → o' ≡ put id c.operation_key o
    → c.request_id ≡ some j
    → get j o' ≡ some c.operation_key
owner_put o o' c id j has same i =
    let key : id ≡ j = some-eq-some (sym has ∙ i) in
    ap (get j) same ∙ (get-put id j c.operation_key o ∙ rw ((eq_iff id j).1 key) refl)

own_found :
    (o o' : List (String × String)) (c : Checkpoint) → own o c ≡ ok o' → Owns o' c × Grows o o'
own_found o o' c e = elim (own_cases o o' c c.request_id refl e) [
  | inl (without, same) ↦ (λ id i. cc, λ id k f. ap (get id) same ∙ f)
  | inr (id, has, same, inl fresh) ↦ (
    λ j i. owner_put o o' c id j has same i,
    λ j k f. ap (get j) same ∙ put-Grows id c.operation_key o fresh j k f,
  )
  | inr (id, has, same, inr old) ↦ (
    λ j i. owner_put o o' c id j has same i,
    λ j k f. ap (get j) same ∙ put_same-Grows id c.operation_key o old j k f,
  )
]

owned_found :
    (o o' : List (String × String)) (m : List (String × Checkpoint))
    → owned o m ≡ ok o'
    → All (λ e. Owns o' e.1) m × Grows o o'
unfolding owned
owned_found o o' [] e = (tt, λ id k f. ap (get id) (sym (ok-injective e)) ∙ f)
owned_found o o' ((k, c) ∷ m) e =
    let (next, first, rest) = >>=-eq-ok (own o c) (λ x. owned x m) e in
    let (here, kept) = own_found o next c first in
    let (others, later) = owned_found next o' m rest in
    ((λ id i. later id c.operation_key (here id i), others), λ id j f. later id j (kept id j f))

-- Where the budget is computed at all, no two operations of the ledger share a request ID: two
-- entries with the same request ID are of the same operation.
pub budget_held-owned :
    (json : Checkpoint → String) (cs : List Checkpoint) (n : ℕ)
    → budget_held json cs ≡ ok n
    → (m : List (String × Checkpoint)) × (latest json [] cs ≡ ok m)
      × ((j k id : String) (c d : Checkpoint)
          → get j m ≡ some c
          → get k m ≡ some d
          → c.request_id ≡ some id
          → d.request_id ≡ some id
          → c.operation_key ≡ d.operation_key)
unfolding budget_held
budget_held-owned json cs n e =
    let (m, found, rest) =
      >>=-eq-ok (latest json [] cs) (λ seen. owned [] seen >>= λ owners. ok (total seen)) e in
    let (owners, fair, sum) = >>=-eq-ok (owned [] m) (λ owners. ok (total m)) rest in
    let all = (owned_found [] owners m fair).0 in
    (
      m,
      found,
      λ j k id c d ec ed ic id'. some-eq-some (
          sym (get-All (Owns owners) j c m all ec id ic)
          ∙ get-All (Owns owners) k d m all ed id id'),
    )
