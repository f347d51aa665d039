-- ===== src/Soldgraph/Ledger/Budget.antt =====
-- What `soldgraphBudgetHeld` of packages/market-price/src/soldgraph-workflow.ts counts.
use hanamaru_shientool_prod.Prelude.{
  ℕ, ◌≤◌, ◌≡◌, eq_refl, refl, subst, sym, ◌∙◌, ap, ◌⊎◌, inl, inr, Option, none, some, List, [], ◌∷◌,
  arith, String, Result, ok, err, Bool-cases, some-eq-some, eq_iff, All,
}
use mathlib.Core.List.{Memᴰ}
use hanamaru_shientool_prod.Prelude.Maps.{get, put, get-put, IsUnique, put-IsUnique}
use hanamaru_shientool_prod.Prelude.Text.{str_eq}
use hanamaru_shientool_prod.Contracts.{Checkpoint}
use hanamaru_shientool_prod.Soldgraph.Workflow.{Problem}
use hanamaru_shientool_prod.Soldgraph.Ledger.{enter, note, latest, owned, budget_held, total, ◌>>=◌}

pub ok-injective : {A : Type 0} {a b : A} → ◌≡◌ {A = Result Problem A} (ok a) (ok b) → a ≡ b
ok-injective e = cc

pub >>=-eq-ok :
    {A B : Type 0} (r : Result Problem A) (f : A → Result Problem B) {b : B}
    → (r >>= f) ≡ ok b
    → (a : A) × (r ≡ ok a) × (f a ≡ ok b)
>>=-eq-ok (ok a) f e = (a, refl, e)
>>=-eq-ok (err x) f e = cc

-- An entry of this operation that is at least as new.
abbrev pub Covers : List (String × Checkpoint) → Checkpoint → Type 0
Covers m c = (p : Checkpoint) × (get c.operation_key m ≡ some p) × (c.version ≤ p.version)

-- The entry of an operation, if it has one, is no newer than the checkpoint.
abbrev IsNewer : Option Checkpoint → Checkpoint → Type 0
IsNewer none c = Unit
IsNewer (some p) c = p.version ≤ c.version

newer_of :
    (o : Option Checkpoint) (c q : Checkpoint) → IsNewer o c → o ≡ some q → q.version ≤ c.version
newer_of none c q n e = cc
newer_of (some p) c q n e = ground arith

put-Covers_self :
    (m : List (String × Checkpoint)) (c : Checkpoint) → Covers (put c.operation_key c m) c
put-Covers_self m c =
    (c, get-put c.operation_key c.operation_key c m ∙ rw (eq_refl c.operation_key), omega arith)

put-Covers :
    (m : List (String × Checkpoint)) (c d : Checkpoint)
    → IsNewer (get c.operation_key m) c
    → Covers m d
    → Covers (put c.operation_key c m) d
put-Covers m c d n (q, e, v) = elim (Bool-cases (str_eq c.operation_key d.operation_key)) [
  | inl same ↦
      let key : c.operation_key ≡ d.operation_key = (eq_iff _ _).0 same in
      let older = newer_of (get c.operation_key m) c q n (ap (λ k. get k m) key ∙ e) in
      (c, get-put c.operation_key d.operation_key c m ∙ rw same, omega arith)
  | inr other ↦ (q, get-put c.operation_key d.operation_key c m ∙ rw other e, v)
]

abbrev IsOlder : Option Checkpoint → Checkpoint → Type 0
IsOlder none c = ⊥
IsOlder (some p) c = c.version ≤ p.version

Covers-get :
    (o : Option Checkpoint) (m : List (String × Checkpoint)) (c : Checkpoint)
    → get c.operation_key m ≡ o
    → IsOlder o c
    → Covers m c
Covers-get none m c e h = absurd h
Covers-get (some p) m c e h = (p, e, h)

module _ (json : Checkpoint → String) where
  -- A round that goes through puts a newer checkpoint, or keeps an entry that is as new.
  enter_cases :
      (m m' : List (String × Checkpoint)) (c : Checkpoint) (o : Option Checkpoint)
      → enter json m c o ≡ ok m'
      → ((m' ≡ put c.operation_key c m) × IsNewer o c) ⊎ ((m' ≡ m) × IsOlder o c)
  unfolding enter
  enter_cases m m' c none e = ground arith
  enter_cases m m' c (some p) e = grind arith

  note-Covers :
      (m m' : List (String × Checkpoint)) (c : Checkpoint)
      → note json m c ≡ ok m'
      → Covers m' c × ((d : Checkpoint) → Covers m d → Covers m' d)
  unfolding note
  note-Covers m m' c e = elim (enter_cases m m' c (get c.operation_key m) e) [
    | inl (same, newer) ↦ rw same (put-Covers_self m c, λ d. put-Covers m c d newer)
    | inr (same, older) ↦ rw same (Covers-get (get c.operation_key m) m c refl older, λ d h. h)
  ]

  latest-Covers :
      (m m' : List (String × Checkpoint)) (cs : List Checkpoint)
      → latest json m cs ≡ ok m'
      → All (Covers m') cs × ((d : Checkpoint) → Covers m d → Covers m' d)
  unfolding latest
  latest-Covers m m' [] e = (tt, λ d h. subst (λ x. Covers x d) (ok-injective e) h)
  latest-Covers m m' (c ∷ cs) e =
      let (next, first, rest) = >>=-eq-ok (note json m c) (λ x. latest json x cs) e in
      let (here, kept) = note-Covers m next c first in
      let (others, later) = latest-Covers next m' cs rest in
      ((later c here, others), λ d h. later d (kept d h))

latest-IsUnique :
    (json : Checkpoint → String) (m m' : List (String × Checkpoint)) (cs : List Checkpoint)
    → IsUnique m
    → latest json m cs ≡ ok m'
    → IsUnique m'
unfolding latest note
latest-IsUnique json m m' [] one e = subst IsUnique (ok-injective e) one
latest-IsUnique json m m' (c ∷ cs) one e =
    let (next, first, rest) = >>=-eq-ok (note json m c) (λ x. latest json x cs) e in
    elim (enter_cases json m next c (get c.operation_key m) first) [
      | inl (same, newer) ↦
          latest-IsUnique json next m' cs
            (subst IsUnique (sym same) (put-IsUnique c.operation_key c m one)) rest
      | inr (same, older) ↦ latest-IsUnique json next m' cs (subst IsUnique (sym same) one) rest
    ]

-- An entry is a checkpoint of the list, under its own key.
abbrev pub IsFrom : List Checkpoint → List (String × Checkpoint) → Type 0
IsFrom cs m = (k : String) (p : Checkpoint) → get k m ≡ some p → Memᴰ p cs × (p.operation_key ≡ k)

put-IsFrom :
    (cs : List Checkpoint) (m : List (String × Checkpoint)) (c : Checkpoint)
    → Memᴰ c cs
    → IsFrom cs m
    → IsFrom cs (put c.operation_key c m)
put-IsFrom cs m c here from k p e = elim (Bool-cases (str_eq c.operation_key k)) [
  | inl same ↦
      let found : c ≡ p = some-eq-some (rw same at (sym (get-put c.operation_key k c m) ∙ e)) in
      (
        subst (λ x. Memᴰ x cs) found here,
        ap (λ x. x.operation_key) (sym found) ∙ (eq_iff c.operation_key k).0 same,
      )
  | inr other ↦ from k p (rw other at (sym (get-put c.operation_key k c m) ∙ e))
]

module _ (json : Checkpoint → String) (all : List Checkpoint) where
  latest-IsFrom :
      (m m' : List (String × Checkpoint)) (cs : List Checkpoint)
      → ((p : Checkpoint) → Memᴰ p cs → Memᴰ p all)
      → IsFrom all m
      → latest json m cs ≡ ok m'
      → IsFrom all m'
  unfolding latest note
  latest-IsFrom m m' [] within from e = subst (IsFrom all) (ok-injective e) from
  latest-IsFrom m m' (c ∷ cs) within from e =
      let (next, first, rest) = >>=-eq-ok (note json m c) (λ x. latest json x cs) e in
      let tail = λ (p : Checkpoint) (t : Memᴰ p cs). within p (Memᴰ.tail t) in
      elim (enter_cases json m next c (get c.operation_key m) first) [
        | inl (same, newer) ↦
            latest-IsFrom next m' cs tail
              (subst (IsFrom all) (sym same) (put-IsFrom all m c (within c (Memᴰ.head refl)) from))
              rest
        | inr (same, older) ↦
            latest-IsFrom next m' cs tail (subst (IsFrom all) (sym same) from) rest
      ]

-- The budget is the sum over entries of which no two have the same key: every entry is a checkpoint of
-- the ledger under its own operation key, and every checkpoint of the ledger has an entry of its
-- operation that is at least as new.
pub budget_held-newest :
    (json : Checkpoint → String) (cs : List Checkpoint) (n : ℕ)
    → budget_held json cs ≡ ok n
    → (m : List (String × Checkpoint)) × (latest json [] cs ≡ ok m)
      × (n ≡ total m)
      × IsUnique m
      × All (Covers m) cs
      × IsFrom cs m
unfolding budget_held
budget_held-newest json cs n e =
    let (m, found, rest) =
      >>=-eq-ok (latest json [] cs) (λ seen. owned [] seen >>= λ owners. ok (total seen)) e in
    let (owners, fair, sum) = >>=-eq-ok (owned [] m) (λ owners. ok (total m)) rest in
    (
      m,
      found,
      sym (ok-injective sum),
      latest-IsUnique json [] m cs none_twice found,
      (latest-Covers json [] m cs found).0,
      latest-IsFrom json cs [] m cs (λ p t. t) (λ k p f. absurd (empty k p f)) found,
    )
  where
    none_twice : IsUnique {V = Checkpoint} []
    none_twice = unfold IsUnique in tt

    empty : (k : String) (p : Checkpoint) → get k [] ≡ some p → ⊥
    empty k p f = unfold get in cc
