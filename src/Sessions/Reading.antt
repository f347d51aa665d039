-- ===== src/Sessions/Reading.antt =====
-- What `get` answers after `create`, `replace` and `attempt`.
use Prim.Native.String.{String}
use text.Mathlib.TextEquality.{eq_iff}
use hanamaru_shientool_prod.Prelude.{
  ℕ, ◌+◌, Bool, true, false, Option, none, some, List, [], ◌∷◌, keep, ltb, if◌then◌else◌, Result,
  ok, ◌≡◌, refl, subst, Bool-cases, inl, inr, arith,
}
use hanamaru_shientool_prod.Prelude.Text.{str_eq}
use hanamaru_shientool_prod.Prelude.Maps.{get}
use hanamaru_shientool_prod.Sessions.{
  StoredSession, Crypto, Row, Key, Ring, make, unseal, read, create, replace, attempt, Rows,
  inserted, row_of, Failure, live, without, is_at, attempted,
}
use hanamaru_shientool_prod.Sessions.Sealing.{Sound, make-IsChecked, unseal-seal}

-- The outcome of an INSERT that was made.
pub inserted-head :
    (x : Crypto) (r : Ring) (key : String) (row : Row) (rows after : Rows x r) (o : Option Row)
    (b : Bool)
    → inserted x r key row rows o ≡ ok (after, b)
    → (key, row) ∷ rows ≡ after
inserted-head x r key row rows after (some old) b e = absurd (ground arith)
inserted-head x r key row rows after none b e = ground arith

pub admitted :
    {A : Type 0} (b : Bool) (kept after : A) (added : Result Failure (A × Bool))
    → (if b then ok (kept, false) else added) ≡ ok (after, true)
    → (b ≡ false) × (added ≡ ok (after, true))
admitted true kept after added e = absurd (ground arith)
admitted false kept after added e = ground arith

replaced :
    {A : Type 0} (b : Bool) (kept after : A) (added : Result Failure (A × Bool))
    → (if b then added else ok (kept, false)) ≡ ok (after, true)
    → (b ≡ true) × (added ≡ ok (after, true))
replaced false kept after added e = absurd (ground arith)
replaced true kept after added e = ground arith

-- A row that was removed is not found.
get-without :
    (x : Crypto) (r : Ring) (key : String) (rows : Rows x r) → get key (without x r key rows) ≡ none
unfolding get
get-without x r key [] = refl
get-without x r key ((j, row) ∷ rows) = ground (arith, get-without x r key rows)

pub get-head :
    (key : String) (row : Row) (rows : List (String × Row)) → get key ((key, row) ∷ rows) ≡ some row
unfolding get
get-head key row rows = ground (arith, eq_iff key key)

get-tail :
    (key next : String) (row : Row) (rows : List (String × Row))
    → get key ((next, row) ∷ rows) ≡ (if str_eq next key then some row else get key rows)
unfolding get
get-tail key next row rows = refl

-- The row that took the place of a version has another one.
spent :
    (x : Crypto) (r : Ring) (moment version : ℕ) (key next : String) (row : Row) (rows : Rows x r)
    → row.version ≡ version + 1
    → is_at x r moment version (get key ((next, row) ∷ without x r key rows)) ≡ false
spent x r moment version key next row rows v = elim (Bool-cases (str_eq next key)) [
  | inl here ↦ rw (get-tail, here) (ground (arith, v))
  | inr away ↦ rw (get-tail, away, get-without x r key rows) refl
]

module _ (x : Crypto) (r s : Ring) where
  read_row :
      (later : ℕ) (key : String) (rows : Rows x r) (row : Row) (value : StoredSession)
      → get key rows ≡ some row
      → ltb later row.expires_at ≡ true
      → unseal x s key row.encrypted ≡ ok value
      → read x s later key rows ≡ ok (some (value, row.version))
  unfolding read
  read_row later key rows row value g t u = rw (g, t, u) refl

  module _ (sound : Sound x) (k : Key) (made : make k ≡ ok r)
      (same : get r.active_version s.keys ≡ get r.active_version r.keys) where
    read-sealed :
        (later : ℕ) (iv key : String) (version : ℕ) (value : StoredSession) (rows : Rows x r)
        → ltb later value.expires_at ≡ true
        → read x s later key ((key, row_of x r iv key version value) ∷ rows)
          ≡ ok (some (value, version))
    read-sealed later iv key version value rows t =
        read_row later key _ (row_of x r iv key version value) value
          (get-head key (row_of x r iv key version value) rows) t
          (unseal-seal x sound r s iv key value (make-IsChecked k r made) same)

    -- A session that was admitted is read until it expires, at version 0, also by a ring of later keys
    -- that holds the same secret for the version that sealed it.
    pub read-create :
        (now later : ℕ) (iv key : String) (value : StoredSession) (rows after : Rows x r)
        → create x r now iv key value rows ≡ ok (after, true)
        → ltb later value.expires_at ≡ true
        → read x s later key after ≡ ok (some (value, 0))
    unfolding create
    read-create now later iv key value rows after e t =
        let kept = keep (live x r now) rows in
        let row = row_of x r iv key 0 value in
        let (room, done) = admitted _ kept after _ e in
        subst (λ rs. read x s later key rs ≡ ok (some (value, 0)))
          (inserted-head x r key row kept after (get key kept) true done)
          (read-sealed later iv key 0 value kept t)

    -- A session that took the place of another is read under its new key until it expires, at the
    -- following version, also by a ring of later keys; and no other session takes the place of the
    -- version that it replaced.
    pub read-replace :
        (now later : ℕ) (iv key : String) (version : ℕ) (next : String) (value : StoredSession)
        (rows after : Rows x r)
        → replace x r now iv key version next value rows ≡ ok (after, true)
        → ltb later value.expires_at ≡ true
        → (read x s later next after ≡ ok (some (value, version + 1)))
          × ((moment : ℕ) (vector other : String) (late : StoredSession)
              → replace x r moment vector key version other late after ≡ ok (after, false))
    unfolding replace
    read-replace now later iv key version next value rows after e t =
        let rest = without x r key rows in
        let row = row_of x r iv next (version + 1) value in
        let (there, done) = replaced (is_at x r now version (get key rows)) rows after _ e in
        subst
          (λ (rs : Rows x r).
            (read x s later next rs ≡ ok (some (value, version + 1)))
            × ((moment : ℕ) (vector other : String) (late : StoredSession)
                → replace x r moment vector key version other late rs ≡ ok (rs, false)))
          (inserted-head x r next row rest after (get next rest) true done)
          (
            read-sealed later iv next (version + 1) value rest t,
            λ moment vector other late. rw (spent x r moment version key next row rows refl) refl,
          )

  pub attempt_row :
      (now : ℕ) (iv key : String) (rows : Rows x r) (row : Row) (value : StoredSession)
      → get key rows ≡ some row
      → ltb now row.expires_at ≡ true
      → unseal x r key row.encrypted ≡ ok value
      → attempt x r now iv key rows ≡ ok (attempted x r iv key rows row value)
  unfolding attempt
  attempt_row now iv key rows row value g t u = rw (g, t, u) refl
