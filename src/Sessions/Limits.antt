-- ===== src/Sessions/Limits.antt =====
-- How many sessions are stored, and under which keys.
use Prim.Native.String.{String}
use text.Mathlib.TextEquality.{eq_iff}
use hanamaru_shientool_prod.Prelude.{
  ℕ, ◌+◌, ◌≤◌, ◌<◌, Bool, true, false, not, Option, none, some, List, [], ◌∷◌, keep, length,
  length-keep, ltb, leb, is_some, if◌then◌else◌, Result, ok, err, ◌≡◌, refl, sym, ◌∙◌, subst,
  Bool-cases, inl, inr, arith,
}
use hanamaru_shientool_prod.Prelude.Maps.{get, put, get-put, length-put_known}
use hanamaru_shientool_prod.Prelude.Text.{str_eq}
use hanamaru_shientool_prod.Sessions.{
  StoredSession, Crypto, Row, Ring, unseal, create, replace, remove, attempt, attempted, Rows,
  inserted, row_of, Failure, live, without, tried, is_at, ◌>>=◌,
}

module _ (x : Crypto) (r : Ring) where
  -- The calls on the store: each at a moment, with the initial vector it draws.
  pub data Call : Type 0 where
    creating : ℕ → String → String → StoredSession → Call
    replacing : ℕ → String → String → ℕ → String → StoredSession → Call
    removing : String → Call
    attempting : ℕ → String → String → Call

  abbrev rows_after : Rows x r → Result Failure (Rows x r × Bool) → Rows x r
  rows_after rows (ok t) = t.0
  rows_after rows (err e) = rows

  -- The rows after a call; a transaction that fails leaves them as they were.
  unfoldable pub step : Call → Rows x r → Rows x r
  step (creating now iv key value) rows = rows_after rows (create x r now iv key value rows)
  step (replacing now iv key version next value) rows =
      rows_after rows (replace x r now iv key version next value rows)
  step (removing key) rows = remove x r key rows
  step (attempting now iv key) rows = rows_after rows (attempt x r now iv key rows)

  unfoldable pub run : List Call → Rows x r → Rows x r
  run [] rows = rows
  run (c ∷ cs) rows = run cs (step c rows)

  -- No key has two rows.
  unfoldable pub HasOnce : Rows x r → Type 0
  HasOnce [] = Unit
  HasOnce ((key, row) ∷ rows) = (get key rows ≡ none) × HasOnce rows

  pub record IsBounded (rows : Rows x r) : Type 0 where
    pub bound : length rows ≤ r.capacity
    pub once : HasOnce rows

  get-kept :
      (p : String × Row → Bool) (key : String) (rows : Rows x r)
      → get key rows ≡ none
      → get key (keep p rows) ≡ none
  unfolding get
  get-kept p key [] e = refl
  get-kept p key ((j, row) ∷ rows) e = ground (arith, get-kept p key rows)

  HasOnce-keep : (p : String × Row → Bool) (rows : Rows x r) → HasOnce rows → HasOnce (keep p rows)
  unfolding HasOnce
  HasOnce-keep p [] h = tt
  HasOnce-keep p ((j, row) ∷ rows) (alone, h) = elim (Bool-cases (p (j, row))) [
    | inl kept ↦ rw kept (get-kept p j rows alone, HasOnce-keep p rows h)
    | inr gone ↦ rw gone (HasOnce-keep p rows h)
  ]

  HasOnce-put :
      (key : String) (row : Row) (rows : Rows x r) → HasOnce rows → HasOnce (put key row rows)
  unfolding HasOnce put get
  HasOnce-put key row [] h = (refl, tt)
  HasOnce-put key row ((j, old) ∷ rows) (alone, h) = elim (Bool-cases (str_eq j key)) [
    | inl same ↦ rw same (alone, h)
    | inr other ↦ rw other (
      (get-put key j row rows ∙ ground (arith, other, alone, eq_iff key j, eq_iff j key)),
      HasOnce-put key row rows h,
    )
  ]

  length-without :
      (key : String) (rows : Rows x r)
      → is_some (get key rows) ≡ true
      → length (without x r key rows) < length rows
  unfolding get
  length-without key [] e = absurd (ground (arith, e))
  length-without key ((j, old) ∷ rows) e =
      let fewer = length-keep (λ (t : String × Row). not (str_eq t.0 key)) rows in
      ground (arith, fewer, length-without key rows)

  kept-IsBounded :
      (p : String × Row → Bool) (rows : Rows x r) → IsBounded rows → IsBounded (keep p rows)
  kept-IsBounded p rows h =
      let fewer = length-keep p rows in
      let low = h.bound in record { bound = omega arith; once = HasOnce-keep p rows h.once }

  inserted-IsBounded :
      (key : String) (row : Row) (rows old : Rows x r) (o : Option Row)
      → IsBounded old
      → get key rows ≡ o
      → HasOnce rows
      → length rows < r.capacity
      → IsBounded (rows_after old (inserted x r key row rows o))
  unfolding HasOnce
  inserted-IsBounded key row rows old none h e once room = record {
    bound = ground (arith, room);
    once = (e, once);
  }
  inserted-IsBounded key row rows old (some _) h e once room = h

  created-IsBounded :
      (full : Bool) (kept old : Rows x r) (added : Result Failure (Rows x r × Bool))
      → IsBounded kept
      → (full ≡ false → IsBounded (rows_after old added))
      → IsBounded (rows_after old (if full then ok (kept, false) else added))
  created-IsBounded true kept old added h g = h
  created-IsBounded false kept old added h g = g refl

  replaced-IsBounded :
      (known : Bool) (rows : Rows x r) (added : Result Failure (Rows x r × Bool))
      → IsBounded rows
      → (known ≡ true → IsBounded (rows_after rows added))
      → IsBounded (rows_after rows (if known then added else ok (rows, false)))
  replaced-IsBounded false rows added h g = h
  replaced-IsBounded true rows added h g = g refl

  is_some-at :
      (now version : ℕ) (o : Option Row) → is_at x r now version o ≡ true → is_some o ≡ true
  is_some-at now version none e = e
  is_some-at now version (some row) e = refl

  attempted-IsBounded :
      (iv key : String) (rows : Rows x r) (row : Row) (t : Result Failure StoredSession)
      → IsBounded rows
      → get key rows ≡ some row
      → IsBounded (rows_after rows (t >>= (λ v. ok (attempted x r iv key rows row v))))
  attempted-IsBounded iv key rows row (err e) h f = h
  attempted-IsBounded iv key rows row (ok value) h f = elim (Bool-cases (leb 5 value.attempts)) [
    | inl many ↦ rw many h
    | inr few ↦ rw few (record {
      bound = subst (λ n. n ≤ r.capacity) (sym (length-put_known key _ row rows f)) h.bound;
      once = HasOnce-put key _ rows h.once;
    })
  ]

  tried-IsBounded :
      (now : ℕ) (iv key : String) (rows : Rows x r) (o : Option Row)
      → IsBounded rows
      → get key rows ≡ o
      → IsBounded (rows_after rows (tried x r now iv key rows o))
  tried-IsBounded now iv key rows none h e = h
  tried-IsBounded now iv key rows (some row) h e = elim (Bool-cases (ltb now row.expires_at)) [
    | inl fresh ↦ rw fresh (attempted-IsBounded iv key rows row (unseal x r key row.encrypted) h e)
    | inr late ↦ rw late h
  ]

  step-IsBounded : (c : Call) (rows : Rows x r) → IsBounded rows → IsBounded (step c rows)
  unfolding step create replace remove attempt
  step-IsBounded (creating now iv key value) rows h =
      let kept = keep (live x r now) rows in
      let good = kept-IsBounded (live x r now) rows h in
      let row = row_of x r iv key 0 value in
      let added = inserted x r key row kept (get key kept) in
      created-IsBounded (leb r.capacity (length kept)) kept rows added good (λ room.
        inserted-IsBounded key row kept rows (get key kept) h refl good.once (ground (arith, room)))
  step-IsBounded (replacing now iv key version next value) rows h =
      let rest = without x r key rows in
      let row = row_of x r iv next (version + 1) value in
      let added = inserted x r next row rest (get next rest) in
      let known = is_at x r now version (get key rows) in
      replaced-IsBounded known rows added h (λ e.
        let fewer = length-without key rows (is_some-at now version (get key rows) e) in
        let low = h.bound in
        inserted-IsBounded next row rest rows (get next rest) h refl (HasOnce-keep _ rows h.once)
          (omega arith))
  step-IsBounded (removing key) rows h = kept-IsBounded _ rows h
  step-IsBounded (attempting now iv key) rows h =
      tried-IsBounded now iv key rows (get key rows) h refl

  run-from : (cs : List Call) (rows : Rows x r) → IsBounded rows → IsBounded (run cs rows)
  unfolding run
  run-from [] rows h = h
  run-from (c ∷ cs) rows h = run-from cs (step c rows) (step-IsBounded c rows h)

  -- After any calls on the empty store, no more sessions are stored than the capacity of the ring, and no
  -- key has two of them.
  pub run-IsBounded : (cs : List Call) → IsBounded (run cs [])
  unfolding HasOnce
  run-IsBounded cs = run-from cs [] (record { bound = omega arith; once = tt })
