-- ===== src/Sessions/Attempts.antt =====
-- How many attempts a session is given.
use Prim.Native.String.{String}
use hanamaru_shientool_prod.Prelude.{
  ℕ, suc, ◌+◌, ◌-◌, min, Bool, true, false, some, List, [], ◌∷◌, keep, length, All, ltb, leb,
  Result, ok, ◌≡◌, refl, ap, ◌∙◌, subst, Bool-cases, inl, inr, arith,
}
use hanamaru_shientool_prod.Prelude.Maps.{get, put, get-put}
use text.Mathlib.TextPositions.{eq_refl}
use hanamaru_shientool_prod.Sessions.{
  StoredSession, Crypto, Row, Key, Ring, make, seal, unseal, create, attempt, Rows, row_of, Failure,
  live, ◌>>=◌,
}
use hanamaru_shientool_prod.Sessions.Sealing.{Sound, IsChecked, make-IsChecked, unseal-seal}
use hanamaru_shientool_prod.Sessions.Reading.{attempt_row, inserted-head, admitted, get-head}

no_more : (n : ℕ) → 0 ≡ min 0 n
no_more n = omega arith

none_left : (n a : ℕ) → leb 5 a ≡ true → min n (5 - a) + 0 ≡ min (suc n) (5 - a)
none_left n a e = ground (arith, e)

one_more : (n a : ℕ) → leb 5 a ≡ false → min n (5 - (a + 1)) + 1 ≡ min (suc n) (5 - a)
one_more n a e = ground (arith, e)

module _ (x : Crypto) (r : Ring) where
  abbrev one_if : Bool → ℕ
  one_if true = 1
  one_if false = 0

  -- How many of the attempts at these moments, with these initial vectors, are granted.
  unfoldable pub granted : String → List (ℕ × String) → Rows x r → Result Failure ℕ
  granted key [] rows = ok 0
  granted key ((now, iv) ∷ moments) rows =
      attempt x r now iv key rows >>= (λ t. granted key moments t.0 >>= (λ n. ok (n + one_if t.1)))

  -- The row under a key is open to the ring, up to the moment it expires.
  record Holds (key : String) (rows : Rows x r) (value : StoredSession) (expiry : ℕ) : Type 0 where
    row : Row
    there : get key rows ≡ some row
    expires : row.expires_at ≡ expiry
    opens : unseal x r key row.encrypted ≡ ok value

  module _ (sound : Sound x) (c : IsChecked r) where
    attempt-Holds :
        (now : ℕ) (iv key : String) (rows : Rows x r) (value : StoredSession) (expiry : ℕ)
        → Holds key rows value expiry
        → ltb now expiry ≡ true
        → leb 5 value.attempts ≡ false
        → (after : Rows x r) × (attempt x r now iv key rows ≡ ok (after, true))
          × Holds key after (record value { attempts = value.attempts + 1 }) expiry
    attempt-Holds now iv key rows value expiry h t few =
        let counted : StoredSession = record value { attempts = value.attempts + 1 } in
        let row : Row = record h.row { encrypted = seal x r iv key counted } in
        (
          put key row rows,
          attempt_row x r r now iv key rows h.row value h.there (ground (arith, t, h.expires))
                h.opens
              ∙ rw few refl,
          record {
            row = row;
            there = get-put key key row rows ∙ rw (eq_refl key) refl;
            expires = h.expires;
            opens = unseal-seal x sound r r iv key counted c refl;
          },
        )

    attempt-full :
        (now : ℕ) (iv key : String) (rows : Rows x r) (value : StoredSession) (expiry : ℕ)
        → Holds key rows value expiry
        → ltb now expiry ≡ true
        → leb 5 value.attempts ≡ true
        → attempt x r now iv key rows ≡ ok (rows, false)
    attempt-full now iv key rows value expiry h t many =
        attempt_row x r r now iv key rows h.row value h.there (ground (arith, t, h.expires)) h.opens
        ∙ rw many refl

    granted-Holds :
        (key : String) (moments : List (ℕ × String)) (rows : Rows x r) (value : StoredSession)
        (expiry : ℕ)
        → Holds key rows value expiry
        → All (λ (m : ℕ × String). ltb m.0 expiry ≡ true) moments
        → granted key moments rows ≡ ok (min (length moments) (5 - value.attempts))
    unfolding granted
    granted-Holds key [] rows value expiry h a = ap ok (no_more (5 - value.attempts))
    granted-Holds key ((now, iv) ∷ moments) rows value expiry h (t, a) =
        elim (Bool-cases (leb 5 value.attempts)) [
          | inl many ↦
              rw
                (
                  attempt-full now iv key rows value expiry h t many,
                  granted-Holds key moments rows value expiry h a,
                )
                (ap ok (none_left (length moments) value.attempts many))
          | inr few ↦
              let (after, done, next) = attempt-Holds now iv key rows value expiry h t few in
              rw (done, granted-Holds key moments after _ expiry next a)
                (ap ok (one_more (length moments) value.attempts few))
        ]

-- Of a session that was admitted, as many of the attempts made before it expires are granted as there are,
-- and at most as many as are left to five: the following ones are refused. No error occurs.
pub granted-create :
    (x : Crypto)
    → Sound x
    → (k : Key) (r : Ring) → make k ≡ ok r
    → (now : ℕ) (iv key : String) (value : StoredSession) (rows after : Rows x r)
    → create x r now iv key value rows ≡ ok (after, true)
    → (moments : List (ℕ × String))
    → All (λ (m : ℕ × String). ltb m.0 value.expires_at ≡ true) moments
    → granted x r key moments after ≡ ok (min (length moments) (5 - value.attempts))
unfolding create
granted-create x sound k r made now iv key value rows after e moments times =
    let c = make-IsChecked k r made in
    let kept = keep (live x r now) rows in
    let row = row_of x r iv key 0 value in
    let (room, done) = admitted _ kept after _ e in
    granted-Holds x r sound c key moments after value value.expires_at
      (subst (λ (rs : Rows x r). Holds x r key rs value value.expires_at)
        (inserted-head x r key row kept after (get key kept) true done)
        (record {
          row = row;
          there = get-head key row kept;
          expires = refl;
          opens = unseal-seal x sound r r iv key value c refl;
        }))
      times
