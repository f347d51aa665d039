-- ===== src/Sessions.antt =====
-- The store of signed-on sessions: packages/alignment/src/session-store.ts. `Crypto` is what the code
-- takes from Node and from JSON: AES-256-GCM with the initial vector, the tag and the data as one text in
-- base64, which fails for a text that is too short or not authentic, and the two ways between a session
-- and its text. The advisory locks that order the transactions need no counterpart. A text stands for
-- each of the nested objects of a session.
pub mod Sealing
pub mod Reading
pub mod Attempts
pub mod Limits
mod Examples
use Prim.Native.Char.{Char, code}
use Prim.Native.String
use Prim.Native.String.{String}
use hanamaru_shientool_prod.Prelude.{
  ℕ, suc, ◌+◌, Bool, true, false, not, ◌&&◌, ◌||◌, Option, none, some, List, [], ◌∷◌, all, keep,
  length, ltb, leb, ◌==◌, is_some, if◌then◌else◌, Result, ok, err,
}
use hanamaru_shientool_prod.Prelude.Text.{str_eq, is_digit, is_alnum, matches_class}
use hanamaru_shientool_prod.Prelude.Maps.{get, put}
use hanamaru_shientool_prod.Json.{safe_limit}

pub record StoredSession : Type 0 where
  pub csrf : String
  pub expires_at : ℕ
  pub attempts : ℕ
  pub credential : Option String
  pub membership_id : Option String
  pub organization_id : Option String
  pub sso : Option String
  pub renewal : Option String
  pub flow : Option String

-- Secret, associated data, initial vector and text.
pub record Crypto : Type 0 where
  pub encrypt : String → String → String → String → String
  pub decrypt : String → String → String → Option String
  pub encode : StoredSession → String
  pub decode : String → Option StoredSession

pub record Row : Type 0 where
  pub encrypted : String
  pub version : ℕ
  pub expires_at : ℕ

pub data Failure : Type 0 where
  key_required key_version_unavailable ciphertext_invalid duplicate : Failure

infixl 5 ◌>>=◌
abbrev pub ◌>>=◌ : {A B : Type 0} → Result Failure A → (A → Result Failure B) → Result Failure B
ok a >>= f = f a
err e >>= f = err e

-- `SessionKeyRing`, or the one key of old.
pub data Key : Type 0 where
  single : String → Key
  ring : String → List (String × String) → Option ℕ → Key

-- The fields of `PrismaSessionStore`.
pub record Ring : Type 0 where
  pub active_version : String
  pub keys : List (String × String)
  pub capacity : ℕ
  pub legacy : Bool

abbrev is_name_char : Char → Bool
is_name_char c = is_alnum c || (code c == b'_' || code c == b'-')

abbrev is_hex : Char → Bool
is_hex c =
    is_digit c
    || ((leb b'a' (code c) && leb (code c) b'f') || (leb b'A' (code c) && leb (code c) b'F'))

abbrev pub is_version : String → Bool
is_version = matches_class is_name_char 1 32

abbrev is_secret : String → Bool
is_secret = matches_class is_hex 64 64

abbrev is_pair : String × String → Bool
is_pair e = is_version e.0 && is_secret e.1

abbrev capacity_of : Option ℕ → ℕ
capacity_of none = 128
capacity_of (some n) = n

abbrev fits : ℕ → Bool
fits n = ltb n safe_limit && (leb 1 n && leb n 100000)

abbrev checked : String → List (String × String) → ℕ → Bool → Result Failure Ring
checked active keys capacity legacy =
    if is_version active
      && (is_some (get active keys) && (leb (length keys) 4 && (all is_pair keys && fits capacity)))
    then ok (record { active_version = active; keys = keys; capacity = capacity; legacy = legacy })
    else err key_required

-- The constructor. A version that names a property which every object inherits, such as `constructor`, is
-- taken as missing from the keys.
unfoldable pub make : Key → Result Failure Ring
unfolding get
make (single k) = checked "legacy" (("legacy", k) ∷ []) 128 true
make (ring active keys most) = checked active keys (capacity_of most) false

abbrev pub with_version : String → String → String
with_version key version = String.◌++◌ key (String.◌++◌ ":" version)

abbrev secret_of : Option String → String
secret_of none = ""
secret_of (some s) = s

abbrev consed : Char → List String → List String
consed c [] = String.◌∷◌ c String.[] ∷ []
consed c (s ∷ ss) = String.◌∷◌ c s ∷ ss

-- `encrypted.split(":")`.
abbrev pub parts : String → List String
parts String.[] = String.[] ∷ []
parts (String.◌∷◌ c s) =
    let rest = parts s in if code c == b':' then String.[] ∷ rest else consed c rest

-- The version of the secret, the associated data and the sealed text.
pub record Sealed : Type 0 where
  pub version : String
  pub associated : String
  pub text : String

abbrev pub sealed_of : String → List String → Option Sealed
sealed_of key (s ∷ []) = some (record { version = "legacy"; associated = key; text = s })
sealed_of key (m ∷ (v ∷ (s ∷ []))) =
    if str_eq m "v1"
    then some (record { version = v; associated = with_version key v; text = s })
    else none
sealed_of key _ = none

module _ (x : Crypto) (r : Ring) where
  -- `seal`; the secret of the active version is there by the constructor.
  unfoldable pub seal : String → String → StoredSession → String
  unfolding get
  seal iv key value =
      let secret = secret_of (get r.active_version r.keys) in
      if r.legacy
      then x.encrypt secret key iv (x.encode value)
      else String.◌++◌ "v1:" (
          String.◌++◌ r.active_version (
            String.◌++◌ ":"
              (x.encrypt secret (with_version key r.active_version) iv (x.encode value))))

  abbrev or_failed : {A : Type 0} → Option A → Failure → Result Failure A
  or_failed none e = err e
  or_failed (some a) e = ok a

  -- `open`.
  unfoldable pub unseal : String → String → Result Failure StoredSession
  unfolding get
  unseal key encrypted =
      or_failed (sealed_of key (parts encrypted)) key_version_unavailable >>= (λ s.
        or_failed (get s.version r.keys) key_version_unavailable >>= (λ secret.
          or_failed (x.decrypt secret s.associated s.text) ciphertext_invalid
          >>= (λ plain. or_failed (x.decode plain) ciphertext_invalid)))

  abbrev pub Rows : Type 0
  Rows = List (String × Row)

  abbrev pub live : ℕ → String × Row → Bool
  live now e = ltb now e.1.expires_at

  abbrev found : ℕ → String → Option Row → Result Failure (Option (StoredSession × ℕ))
  found now key none = ok none
  found now key (some row) =
      if ltb now row.expires_at
      then unseal key row.encrypted >>= (λ v. ok (some (v, row.version)))
      else ok none

  -- `get`.
  unfoldable pub read : ℕ → String → Rows → Result Failure (Option (StoredSession × ℕ))
  unfolding unseal
  read now key rows = found now key (get key rows)

  -- The INSERT of a row.
  abbrev pub inserted : String → Row → Rows → Option Row → Result Failure (Rows × Bool)
  inserted key row rows (some old) = err duplicate
  inserted key row rows none = ok ((key, row) ∷ rows, true)

  abbrev pub row_of : String → String → ℕ → StoredSession → Row
  row_of iv key version value = record {
    encrypted = seal iv key value;
    version = version;
    expires_at = value.expires_at;
  }

  -- `create`: the rows, and whether the session was admitted.
  unfoldable pub create : ℕ → String → String → StoredSession → Rows → Result Failure (Rows × Bool)
  unfolding seal
  create now iv key value rows =
      let kept = keep (live now) rows in
      let added = inserted key (row_of iv key 0 value) kept (get key kept) in
      if leb r.capacity (length kept) then ok (kept, false) else added

  abbrev is_at : ℕ → ℕ → Option Row → Bool
  is_at now version none = false
  is_at now version (some row) = row.version == version && ltb now row.expires_at

  abbrev pub without : String → Rows → Rows
  without key = keep (λ (e : String × Row). not (str_eq e.0 key))

  -- `replace`.
  unfoldable pub replace :
      ℕ → String → String → ℕ → String → StoredSession → Rows → Result Failure (Rows × Bool)
  unfolding seal
  replace now iv key version next value rows =
      let rest = without key rows in
      if is_at now version (get key rows)
      then inserted next (row_of iv next (version + 1) value) rest (get next rest)
      else ok (rows, false)

  -- `remove`.
  unfoldable pub remove : String → Rows → Rows
  remove key rows = without key rows

  abbrev attempted : String → String → Rows → Row → StoredSession → Rows × Bool
  attempted iv key rows row value =
      let counted : StoredSession = record value { attempts = value.attempts + 1 } in
      if leb 5 value.attempts
      then (rows, false)
      else (put key (record row { encrypted = seal iv key counted }) rows, true)

  abbrev tried : ℕ → String → String → Rows → Option Row → Result Failure (Rows × Bool)
  tried now iv key rows none = ok (rows, false)
  tried now iv key rows (some row) =
      let counted = unseal key row.encrypted >>= (λ v. ok (attempted iv key rows row v)) in
      if ltb now row.expires_at then counted else ok (rows, false)

  -- `attempt`.
  unfoldable pub attempt : ℕ → String → String → Rows → Result Failure (Rows × Bool)
  unfolding unseal seal
  attempt now iv key rows = tried now iv key rows (get key rows)
