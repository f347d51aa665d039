-- ===== src/Sessions/Sealing.antt =====
-- A sealed session is opened again, also by a ring of later keys.
use Prim.Native.Char.{Char, code}
use Prim.Native.String
use Prim.Native.String.{String}
use text.Mathlib.TextLemmas.{nil-append, cons-append}
use hanamaru_shientool_prod.Prelude.{
  ℕ, Bool, true, false, not, Option, none, some, List, [], ◌∷◌, ◌==◌, is_some, if◌then◌else◌,
  Result, ok, err, ◌≡◌, ◌≢◌, refl, sym, ap, ◌∙◌, subst, Bool-cases, inl, inr, arith,
}
use hanamaru_shientool_prod.Prelude.Text.{all_chars}
use hanamaru_shientool_prod.Prelude.Maps.{get}
use hanamaru_shientool_prod.Sessions.{
  StoredSession, Crypto, Failure, key_required, Key, single, ring, Ring, make, checked, capacity_of,
  is_name_char, is_version, parts, sealed_of, Sealed, with_version, seal, unseal,
}

abbrev pub no_colon : String → Bool
no_colon s = all_chars (λ c. not (code c == b':')) s

-- What the code relies on of Node and of JSON: a session that was encoded and encrypted is decrypted and
-- decoded with the same secret and associated data; and base64 has no colon.
pub record Sound (x : Crypto) : Type 0 where
  pub decrypted :
      (secret associated iv : String) (value : StoredSession)
      → x.decrypt secret associated (x.encrypt secret associated iv (x.encode value))
        ≡ some (x.encode value)
  pub decoded : (value : StoredSession) → x.decode (x.encode value) ≡ some value
  pub base64 :
      (secret associated iv : String) (value : StoredSession)
      → no_colon (x.encrypt secret associated iv (x.encode value)) ≡ true

colon-append : (t : String) → String.◌++◌ ":" t ≡ String.◌∷◌ ":" t
colon-append t = cons-append ":" "" t ∙ ap (λ x. String.◌∷◌ ":" x) (nil-append t)

parts-cons :
    (c : Char) (s : String) (u : String) (us : List String)
    → code c ≢ b':'
    → parts s ≡ u ∷ us
    → parts (String.◌∷◌ c s) ≡ String.◌∷◌ c u ∷ us
parts-cons c s u us n e = ground (arith, n, e)

parts-append :
    (s t : String) → no_colon s ≡ true → parts (String.◌++◌ s (String.◌++◌ ":" t)) ≡ s ∷ parts t
parts-append String.[] t e = rw (nil-append, colon-append) refl
parts-append (String.◌∷◌ c s) t e = rw cons-append (
    parts-cons c (String.◌++◌ s (String.◌++◌ ":" t)) s (parts t) (ground (arith, e))
      (parts-append s t (ground (arith, e))))

parts-whole : (s : String) → no_colon s ≡ true → parts s ≡ s ∷ []
parts-whole String.[] e = refl
parts-whole (String.◌∷◌ c s) e =
    parts-cons c s s [] (ground (arith, e)) (parts-whole s (ground (arith, e)))

-- A version has no colon.
no_colon-version : (s : String) → all_chars is_name_char s ≡ true → no_colon s ≡ true
no_colon-version String.[] e = refl
no_colon-version (String.◌∷◌ c s) e = ground (arith, e, no_colon-version s (ground (arith, e)))

v1-append : (t : String) → String.◌++◌ "v1:" t ≡ String.◌++◌ "v1" (String.◌++◌ ":" t)
v1-append t =
    cons-append "v" "1:" t
    ∙ ap (λ u. String.◌∷◌ "v" u) (cons-append "1" ":" t ∙ ap (λ u. String.◌∷◌ "1" u) refl)
    ∙ sym (
        cons-append "v" "1" (String.◌++◌ ":" t)
        ∙ ap (λ u. String.◌∷◌ "v" u)
            (cons-append "1" "" (String.◌++◌ ":" t)
              ∙ ap (λ u. String.◌∷◌ "1" u) (nil-append (String.◌++◌ ":" t))))

-- What the constructor has checked of a ring.
pub record IsChecked (r : Ring) : Type 0 where
  pub named : is_version r.active_version ≡ true
  pub present : is_some (get r.active_version r.keys) ≡ true
  pub old : r.legacy ≡ true → r.active_version ≡ "legacy"

passed :
    (b : Bool) (r s : Ring)
    → ◌≡◌ {A = Result Failure Ring} (if b then ok r else err key_required) (ok s)
    → (b ≡ true) × (r ≡ s)
passed true r s e = ground arith
passed false r s e = absurd (ground arith)

checked-IsChecked :
    (active : String) (keys : List (String × String)) (capacity : ℕ) (legacy : Bool) (r : Ring)
    → (legacy ≡ true → active ≡ "legacy")
    → checked active keys capacity legacy ≡ ok r
    → IsChecked r
checked-IsChecked active keys capacity legacy r old e =
    let (good, same) = passed _ _ r e in
    subst IsChecked same
      (record { named = ground (arith, good); present = ground (arith, good); old = old })

pub make-IsChecked : (k : Key) (r : Ring) → make k ≡ ok r → IsChecked r
unfolding make
make-IsChecked (single k) r e =
    checked-IsChecked "legacy" (("legacy", k) ∷ []) 128 true r (λ _. refl) e
make-IsChecked (ring active keys most) r e =
    checked-IsChecked active keys (capacity_of most) false r (λ f. absurd (ground (arith, f))) e

module _ (x : Crypto) (sound : Sound x) where
  opened :
      (s : Ring) (key encrypted : String) (value : StoredSession) (t : Sealed) (secret : String)
      → sealed_of key (parts encrypted) ≡ some t
      → get t.version s.keys ≡ some secret
      → x.decrypt secret t.associated t.text ≡ some (x.encode value)
      → unseal x s key encrypted ≡ ok value
  unfolding unseal
  opened s key encrypted value t secret p g d = rw (p, g, d, sound.decoded value) refl

  sealed-versioned :
      (key v t : String)
      → no_colon v ≡ true
      → no_colon t ≡ true
      → sealed_of key (parts (String.◌++◌ "v1:" (String.◌++◌ v (String.◌++◌ ":" t))))
        ≡ some (record { version = v; associated = with_version key v; text = t })
  sealed-versioned key v t nv nt =
      rw
        (
          v1-append (String.◌++◌ v (String.◌++◌ ":" t)),
          parts-append "v1" (String.◌++◌ v (String.◌++◌ ":" t)) refl,
          parts-append v t nv,
          parts-whole t nt,
        )
        refl

  seal_old :
      (r : Ring) (iv key secret : String) (value : StoredSession)
      → get r.active_version r.keys ≡ some secret
      → r.legacy ≡ true
      → seal x r iv key value ≡ x.encrypt secret key iv (x.encode value)
  unfolding seal
  seal_old r iv key secret value e old = rw (e, old) refl

  seal_new :
      (r : Ring) (iv key secret : String) (value : StoredSession)
      → get r.active_version r.keys ≡ some secret
      → r.legacy ≡ false
      → seal x r iv key value
        ≡ String.◌++◌ "v1:" (
            String.◌++◌ r.active_version (
              String.◌++◌ ":"
                (x.encrypt secret (with_version key r.active_version) iv (x.encode value))))
  unfolding seal
  seal_new r iv key secret value e new = rw (e, new) refl

  unseal-sealed :
      (r s : Ring) (iv key : String) (value : StoredSession) (o : Option String)
      → IsChecked r
      → get r.active_version r.keys ≡ o
      → is_some o ≡ true
      → get r.active_version s.keys ≡ o
      → unseal x s key (seal x r iv key value) ≡ ok value
  unseal-sealed r s iv key value none c e i f = absurd (ground (arith, i))
  unseal-sealed r s iv key value (some secret) c e i f = elim (Bool-cases r.legacy) [
    | inl old ↦ rw (seal_old r iv key secret value e old) (
        opened s key _ value
          (record {
            version = "legacy";
            associated = key;
            text = x.encrypt secret key iv (x.encode value);
          })
          secret
          (rw
            (parts-whole (x.encrypt secret key iv (x.encode value))
              (sound.base64 secret key iv value))
            refl)
          (subst (λ v. get v s.keys ≡ some secret) (c.old old) f)
          (sound.decrypted secret key iv value))
    | inr new ↦
        let a = with_version key r.active_version in
        rw (seal_new r iv key secret value e new) (
          opened s key _ value
            (record {
              version = r.active_version;
              associated = a;
              text = x.encrypt secret a iv (x.encode value);
            })
            secret
            (sealed-versioned key r.active_version (x.encrypt secret a iv (x.encode value))
              (no_colon-version r.active_version (ground (arith, c.named)))
              (sound.base64 secret a iv value))
            f (sound.decrypted secret a iv value))
  ]

  -- A session that one ring has sealed is opened by every ring that holds the same secret for that
  -- version.
  pub unseal-seal :
      (r s : Ring) (iv key : String) (value : StoredSession)
      → IsChecked r
      → get r.active_version s.keys ≡ get r.active_version r.keys
      → unseal x s key (seal x r iv key value) ≡ ok value
  unseal-seal r s iv key value c e =
      unseal-sealed r s iv key value (get r.active_version r.keys) c refl c.present e
