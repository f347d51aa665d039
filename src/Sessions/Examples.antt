-- ===== src/Sessions/Examples.antt =====
-- A way to write a session as a text that is read back, and runs of the store on it.
use Prim.Native.Char.{Char, code}
use Prim.Native.String.{String}
use text.Mathlib.TextEquality.{Char-path}
use hanamaru_shientool_prod.Prelude.{
  ℕ, zero, suc, min, true, false, Option, none, some, List, [], ◌∷◌, ◌==◌, if◌then◌else◌, ok, ◌≡◌,
  refl, sym, ap, Bool-cases, inl, inr, arith,
}
use hanamaru_shientool_prod.Prelude.Maps.{get, put}
use hanamaru_shientool_prod.Sessions.{
  StoredSession, Crypto, Row, Key, Ring, make, seal, unseal, read, create, replace, attempt,
}
use hanamaru_shientool_prod.Sessions.Sealing.{Sound, no_colon}
use hanamaru_shientool_prod.Sessions.Reading.{read-create, read-replace}
use hanamaru_shientool_prod.Sessions.Attempts.{granted, granted-create}
use hanamaru_shientool_prod.Sessions.Limits.{
  Call, creating, replacing, removing, attempting, IsBounded, run, run-IsBounded,
}

-- A text with an x before each character, a y for each colon, and a v at the end.
abbrev coded : String → String → String
coded String.[] rest = String.◌∷◌ "v" rest
coded (String.◌∷◌ c s) rest =
    let more = coded s rest in
    if code c == b':'
    then String.◌∷◌ "y" (String.◌∷◌ "y" more)
    else String.◌∷◌ "x" (String.◌∷◌ c more)

abbrev more : Char → String × String → String × String
more c (s, rest) = (String.◌∷◌ c s, rest)

-- The text that was coded first, and the rest.
abbrev decoded : String → String × String
decoded (String.◌∷◌ m (String.◌∷◌ c s)) =
    let rest = decoded s in
    if code m == b'x'
    then more c rest
    else if code m == b'y'
    then more ":" rest
    else (String.[], String.◌∷◌ c s)
decoded (String.◌∷◌ m String.[]) = (String.[], String.[])
decoded String.[] = (String.[], String.[])

decoded-coded : (s t : String) → decoded (coded s t) ≡ (s, t)
decoded-coded String.[] String.[] = refl
decoded-coded String.[] (String.◌∷◌ c t) = refl
decoded-coded (String.◌∷◌ c s) t = elim (Bool-cases (code c == b':')) [
  | inl colon ↦
      let same : c ≡ ":" = Char-path c ":" (ground (arith, colon)) in
      rw colon (rw (decoded-coded s t) (ap (λ d. (String.◌∷◌ d s, t)) (sym same)))
  | inr plain ↦ rw plain (ap (more c) (decoded-coded s t))
]

abbrev option_coded : Option String → String → String
option_coded none rest = String.◌∷◌ "n" rest
option_coded (some s) rest = String.◌∷◌ "s" (coded s rest)

abbrev option_decoded : String → Option String × String
option_decoded String.[] = (none, String.[])
option_decoded (String.◌∷◌ m s) =
    let t = decoded s in if code m == b's' then (some t.0, t.1) else (none, s)

option_decoded-coded : (o : Option String) (t : String) → option_decoded (option_coded o t) ≡ (o, t)
option_decoded-coded none t = refl
option_decoded-coded (some s) t = rw (decoded-coded s t) refl

abbrev number_coded : ℕ → String → String
number_coded zero rest = String.◌∷◌ "v" rest
number_coded (suc n) rest = String.◌∷◌ "x" (number_coded n rest)

abbrev one_more : ℕ × String → ℕ × String
one_more (n, rest) = (suc n, rest)

abbrev number_decoded : String → ℕ × String
number_decoded String.[] = (0, String.[])
number_decoded (String.◌∷◌ m s) =
    let t = number_decoded s in if code m == b'x' then one_more t else (0, s)

number_decoded-coded : (n : ℕ) (t : String) → number_decoded (number_coded n t) ≡ (n, t)
number_decoded-coded zero t = refl
number_decoded-coded (suc n) t = ap one_more (number_decoded-coded n t)

abbrev encode : StoredSession → String
encode v = coded v.csrf (
    number_coded v.expires_at (
      number_coded v.attempts (
        option_coded v.credential (
          option_coded v.membership_id (
            option_coded v.organization_id
              (option_coded v.sso (option_coded v.renewal (option_coded v.flow String.[]))))))))

abbrev decode : String → Option StoredSession
decode s =
    let a = decoded s in
    let b = number_decoded a.1 in
    let c = number_decoded b.1 in
    let d = option_decoded c.1 in
    let e = option_decoded d.1 in
    let f = option_decoded e.1 in
    let g = option_decoded f.1 in
    let h = option_decoded g.1 in
    let i = option_decoded h.1 in
    some (record {
      csrf = a.0;
      expires_at = b.0;
      attempts = c.0;
      credential = d.0;
      membership_id = e.0;
      organization_id = f.0;
      sso = g.0;
      renewal = h.0;
      flow = i.0;
    })

decode-encode : (v : StoredSession) → decode (encode v) ≡ some v
decode-encode v =
    rw
      (
        decoded-coded, number_decoded-coded, number_decoded-coded, option_decoded-coded,
        option_decoded-coded, option_decoded-coded, option_decoded-coded, option_decoded-coded,
        option_decoded-coded,
      )
      refl

-- The text is left as it is.
abbrev toy : Crypto
toy = record {
  encrypt = λ secret associated iv text. text;
  decrypt = λ secret associated text. some text;
  encode = encode;
  decode = decode;
}

coded-plain : (s t : String) → no_colon t ≡ true → no_colon (coded s t) ≡ true
coded-plain String.[] t e = e
coded-plain (String.◌∷◌ c s) t e = elim (Bool-cases (code c == b':')) [
  | inl colon ↦ rw colon (coded-plain s t e)
  | inr plain ↦ rw plain (rw plain (coded-plain s t e))
]

option-plain :
    (o : Option String) (t : String) → no_colon t ≡ true → no_colon (option_coded o t) ≡ true
option-plain none t e = e
option-plain (some s) t e = coded-plain s t e

number-plain : (n : ℕ) (t : String) → no_colon t ≡ true → no_colon (number_coded n t) ≡ true
number-plain zero t e = e
number-plain (suc n) t e = number-plain n t e

encode-plain : (v : StoredSession) → no_colon (encode v) ≡ true
encode-plain v = coded-plain v.csrf _ (
    number-plain v.expires_at _ (
      number-plain v.attempts _ (
        option-plain v.credential _ (
          option-plain v.membership_id _ (
            option-plain v.organization_id _ (
              option-plain v.sso _
                (option-plain v.renewal _ (option-plain v.flow String.[] refl))))))))

toy-Sound : Sound toy
toy-Sound = record {
  decrypted = λ secret associated iv value. refl;
  decoded = decode-encode;
  base64 = λ secret associated iv value. encode-plain value;
}

abbrev secret_a : String
secret_a = "0123456789abcdef0123456789abcdef0123456789abcdef0123456789abcdef"

abbrev secret_b : String
secret_b = "ffffffffffffffffffffffffffffffffffffffffffffffffffffffffffffffff"

abbrev key_of : String → List (String × String) → Key
key_of active keys = Key.ring active keys (some 2)

abbrev ring_of : String → List (String × String) → Ring
ring_of active keys = record { active_version = active; keys = keys; capacity = 2; legacy = false }

abbrev old_keys : List (String × String)
old_keys = ("a", secret_a) ∷ []

abbrev new_keys : List (String × String)
new_keys = ("b", secret_b) ∷ ("a", secret_a) ∷ []

made_old : make (key_of "a" old_keys) ≡ ok (ring_of "a" old_keys)
unfolding make get
made_old = refl

abbrev session : ℕ → StoredSession
session n = record {
  csrf = "t:1";
  expires_at = 900;
  attempts = n;
  credential = some "c";
  membership_id = none;
  organization_id = some "";
  sso = none;
  renewal = none;
  flow = none;
}

abbrev rows_of : ℕ → ℕ → List (String × Row)
rows_of version n =
    (
      "k",
      record {
        encrypted = seal toy (ring_of "a" old_keys) "iv" "k" (session n);
        version = version;
        expires_at = 900;
      },
    )
    ∷ []

created : create toy (ring_of "a" old_keys) 100 "iv" "k" (session 3) [] ≡ ok (rows_of 0 3, true)
unfolding create get
created = refl

rotated :
    replace toy (ring_of "a" old_keys) 100 "iv" "k" 0 "k" (session 3) (rows_of 0 3)
    ≡ ok (rows_of 1 3, true)
unfolding replace get
rotated = refl

same_secret : get "a" new_keys ≡ get "a" old_keys
unfolding get
same_secret = refl

-- After two attempts the session has none left.
third :
    granted toy (ring_of "a" old_keys) "k" ((200, "i") ∷ (300, "j") ∷ (400, "k") ∷ []) (rows_of 0 3)
    ≡ ok 2
unfolding granted attempt unseal seal get put
third = refl

-- A second rotation of the same version is refused, and a third session is not admitted.
unfoldable calls : List (Call toy (ring_of "a" old_keys))
calls =
    creating 100 "i" "k" (session 0)
    ∷ creating 100 "i" "l" (session 0)
    ∷ creating 100 "i" "m" (session 0)
    ∷ replacing 110 "i" "k" 0 "n" (session 0)
    ∷ attempting 120 "i" "n"
    ∷ removing "l"
    ∷ []

read-create_example :
    read toy (ring_of "b" new_keys) 800 "k" (rows_of 0 3) ≡ ok (some (session 3, 0))
read-create_example =
    read-create toy (ring_of "a" old_keys) (ring_of "b" new_keys) toy-Sound (key_of "a" old_keys)
      made_old same_secret 100 800 "iv" "k" (session 3) [] (rows_of 0 3) created refl

read-replace_example :
    (read toy (ring_of "b" new_keys) 800 "k" (rows_of 1 3) ≡ ok (some (session 3, 1)))
    × ((moment : ℕ) (vector other : String) (late : StoredSession)
        → replace toy (ring_of "a" old_keys) moment vector "k" 0 other late (rows_of 1 3)
          ≡ ok (rows_of 1 3, false))
read-replace_example =
    read-replace toy (ring_of "a" old_keys) (ring_of "b" new_keys) toy-Sound (key_of "a" old_keys)
      made_old same_secret 100 800 "iv" "k" 0 "k" (session 3) (rows_of 0 3) (rows_of 1 3) rotated
      refl

granted-create_example :
    granted toy (ring_of "a" old_keys) "k" ((200, "i") ∷ (300, "j") ∷ (400, "k") ∷ []) (rows_of 0 3)
    ≡ ok (min 3 2)
granted-create_example =
    granted-create toy toy-Sound (key_of "a" old_keys) (ring_of "a" old_keys) made_old 100 "iv" "k"
      (session 3) [] (rows_of 0 3) created ((200, "i") ∷ (300, "j") ∷ (400, "k") ∷ [])
      (refl, (refl, (refl, tt)))

run-IsBounded_example :
    IsBounded toy (ring_of "a" old_keys) (run toy (ring_of "a" old_keys) calls [])
run-IsBounded_example = run-IsBounded toy (ring_of "a" old_keys) calls
