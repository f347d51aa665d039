-- ===== src/Yahoo/Reading/Examples.antt =====
-- A way to print numbers and search URLs that is read back, and a run of the two functions on it.
use Prim.Native.Char.{Char, code}
use Prim.Native.String
use Prim.Native.String.{String}
use text.Mathlib.TextLemmas.{nil-append, cons-append}
use hanamaru_shientool_prod.Prelude.{
  ℕ, zero, suc, ◌+◌, ◌-◌, ◌≤◌, ◌<◌, length, true, false, Option, none, some, List, [], ◌∷◌, ◌==◌,
  if◌then◌else◌, ok, ◌≡◌, refl, ap, ◌∙◌, arith,
}
use hanamaru_shientool_prod.Prelude.Text.{
  is_empty, size, tidy, trim, trim_start, trim_end, collapse, collapse_from, is_space,
}
use hanamaru_shientool_prod.Market.Prices.{sort, insert}
use hanamaru_shientool_prod.Yahoo.{Web, Url, normalize_keyword}
use hanamaru_shientool_prod.Yahoo.Query.{
  SearchSpec, origin, path, generate_url, generated, validated_source_id, validated_offset,
}
use hanamaru_shientool_prod.Yahoo.Reading.{parse_url}
use hanamaru_shientool_prod.Yahoo.Reading.RoundTrip.{
  Faithful, read_back, parse_url-generate_url, no_comma,
}

-- A number as a text of ones.
abbrev show : ℕ → String
show zero = "1"
show (suc n) = String.◌∷◌ "1" (show n)

abbrev number : String → Option ℕ
number s = some (size s - 1)

size-show : (n : ℕ) → size (show n) ≡ n + 1
size-show zero = refl
size-show (suc n) = omega (arith, size-show n)

show-plain : (n : ℕ) → no_comma (show n) ≡ true
show-plain zero = refl
show-plain (suc n) = show-plain n

show-visible : (n : ℕ) → is_empty (show n) ≡ false
show-visible zero = refl
show-visible (suc n) = refl

-- A text with an x before each character and a v at the end.
abbrev coded : String → String → String
coded String.[] rest = String.◌∷◌ "v" rest
coded (String.◌∷◌ c s) rest = String.◌∷◌ "x" (String.◌∷◌ c (coded s rest))

abbrev query_text : List (String × String) → String
query_text [] = String.[]
query_text ((k, v) ∷ ps) = coded k (coded v (query_text ps))

abbrev more : Char → String × String → String × String
more c (s, rest) = (String.◌∷◌ c s, rest)

-- The text that was coded first, and the rest; a unit of fuel for each character.
abbrev decoded : String → String × String
decoded (String.◌∷◌ m (String.◌∷◌ c s)) =
    let rest = more c (decoded s) in if code m == b'x' then rest else (String.[], String.◌∷◌ c s)
decoded (String.◌∷◌ m String.[]) = (String.[], String.[])
decoded String.[] = (String.[], String.[])

decoded-coded : (s t : String) → decoded (coded s t) ≡ (s, t)
decoded-coded String.[] String.[] = refl
decoded-coded String.[] (String.◌∷◌ c t) = refl
decoded-coded (String.◌∷◌ c s) t = ap (more c) (decoded-coded s t)

abbrev pairs : ℕ → String → List (String × String)
pairs zero s = []
pairs (suc n) s =
    let key = decoded s in
    let value = decoded key.1 in
    let rest = pairs n value.1 in if is_empty s then [] else (key.0, value.0) ∷ rest

coded-visible : (s t : String) → is_empty (coded s t) ≡ false
coded-visible String.[] t = refl
coded-visible (String.◌∷◌ c s) t = refl

size-coded : (s t : String) → size t < size (coded s t)
size-coded String.[] t = omega arith
size-coded (String.◌∷◌ c s) t = omega (arith, size-coded s t)

length-query_text : (ps : List (String × String)) → length ps ≤ size (query_text ps)
length-query_text [] = omega arith
length-query_text ((k, v) ∷ ps) = omega (
  arith,
  length-query_text ps,
  size-coded v (query_text ps),
  size-coded k (coded v (query_text ps)),
)

pairs-query_text :
    (ps : List (String × String)) (n : ℕ) → length ps ≤ n → pairs n (query_text ps) ≡ ps
pairs-query_text [] zero h = refl
pairs-query_text [] (suc n) h = refl
pairs-query_text ((k, v) ∷ ps) zero h = absurd (omega (arith, h))
pairs-query_text ((k, v) ∷ ps) (suc n) h =
    rw (coded-visible k (coded v (query_text ps)), decoded-coded k (coded v (query_text ps)))
      (rw (decoded-coded v (query_text ps))
        (ap (λ x. (k, v) ∷ x) (pairs-query_text ps n (omega (arith, h)))))

-- What follows the first characters of a text, as many as another text has.
abbrev past : String → String → String
past String.[] s = s
past (String.◌∷◌ c p) String.[] = String.[]
past (String.◌∷◌ c p) (String.◌∷◌ d s) = past p s

past-append : (p s : String) → past p (String.◌++◌ p s) ≡ s
past-append String.[] s = nil-append s
past-append (String.◌∷◌ c p) s = rw cons-append (past-append p s)

abbrev url_of : List (String × String) → Url
url_of ps = record {
  origin = origin;
  pathname = path;
  username = "";
  password = "";
  hash = "";
  params = ps;
}

abbrev read_url : String → Option Url
read_url s =
    let query = past "?" (past path (past origin s)) in some (url_of (pairs (size query) query))

abbrev web : Web
web = record {
  nfkc = λ s. s;
  lower = λ s. s;
  number = number;
  show = show;
  sha256 = λ s. s;
  read_url = read_url;
  query_text = query_text;
  is_word = λ c. true;
}

read_url-query_text :
    (ps : List (String × String))
    → read_url (String.◌++◌ origin (String.◌++◌ path (String.◌++◌ "?" (query_text ps))))
      ≡ some (url_of ps)
read_url-query_text ps =
    let q = String.◌++◌ "?" (query_text ps) in
    let whole : past "?" (past path (past origin (String.◌++◌ origin (String.◌++◌ path q))))
        ≡ query_text ps =
      ap (λ x. past "?" (past path x)) (past-append origin (String.◌++◌ path q))
      ∙ ap (past "?") (past-append path q)
      ∙ past-append "?" (query_text ps) in
    ap (λ x. some (url_of (pairs (size x) x))) whole
    ∙ ap (λ x. some (url_of x)) (pairs-query_text ps (size (query_text ps)) (length-query_text ps))

web-Faithful : Faithful web
web-Faithful = record {
  number = λ n. ap some (omega (arith, size-show n));
  plain = show-plain;
  visible = show-visible;
  url = read_url-query_text;
  normal = λ s. refl;
}

abbrev wanted : SearchSpec
wanted = record {
  keyword = "nikon";
  category_id = some "23640";
  brand_id = none;
  condition_ids = some (4 ∷ (1 ∷ (4 ∷ [])));
  offset = 101;
}

abbrev canonical : SearchSpec
canonical = record wanted { condition_ids = some (1 ∷ (4 ∷ [])) }

generated-wanted : generate_url web wanted ≡ ok (generated web canonical)
unfolding generate_url normalize_keyword tidy trim trim_start trim_end collapse collapse_from
    is_space validated_source_id validated_offset sort insert
generated-wanted = refl

parse_url-generate_url_example :
    parse_url web (generated web canonical).url ≡ ok (read_back canonical)
parse_url-generate_url_example =
    parse_url-generate_url web wanted (generated web canonical) web-Faithful generated-wanted
