-- ===== src/Yahoo/Reading/RoundTrip.antt =====
-- A search URL that was generated is read back.
use Prim.Native.Char.{Char, code}
use Prim.Native.String
use Prim.Native.String.{String}
use text.Mathlib.TextLemmas.{nil-append, cons-append}
use hanamaru_shientool_prod.Prelude.{
  ℕ, Bool, true, false, not, ◌||◌, Option, none, some, List, [], ◌∷◌, ◌++◌, ◌==◌, ltb,
  if◌then◌else◌, Result, ok, err, ◌≡◌, ◌≢◌, refl, sym, ap, ◌∙◌, subst, some-eq-some, arith,
}
use hanamaru_shientool_prod.Prelude.Text.{
  is_empty, is_space, is_digit, all_chars, trim, trim_start, trim_end, tidy, utf16_length,
}
use hanamaru_shientool_prod.Prelude.Spaces.{tidy-tidy}
use hanamaru_shientool_prod.Prelude.Maps.{get}
use hanamaru_shientool_prod.Market.Prices.{sort, insert}
use hanamaru_shientool_prod.Market.Prices.Order.{Sorted, sort-Sorted}
use hanamaru_shientool_prod.Yahoo.{Web, SearchError, parameter_invalid, normalize_keyword, ◌>>=◌}
use hanamaru_shientool_prod.Yahoo.Query.{
  SearchSpec, GeneratedUrl, validated_offset, validated_source_id, ids_allowed, origin, path,
  unique, generate_url, generated, param, join, id_text, params_of, canonical_ids, starts_nonzero,
}
use hanamaru_shientool_prod.Yahoo.Reading.{
  read_params, read_values, parse_url, split, numbers, ids_in, not_empty,
}

-- A text of digits has no space to trim.
digit-solid : (c : Char) → is_digit c ≡ true → is_space c ≡ false
unfolding is_space
digit-solid c e = ground arith

trim_end-digits : (s : String) → all_chars is_digit s ≡ true → trim_end s ≡ s
unfolding trim_end
trim_end-digits String.[] e = refl
trim_end-digits (String.◌∷◌ c s) e = ground (arith, e, digit-solid c, trim_end-digits s)

trim-digits : (s : String) → all_chars is_digit s ≡ true → trim s ≡ s
unfolding trim trim_start
trim-digits String.[] e = refl
trim-digits (String.◌∷◌ c s) e = ground (arith, e, digit-solid c, trim_end-digits (String.◌∷◌ c s))

-- What was let through as an identifier is let through again.
validated_again :
    (o p : Option String) → validated_source_id o ≡ ok p → validated_source_id p ≡ ok p
unfolding validated_source_id
validated_again none p e = ground (arith, e)
validated_again (some s) p e = ground (arith, e, trim-digits (trim s))

-- A sorted list is its own sort.
sort-fixed : (xs : List ℕ) → Sorted xs → sort xs ≡ xs
unfolding sort insert
sort-fixed [] h = refl
sort-fixed (x ∷ []) h = refl
sort-fixed (x ∷ (y ∷ ys)) (low, h) =
    let rest = sort-fixed (y ∷ ys) h in
    let first = low.0 in ap (insert x) rest ∙ ground (arith, first)

abbrev pub no_comma : String → Bool
no_comma s = all_chars (λ c. not (code c == b',')) s

comma-append : (t : String) → String.◌++◌ "," t ≡ String.◌∷◌ "," t
comma-append t = cons-append "," "" t ∙ ap (λ x. String.◌∷◌ "," x) (nil-append t)

split-cons :
    (c : Char) (s : String) (u : String) (us : List String)
    → code c ≢ b','
    → split s ≡ u ∷ us
    → split (String.◌∷◌ c s) ≡ String.◌∷◌ c u ∷ us
split-cons c s u us n e = ground (arith, n, e)

split-append :
    (s t : String) → no_comma s ≡ true → split (String.◌++◌ s (String.◌++◌ "," t)) ≡ s ∷ split t
split-append String.[] t e = rw (nil-append, comma-append) refl
split-append (String.◌∷◌ c s) t e = rw cons-append (
    split-cons c (String.◌++◌ s (String.◌++◌ "," t)) s (split t) (ground (arith, e))
      (split-append s t (ground (arith, e))))

split-whole : (s : String) → no_comma s ≡ true → split s ≡ s ∷ []
split-whole String.[] e = refl
split-whole (String.◌∷◌ c s) e =
    split-cons c s s [] (ground (arith, e)) (split-whole s (ground (arith, e)))

-- What the code relies on of the two ways between numbers and texts, of URLs and of NFKC: a number is
-- printed as a text without a comma, which is read as that number; a printed search URL is read with the
-- parameters that were printed; and a normalised text whose white space is tidied is still normalised.
pub record Faithful (w : Web) : Type 0 where
  pub number : (n : ℕ) → w.number (w.show n) ≡ some n
  pub plain : (n : ℕ) → no_comma (w.show n) ≡ true
  pub visible : (n : ℕ) → is_empty (w.show n) ≡ false
  pub url :
      (ps : List (String × String))
      → w.read_url (String.◌++◌ origin (String.◌++◌ path (String.◌++◌ "?" (w.query_text ps))))
        ≡ some (record {
          origin = origin;
          pathname = path;
          username = "";
          password = "";
          hash = "";
          params = ps;
        })
  pub normal : (s : String) → w.nfkc (tidy (w.nfkc s)) ≡ tidy (w.nfkc s)

module _ (w : Web) (f : Faithful w) where
  numbers-join : (n : ℕ) (ns : List ℕ) → numbers w (split (join w.show (n ∷ ns))) ≡ some (n ∷ ns)
  numbers-join n [] = rw (split-whole (w.show n) (f.plain n)) (rw (f.number n, numbers) refl)
  numbers-join n (m ∷ ns) =
      rw (split-append (w.show n) (join w.show (m ∷ ns)) (f.plain n))
        (rw (f.number n, numbers-join m ns, numbers) refl)

  normalize_twice :
      (s : String) → normalize_keyword w (normalize_keyword w s) ≡ normalize_keyword w s
  unfolding normalize_keyword
  normalize_twice s = ap tidy (f.normal s) ∙ tidy-tidy (w.nfkc s)

-- A property of what a chain of calls returns follows from that of the rest of the chain, at the value
-- of its first call.
via :
    {A B : Type 0} (P : B → Type 0) (x : Result SearchError A) (g : A → Result SearchError B)
    → ((a : A) → x ≡ ok a → (b : B) → g a ≡ ok b → P b)
    → (b : B) → (x >>= g) ≡ ok b
    → P b
via P (ok a) g h b e = h a refl b e
via P (err p) g h b e = absurd (ground arith)

-- What the specification of a generated URL is.
record Generated (w : Web) (input : SearchSpec) (g : GeneratedUrl) : Type 0 where
  spec : SearchSpec
  keyword : spec.keyword ≡ normalize_keyword w input.keyword
  visible : is_empty spec.keyword ≡ false
  category : validated_source_id input.category_id ≡ ok spec.category_id
  brand : validated_source_id input.brand_id ≡ ok spec.brand_id
  offset : validated_offset input.offset ≡ ok spec.offset
  ids : spec.condition_ids ≡ canonical_ids input.condition_ids
  allowed : ids_allowed spec.condition_ids ≡ true
  built : generated w spec ≡ g

if_ok :
    {A : Type 0} (b : Bool) (a c : A) (p : SearchError)
    → (if b then err p else ok a) ≡ ok c
    → (b ≡ false) × (a ≡ c)
if_ok true a c p e = absurd (ground arith)
if_ok false a c p e = ground arith

ok_if :
    {A : Type 0} (b : Bool) (a c : A) (p : SearchError)
    → (if b then ok a else err p) ≡ ok c
    → (b ≡ true) × (a ≡ c)
ok_if false a c p e = absurd (ground arith)
ok_if true a c p e = ground arith

generate_url-Generated :
    (w : Web) (input : SearchSpec) (g : GeneratedUrl)
    → generate_url w input ≡ ok g
    → Generated w input g
unfolding generate_url
generate_url-Generated w input =
    let P = Generated w input in
    let k = normalize_keyword w input.keyword in
    let ids = canonical_ids input.condition_ids in
    via P (if is_empty k || ltb 200 (utf16_length k) then err parameter_invalid else ok k) _
      (λ checked c. via P (validated_source_id input.category_id) _ (λ category cat.
        via P (validated_source_id input.brand_id) _ (λ brand br.
          via P (validated_offset input.offset) _ (λ offset off.
            via P (if ids_allowed ids then ok ids else err parameter_invalid) _ (λ allowed al g e.
              let keyword =
                if_ok (is_empty k || ltb 200 (utf16_length k)) k checked parameter_invalid c in
              let good = ok_if (ids_allowed ids) ids allowed parameter_invalid al in
              record {
                spec = record {
                  keyword = checked;
                  category_id = category;
                  brand_id = brand;
                  condition_ids = allowed;
                  offset = offset;
                };
                keyword = sym keyword.1;
                visible = subst (λ x. is_empty x ≡ false) keyword.1 (ground (arith, keyword.0));
                category = cat;
                brand = br;
                offset = off;
                ids = sym good.1;
                allowed = subst (λ x. ids_allowed x ≡ true) good.1 good.0;
                built = ground (arith, e);
              })))))

-- The identifiers that a read specification has: no list that is empty.
abbrev pub present : Option (List ℕ) → Option (List ℕ)
present (some []) = none
present o = o

nonzero-visible : (s : String) → starts_nonzero s ≡ true → is_empty s ≡ false
nonzero-visible String.[] e = absurd (ground arith)
nonzero-visible (String.◌∷◌ c s) e = refl

validated-present : (o p : Option String) → validated_source_id o ≡ ok p → not_empty p ≡ p
unfolding validated_source_id
validated-present none p e = ground (arith, e)
validated-present (some s) p e = ground (arith, e, nonzero-visible (trim s))

is_empty-append : (s t : String) → is_empty s ≡ false → is_empty (String.◌++◌ s t) ≡ false
is_empty-append String.[] t e = absurd (ground arith)
is_empty-append (String.◌∷◌ c s) t e = rw cons-append refl

module _ (w : Web) (f : Faithful w) where
  join-visible : (n : ℕ) (ns : List ℕ) → is_empty (join w.show (n ∷ ns)) ≡ false
  join-visible n [] = f.visible n
  join-visible n (m ∷ ns) = is_empty-append (w.show n) _ (f.visible n)

  ids_in-id_text :
      (o : Option (List ℕ))
      → ids_allowed o ≡ true
      → ((ns : List ℕ) → o ≡ some ns → sort ns ≡ ns)
      → ids_in w (id_text w.show o) ≡ ok (present o)
  ids_in-id_text none a s = refl
  ids_in-id_text (some []) a s = refl
  ids_in-id_text (some (n ∷ ns)) a s =
      rw (join-visible n ns) (rw (numbers-join w f n ns, s (n ∷ ns) refl, a) refl)

  read_values-eq-ok :
      (k : String) (c b o : Option String) (ns : Option (List ℕ)) (n : ℕ)
      → is_empty k ≡ false
      → normalize_keyword w k ≡ k
      → validated_source_id c ≡ ok c
      → not_empty c ≡ c
      → validated_source_id b ≡ ok b
      → not_empty b ≡ b
      → validated_offset n ≡ ok n
      → ids_in w o ≡ ok ns
      → read_values w (some k) (some (w.show 6)) (some (w.show 100)) (some (w.show n)) c b o
        ≡ ok (record { keyword = k; category_id = c; brand_id = b; condition_ids = ns; offset = n })
  unfolding read_values
  read_values-eq-ok k c b o ns n visible normal category has_category brand has_brand offset ids =
      rw
        (
          normal,
          visible,
          f.number 6,
          f.number 100,
          f.number n,
          offset,
          category,
          brand,
          ids,
          has_category,
          has_brand,
        )
        refl

  read_params-params_of :
      (k : String) (c b : Option String) (ns : Option (List ℕ)) (n : ℕ)
      → read_params w (
          params_of w
            (record { keyword = k; category_id = c; brand_id = b; condition_ids = ns; offset = n }))
        ≡ read_values w
            (some k)
            (some (w.show 6))
            (some (w.show 100))
            (some (w.show n))
            c
            b
            (id_text w.show ns)
  unfolding read_params get
  read_params-params_of k c b ns n = lookups k c b (id_text w.show ns) n
    where
      lookups :
          (k : String) (c b o : Option String) (n : ℕ)
          → read_params w (
              ("p", k)
              ∷ (param "auccat" c
                  ++ (param "brand_id" b
                      ++ (param "istatus" o
                          ++ (("select", w.show 6)
                              ∷ (("n", w.show 100) ∷ (("b", w.show n) ∷ [])))))))
            ≡ read_values w (some k) (some (w.show 6)) (some (w.show 100)) (some (w.show n)) c b o
      lookups k none none none n = refl
      lookups k none none (some i) n = refl
      lookups k none (some b) none n = refl
      lookups k none (some b) (some i) n = refl
      lookups k (some c) none none n = refl
      lookups k (some c) none (some i) n = refl
      lookups k (some c) (some b) none n = refl
      lookups k (some c) (some b) (some i) n = refl

  parse_url-params :
      (spec : SearchSpec) → parse_url w (generated w spec).url ≡ read_params w (params_of w spec)
  unfolding parse_url
  parse_url-params spec = rw (f.url (params_of w spec), parse_url) refl

  canonical-sorted : (o : Option (List ℕ)) (ns : List ℕ) → canonical_ids o ≡ some ns → sort ns ≡ ns
  canonical-sorted none ns e = absurd (ground arith)
  canonical-sorted (some ms) ns e =
      subst (λ x. sort x ≡ x) (some-eq-some e)
        (sort-fixed (sort (unique ms)) (sort-Sorted (unique ms)))

offset_again : (m n : ℕ) → validated_offset m ≡ ok n → validated_offset n ≡ ok n
unfolding validated_offset
offset_again m n e = ground (arith, e)

-- A specification as it is read: a list of no conditions is no list.
abbrev pub read_back : SearchSpec → SearchSpec
read_back spec = record spec { condition_ids = present spec.condition_ids }

-- The search URL of a specification is read back as its canonical specification, where a list of no
-- conditions is left out, provided that numbers, URLs and NFKC are as `Faithful` says.
pub parse_url-generate_url :
    (w : Web) (input : SearchSpec) (g : GeneratedUrl)
    → Faithful w
    → generate_url w input ≡ ok g
    → parse_url w g.url ≡ ok (read_back g.canonical_spec)
parse_url-generate_url w input g f e =
    let h = generate_url-Generated w input g e in
    let s = h.spec in
    let ids =
      ids_in-id_text w f s.condition_ids h.allowed
        (λ ns there. canonical-sorted w f input.condition_ids ns (sym h.ids ∙ there)) in
    let normal =
      ap (normalize_keyword w) h.keyword ∙ normalize_twice w f input.keyword ∙ sym h.keyword in
    subst (λ x. parse_url w x.url ≡ ok (read_back x.canonical_spec)) h.built
      (parse_url-params w f s
        ∙ read_params-params_of w f s.keyword s.category_id s.brand_id s.condition_ids s.offset
        ∙ read_values-eq-ok w f s.keyword s.category_id s.brand_id (id_text w.show s.condition_ids)
            (present s.condition_ids) s.offset h.visible normal
            (validated_again input.category_id s.category_id h.category)
            (validated-present input.category_id s.category_id h.category)
            (validated_again input.brand_id s.brand_id h.brand)
            (validated-present input.brand_id s.brand_id h.brand)
            (offset_again input.offset s.offset h.offset) ids)
