-- ===== src/Yahoo/Pages/Sound.antt =====
-- What a page that is let through is known to be.
use Prim.Native.String.{String}
use hanamaru_shientool_prod.Prelude.{
  ℕ, ◌+◌, ◌*◌, ◌≤◌, true, false, not, ◌||◌, Option, none, some, List, [], ◌∷◌, length, ltb,
  if◌then◌else◌, Result, ok, err, ◌≡◌, refl, subst, inl, inr, All, Bool-cases, Option-cases, arith,
}
use hanamaru_shientool_prod.Prelude.Text.{is_empty, trim}
use hanamaru_shientool_prod.Json.{Json, field, text_of}
use hanamaru_shientool_prod.Yahoo.{
  Web, SearchError, parser_contract_mismatch, sort_contract_mismatch, ◌>>=◌, normalize_keyword,
}
use hanamaru_shientool_prod.Yahoo.Script.{is_captcha, script}
use hanamaru_shientool_prod.Yahoo.Items.{
  Reader, Item, Page, integer, read_items, newest_first, fails_rate, page_of, built,
}
use hanamaru_shientool_prod.Yahoo.Pages.{
  is_object, aucfan_ended_at, aucfan_built, aucfan_item, aucfan_page, aucfan_root, parse_aucfan,
  yahoo_built, yahoo_item, yahoo_page, yahoo_listing, parse_yahoo, needed, list_of, member_of,
  is_hundred, is_newest_sort, walk, yahoo_root, yahoo_path,
}

-- An item that can be read has an identity, a title and a price.
pub record SoundItem (i : Item) : Type 0 where
  pub price : 1 ≤ i.closing_price
  pub id : is_empty i.source_item_id ≡ false
  pub title : is_empty i.title ≡ false

-- At most a hundred sources, each read or counted as a failure, at most one in twenty of these; the
-- newest first.
pub record SoundPage (p : Page) : Type 0 where
  pub size : p.source_item_count ≤ 100
  pub counted : length p.items + p.parse_failure_count ≡ p.source_item_count
  pub rate : p.parse_failure_count * 20 ≤ p.source_item_count
  pub order : newest_first p.items ≡ true
  pub items : All SoundItem p.items

integer-le : (r : Reader) (v : Json) (least n : ℕ) → integer r v least ≡ some n → least ≤ n
unfolding integer
integer-le r v least n e = ground arith

-- A call whose every value has a property.
abbrev Always : {A : Type 0} → (A → Type 0) → Result SearchError A → Type 0
Always {A = A} P x = (a : A) → x ≡ ok a → P a

bind-Always :
    {A B : Type 0} (P : B → Type 0) (x : Result SearchError A) (f : A → Result SearchError B)
    → ((a : A) → Always P (f a))
    → Always P (x >>= f)
bind-Always P (ok a) f h b eq = h a b eq
bind-Always P (err e) f h b eq = absurd (ground arith)

refused : {A : Type 0} (P : A → Type 0) (e : SearchError) → Always P (err e)
refused P e a eq = absurd (ground arith)

read_items-Sound :
    (f : Json → Option Item) (vs : List Json)
    → ((v : Json) (i : Item) → f v ≡ some i → SoundItem i)
    → All SoundItem (read_items f vs).0
      × (length (read_items f vs).0 + (read_items f vs).1 ≡ length vs)
unfolding read_items
read_items-Sound f [] h = (tt, refl)
read_items-Sound f (v ∷ vs) h =
    let (rest, count) = read_items-Sound f vs h in
    elim (Option-cases (f v)) [
      | inl e ↦ rw e (rest, omega (arith, count))
      | inr (i, e) ↦ rw e ((h v i e, rest), omega (arith, count))
    ]

pub ok_injective : {A : Type 0} {a b : A} → ◌≡◌ {A = Result SearchError A} (ok a) (ok b) → a ≡ b
ok_injective e = cc

failure_rate :
    (count read failures : ℕ)
    → read + failures ≡ count
    → fails_rate count read failures ≡ false
    → failures * 20 ≤ count
failure_rate count read failures c e = ground arith

page_of-Sound :
    (f : Json → Option Item) (vs : List Json) (available : ℕ) (pages : Option ℕ)
    → ((v : Json) (i : Item) → f v ≡ some i → SoundItem i)
    → length vs ≤ 100
    → Always SoundPage (page_of (length vs) (read_items f vs) available pages)
unfolding page_of
page_of-Sound f vs available pages h few p e =
    let (sound, counted) = read_items-Sound f vs h in
    elim (Bool-cases (fails_rate (length vs) (length (read_items f vs).0) (read_items f vs).1)) [
      | inl bad ↦ absurd (ground arith)
      | inr good ↦ elim (Bool-cases (newest_first (read_items f vs).0)) [
        | inr mixed ↦ absurd (ground arith)
        | inl sorted ↦
            let page = built (length vs) (read_items f vs).0 (read_items f vs).1 available pages in
            let same : page ≡ p = ok_injective (rw (good, sorted) at e) in
            subst SoundPage same (record {
              size = few;
              counted = counted;
              rate =
                  failure_rate (length vs) (length (read_items f vs).0) (read_items f vs).1 counted
                    good;
              order = sorted;
              items = sound;
            })
      ]
    ]

module _ (w : Web) (r : Reader) where
  aucfan_built-Sound :
      (v : Json) (id title : String) (n : Option ℕ) (t : Option (String × ℕ)) (i : Item)
      → ((m : ℕ) → n ≡ some m → 1 ≤ m)
      → aucfan_built w r v id title n t ≡ some i
      → SoundItem i
  aucfan_built-Sound v id title none t i h e = absurd (ground arith)
  aucfan_built-Sound v id title (some m) none i h e = absurd (ground arith)
  aucfan_built-Sound v id title (some m) (some (day, at)) i h e =
      let least = h m refl in
      record { price = ground (arith, least); id = ground arith; title = ground arith }

  aucfan_item-Sound : (v : Json) (i : Item) → aucfan_item w r v ≡ some i → SoundItem i
  unfolding aucfan_item
  aucfan_item-Sound v i e = elim (Bool-cases (is_object v)) [
    | inl good ↦
        aucfan_built-Sound v (trim (r.text (field "auction_id" v)))
          (normalize_keyword w (r.text (field "title" v))) (integer r (field "price" v) 1)
          (aucfan_ended_at r (field "time" v)) i (λ m. integer-le r (field "price" v) 1 m)
          (rw good at e)
    | inr bad ↦ absurd (ground arith)
  ]

  yahoo_built-Sound :
      (v : Json) (id title : String) (n t : Option ℕ) (i : Item)
      → ((m : ℕ) → n ≡ some m → 1 ≤ m)
      → yahoo_built w r v id title n t ≡ some i
      → SoundItem i
  yahoo_built-Sound v id title none t i h e = absurd (ground arith)
  yahoo_built-Sound v id title (some m) none i h e = absurd (ground arith)
  yahoo_built-Sound v id title (some m) (some at) i h e =
      let least = h m refl in
      record { price = ground (arith, least); id = ground arith; title = ground arith }

  yahoo_item-Sound : (v : Json) (i : Item) → yahoo_item w r v ≡ some i → SoundItem i
  unfolding yahoo_item
  yahoo_item-Sound v i e = elim (Bool-cases (is_object v)) [
    | inl good ↦
        yahoo_built-Sound v (trim (r.text (field "auctionId" v)))
          (normalize_keyword w (r.text (field "title" v))) (integer r (field "price" v) 1)
          (r.date (r.text (field "endTime" v))) i (λ m. integer-le r (field "price" v) 1 m)
          (rw good at e)
    | inr bad ↦ absurd (ground arith)
  ]

  aucfan_page-Sound :
      (vs : List Json) (hits pages : ℕ) → Always SoundPage (aucfan_page w r vs hits pages)
  aucfan_page-Sound vs hits pages p e = elim (Bool-cases (ltb 100 (length vs))) [
    | inl over ↦ absurd (ground arith)
    | inr fits ↦
        page_of-Sound (aucfan_item w r) vs hits (some pages) aucfan_item-Sound (ground arith) p
          (rw fits at e)
  ]

  aucfan_root-Sound : (root : Json) (x : Option String) → Always SoundPage (aucfan_root w r root x)
  aucfan_root-Sound root (some m) p e = absurd (ground arith)
  aucfan_root-Sound root none p e =
      bind-Always SoundPage (needed (list_of (field "items" root))) _
        (λ vs. bind-Always SoundPage (needed (integer r (field "hit_count" root) 0)) _ (λ hits.
          bind-Always SoundPage (needed (integer r (field "max_page_number" root) 0)) _
            (λ pages. aucfan_page-Sound vs hits pages)))
        p e

  aucfan_object-Sound :
      (root : Json)
      → Always SoundPage (
          if is_object root
          then aucfan_root w r root (text_of (field "error" root))
          else err parser_contract_mismatch)
  aucfan_object-Sound root p e = elim (Bool-cases (is_object root)) [
    | inl good ↦ aucfan_root-Sound root (text_of (field "error" root)) p (rw good at e)
    | inr bad ↦ absurd (ground arith)
  ]

  -- A page of Aucfan that is let through is sound: at most a hundred raw items, each read or counted as
  -- a failure, at most one in twenty failures, no item that ended before the next one, and in every item
  -- an identity, a title and a price of at least 1.
  pub parse_aucfan-SoundPage :
      (body : String) (p : Page) → parse_aucfan w r body ≡ ok p → SoundPage p
  unfolding parse_aucfan
  parse_aucfan-SoundPage body p e = elim (Bool-cases (ltb 5242880 (r.byte_length body))) [
    | inl long ↦ absurd (ground arith)
    | inr short ↦
        bind-Always SoundPage (needed (r.json body))
          (λ root.
            if is_object root
            then aucfan_root w r root (text_of (field "error" root))
            else err parser_contract_mismatch)
          aucfan_object-Sound p (rw short at e)
  ]

  yahoo_page-Sound :
      (vs : List Json) (available : ℕ) → Always SoundPage (yahoo_page w r vs available)
  yahoo_page-Sound vs available p e =
      elim (Bool-cases (ltb 100 (length vs) || ltb available (length vs))) [
        | inl over ↦ absurd (ground arith)
        | inr fits ↦
            page_of-Sound (yahoo_item w r) vs available none yahoo_item-Sound (ground arith) p
              (rw fits at e)
      ]

  yahoo_limited-Sound :
      (listing : Json) (limit : ℕ)
      → Always SoundPage (
          if not (is_hundred w r limit)
          then err sort_contract_mismatch
          else needed (list_of (field "items" listing)) >>= (λ vs.
            needed (integer r (field "totalResultsAvailable" listing) 0)
            >>= (λ available. yahoo_page w r vs available)))
  yahoo_limited-Sound listing limit p e = elim (Bool-cases (is_hundred w r limit)) [
    | inr other ↦ absurd (ground arith)
    | inl hundred ↦
        bind-Always SoundPage (needed (list_of (field "items" listing))) _
          (λ vs.
            bind-Always SoundPage (needed (integer r (field "totalResultsAvailable" listing) 0)) _
              (λ available. yahoo_page-Sound vs available))
          p (rw hundred at e)
  ]

  yahoo_listing-Sound :
      (listing metadata : Json) → Always SoundPage (yahoo_listing w r listing metadata)
  yahoo_listing-Sound listing metadata p e = elim (Bool-cases (is_object metadata)) [
    | inr other ↦ absurd (ground arith)
    | inl good ↦ elim (Bool-cases (is_newest_sort w r (text_of (field "sort" metadata)))) [
      | inr other ↦ absurd (ground arith)
      | inl sorted ↦
          bind-Always SoundPage (needed (integer r (field "limit" metadata) 1)) _
            (λ limit. yahoo_limited-Sound listing limit) p (rw (good, sorted) at e)
    ]
  ]

  yahoo_root-Sound : (listing : Json) → Always SoundPage (yahoo_root w r listing)
  yahoo_root-Sound listing p e =
      bind-Always SoundPage (member_of "metadata" listing) _ (λ m. yahoo_listing-Sound listing m) p
        e

  -- A page of Yahoo that is let through is sound in the same sense, and it was no page with a CAPTCHA.
  pub parse_yahoo-SoundPage :
      (html : String) (p : Page)
      → parse_yahoo w r html ≡ ok p
      → SoundPage p × (is_captcha html ≡ false)
  unfolding parse_yahoo
  parse_yahoo-SoundPage html p e = elim (Bool-cases (ltb 5242880 (r.byte_length html))) [
    | inl long ↦ absurd (ground arith)
    | inr short ↦ elim (Bool-cases (is_captcha html)) [
      | inl robot ↦ absurd (ground arith)
      | inr person ↦ (
        bind-Always SoundPage (needed (script html)) _
            (λ text.
              bind-Always SoundPage (needed (r.json text)) _
                (λ root. bind-Always SoundPage (walk yahoo_path root) _ yahoo_root-Sound))
            p (rw (short, person) at e),
        person,
      )
    ]
  ]
