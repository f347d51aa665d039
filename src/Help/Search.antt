-- ===== src/Help/Search.antt =====
-- The ranking of articles: apps/api/src/help/engine.ts, `searchArticles`. A score is held in
-- hundredths, so that 12, 2 and 0.15 are whole; the source adds floating-point numbers. Texts are
-- compared by pairs of UTF-16 code units, as `slice` takes them.
use Prim.Native.Char.{Char, code}
use Prim.Native.String
use hanamaru_shientool_prod.Prelude.{
  ℕ, ◌+◌, ◌*◌, ◌-◌, ◌/◌, ◌%◌, String, Bool, not, ◌&&◌, List, [], ◌∷◌, map, if◌then◌else◌, ltb, leb,
  ◌==◌, any, keep,
}
use hanamaru_shientool_prod.Prelude.Text.{is_space, is_empty, trim}
use hanamaru_shientool_prod.Help.{Article}
use hanamaru_shientool_prod.Prelude.Substrings.{contains, drop_chars}

-- `String.prototype.normalize("NFKC")` and `toLowerCase`.
pub record Unicode : Type 0 where
  pub nfkc : String → String
  pub lower : String → String

-- `[。、？！?!「」：:・]`.
is_mark : Char → Bool
is_mark c =
    any (λ m. code c == m)
      (0x3002
        ∷ (0x3001
            ∷ (0xff1f
                ∷ (0xff01
                    ∷ (b'?' ∷ (b'!' ∷ (0x300c ∷ (0x300d ∷ (0xff1a ∷ (b':' ∷ (0x30fb ∷ [])))))))))))

-- The code units of a text.
unfoldable pub code_units : String → List ℕ
code_units String.[] = []
code_units (String.◌∷◌ c s) =
    let rest = code_units s in
    if ltb (code c) 0x10000
    then code c ∷ rest
    else (0xd800 + (code c - 0x10000) / 0x400) ∷ ((0xdc00 + (code c - 0x10000) % 0x400) ∷ rest)

unfoldable pub pairs : List ℕ → List (ℕ × ℕ)
pairs [] = []
pairs (a ∷ []) = []
pairs (a ∷ (b ∷ us)) = (a, b) ∷ pairs (b ∷ us)

abbrev pub has_pair : List (ℕ × ℕ) → ℕ × ℕ → Bool
has_pair ps p = any (λ q. q.0 == p.0 && q.1 == p.1) ps

-- `new Set(…)` in order of insertion, read from the end.
unfoldable pub distinct : List (ℕ × ℕ) → List (ℕ × ℕ)
distinct [] = []
distinct (p ∷ ps) = p ∷ keep (λ q. not (q.0 == p.0 && q.1 == p.1)) (distinct ps)

unfoldable pub join : List String → String
join [] = ""
join (s ∷ []) = s
join (s ∷ (t ∷ ss)) = String.◌++◌ s (String.◌++◌ " " (join (t ∷ ss)))

abbrev pub count {ℓ} : {A : Type ℓ} → (A → Bool) → List A → ℕ
count p [] = 0
count p (x ∷ xs) = let rest = count p xs in if p x then 1 + rest else rest

-- A stable sort, the highest score first.
abbrev pub insert : Article × ℕ → List (Article × ℕ) → List (Article × ℕ)
insert x [] = x ∷ []
insert x (y ∷ ys) = let rest = insert x ys in if leb y.1 x.1 then x ∷ (y ∷ ys) else y ∷ rest

abbrev pub sort : List (Article × ℕ) → List (Article × ℕ)
sort [] = []
sort (x ∷ xs) = insert x (sort xs)

module _ (u : Unicode) where
  unfoldable pub normalize : String → String
  unfolding is_space
  normalize s = drop_chars is_space (u.lower (u.nfkc s))

  unfoldable pub grams : String → List (ℕ × ℕ)
  unfolding normalize is_mark code_units pairs distinct
  grams s = distinct (pairs (code_units (drop_chars is_mark (normalize s))))

  -- The score of one article, in hundredths.
  unfoldable pub score : String → Article → ℕ
  unfolding normalize grams contains join
  score query a =
      let q = normalize query in
      let g = grams query in
      let title = String.◌++◌ a.title (String.◌++◌ " " (join a.keywords)) in
      let body = pairs (code_units (normalize a.body)) in
      1200 * count (λ k. contains q (normalize k)) a.keywords
      + 200 * count (has_pair g) (grams (normalize title))
      + 15 * count (has_pair body) g

  -- `searchArticles`.
  unfoldable pub search_articles : List Article → String → List (Article × ℕ)
  unfolding score trim
  search_articles articles query =
      if is_empty (trim query)
      then map (λ a. (a, 100)) articles
      else sort (keep (λ x. leb 200 x.1) (map (λ a. (a, score query a)) articles))
