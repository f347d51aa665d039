-- ===== src/Help/Answer/Grounded.antt =====
-- What an answer shows comes from an article that the actor may see: apps/api/src/help/engine.ts.
use mathlib.Core.List.{Memᴰ}
use hanamaru_shientool_prod.Prelude.{
  ℕ, ◌≤◌, ◌≡◌, refl, ◌≢◌, ◌⊎◌, inl, inr, Bool, true, false, Option, none, some, List, [], ◌∷◌, map,
  arith, Bool-cases, length, keep, find, take, All, All-keep, All-take, All-member, keep-All,
  find-eq-some, length-take, leb, any, String, not,
}
use hanamaru_shientool_prod.Prelude.Text.{is_empty, trim, str_eq}
use hanamaru_shientool_prod.Help.{
  Actor, Section, Link, Article, OtherApp, Catalog, includes, may_see, visible_articles,
}
use hanamaru_shientool_prod.Prelude.Substrings.{contains}
use hanamaru_shientool_prod.Help.Search.{Unicode, score, insert, sort, search_articles}
use hanamaru_shientool_prod.Help.Answer.{
  Kind, answer, HelpAnswer, HelpQuestion, HelpSelection, Selector, asks_for_action, search_query,
  help_link, no_answer, prepared, shown, from_article, by_choice, from_ranked, from_other,
  ranked_articles, answer_question,
}

module _ {κ} (P : Article → Type κ) where
  All-insert :
      (x : Article × ℕ) (xs : List (Article × ℕ))
      → P x.0
      → All (λ (y : Article × ℕ). P y.0) xs
      → All (λ (y : Article × ℕ). P y.0) (insert x xs)
  All-insert x [] p h = (p, tt)
  All-insert x (y ∷ ys) p (q, h) = ground (arith, All-insert x ys p h)

  All-sort :
      (xs : List (Article × ℕ))
      → All (λ (y : Article × ℕ). P y.0) xs
      → All (λ (y : Article × ℕ). P y.0) (sort xs)
  All-sort [] h = tt
  All-sort (x ∷ xs) (p, h) = All-insert x (sort xs) p (All-sort xs h)

  All-scored :
      (f : Article → ℕ) (as' : List Article)
      → All P as'
      → All (λ (y : Article × ℕ). P y.0) (map (λ a. (a, f a)) as')
  All-scored f [] h = tt
  All-scored f (a ∷ as') (p, h) = (p, All-scored f as' h)

  All-unscored :
      (xs : List (Article × ℕ))
      → All (λ (y : Article × ℕ). P y.0) xs
      → All P (map (λ (x : Article × ℕ). x.0) xs)
  All-unscored [] h = tt
  All-unscored (x ∷ xs) (p, h) = (p, All-unscored xs h)

  -- A search gives back articles of the list that it is given.
  pub All-search_articles :
      (u : Unicode) (as' : List Article) (q : String)
      → All P as'
      → All (λ (y : Article × ℕ). P y.0) (search_articles u as' q)
  unfolding search_articles
  All-search_articles u as' q h = elim (Bool-cases (is_empty (trim q))) [
    | inl blank_query ↦ rw blank_query (All-scored (λ a. 100) as' h)
    | inr words ↦ rw words (
        All-sort (keep (λ x. leb 200 x.1) (map (λ a. (a, score u q a)) as')) (
          All-keep (λ (y : Article × ℕ). P y.0) (λ x. leb 200 x.1) (map (λ a. (a, score u q a)) as')
            (All-scored (score u q) as' h)))
  ]

-- An article of the catalogue that the actor may see.
abbrev pub IsVisible : Catalog → Actor → Article → Type 0
IsVisible catalog actor a = Memᴰ a catalog.articles × (may_see actor a ≡ true)

All-both {ℓ κ μ} :
    {A : Type ℓ} (P : A → Type κ) (Q : A → Type μ) (xs : List A)
    → All P xs
    → All Q xs
    → All (λ x. P x × Q x) xs
All-both P Q [] h k = tt
All-both P Q (x ∷ xs) (p, h) (q, k) = ((p, q), All-both P Q xs h k)

visible_articles-IsVisible :
    (catalog : Catalog) (actor : Actor)
    → All (IsVisible catalog actor) (visible_articles catalog actor)
unfolding visible_articles
visible_articles-IsVisible catalog actor =
    All-both (λ a. Memᴰ a catalog.articles) (λ a. may_see actor a ≡ true) _
      (All-keep (λ a. Memᴰ a catalog.articles) (may_see actor) catalog.articles
        (All-member catalog.articles))
      (keep-All (may_see actor) catalog.articles)

ranked_articles-IsVisible :
    (u : Unicode) (catalog : Catalog) (actor : Actor) (input : HelpQuestion)
    → All (IsVisible catalog actor) (ranked_articles u catalog actor input)
unfolding ranked_articles
ranked_articles-IsVisible u catalog actor input =
    let allowed = visible_articles catalog actor in
    let query = search_query allowed input in
    All-unscored (IsVisible catalog actor) (take 4 (search_articles u allowed query)) (
      All-take (λ (y : Article × ℕ). IsVisible catalog actor y.0) 4
        (search_articles u allowed query)
        (All-search_articles (IsVisible catalog actor) u allowed query
          (visible_articles-IsVisible catalog actor)))

-- What an answer of kind `answer` shows, and where it comes from.
pub record IsGrounded (P : Article → Type 0) (r : HelpAnswer) : Type 0 where
  pub article : Article
  pub allowed : P article
  pub sections : All (λ s. Memᴰ s article.sections) r.sections
  pub few : length r.sections ≤ 4
  pub sources : r.sources ≡ help_link article ∷ []
  pub screens : r.screens ≡ article.screens

-- The links that a reply may name.
abbrev pub LinksTo : (Article → Type 0) → Link → Type 0
LinksTo P l = (a : Article) × P a × (l ≡ help_link a)

-- A reply is either grounded, or shows no section and names only articles of the kind allowed.
abbrev pub IsSafe : (Article → Type 0) → HelpAnswer → Type 0
IsSafe P r =
    ((r.kind ≡ answer) × IsGrounded P r)
    ⊎ ((r.kind ≢ answer) × (r.sections ≡ []) × (r.screens ≡ []) × All (LinksTo P) r.sources)

module _ (P : Article → Type 0) (sources : List Link) (linked : All (LinksTo P) sources) where
  refused : (k : Kind) → k ≢ answer → IsSafe P (no_answer k sources)
  refused k other = inr (other, refl, refl, linked)

  prepared-All :
      (a : Article) (o : Option Section) (chosen : List Section)
      → find (λ (c : Section). str_eq c.title "操作前の確認") a.sections ≡ o
      → All (λ s. Memᴰ s a.sections) chosen
      → All (λ s. Memᴰ s a.sections) (prepared o chosen)
  prepared-All a none chosen e h = h
  prepared-All a (some c) chosen e h =
      let first =
        find-eq-some (λ s. Memᴰ s a.sections) (λ (c : Section). str_eq c.title "操作前の確認") a.sections
          c (All-member a.sections) e in
      All-take (λ s. Memᴰ s a.sections) 4
        (c ∷ keep (λ (s : Section). not (str_eq s.id c.id)) chosen)
        (
          first.0,
          All-keep (λ s. Memᴰ s a.sections) (λ (s : Section). not (str_eq s.id c.id)) chosen h,
        )

  length-prepared :
      (o : Option Section) (chosen : List Section)
      → length chosen ≤ 4
      → length (prepared o chosen) ≤ 4
  length-prepared none chosen h = h
  length-prepared (some c) chosen h =
      length-take 4 (c ∷ keep (λ (s : Section). not (str_eq s.id c.id)) chosen)

  shown-IsSafe :
      (a : Article) (chosen : List Section)
      → P a
      → All (λ s. Memᴰ s a.sections) chosen
      → length chosen ≤ 4
      → IsSafe P (shown a chosen sources)
  shown-IsSafe a [] p h few = refused Kind.not_found (λ e. cc)
  shown-IsSafe a (s ∷ ss) p h few =
      let first = find (λ (c : Section). str_eq c.title "操作前の確認") a.sections in
      inl (
        refl,
        record {
          article = a;
          allowed = p;
          sections = prepared-All a first (s ∷ ss) refl h;
          few = length-prepared first (s ∷ ss) few;
          sources = refl;
          screens = refl;
        },
      )

  from_article-IsSafe :
      (o : Option Article) (ids : Option (List String))
      → ((a : Article) → o ≡ some a → P a)
      → IsSafe P (from_article o ids sources)
  from_article-IsSafe none ids p = refused Kind.not_found (λ e. cc)
  from_article-IsSafe (some a) none p = refused Kind.not_found (λ e. cc)
  from_article-IsSafe (some a) (some ids) p =
      shown-IsSafe a (take 4 (keep (λ (s : Section). includes ids s.id) a.sections)) (p a refl)
        (All-take (λ s. Memᴰ s a.sections) 4 (keep (λ (s : Section). includes ids s.id) a.sections)
          (All-keep (λ s. Memᴰ s a.sections) (λ (s : Section). includes ids s.id) a.sections
            (All-member a.sections)))
        (length-take 4 (keep (λ (s : Section). includes ids s.id) a.sections))

  by_choice-IsSafe :
      (ranked : List Article) (o : Option HelpSelection)
      → All P ranked
      → IsSafe P (by_choice ranked sources o)
  by_choice-IsSafe ranked none h = refused Kind.unavailable (λ e. cc)
  by_choice-IsSafe ranked (some choice) h = elim (Bool-cases choice.clarify) [
    | inl unclear ↦ rw unclear (refused Kind.clarify (λ e. cc))
    | inr clear ↦ rw clear (
        from_article-IsSafe (find (λ (a : Article). str_eq a.slug choice.slug) ranked)
          choice.section_ids
          (λ a e. (find-eq-some P (λ (a : Article). str_eq a.slug choice.slug) ranked a h e).0))
  ]

links :
    (P : Article → Type 0) (as' : List Article) → All P as' → All (LinksTo P) (map help_link as')
links P [] h = tt
links P (a ∷ as') (p, h) = ((a, p, refl), links P as' h)

from_ranked-IsSafe :
    (P : Article → Type 0) (select : Selector) (input : HelpQuestion) (enabled : Bool)
    (ranked : List Article)
    → All P ranked
    → IsSafe P (from_ranked select input enabled ranked)
from_ranked-IsSafe P select input enabled [] h = refused P [] tt Kind.not_found (λ e. cc)
from_ranked-IsSafe P select input true (a ∷ as') h =
    by_choice-IsSafe P (map help_link (take 3 (a ∷ as')))
      (links P (take 3 (a ∷ as')) (All-take P 3 (a ∷ as') h)) (a ∷ as')
      (select input.question input.history (a ∷ as')) h
from_ranked-IsSafe P select input false (a ∷ as') h =
    refused P (map help_link (take 3 (a ∷ as')))
      (links P (take 3 (a ∷ as')) (All-take P 3 (a ∷ as') h)) Kind.unavailable (λ e. cc)

-- A reply that sends the user to another application of the catalogue.
abbrev pub IsReferral : Catalog → HelpAnswer → Type 0
IsReferral catalog r =
    (o : OtherApp) × Memᴰ o catalog.other_apps
    × (r.kind ≡ Kind.cross_app)
    × (r.sections ≡ [])
    × (r.screens ≡ [])
    × ((l : Link) × (r.sources ≡ l ∷ []) × (l.href ≡ o.href))

from_other-IsSafe :
    (catalog : Catalog) (P : Article → Type 0) (o : Option OtherApp) (r : HelpAnswer)
    → ((a : OtherApp) → o ≡ some a → Memᴰ a catalog.other_apps)
    → IsSafe P r
    → IsReferral catalog (from_other o r) ⊎ IsSafe P (from_other o r)
from_other-IsSafe catalog P none r h s = inr s
from_other-IsSafe catalog P (some o) r h s = inl (o, h o refl, refl, refl, refl, (_, refl, refl))

-- Whatever the selector returns, and whether or not it throws: an answer shows four sections at
-- most, all of one article of the catalogue that the actor may see, with that article's link and
-- screens. Any other reply shows no section and no screen, and names only articles that the
-- actor may see, or one other application of the catalogue.
pub answer_question-IsSafe :
    (u : Unicode) (catalog : Catalog) (actor : Actor) (input : HelpQuestion) (select : Selector)
    (enabled : Bool)
    → let r = answer_question u catalog actor input select enabled in
      IsReferral catalog r ⊎ IsSafe (IsVisible catalog actor) r
unfolding answer_question
answer_question-IsSafe u catalog actor input select enabled =
    elim (Bool-cases (asks_for_action input.question)) [
      | inl acting ↦
          rw acting (inr (refused (IsVisible catalog actor) [] tt Kind.restricted (λ e. cc)))
      | inr asking ↦
          let ranked = ranked_articles u catalog actor input in
          let apps =
            find (λ (o : OtherApp). any (contains input.question) o.keywords) catalog.other_apps in
          rw asking (
            from_other-IsSafe catalog (IsVisible catalog actor) apps
              (from_ranked select input enabled ranked)
              (λ o e.
                (find-eq-some (λ x. Memᴰ x catalog.other_apps)
                  (λ (o : OtherApp). any (contains input.question) o.keywords) catalog.other_apps o
                  (All-member catalog.other_apps) e).0)
              (from_ranked-IsSafe (IsVisible catalog actor) select input enabled ranked
                (ranked_articles-IsVisible u catalog actor input)))
    ]

from_ranked_off :
    (s t : Selector) (input : HelpQuestion) (ranked : List Article)
    → from_ranked s input false ranked ≡ from_ranked t input false ranked
from_ranked_off s t input [] = refl
from_ranked_off s t input (a ∷ as') = refl

-- A request to act for the user, a question for another application, and a question while the service is
-- disabled have the same reply whatever the selector answers.
pub answer_question_unasked :
    (u : Unicode) (catalog : Catalog) (actor : Actor) (input : HelpQuestion) (s t : Selector)
    (enabled : Bool)
    → ((asks_for_action input.question ≡ true)
        ⊎ ((enabled ≡ false)
            ⊎ ((o : OtherApp) × (find
                    (λ (o : OtherApp). any (contains input.question) o.keywords)
                    catalog.other_apps
                  ≡ some o))))
    → answer_question u catalog actor input s enabled
      ≡ answer_question u catalog actor input t enabled
unfolding answer_question
answer_question_unasked u catalog actor input s t enabled (inl acting) = rw acting refl
answer_question_unasked u catalog actor input s t enabled (inr (inl off)) =
    rw off (rw (from_ranked_off s t input (ranked_articles u catalog actor input)) refl)
answer_question_unasked u catalog actor input s t enabled (inr (inr (o, other))) = rw other refl
