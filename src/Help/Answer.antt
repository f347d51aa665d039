-- ===== src/Help/Answer.antt =====
-- The answer to a question: apps/api/src/help/engine.ts, `answerQuestion`. The fixed Japanese
-- messages are left out, since `kind` and the other fields tell them apart. `select` is the caller's
-- selector (a language model), `none` if it throws; a selection whose `sectionIds` are no array has
-- `none` there.
pub mod Grounded
use Prim.Native.Char.{Char, code}
use Prim.Native.String
use Prim.Native.String.{String}
use hanamaru_shientool_prod.Prelude.{
  ℕ, ◌-◌, Bool, true, false, not, ◌&&◌, ◌||◌, Option, none, some, List, [], ◌∷◌, map, if◌then◌else◌,
  ltb, ◌==◌, any, keep, find, take,
}
use hanamaru_shientool_prod.Prelude.Text.{str_eq, is_empty, utf16_length, units_of}
use hanamaru_shientool_prod.Help.{
  Actor, Section, Link, Article, OtherApp, Catalog, includes, visible_articles,
}
use hanamaru_shientool_prod.Prelude.Substrings.{starts, contains}
use hanamaru_shientool_prod.Help.Search.{Unicode, search_articles, join}

pub data Kind : Type 0 where
  answer clarify not_found restricted unavailable cross_app : Kind

pub record HelpAnswer : Type 0 where
  pub kind : Kind
  pub sections : List Section
  pub sources : List Link
  pub screens : List Link

pub record Turn : Type 0 where
  pub question : String
  pub source_slugs : List String

pub record HelpQuestion : Type 0 where
  pub question : String
  pub history : List Turn

pub record HelpSelection : Type 0 where
  pub slug : String
  pub section_ids : Option (List String)
  pub clarify : Bool

abbrev pub Selector : Type 0
Selector = String → List Turn → List Article → Option HelpSelection

-- A line break, which `.` does not match.
abbrev is_break : Char → Bool
is_break c = code c == 10 || code c == 13 || code c == 0x2028 || code c == 0x2029

-- `.{0,n}(?:w₁|w₂|…)` at the start of a text.
near : List String → ℕ → String → Bool
near ends n String.[] = any (λ w. starts w String.[]) ends
near ends n (String.◌∷◌ c s) =
    any (λ w. starts w (String.◌∷◌ c s)) ends
    || (not (is_break c) && not (ltb n (units_of c)) && near ends (n - units_of c) s)

-- The text behind a word that it starts with.
after_word : String → String → Option String
after_word String.[] s = some s
after_word (String.◌∷◌ c w) String.[] = none
after_word (String.◌∷◌ c w) (String.◌∷◌ d s) =
    let rest = after_word w s in if code c == code d then rest else none

follows : List String → ℕ → Option String → Bool
follows ends n none = false
follows ends n (some s) = near ends n s

-- `(?:w₁|…).{0,n}(?:e₁|…)` somewhere in a text.
matches_near : List String → List String → ℕ → String → Bool
matches_near heads ends n String.[] = any (λ w. follows ends n (after_word w String.[])) heads
matches_near heads ends n (String.◌∷◌ c s) =
    any (λ w. follows ends n (after_word w (String.◌∷◌ c s))) heads || matches_near heads ends n s

-- A request to act for the user, or for the user's own figures.
unfoldable pub asks_for_action : String → Bool
unfolding near after_word follows matches_near
asks_for_action q =
    matches_near ("申請" ∷ ("登録" ∷ ("更新" ∷ ("削除" ∷ ("承認" ∷ ("発注" ∷ ("打刻" ∷ [])))))))
      ("しておいて" ∷ ("実行して" ∷ ("代わりに" ∷ ("しといて" ∷ [])))) 12 q
    || matches_near ("私の" ∷ ("わたしの" ∷ ("自分の" ∷ [])))
        ("何日" ∷ ("いくら" ∷ ("教えて" ∷ ("残って" ∷ ("状況を確認" ∷ []))))) 18 q

abbrev is_follow_up : String → Bool
is_follow_up q =
    any (λ w. starts w q)
      ("その" ∷ ("それ" ∷ ("続き" ∷ ("次" ∷ ("修正" ∷ ("変更" ∷ ("戻" ∷ ("取消" ∷ ("取り消" ∷ ("やり直" ∷ []))))))))))
    && ltb (utf16_length q) 45

abbrev last_turn : List Turn → Option Turn
last_turn [] = none
last_turn (t ∷ []) = some t
last_turn (t ∷ (v ∷ ts)) = last_turn (v ∷ ts)

abbrev with_context : List Article → String → Option Turn → String
with_context allowed q none = q
with_context allowed q (some t) =
    String.◌++◌
      (join (
        map (λ (a : Article). a.title)
          (keep (λ (a : Article). includes t.source_slugs a.slug) allowed)))
      (String.◌++◌ " " (String.◌++◌ t.question (String.◌++◌ " " q)))

-- The text that is searched for: a short follow-up takes the last turn with it.
unfoldable pub search_query : List Article → HelpQuestion → String
unfolding join
search_query allowed input =
    if is_follow_up input.question
    then with_context allowed input.question (last_turn input.history)
    else input.question

abbrev pub no_answer : Kind → List Link → HelpAnswer
no_answer k sources = record { kind = k; sections = []; sources = sources; screens = [] }

abbrev pub help_link : Article → Link
help_link a = record { label = a.title; href = String.◌++◌ "/help/" a.slug }

-- The section with the preparations, if the article has one, stands first.
abbrev prepared : Option Section → List Section → List Section
prepared none chosen = chosen
prepared (some c) chosen = take 4 (c ∷ keep (λ (s : Section). not (str_eq s.id c.id)) chosen)

abbrev shown : Article → List Section → List Link → HelpAnswer
shown a [] sources = no_answer not_found sources
shown a (s ∷ ss) sources = record {
  kind = answer;
  sections = prepared (find (λ (c : Section). str_eq c.title "操作前の確認") a.sections) (s ∷ ss);
  sources = help_link a ∷ [];
  screens = a.screens;
}

abbrev from_article : Option Article → Option (List String) → List Link → HelpAnswer
from_article none ids sources = no_answer not_found sources
from_article (some a) none sources = no_answer not_found sources
from_article (some a) (some ids) sources =
    shown a (take 4 (keep (λ (s : Section). includes ids s.id) a.sections)) sources

abbrev by_choice : List Article → List Link → Option HelpSelection → HelpAnswer
by_choice ranked sources none = no_answer unavailable sources
by_choice ranked sources (some choice) =
    if choice.clarify
    then no_answer clarify sources
    else from_article (find (λ (a : Article). str_eq a.slug choice.slug) ranked) choice.section_ids
        sources

abbrev from_ranked : Selector → HelpQuestion → Bool → List Article → HelpAnswer
from_ranked select input enabled [] = no_answer not_found []
from_ranked select input enabled (a ∷ as') =
    let sources = map help_link (take 3 (a ∷ as')) in
    if enabled
    then by_choice (a ∷ as') sources (select input.question input.history (a ∷ as'))
    else no_answer unavailable sources

abbrev from_other : Option OtherApp → HelpAnswer → HelpAnswer
from_other none here = here
from_other (some o) here =
    no_answer cross_app (record { label = String.◌++◌ o.label "のヘルプ"; href = o.href } ∷ [])

module _ (u : Unicode) where
  -- The articles that the selector is shown: the four best of those that the actor may see.
  unfoldable pub ranked_articles : Catalog → Actor → HelpQuestion → List Article
  ranked_articles catalog actor input =
      let allowed = visible_articles catalog actor in
      map (λ (x : Article × ℕ). x.0)
        (take 4 (search_articles u allowed (search_query allowed input)))

  -- `answerQuestion`.
  unfoldable pub answer_question : Catalog → Actor → HelpQuestion → Selector → Bool → HelpAnswer
  answer_question catalog actor input select enabled =
      if asks_for_action input.question
      then no_answer restricted []
      else from_other
          (find (λ (o : OtherApp). any (contains input.question) o.keywords) catalog.other_apps)
          (from_ranked select input enabled (ranked_articles catalog actor input))
