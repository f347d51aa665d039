-- ===== src/Help/Examples.antt =====
-- Tests and concrete instances for apps/api/src/help/engine.ts.

use hanamaru_shientool_prod.Prelude.{
  ℕ, ◌+◌, ◌≤◌, ◌<◌, ◌≡◌, refl, ◌⊎◌, true, false, some, List, [], ◌∷◌, ◌++◌, arith, ok, err, length,
}
use hanamaru_shientool_prod.Prelude.Text.{trim, is_space}
use hanamaru_shientool_prod.Prelude.Maps.{get, put}
use hanamaru_shientool_prod.Json.{Json, str, arr, obj, nil, cons, end, member}
use hanamaru_shientool_prod.Help.{Actor, Section, Article, Catalog, visible_articles}
use hanamaru_shientool_prod.Prelude.Substrings.{contains, drop_chars}
use hanamaru_shientool_prod.Help.Search.{Unicode, search_articles}
use hanamaru_shientool_prod.Help.Answer.{
  answer, HelpQuestion, Selector, asks_for_action, search_query, ranked_articles, answer_question,
}
use hanamaru_shientool_prod.Help.Answer.Grounded.{
  IsReferral, IsSafe, IsVisible, answer_question-IsSafe,
}
use hanamaru_shientool_prod.Help.Lease.{Bucket, Windows, question_lease, release, sweep, max_count}
use hanamaru_shientool_prod.Help.Lease.Runs.{ask, done, run, run-le-ten}
use hanamaru_shientool_prod.Help.Question.{too_large, parse_question, collect}
use hanamaru_shientool_prod.Help.Question.Bounds.{
  joined, collect_lem, IsAccepted, parse_question-IsAccepted,
}

abbrev plain : Unicode
plain = record { nfkc = λ s. s; lower = λ s. s }

abbrev steps : Section
steps = record { id = "s1"; title = "手順"; text = "押す" }

abbrev guide : Article
guide = record {
  slug = "visit";
  title = "来店";
  roles = "staff" ∷ [];
  features = [];
  screens = [];
  keywords = "来店" ∷ [];
  body = "来店の登録";
  sections = steps ∷ [];
}

abbrev catalog : Catalog
catalog = record { articles = guide ∷ []; other_apps = [] }

abbrev staff : Actor
staff = record { id = "u1"; roles = "staff" ∷ []; features = [] }

abbrev guest : Actor
guest = record { id = "u2"; roles = []; features = [] }

abbrev question : HelpQuestion
question = record { question = "来店の手順は"; history = [] }

abbrev chooser : Selector
chooser q h as' = some (record { slug = "visit"; section_ids = some ("s1" ∷ []); clarify = false })

staff_answer : answer_question plain catalog staff question chooser true ≡ record {
  kind = answer;
  sections = steps ∷ [];
  sources = record { label = "来店"; href = "/help/visit" } ∷ [];
  screens = [];
}
unfolding answer_question asks_for_action ranked_articles visible_articles search_articles
    search_query contains drop_chars
staff_answer = refl

-- The guest does not see the article.
guest_answer : (answer_question plain catalog guest question chooser true).sections ≡ []
unfolding answer_question asks_for_action ranked_articles visible_articles search_articles
    search_query contains drop_chars
guest_answer = refl

answer_question-IsSafe_example :
    let r = answer_question plain catalog staff question chooser true in
    IsReferral catalog r ⊎ IsSafe (IsVisible catalog staff) r
answer_question-IsSafe_example = answer_question-IsSafe plain catalog staff question chooser true

action_request : asks_for_action "来店を登録しておいて" ≡ true
unfolding asks_for_action
action_request = refl

abbrev empty : Windows
empty = record { entries = []; next = 0 }

abbrev bucket : Bucket
bucket = record { serial = 0; start = 5; count = 9; pending = false }

abbrev one_window : Windows
one_window = record { entries = ("u1", bucket) ∷ []; next = 1 }

-- A tenth question is let in, an eleventh is not, and after a minute the count starts again.
tenth :
    (run "u1" one_window (ask "u1" 100 ∷ (done "u1" 0 ∷ (ask "u1" 200 ∷ (ask "u1" 60006 ∷ []))))).1
    ≡ 2
unfolding run question_lease release sweep get put
tenth = refl

run-le-ten_example :
    (run "u1" one_window (ask "u1" 100 ∷ (done "u1" 0 ∷ (ask "u1" 200 ∷ [])))).1 + 9 ≤ max_count
unfolding get
run-le-ten_example =
    run-le-ten "u1" bucket one_window (ask "u1" 100 ∷ (done "u1" 0 ∷ (ask "u1" 200 ∷ []))) refl
      (omega arith) (omega arith)

abbrev asking : Windows
asking = record { entries = ("u1", record bucket { pending = true }) ∷ []; next = 1 }

abbrev chunks : List (List ℕ)
chunks = (1 ∷ (2 ∷ [])) ∷ ((3 ∷ []) ∷ [])

collect_lem_example :
    ((0 + length (joined chunks) ≤ 32768) × (collect [] 0 chunks ≡ ok ([] ++ joined chunks)))
    ⊎ ((32768 < 0 + length (joined chunks)) × (collect [] 0 chunks ≡ err too_large))
collect_lem_example = collect_lem [] 0 chunks (omega arith)

abbrev raw : Json
raw = obj (
    member "question" (str " 来店の手順は ") (
      member "history"
        (arr (
          cons
            (obj (
              member "question" (str "何")
                (member "sourceSlugs" (arr (cons (str "visit") nil)) end)))
            nil))
        end))

abbrev accepted : HelpQuestion
accepted = record {
  question = "来店の手順は";
  history = record { question = "何"; source_slugs = "visit" ∷ [] } ∷ [];
}

parse_question-IsAccepted_example : IsAccepted accepted
unfolding parse_question trim is_space
parse_question-IsAccepted_example = parse_question-IsAccepted raw accepted refl
