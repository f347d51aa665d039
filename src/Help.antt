-- ===== src/Help.antt =====
-- The help centre: apps/api/src/help/engine.ts. Articles, actors and what an actor may see.
pub mod Search
pub mod Answer
pub mod Lease
pub mod Question
mod Examples
use hanamaru_shientool_prod.Prelude.{
  String, Bool, true, false, ◌&&◌, ◌||◌, List, [], ◌∷◌, any, all, keep, if◌then◌else◌,
}
use hanamaru_shientool_prod.Prelude.Text.{str_eq}

pub record Actor : Type 0 where
  pub id : String
  pub roles : List String
  pub features : List (String × Bool)

pub record Section : Type 0 where
  pub id : String
  pub title : String
  pub text : String

pub record Link : Type 0 where
  pub label : String
  pub href : String

-- `category`, `audience` and `updated` are shown by the pages alone and are left out.
pub record Article : Type 0 where
  pub slug : String
  pub title : String
  pub roles : List String
  pub features : List String
  pub screens : List Link
  pub keywords : List String
  pub body : String
  pub sections : List Section

pub record OtherApp : Type 0 where
  pub label : String
  pub href : String
  pub keywords : List String

pub record Catalog : Type 0 where
  pub articles : List Article
  pub other_apps : List OtherApp

-- `roles.includes(r)`.
abbrev pub includes : List String → String → Bool
includes rs r = any (str_eq r) rs

-- `actor.features[f] === true`.
abbrev pub is_on : List (String × Bool) → String → Bool
is_on [] f = false
is_on ((g, b) ∷ fs) f = let rest = is_on fs f in if str_eq g f then b else rest

abbrev pub may_see : Actor → Article → Bool
may_see actor a =
    (none_required a.roles || any (includes a.roles) actor.roles)
    && all (is_on actor.features) a.features
  where
    none_required : List String → Bool
    none_required [] = true
    none_required (r ∷ rs) = false

-- `visibleArticles`.
unfoldable pub visible_articles : Catalog → Actor → List Article
visible_articles catalog actor = keep (may_see actor) catalog.articles
