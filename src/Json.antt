-- ===== src/Json.antt =====
-- A value of type `unknown`: what `JSON.parse` gives, and `undefined` for a member that is not there.
use hanamaru_shientool_prod.Prelude.{
  ℕ, String, Bool, true, false, Option, none, some, ltb, if◌then◌else◌, List, [], ◌∷◌,
}
use hanamaru_shientool_prod.Prelude.Text.{str_eq}

-- A number that is an integer and not negative, or any other with the text that `String` gives it.
pub data Number : Type 0 where
  nat : ℕ → Number
  other : String → Number

mutual
  pub data Json : Type 0 where
    undefined null : Json
    bool : Bool → Json
    num : Number → Json
    str : String → Json
    arr : Items → Json
    obj : Members → Json

  pub data Items : Type 0 where
    nil : Items
    cons : Json → Items → Items

  pub data Members : Type 0 where
    end : Members
    member : String → Json → Members → Members

abbrev pub items : Items → List Json
items nil = []
items (cons v vs) = v ∷ items vs

abbrev lookup : String → Members → Json
lookup k end = undefined
lookup k (member j v ms) = let rest = lookup k ms in if str_eq j k then v else rest

-- `value.k` of an object, and of `{}` for any other value (soldgraph.ts, `object`).
abbrev pub field : String → Json → Json
field k (obj ms) = lookup k ms
field k _ = undefined

abbrev pub text_of : Json → Option String
text_of (str s) = some s
text_of _ = none

abbrev pub bool_of : Json → Option Bool
bool_of (bool b) = some b
bool_of _ = none

-- `Number.MAX_SAFE_INTEGER + 1`.
abbrev pub safe_limit : ℕ
safe_limit = 9007199254740992

-- `Number.isSafeInteger(v) && v >= 0`.
abbrev pub safe_nat : Json → Option ℕ
safe_nat (num (nat n)) = if ltb n safe_limit then some n else none
safe_nat _ = none

abbrev pub is_null : Json → Bool
is_null null = true
is_null _ = false
