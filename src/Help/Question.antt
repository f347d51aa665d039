-- ===== src/Help/Question.antt =====
-- The question that comes in: apps/api/src/help/engine.ts, `parseQuestion` and `readQuestionBody`.
-- A chunk of the body is the list of its bytes; `decode` is `TextDecoder` and `JSON.parse`, `none`
-- where they throw.
pub mod Bounds
use Prim.Native.Char.{Char, code}
use Prim.Native.String.{String}
use hanamaru_shientool_prod.Prelude.{
  ℕ, ◌+◌, Bool, true, false, not, ◌&&◌, ◌||◌, Option, none, some, List, [], ◌∷◌, ◌++◌,
  if◌then◌else◌, ltb, ◌==◌, Result, ok, err, length,
}
use hanamaru_shientool_prod.Prelude.Text.{
  is_empty, trim, utf16_length, is_lower, is_digit, matches_class,
}
use hanamaru_shientool_prod.Json.{Json, undefined, null, str, arr, obj, Items, items, field}
use hanamaru_shientool_prod.Help.Answer.{Turn, HelpQuestion}

-- `HelpError` with its status; the first is any of the five texts of status 400.
pub data HelpError : Type 0 where
  bad_request too_large : HelpError

infixl 5 ◌>>=◌
abbrev pub ◌>>=◌ :
    {A B : Type 0} → Result HelpError A → (A → Result HelpError B) → Result HelpError B
ok a >>= f = f a
err e >>= f = err e

-- `/^[a-z0-9-]{1,80}$/`.
unfoldable pub is_slug : String → Bool
is_slug s = matches_class (λ c. is_lower c || is_digit c || code c == b'-') 1 80 s

unfoldable pub slugs : List Json → Result HelpError (List String)
unfolding is_slug
slugs [] = ok []
slugs (str s ∷ vs) = if is_slug s then (slugs vs >>= λ rest. ok (s ∷ rest)) else err bad_request
slugs (v ∷ vs) = err bad_request

abbrev is_object : Json → Bool
is_object (obj ms) = true
is_object (arr vs) = true
is_object _ = false

abbrev turn_of : Json → Json → Result HelpError Turn
turn_of (str q) (arr vs) =
    if ltb 1000 (utf16_length q) || ltb 3 (length (items vs))
    then err bad_request
    else slugs (items vs) >>= λ ss. ok (record { question = q; source_slugs = ss })
turn_of _ _ = err bad_request

unfoldable pub parse_turn : Json → Result HelpError Turn
unfolding slugs
parse_turn v =
    if is_object v then turn_of (field "question" v) (field "sourceSlugs" v) else err bad_request

unfoldable pub turns : List Json → Result HelpError (List Turn)
unfolding parse_turn
turns [] = ok []
turns (v ∷ vs) = do t ← parse_turn v; ts ← turns vs; ok (t ∷ ts)

-- `v.history ?? []`.
unfoldable pub history_of : Json → Result HelpError (List Turn)
unfolding turns
history_of undefined = ok []
history_of null = ok []
history_of (arr vs) = if ltb 6 (length (items vs)) then err bad_request else turns (items vs)
history_of _ = err bad_request

abbrev asked : Json → Json → Result HelpError HelpQuestion
asked (str q) history =
    if is_empty (trim q) || ltb 1000 (utf16_length q)
    then err bad_request
    else history_of history >>= λ ts. ok (record { question = trim q; history = ts })
asked _ history = err bad_request

-- `parseQuestion`.
unfoldable pub parse_question : Json → Result HelpError HelpQuestion
unfolding history_of
parse_question v =
    if is_object v then asked (field "question" v) (field "history" v) else err bad_request

-- The loop that reads the body: the chunks so far, and their size.
unfoldable pub collect : List ℕ → ℕ → List (List ℕ) → Result HelpError (List ℕ)
collect bytes size [] = ok bytes
collect bytes size (chunk ∷ chunks) =
    let size' = size + length chunk in
    let rest = collect (bytes ++ chunk) size' chunks in
    if ltb 32768 size' then err too_large else rest

abbrev decoded : Option Json → Result HelpError Json
decoded none = err bad_request
decoded (some v) = ok v

-- `readQuestionBody`; a request with no body has no chunks to read.
unfoldable pub read_question_body :
    (List ℕ → Option Json) → Option (List (List ℕ)) → Result HelpError Json
unfolding collect
read_question_body decode none = err bad_request
read_question_body decode (some chunks) = collect [] 0 chunks >>= λ bytes. decoded (decode bytes)
