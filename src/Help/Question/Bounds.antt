-- ===== src/Help/Question/Bounds.antt =====
-- What gets through the checks of apps/api/src/help/engine.ts.

use hanamaru_shientool_prod.Prelude.{
  ℕ, suc, ◌+◌, ◌≤◌, ◌<◌, ◌≡◌, refl, sym, ◌∙◌, ap, subst, ◌⊎◌, inl, inr, true, false, ◌||◌, List, [],
  ◌∷◌, ◌++◌, arith, String, Result, ok, err, length, length-append, All, Bool-cases, ltb,
}
use mathlib.Core.List.{append_assoc, append-nil}
use hanamaru_shientool_prod.Prelude.Text.{utf16_length, is_empty, trim, trim_start, trim_end}
use hanamaru_shientool_prod.Prelude.Spaces.{trim-trim}
use hanamaru_shientool_prod.Json.{Json, undefined, null, str, arr, items, field}
use hanamaru_shientool_prod.Help.Answer.{Turn, HelpQuestion}
use hanamaru_shientool_prod.Help.Question.{
  HelpError, too_large, ◌>>=◌, is_slug, slugs, turn_of, parse_turn, turns, history_of, asked,
  is_object, parse_question, collect,
}

-- The bytes of all chunks.
abbrev pub joined : List (List ℕ) → List ℕ
joined [] = []
joined (c ∷ cs) = c ++ joined cs

-- The loop gives the concatenation of the chunks exactly when its size, with what was read before, is
-- within the limit, and the refusal of status 413 otherwise: a limit that only a later chunk passes
-- is not missed, and nothing is cut off.
pub collect_lem :
    (bytes : List ℕ) (size : ℕ) (chunks : List (List ℕ))
    → size ≤ 32768
    → ((size + length (joined chunks) ≤ 32768)
        × (collect bytes size chunks ≡ ok (bytes ++ joined chunks)))
      ⊎ ((32768 < size + length (joined chunks)) × (collect bytes size chunks ≡ err too_large))
unfolding collect
collect_lem bytes size [] s = inl (omega arith, ap ok (sym (append-nil bytes)))
collect_lem bytes size (c ∷ cs) s = elim (Bool-cases (ltb 32768 (size + length c))) [
  | inl over ↦ inr (ground (arith, length-append c (joined cs)), rw over refl)
  | inr fits ↦ elim (collect_lem (bytes ++ c) (size + length c) cs (ground arith)) [
    | inl (within, e) ↦ inl (
      omega (arith, length-append c (joined cs)),
      rw fits (e ∙ ap ok (append_assoc bytes c (joined cs))),
    )
    | inr (beyond, e) ↦ inr (omega (arith, length-append c (joined cs)), rw fits e)
  ]
]

-- A turn of the conversation as the selector may be given it.
abbrev pub IsBounded : Turn → Type 0
IsBounded t =
    (utf16_length t.question ≤ 1000)
    × (length t.source_slugs ≤ 3)
    × All (λ s. is_slug s ≡ true) t.source_slugs

bind_ok :
    {A B : Type 0} (r : Result HelpError A) (f : A → Result HelpError B) {b : B}
    → (r >>= f) ≡ ok b
    → (a : A) × (r ≡ ok a) × (f a ≡ ok b)
bind_ok (ok a) f e = (a, refl, e)
bind_ok (err x) f e = cc

ok_inj : {A : Type 0} {a b : A} → ◌≡◌ {A = Result HelpError A} (ok a) (ok b) → a ≡ b
ok_inj e = cc

slugs-All :
    (vs : List Json) (ss : List String)
    → slugs vs ≡ ok ss
    → All (λ s. is_slug s ≡ true) ss × (length ss ≡ length vs)
unfolding slugs
slugs-All [] ss e =
    subst (λ x. All (λ s. is_slug s ≡ true) x × (length x ≡ 0)) (ok_inj e) (tt, refl)
slugs-All (str s ∷ vs) ss e = elim (Bool-cases (is_slug s)) [
  | inl good ↦
      let (rest, r, same) = bind_ok (slugs vs) (λ rest. ok (s ∷ rest)) (rw good at e) in
      let (all, n) = slugs-All vs rest r in
      subst (λ x. All (λ s. is_slug s ≡ true) x × (length x ≡ suc (length vs))) (ok_inj same)
        ((good, all), ap suc n)
  | inr bad ↦ absurd (ground arith)
]
slugs-All (v ∷ vs) ss e = absurd (ground arith)

turn_of-IsBounded : (a b : Json) (t : Turn) → turn_of a b ≡ ok t → IsBounded t
turn_of-IsBounded (str q) (arr vs) t e =
    elim (Bool-cases (ltb 1000 (utf16_length q) || ltb 3 (length (items vs)))) [
      | inl bad ↦ absurd (ground arith)
      | inr good ↦
          let (ss, r, same) =
            bind_ok (slugs (items vs)) (λ ss. ok (record { question = q; source_slugs = ss }))
              (rw good at e) in
          let (all, n) = slugs-All (items vs) ss r in
          subst IsBounded (ok_inj same) (ground arith, ground arith, all)
    ]
turn_of-IsBounded a b t e = absurd (ground arith)

parse_turn-IsBounded : (v : Json) (t : Turn) → parse_turn v ≡ ok t → IsBounded t
unfolding parse_turn
parse_turn-IsBounded v t e = elim (Bool-cases (is_object v)) [
  | inl good ↦ turn_of-IsBounded (field "question" v) (field "sourceSlugs" v) t (rw good at e)
  | inr bad ↦ absurd (ground arith)
]

turns-IsBounded :
    (vs : List Json) (ts : List Turn)
    → turns vs ≡ ok ts
    → All IsBounded ts × (length ts ≡ length vs)
unfolding turns
turns-IsBounded [] ts e = subst (λ x. All IsBounded x × (length x ≡ 0)) (ok_inj e) (tt, refl)
turns-IsBounded (v ∷ vs) ts e =
    let (t, first, e') = bind_ok (parse_turn v) (λ t. turns vs >>= λ ts. ok (t ∷ ts)) e in
    let (rest, r, same) = bind_ok (turns vs) (λ ts. ok (t ∷ ts)) e' in
    let (all, n) = turns-IsBounded vs rest r in
    subst (λ x. All IsBounded x × (length x ≡ suc (length vs))) (ok_inj same)
      ((parse_turn-IsBounded v t first, all), ap suc n)

abbrev IsHistory : List Turn → Type 0
IsHistory ts = All IsBounded ts × (length ts ≤ 6)

history_of-IsHistory : (v : Json) (ts : List Turn) → history_of v ≡ ok ts → IsHistory ts
unfolding history_of
history_of-IsHistory undefined ts e = subst IsHistory (ok_inj e) (tt, omega arith)
history_of-IsHistory null ts e = subst IsHistory (ok_inj e) (tt, omega arith)
history_of-IsHistory (arr vs) ts e = elim (Bool-cases (ltb 6 (length (items vs)))) [
  | inl bad ↦ absurd (ground arith)
  | inr good ↦ let (all, n) = turns-IsBounded (items vs) ts (rw good at e) in (all, ground arith)
]
history_of-IsHistory v ts e = absurd (ground arith)

trim_start-le : (s : String) → utf16_length (trim_start s) ≤ utf16_length s
unfolding trim_start
trim_start-le String.[] = omega arith
trim_start-le (String.◌∷◌ c s) = ground (arith, trim_start-le s)

trim_end-le : (s : String) → utf16_length (trim_end s) ≤ utf16_length s
unfolding trim_end
trim_end-le String.[] = omega arith
trim_end-le (String.◌∷◌ c s) = ground (arith, trim_end-le s)

trim-le : (s : String) → utf16_length (trim s) ≤ utf16_length s
unfolding trim
trim-le s = omega (arith, trim_end-le (trim_start s), trim_start-le s)

-- A question as the rest of the engine may rely on it.
abbrev pub IsAccepted : HelpQuestion → Type 0
IsAccepted q =
    (is_empty q.question ≡ false)
    × (trim q.question ≡ q.question)
    × (utf16_length q.question ≤ 1000)
    × All IsBounded q.history
    × (length q.history ≤ 6)

asked-IsAccepted : (v w : Json) (q : HelpQuestion) → asked v w ≡ ok q → IsAccepted q
asked-IsAccepted (str s) w q e =
    elim (Bool-cases (is_empty (trim s) || ltb 1000 (utf16_length s))) [
      | inl bad ↦ absurd (ground arith)
      | inr good ↦
          let (ts, h, same) =
            bind_ok (history_of w) (λ ts. ok (record { question = trim s; history = ts }))
              (rw good at e) in
          let (all, few) = history_of-IsHistory w ts h in
          subst IsAccepted (ok_inj same)
            (ground arith, trim-trim s, ground (arith, trim-le s), all, few)
    ]
asked-IsAccepted v w q e = absurd (ground arith)

-- Whatever JSON comes in, a question that is let through has a text that is not empty, has no white
-- space at either end, and has 1000 UTF-16 code units at most, and at most six earlier turns, each with a question of that length at
-- most and three well-formed slugs at most.
pub parse_question-IsAccepted :
    (v : Json) (q : HelpQuestion) → parse_question v ≡ ok q → IsAccepted q
unfolding parse_question
parse_question-IsAccepted v q e = elim (Bool-cases (is_object v)) [
  | inl good ↦ asked-IsAccepted (field "question" v) (field "history" v) q (rw good at e)
  | inr bad ↦ absurd (ground arith)
]
