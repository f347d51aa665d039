-- ===== src/Yahoo/Evaluate.antt =====
-- The evaluation of closed searches: evaluateMarketPriceCandidates, with median and quantile, of
-- packages/market-price/src/index.ts. Prices are natural numbers; a median is in halves, a quantile in
-- quarters and a bound in eighths, which the source's numbers hold exactly. A score is kept as the parts
-- that it is computed from, and a threshold is a fraction.
pub mod Judge
pub mod Groups
pub mod Rules
pub mod Medians
pub mod Figures
mod Examples
use Prim.Native.Char.{Char}
use Prim.Native.String
use Prim.Native.String.{String}
use hanamaru_shientool_prod.Prelude.{
  ℕ, suc, ◌+◌, ◌-◌, ◌*◌, ◌/◌, ◌%◌, min, Bool, true, false, not, ◌&&◌, ◌||◌, Option, none, some,
  List, [], ◌∷◌, ◌++◌, any, all, keep, length, map, ltb, leb, ◌==◌, if◌then◌else◌, Result, ok, err,
}
use hanamaru_shientool_prod.Prelude.Integers.{ℤ, sub_ℕ}
use hanamaru_shientool_prod.Prelude.Text.{
  str_eq, is_empty, is_digit, is_space, any_char, utf16_length,
}
use hanamaru_shientool_prod.Prelude.Substrings.{contains}
use hanamaru_shientool_prod.Market.Prices.{sort, nth}
use hanamaru_shientool_prod.Yahoo.{
  Web, ProductCondition, unspecified, unused, near_unused, good, fair, poor, very_poor,
  normalize_keyword, SearchError, parameter_invalid,
}
use hanamaru_shientool_prod.Yahoo.Items.{Item, SourceType, auction, fleamarket}
use hanamaru_shientool_prod.Yahoo.Registry.{title_matches_model, normalize_model}

pub data Reason : Type 0 where
  product_mismatch source_type period condition exclude_keyword price_outlier : Reason

pub data MatchReason : Type 0 where
  keyword_coverage : ℕ → ℕ → MatchReason
  model_token_missing accessory_signal model_number_exact model_number_missing : MatchReason

pub data Basis : Type 0 where
  by_keyword by_model_number : Basis

pub record OutlierPolicy : Type 0 where
  pub enabled : Bool
  pub threshold : ℕ × ℕ
  pub minimum_group_size : ℕ

pub record Input : Type 0 where
  pub items : List Item
  pub selected_keyword : String
  pub basis : Basis
  pub model_number : String
  pub period_start : ℤ
  pub period_end : ℕ
  pub selected_conditions : List ProductCondition
  pub exclude_keywords : List String
  pub policy : OutlierPolicy

-- The matched part of the whole, lowered for a missing model number and for an accessory.
pub record Score : Type 0 where
  pub part : ℕ
  pub whole : ℕ
  pub missing : Bool
  pub accessory : Bool

-- 90 days in milliseconds.
abbrev period_length : ℕ
period_length = 7776000000

-- `searchPeriod`, of the instant that a date is.
unfoldable pub search_period : Option ℕ → Result SearchError (ℤ × ℕ)
search_period none = err parameter_invalid
search_period (some t) = ok (sub_ℕ t period_length, t)

-- `median`, in halves.
unfoldable pub median : List ℕ → Option ℕ
median [] = none
median (x ∷ xs) =
    let sorted = sort (x ∷ xs) in
    let middle = length sorted / 2 in
    some (
      if length sorted % 2 == 1
      then 2 * nth sorted middle
      else nth sorted (middle - 1) + nth sorted middle)

-- `quantile` at a number of quarters, in quarters.
unfoldable pub quantile : List ℕ → ℕ → Option ℕ
quantile [] k = none
quantile (x ∷ xs) k =
    let sorted = sort (x ∷ xs) in
    let position = (length sorted - 1) * k in
    let left = nth sorted (position / 4) in
    let right = nth sorted (min (position / 4 + 1) (length sorted - 1)) in
    some (4 * left + (right - left) * (position % 4))

unfoldable pub condition_eq : ProductCondition → ProductCondition → Bool
condition_eq unspecified unspecified = true
condition_eq unused unused = true
condition_eq near_unused near_unused = true
condition_eq good good = true
condition_eq fair fair = true
condition_eq poor poor = true
condition_eq very_poor very_poor = true
condition_eq _ _ = false

abbrev pub selects : List ProductCondition → ProductCondition → Bool
selects cs c = any (condition_eq c) cs

abbrev accessory_signals : List String
accessory_signals =
    "ケース"
    ∷ ("カバー"
        ∷ ("バッテリー" ∷ ("充電器" ∷ ("ストラップ" ∷ ("箱のみ" ∷ ("空箱" ∷ ("部品取り" ∷ ("ジャンク" ∷ ("取扱説明書" ∷ [])))))))))

abbrev pub used_conditions : List ProductCondition
used_conditions = near_unused ∷ (good ∷ (fair ∷ (poor ∷ (very_poor ∷ []))))

abbrev unique : List String → List String
unique [] = []
unique (s ∷ ss) = let rest = unique ss in s ∷ keep (λ t. not (str_eq s t)) rest

abbrev word : String → List String → List String
word s ws = if is_empty s then ws else s ∷ ws

abbrev consed : Char → String × List String → String × List String
consed c (s, ws) = (String.◌∷◌ c s, ws)

abbrev ended : String × List String → String × List String
ended (s, ws) = (String.[], word s ws)

-- The text to the next separator and the words after it.
unfoldable pub words_from : (Char → Bool) → String → String × List String
words_from separates String.[] = (String.[], [])
words_from separates (String.◌∷◌ c s) =
    let inside = consed c (words_from separates s) in
    let next = ended (words_from separates s) in if separates c then next else inside

abbrev all_words : String × List String → List String
all_words (s, ws) = word s ws

-- `is_mark` is the classes P and S of Unicode.
module _ (w : Web) (is_mark : Char → Bool) where
  -- The tokens of the keyword, each once.
  unfoldable pub query_tokens : String → List String
  unfolding words_from is_space
  query_tokens keyword = unique (
      keep (λ t. leb 2 (utf16_length t))
        (all_words (words_from (λ c. is_space c || is_mark c) keyword)))

  abbrev pub has_digit : String → Bool
  has_digit t = any_char is_digit t

  abbrev pub exclusions_of : Input → List String
  exclusions_of i =
      map (λ s. w.lower s)
        (keep (λ s. not (is_empty s)) (map (normalize_keyword w) i.exclude_keywords))

  abbrev pub keyword_of : Input → String
  keyword_of i = w.lower (normalize_keyword w i.selected_keyword)

  abbrev pub accessory_only : String → String → Bool
  accessory_only keyword title =
      any (λ s. contains title s && not (contains keyword s)) accessory_signals

  abbrev covered : List String → String → String → ℕ × ℕ
  covered [] keyword title = ((if contains title keyword then 1 else 0), 1)
  covered (t ∷ ts) keyword title = (length (keep (contains title) (t ∷ ts)), length (t ∷ ts))

  abbrev keyword_score : String → String → Score
  keyword_score keyword title =
      let tokens = query_tokens keyword in
      let part = covered tokens keyword title in
      record {
        part = part.0;
        whole = part.1;
        missing = any (λ t. not (contains title t)) (keep has_digit tokens);
        accessory = accessory_only keyword title;
      }

  abbrev model_score : Bool → Bool → Score
  model_score exact accessory = record {
    part = if exact then 1 else 0;
    whole = 1;
    missing = not exact;
    accessory = accessory;
  }

  unfoldable pub score_of : Input → Item → Score
  unfolding query_tokens contains normalize_keyword title_matches_model
  score_of i item =
      let title = w.lower item.title in
      elim i.basis [
        | by_keyword ↦ keyword_score (keyword_of i) title
        | by_model_number ↦
            model_score (title_matches_model w item.title (normalize_keyword w i.model_number))
              (accessory_only (keyword_of i) title)
      ]

  abbrev when : Bool → MatchReason → List MatchReason
  when b r = if b then r ∷ [] else []

  unfoldable pub match_reasons : Input → Item → Score → List MatchReason
  unfolding query_tokens contains
  match_reasons i item s = elim i.basis [
    | by_model_number ↦
        (if s.missing then model_number_missing else model_number_exact)
        ∷ when s.accessory accessory_signal
    | by_keyword ↦
        let tokens = query_tokens (keyword_of i) in
        keyword_coverage (length (keep (contains (w.lower item.title)) tokens)) (length tokens)
        ∷ (when s.missing model_token_missing ++ when s.accessory accessory_signal)
  ]

-- `matchScore < .75`: a lowered score is at most .4.
unfoldable pub is_low : Score → Bool
is_low s = s.missing || (s.accessory || ltb (4 * s.part) (3 * s.whole))
