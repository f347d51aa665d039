-- ===== src/Yahoo.antt =====
-- The closed search of Yahoo auctions and of Aucfan: packages/market-price/src/index.ts, with the types
-- of packages/contracts/src/index.ts. `Web` is what the code takes from outside: NFKC and the Japanese
-- lower case, `Number` of a text where that is a natural number, the text of a number, SHA-256, the
-- parser and the printer of URLs, and the test of Unicode letters and numbers.
pub mod Query
pub mod Registry
pub mod Reading
pub mod Items
pub mod Script
pub mod Pages
pub mod Evaluate
mod Examples
use Prim.Native.Char.{Char}
use hanamaru_shientool_prod.Prelude.{
  ℕ, String, Bool, true, false, Option, none, some, List, Result, ok, err,
}
use hanamaru_shientool_prod.Prelude.Text.{tidy}

pub data ProductCondition : Type 0 where
  unspecified unused near_unused good fair poor very_poor : ProductCondition

-- What `new URL` gives.
pub record Url : Type 0 where
  pub origin : String
  pub pathname : String
  pub username : String
  pub password : String
  pub hash : String
  pub params : List (String × String)

pub record Web : Type 0 where
  pub nfkc : String → String
  pub lower : String → String
  pub number : String → Option ℕ
  pub show : ℕ → String
  pub sha256 : String → String
  pub read_url : String → Option Url
  pub query_text : List (String × String) → String
  pub is_word : Char → Bool

-- The codes of `YahooClosedSearchContractError` and `AucfanSearchContractError`.
pub data SearchError : Type 0 where
  parameter_invalid url_invalid response_too_large captcha_detected : SearchError
  parser_contract_mismatch sort_contract_mismatch price_parse_failure_rate : SearchError
  upstream : String → SearchError

infixl 5 ◌>>=◌
abbrev pub ◌>>=◌ :
    {A B : Type 0} → Result SearchError A → (A → Result SearchError B) → Result SearchError B
ok a >>= f = f a
err e >>= f = err e

-- `normalizeSearchKeyword`.
unfoldable pub normalize_keyword : Web → String → String
normalize_keyword w s = tidy (w.nfkc s)

-- `normalizeRegistryLabel`.
unfoldable pub normalize_label : Web → String → String
unfolding normalize_keyword
normalize_label w s = w.lower (normalize_keyword w s)
