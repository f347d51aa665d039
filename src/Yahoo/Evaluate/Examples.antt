-- ===== src/Yahoo/Evaluate/Examples.antt =====
-- Runs of the evaluation of closed searches.
use Prim.Native.Char.{Char}
use Prim.Native.String.{String}
use hanamaru_shientool_prod.Prelude.{
  ℕ, Bool, true, false, Option, none, some, List, [], ◌∷◌, map, ◌≡◌, refl,
}
use hanamaru_shientool_prod.Prelude.Integers.{pos}
use hanamaru_shientool_prod.Prelude.Substrings.{contains}
use hanamaru_shientool_prod.Prelude.Text.{
  tidy, trim, trim_start, trim_end, collapse, collapse_from, is_space,
}
use hanamaru_shientool_prod.Market.Prices.{sort, insert, nth}
use hanamaru_shientool_prod.Yahoo.{Web, good, normalize_keyword}
use hanamaru_shientool_prod.Yahoo.Items.{Item, auction, TaxDisplay}
use hanamaru_shientool_prod.Yahoo.Evaluate.{
  Input, by_keyword, condition_eq, query_tokens, words_from, score_of, is_low, match_reasons,
  median, quantile,
}
use hanamaru_shientool_prod.Yahoo.Evaluate.Judge.{
  Candidate, Statistics, judge, evaluated, evaluate, decide, decide_all, group_of, group_prices,
  add_price, prices_at, statistics, least, most, count_all, count_reasons, count_reason, reason_eq,
}
use hanamaru_shientool_prod.Yahoo.Evaluate.Figures.{Figures, evaluate-Figures}

abbrev web : Web
web = record {
  nfkc = λ s. s;
  lower = λ s. s;
  number = λ s. none;
  show = λ n. "1";
  sha256 = λ s. s;
  read_url = λ s. none;
  query_text = λ ps. "";
  is_word = λ c. true;
}

abbrev is_mark : Char → Bool
is_mark c = false

abbrev sold : String → ℕ → Item
sold title price = record {
  source_item_id = title;
  source_type = auction;
  canonical_url = "";
  title = title;
  closing_price = price;
  ended_at = 50;
  ended_on = none;
  source_condition = none;
  normalized_condition = good;
  tax_display = TaxDisplay.unknown;
  category_id = none;
  brand_id = none;
  is_aucfan = false;
}

abbrev input : Input
input = record {
  items =
      sold "nikon d70" 100
      ∷ (sold "nikon d70 body" 110
          ∷ (sold "nikon d70 kit" 120 ∷ (sold "nikon d70 set" 900 ∷ (sold "canon" 50 ∷ []))));
  selected_keyword = "nikon d70";
  basis = by_keyword;
  model_number = "";
  period_start = pos 0;
  period_end = 100;
  selected_conditions = good ∷ [];
  exclude_keywords = [];
  policy = record { enabled = true; threshold = (1, 2); minimum_group_size = 3 };
}

abbrev result : List Candidate × Statistics
result = evaluated web is_mark input.policy (map (judge web is_mark input) input.items)

-- The dear one of the four cameras is an outlier, and the other item no camera.
figures_run : ◌≡◌ {A = ℕ × Option ℕ} (result.1.included_count, result.1.median_price) (3, some 220)
unfolding judge score_of is_low match_reasons query_tokens words_from contains normalize_keyword
    tidy trim trim_start trim_end collapse collapse_from is_space condition_eq decide decide_all
    group_of group_prices add_price prices_at statistics least most median quantile sort insert nth
    count_all count_reasons count_reason reason_eq
figures_run = refl

evaluate-Figures_example : Figures (map (judge web is_mark input) input.items) result.0 result.1
unfolding evaluate
evaluate-Figures_example = evaluate-Figures web is_mark input result refl
