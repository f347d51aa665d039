-- ===== src/Market/Places.antt =====
-- The country that a text names: classifyEbayLocation of packages/market-price/src/soldgraph.ts.
-- `fold` is the simple case folding of a regular expression with the flags i and u; the characters
-- that `\b` tells apart are the ASCII letters, digits and the underscore.
use Prim.Native.Char.{Char, code}
use Prim.Native.String.{String}
use hanamaru_shientool_prod.Prelude.{
  ℕ, Bool, true, false, not, ◌&&◌, ◌||◌, Option, none, some, List, [], ◌∷◌, any, keep, ◌==◌,
}
use hanamaru_shientool_prod.Prelude.Text.{is_alnum}
use hanamaru_shientool_prod.Contracts.{Location, LocationStatus}

pub record Country : Type 0 where
  pub country_code : String
  pub words : List String
  pub signs : List String

-- `countryPatterns`: words between word boundaries, and signs anywhere.
abbrev pub countries : List Country
countries =
    record {
      country_code = "US";
      words =
          "united states"
          ∷ ("états-unis" ∷ ("vereinigte staaten" ∷ ("estados unidos" ∷ ("stati uniti" ∷ []))));
      signs = [];
    }
    ∷ (record {
      country_code = "GB";
      words =
          "united kingdom"
          ∷ ("royaume-uni" ∷ ("vereinigtes königreich" ∷ ("reino unido" ∷ ("regno unito" ∷ []))));
      signs = [];
    }
        ∷ (record { country_code = "CA"; words = "canada" ∷ []; signs = [] }
            ∷ (record {
              country_code = "AU";
              words = "australia" ∷ ("australie" ∷ ("australien" ∷ []));
              signs = [];
            }
                ∷ (record {
                  country_code = "DE";
                  words =
                      "germany"
                      ∷ ("deutschland" ∷ ("allemagne" ∷ ("alemania" ∷ ("germania" ∷ []))));
                  signs = [];
                }
                    ∷ (record {
                      country_code = "FR";
                      words = "france" ∷ ("frankreich" ∷ ("francia" ∷ []));
                      signs = [];
                    }
                        ∷ (record {
                          country_code = "IT";
                          words = "italy" ∷ ("italia" ∷ ("italie" ∷ ("italien" ∷ [])));
                          signs = [];
                        }
                            ∷ (record {
                              country_code = "ES";
                              words =
                                  "spain"
                                  ∷ ("españa" ∷ ("espagne" ∷ ("spanien" ∷ ("spagna" ∷ []))));
                              signs = [];
                            }
                                ∷ (record {
                                  country_code = "JP";
                                  words = "japan" ∷ ("japon" ∷ ("japón" ∷ ("giappone" ∷ [])));
                                  signs = "日本" ∷ [];
                                }
                                    ∷ (record {
                                      country_code = "CN";
                                      words = "china" ∷ ("chine" ∷ ("cina" ∷ []));
                                      signs = "中国" ∷ [];
                                    }
                                        ∷ [])))))))))

-- Under the flags `iu` the long s and the sign of Kelvin are characters of a word, too.
abbrev is_word : Char → Bool
is_word c = is_alnum c || code c == b'_' || code c == 0x17f || code c == 0x212a

abbrev starts_word : String → Bool
starts_word String.[] = false
starts_word (String.◌∷◌ c s) = is_word c

abbrev differ : Bool → Bool → Bool
differ true b = not b
differ false b = b

module _ (fold : Char → ℕ) where
  -- Whether a word stands at the start of a text; the last argument says if what follows the word
  -- must be a boundary, the one before it whether the last character read is one of a word.
  abbrev stands : String → String → Bool → Bool → Bool
  stands String.[] s last bounded = not bounded || differ last (starts_word s)
  stands (String.◌∷◌ c w) String.[] last bounded = false
  stands (String.◌∷◌ c w) (String.◌∷◌ d s) last bounded =
      fold c == fold d && stands w s (is_word d) bounded

  -- Whether a pattern matches somewhere, after a character of a word or not.
  abbrev found : Country → Bool → String → Bool
  found p before String.[] = false
  found p before (String.◌∷◌ c s) =
      (differ before (is_word c) && any (λ w. stands w (String.◌∷◌ c s) false true) p.words)
      || any (λ w. stands w (String.◌∷◌ c s) false false) p.signs
      || found p (is_word c) s

  abbrev pub named : List Country → Option String → Location
  named [] t = record { status = LocationStatus.unknown; country_code = none; text = t }
  named (p ∷ []) t = record {
    status = LocationStatus.country_explicit;
    country_code = some p.country_code;
    text = t;
  }
  named (p ∷ (q ∷ ps)) t = record {
    status = LocationStatus.conflicting;
    country_code = none;
    text = t;
  }

  abbrev pub matching : Option String → List Country
  matching none = []
  matching (some s) = keep (λ p. found p false s) countries

  -- `classifyEbayLocation` of a text that `text(value, 500)` let through.
  unfoldable pub classify_location : Option String → Location
  classify_location t = named (matching t) t
