-- ===== src/Yahoo/Script.antt =====
-- What parseYahooClosedSearchHtml of packages/market-price/src/index.ts looks for in the text of a page:
-- the signs of a CAPTCHA, and the script with the data.
use Prim.Native.Char.{Char, code}
use Prim.Native.String.{String}
use hanamaru_shientool_prod.Prelude.{Bool, ◌||◌, Option, none, some, ◌==◌, if◌then◌else◌}
use hanamaru_shientool_prod.Prelude.Text.{is_space, is_empty}
use hanamaru_shientool_prod.Prelude.Substrings.{contains, starts}

-- `/captcha|画像認証|ロボットではないこと/u`.
unfoldable pub is_captcha : String → Bool
unfolding contains
is_captcha html = contains html "captcha" || (contains html "画像認証" || contains html "ロボットではないこと")

infixl 5 ◌>>=◌
abbrev ◌>>=◌ : {A B : Type 0} → Option A → (A → Option B) → Option B
some a >>= f = f a
none >>= f = none

-- What follows a text that the other one starts with.
abbrev after : String → String → Option String
after String.[] s = some s
after (String.◌∷◌ c w) String.[] = none
after (String.◌∷◌ c w) (String.◌∷◌ d s) = if code c == code d then after w s else none

abbrev skipped : String → String
skipped String.[] = String.[]
skipped (String.◌∷◌ c s) = let rest = skipped s in if is_space c then rest else String.◌∷◌ c s

-- `\s+`.
unfoldable after_spaces : String → Option String
unfolding is_space
after_spaces String.[] = none
after_spaces (String.◌∷◌ c s) = if is_space c then some (skipped s) else none

-- `["']`.
abbrev after_quote : String → Option String
after_quote String.[] = none
after_quote (String.◌∷◌ c s) = if code c == b'"' || code c == 39 then some s else none

-- `<script\s+id=["']__NEXT_DATA__["']\s+type=["']application\/json["']>`.
unfoldable opening : String → Option String
unfolding after_spaces
opening s =
    after "<script" s
    >>= after_spaces
    >>= after "id="
    >>= after_quote
    >>= after "__NEXT_DATA__"
    >>= after_quote
    >>= after_spaces
    >>= after "type="
    >>= after_quote
    >>= after "application/json"
    >>= after_quote
    >>= after ">"

abbrev prefixed : Char → Option String → Option String
prefixed c none = none
prefixed c (some s) = some (String.◌∷◌ c s)

-- `([\s\S]*?)<\/script>`.
unfoldable before_close : String → Option String
before_close String.[] = none
before_close (String.◌∷◌ c s) =
    let rest = before_close s in
    if starts "</script>" (String.◌∷◌ c s) then some String.[] else prefixed c rest

abbrev first_of : Option String → Option String → Option String
first_of none o = o
first_of (some s) o = some s

unfoldable search : String → Option String
unfolding opening before_close
search String.[] = none
search (String.◌∷◌ c s) =
    let rest = search s in first_of (opening (String.◌∷◌ c s) >>= before_close) rest

abbrev not_blank : Option String → Option String
not_blank none = none
not_blank (some s) = if is_empty s then none else some s

-- The text of the script, which must not be empty.
unfoldable pub script : String → Option String
unfolding search
script html = not_blank (search html)
