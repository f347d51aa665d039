-- ===== src/Prelude/Text.antt =====
-- Text as the source treats it: white space, trimming, character classes, lengths.
use Prim.Native.Char.{Char, code}
use Prim.Native.Nat.{ℕ, suc, ◌+◌}
use Prim.Native.String.{String, [], ◌∷◌}
use mathlib.Core.Bool.{Bool, true, false, ◌&&◌, ◌||◌}
use text.Mathlib.Text.{◌==◌ as text_eq}
use hanamaru_shientool_prod.Prelude.Tests.{ltb, leb, ◌==◌, if◌then◌else◌}

abbrev pub str_eq : String → String → Bool
str_eq s t = text_eq s t

-- `\s` of a regular expression.
unfoldable pub is_space : Char → Bool
is_space c =
    (leb 9 (code c) && leb (code c) 13)
    || code c == 32
    || code c == 0xa0
    || code c == 0x1680
    || (leb 0x2000 (code c) && leb (code c) 0x200a)
    || code c == 0x2028
    || code c == 0x2029
    || code c == 0x202f
    || code c == 0x205f
    || code c == 0x3000
    || code c == 0xfeff

abbrev pub is_empty : String → Bool
is_empty [] = true
is_empty (c ∷ s) = false

abbrev pub blank : Char
blank = " "

-- The number of code points, `[...s].length`.
abbrev pub size : String → ℕ
size [] = 0
size (c ∷ s) = suc (size s)

-- Code units of UTF-16, the `length` of a string.
abbrev pub units_of : Char → ℕ
units_of c = if ltb (code c) 0x10000 then 1 else 2

abbrev pub utf16_length : String → ℕ
utf16_length [] = 0
utf16_length (c ∷ s) = units_of c + utf16_length s

abbrev pub all_chars : (Char → Bool) → String → Bool
all_chars p [] = true
all_chars p (c ∷ s) = p c && all_chars p s

abbrev pub any_char : (Char → Bool) → String → Bool
any_char p [] = false
any_char p (c ∷ s) = p c || any_char p s

unfoldable pub trim_start : String → String
trim_start [] = []
trim_start (c ∷ s) = let rest = trim_start s in if is_space c then rest else c ∷ s

unfoldable pub trim_end : String → String
trim_end [] = []
trim_end (c ∷ s) = let rest = trim_end s in if is_space c && is_empty rest then [] else c ∷ rest

-- `String.prototype.trim`.
unfoldable pub trim : String → String
unfolding trim_start trim_end
trim s = trim_end (trim_start s)

-- `replace(/\s+/gu, " ")`; the flag says that the run has its space already.
unfoldable pub collapse_from : Bool → String → String
collapse_from seen [] = []
collapse_from seen (c ∷ s) =
    let inside = collapse_from true s in
    let outside = collapse_from false s in
    if is_space c then (if seen then inside else blank ∷ inside) else c ∷ outside

unfoldable pub collapse : String → String
unfolding collapse_from is_space
collapse s = collapse_from false s

-- `replace(/\s+/gu, " ").trim()`.
unfoldable pub tidy : String → String
unfolding trim collapse
tidy s = trim (collapse s)

abbrev pub is_digit : Char → Bool
is_digit c = leb b'0' (code c) && leb (code c) b'9'

abbrev pub is_lower : Char → Bool
is_lower c = leb b'a' (code c) && leb (code c) b'z'

abbrev pub is_upper : Char → Bool
is_upper c = leb b'A' (code c) && leb (code c) b'Z'

abbrev pub is_alnum : Char → Bool
is_alnum c = is_lower c || is_upper c || is_digit c

-- A whole text over one class of characters, with a length in a range: `/^[...]{lo,hi}$/`.
abbrev pub matches_class : (Char → Bool) → ℕ → ℕ → String → Bool
matches_class p lo hi s = leb lo (size s) && leb (size s) hi && all_chars p s

-- The order of two texts by their characters; that of dates written as `YYYY-MM-DD` is it.
unfoldable pub not_after : String → String → Bool
not_after [] t = true
not_after (c ∷ s) [] = false
not_after (c ∷ s) (d ∷ t) =
    let rest = not_after s t in
    if ltb (code c) (code d) then true else if code c == code d then rest else false
