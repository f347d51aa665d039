-- ===== src/Prelude/Substrings.antt =====
-- Searching a text for another, and leaving characters out.
use Prim.Native.Char.{Char, code}
use Prim.Native.String.{String, [], ◌∷◌}
use mathlib.Core.Bool.{Bool, true, false, ◌&&◌, ◌||◌}
use hanamaru_shientool_prod.Prelude.{◌==◌, if◌then◌else◌}
use hanamaru_shientool_prod.Prelude.Text.{is_empty}

abbrev pub starts : String → String → Bool
starts [] s = true
starts (c ∷ w) [] = false
starts (c ∷ w) (d ∷ s) = code c == code d && starts w s

-- `s.includes(w)`.
unfoldable pub contains : String → String → Bool
contains [] w = is_empty w
contains (c ∷ s) w = starts w (c ∷ s) || contains s w

-- A text without the characters of a class.
unfoldable pub drop_chars : (Char → Bool) → String → String
drop_chars p [] = []
drop_chars p (c ∷ s) = let rest = drop_chars p s in if p c then rest else c ∷ rest
