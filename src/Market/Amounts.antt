-- ===== src/Market/Amounts.antt =====
-- Exact amounts: packages/market-price/src/soldgraph.ts. An amount is a number of millionths (the
-- bigint of `units`), and its text is what `decimal` writes.
use Prim.Native.Char.{code}
use Prim.Native.String
use Prim.Native.String.{String}
use hanamaru_shientool_prod.Prelude.{
  ℕ, zero, suc, ◌+◌, ◌-◌, ◌*◌, Option, none, some, ◌==◌, if◌then◌else◌,
}
use hanamaru_shientool_prod.Prelude.Text.{is_digit, all_chars, size}

abbrev pub scale : ℕ
scale = 1000000

-- `value.split(".")`: the part before the first full stop, and the part up to the next one.
abbrev pub whole_part : String → String
whole_part String.[] = String.[]
whole_part (String.◌∷◌ c s) =
    let rest = whole_part s in if code c == b'.' then String.[] else String.◌∷◌ c rest

abbrev pub fraction_part : String → String
fraction_part String.[] = String.[]
fraction_part (String.◌∷◌ c s) =
    let rest = fraction_part s in if code c == b'.' then whole_part s else rest

abbrev value_from : ℕ → String → ℕ
value_from n String.[] = n
value_from n (String.◌∷◌ c s) = value_from (n * 10 + (code c - b'0')) s

-- `BigInt` of a text of digits (the empty text is 0), which are the only ones that decimalUnits and decimal
-- give it; the further texts that it accepts, with white space, a sign or a hexadecimal prefix, are taken
-- as refused.
unfoldable pub big_int : String → Option ℕ
big_int s = if all_chars is_digit s then some (value_from 0 s) else none

abbrev zeros : ℕ → String
zeros zero = String.[]
zeros (suc n) = String.◌∷◌ "0" (zeros n)

abbrev pub pad_end : ℕ → String → String
pad_end n s = String.◌++◌ s (zeros (n - size s))

abbrev sum_of : Option ℕ → Option ℕ → Option ℕ
sum_of (some w) (some f) = some (w * scale + f)
sum_of _ _ = none

-- `units`.
unfoldable pub units : String → Option ℕ
unfolding big_int
units s = sum_of (big_int (whole_part s)) (big_int (pad_end 6 (fraction_part s)))
