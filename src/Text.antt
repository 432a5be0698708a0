-- ===== src/Text.antt =====
-- The text functions of the standard library that the parsers call. A `str` is the list of its UTF-8
-- bytes; every separator and digit is ASCII.
pub mod Address
pub mod Bounds
pub mod Decimal
use Prim.Native.Char.{code}
use Prim.Native.String.{String}
use mrtgen.Base.{
  ℕ, zero, suc, ◌+◌, ◌-◌, ◌*◌, ◌<◌, ◌++◌, [], ◌∷◌, List, Bool, true, false, ◌&&◌, ◌||◌, Option,
  none, some, Bytes, ltb, leb, ◌==◌, if◌then◌else◌, map,
}
use mrtgen.Wire.{◌>>=◌}

-- A literal of ASCII characters.
abbrev pub codes : String → Bytes
codes String.[] = []
codes (String.◌∷◌ c s) = code c ∷ codes s

-- `s == t`
unfoldable pub text_eq : Bytes → Bytes → Bool
text_eq [] [] = true
text_eq (a ∷ s) (b ∷ t) = a == b && text_eq s t
text_eq _ _ = false

abbrev pub lower : ℕ → ℕ
lower c = if leb b'A' c && leb c b'Z' then c + 32 else c

abbrev pub to_ascii_lowercase : Bytes → Bytes
to_ascii_lowercase s = map lower s

-- `s.split_once(sep)`, at the first separator
unfoldable pub split_once : ℕ → Bytes → Option (Bytes × Bytes)
split_once sep [] = none
split_once sep (c ∷ s) =
    let later = split_once sep s >>= (λ (front, back). some (c ∷ front, back)) in
    if c == sep then some ([], s) else later

-- `s.rsplit_once(sep)`, at the last separator
unfoldable pub rsplit_once : ℕ → Bytes → Option (Bytes × Bytes)
rsplit_once sep [] = none
rsplit_once sep (c ∷ s) = elim (rsplit_once sep s) [
  | some (front, back) ↦ some (c ∷ front, back)
  | none ↦ if c == sep then some ([], s) else none
]

-- `s.split(sep)`: never empty
unfoldable pub split : ℕ → Bytes → List Bytes
split sep [] = [] ∷ []
split sep (c ∷ s) = elim (split sep s) [
  | [] ↦ (c ∷ []) ∷ []
  | part ∷ parts ↦ if c == sep then [] ∷ part ∷ parts else (c ∷ part) ∷ parts
]

unfoldable pub strip_prefix : Bytes → Bytes → Option Bytes
strip_prefix [] s = some s
strip_prefix (p ∷ ps) [] = none
strip_prefix (p ∷ ps) (c ∷ s) = let rest = strip_prefix ps s in if p == c then rest else none

-- `char::to_digit`
unfoldable pub to_digit : ℕ → ℕ → Option ℕ
to_digit radix c =
    let digit : Option ℕ =
      if leb b'0' c && leb c b'9'
      then some (c - b'0')
      else if leb b'a' c && leb c b'z'
      then some (c - b'a' + 10)
      else if leb b'A' c && leb c b'Z'
      then some (c - b'A' + 10)
      else none in
    elim digit [ none ↦ none | some d ↦ if ltb d radix then some d else none ]

-- The digits of an integer below `limit`; `none` on another byte or past the limit.
unfoldable pub digits_value : ℕ → ℕ → ℕ → Bytes → Option ℕ
digits_value radix limit acc [] = some acc
digits_value radix limit acc (c ∷ s) = elim (to_digit radix c) [
  | none ↦ none
  | some d ↦
      let acc' = acc * radix + d in
      let rest = digits_value radix limit acc' s in if ltb acc' limit then rest else none
]

-- `from_str_radix` of an unsigned type: an optional `+`, then at least one digit.
unfoldable pub from_str_radix : ℕ → ℕ → Bytes → Option ℕ
from_str_radix radix limit [] = none
from_str_radix radix limit (c ∷ s) =
    if c == b'+'
    then elim s [ [] ↦ none | d ∷ ds ↦ digits_value radix limit 0 (d ∷ ds) ]
    else digits_value radix limit 0 (c ∷ s)

-- `s.parse::<u8>()` and so on: radix 10.
abbrev pub parse_u8 : Bytes → Option ℕ
parse_u8 s = from_str_radix 10 256 s

abbrev pub parse_u16 : Bytes → Option ℕ
parse_u16 s = from_str_radix 10 65536 s

abbrev pub parse_u32 : Bytes → Option ℕ
parse_u32 s = from_str_radix 10 4294967296 s

abbrev pub parse_u64 : Bytes → Option ℕ
parse_u64 s = from_str_radix 10 18446744073709551616 s
