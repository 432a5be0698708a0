-- ===== src/Text/Address.antt =====
-- `Ipv4Addr::from_str` and `Ipv6Addr::from_str`, whose results the source takes as octets.
pub mod Lengths
pub mod Printed
use mrtgen.Base.{
  ℕ, zero, suc, ◌+◌, ◌-◌, ◌*◌, ◌++◌, [], ◌∷◌, List, Bool, true, false, ◌&&◌, not, Option, none,
  some, Bytes, ltb, ◌==◌, if◌then◌else◌, be16, length, replicate,
}
use mrtgen.Wire.{◌>>=◌}
use mrtgen.Wire.Many.{flat}
use mrtgen.Text.{to_digit}

abbrev Parser : Type 0 → Type 0
Parser A = Bytes → Option (A × Bytes)

-- Value and number of the digits in front, and what is left.
abbrev read_digits : ℕ → ℕ → ℕ → Bytes → ℕ × ℕ × Bytes
read_digits radix value count [] = (value, count, [])
read_digits radix value count (c ∷ s) = elim (to_digit radix c) [
  | none ↦ (value, count, c ∷ s)
  | some d ↦ read_digits radix (value * radix + d) (count + 1) s
]

-- At most `max_digits` digits, a value below `limit`, and a leading zero only if it is allowed.
read_number : ℕ → ℕ → ℕ → Bool → Parser ℕ
read_number radix max_digits limit allow_zero_prefix s =
    let (value, count, rest) = read_digits radix 0 0 s in
    let leading_zero : Bool = elim s [ [] ↦ false | c ∷ r ↦ c == b'0' ] in
    if ltb max_digits count
    then none
    else if count == 0
    then none
    else if not allow_zero_prefix && (leading_zero && ltb 1 count)
    then none
    else if ltb value limit
    then some (value, rest)
    else none

read_given_char : ℕ → Bytes → Option Bytes
read_given_char sep [] = none
read_given_char sep (c ∷ s) = if c == sep then some s else none

-- A separator, but before the first item.
read_separator : {A : Type 0} → ℕ → ℕ → Parser A → Parser A
read_separator sep zero inner s = inner s
read_separator sep (suc i) inner s = read_given_char sep s >>= inner

read_ipv4_addr : Parser Bytes
read_ipv4_addr s = do
  (a, s₁) ← read_separator b'.' 0 (read_number 10 3 256 false) s
  (b, s₂) ← read_separator b'.' 1 (read_number 10 3 256 false) s₁
  (c, s₃) ← read_separator b'.' 2 (read_number 10 3 256 false) s₂
  (d, s₄) ← read_separator b'.' 3 (read_number 10 3 256 false) s₃
  some (a ∷ b ∷ c ∷ d ∷ [], s₄)

-- An embedded IPv4 address as two groups.
ipv4_groups : Bytes → List ℕ
ipv4_groups (a ∷ b ∷ c ∷ d ∷ _) = (a * 256 + b) ∷ (c * 256 + d) ∷ []
ipv4_groups _ = []

-- At most `slots` groups, the first of index `i`: the groups, whether they end in an IPv4 address (which
-- needs two slots), and what is left.
read_groups : ℕ → ℕ → Bytes → List ℕ × Bool × Bytes
read_groups zero i s = ([], false, s)
read_groups (suc slots) i s =
    let ipv4 : Option (Bytes × Bytes) =
      if ltb 0 slots then read_separator b':' i read_ipv4_addr s else none in
    elim ipv4 [
      | some (octets, rest) ↦ (ipv4_groups octets, true, rest)
      | none ↦ elim (read_separator b':' i (read_number 16 4 65536 true) s) [
        | none ↦ ([], false, s)
        | some (g, rest) ↦
            let (gs, embedded, rest') = read_groups slots (i + 1) rest in (g ∷ gs, embedded, rest')
      ]
    ]

group_octets : List ℕ → Bytes
group_octets gs = flat be16 gs

-- The groups behind `::`, which stands for one group at least.
after_colons : List ℕ → Parser Bytes
after_colons head s =
    let (tail, tail_ipv4, rest) = read_groups (8 - (length head + 1)) 0 s in
    some (group_octets (head ++ (replicate (8 - length head - length tail) 0 ++ tail)), rest)

read_ipv6_addr : Parser Bytes
read_ipv6_addr s =
    let (head, head_ipv4, s₁) = read_groups 8 0 s in
    let size = length head in
    let compressed : Option (Bytes × Bytes) =
      (read_given_char b':' s₁ >>= read_given_char b':') >>= after_colons head in
    if size == 8 then some (group_octets head, s₁) else if head_ipv4 then none else compressed

-- `from_str` takes the whole text.
whole : {A : Type 0} → Option (A × Bytes) → Option A
whole none = none
whole (some (a, [])) = some a
whole (some (a, c ∷ s)) = none

unfoldable pub parse_ipv4 : Bytes → Option Bytes
unfolding whole read_ipv4_addr read_separator read_given_char read_number to_digit
parse_ipv4 s = whole (read_ipv4_addr s)

unfoldable pub parse_ipv6 : Bytes → Option Bytes
unfolding whole read_ipv6_addr after_colons read_groups group_octets ipv4_groups read_ipv4_addr
    read_separator read_given_char read_number to_digit be16
parse_ipv6 s = whole (read_ipv6_addr s)
