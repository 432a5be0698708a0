-- ===== src/Routes/Prefix.antt =====
-- `parse_prefix` and `prefix_has_host_bits` of src/routes.rs.
pub mod Sound
pub mod Hosts
pub mod Exact
pub mod Printed
use mrtgen.Base.{
  ℕ, ◌+◌, ◌-◌, ◌/◌, ◌%◌, ◌^◌, [], ◌∷◌, Bool, true, false, ◌||◌, not, Option, none, some, Bytes, ltb,
  leb, ◌==◌, bit_and, if◌then◌else◌, length, drop,
}
use mrtgen.Text.{split_once, parse_u8}
use mrtgen.Text.Address.{parse_ipv4, parse_ipv6}
use mrtgen.Outcome.{
  expected_address_length, bad_prefix_length, prefix_too_long, bad_address, Outcome, ok, err, ◌>>=◌,
  ◌>>◌, ok_or, refuse_if,
}

-- Whether the address is IPv6, its octets, and the prefix length.
pub record Prefix : Type 0 where
  pub v6 : Bool
  pub addr : Bytes
  pub bits : ℕ

abbrev parse_address : Bytes → ℕ → Outcome Prefix
parse_address addr bits = elim (parse_ipv4 addr) [
  | some v4 ↦ do
    refuse_if (ltb 32 bits) prefix_too_long
    ok (record { v6 = false; addr = v4; bits = bits })
  | none ↦ elim (parse_ipv6 addr) [
    | some v6 ↦ do
      refuse_if (ltb 128 bits) prefix_too_long
      ok (record { v6 = true; addr = v6; bits = bits })
    | none ↦ err bad_address
  ]
]

unfoldable pub parse_prefix : Bytes → Outcome Prefix
parse_prefix s = do
  (addr, len) ← ok_or (split_once b'/' s) expected_address_length
  bits ← ok_or (parse_u8 len) bad_prefix_length
  parse_address addr bits

-- `bs.iter().any(|&b| b != 0)`
unfoldable pub any_nonzero : Bytes → Bool
any_nonzero [] = false
any_nonzero (b ∷ bs) = not (b == 0) || any_nonzero bs

-- `addr[i]`
unfoldable pub index_at : Bytes → ℕ → Option ℕ
index_at bs i = elim (drop i bs) [ [] ↦ none | b ∷ rest ↦ some b ]

-- `&addr[i..]`
unfoldable pub slice_from : Bytes → ℕ → Option Bytes
slice_from bs i = if leb i (length bs) then some (drop i bs) else none

-- `addr[i..].iter().any(|&b| b != 0)`
abbrev any_from : Bytes → ℕ → Option Bool
any_from addr i = elim (slice_from addr i) [ none ↦ none | some t ↦ some (any_nonzero t) ]

-- `(addr[whole] & host_mask) != 0 || ..`
abbrev any_within : Bytes → ℕ → ℕ → Option Bool
any_within addr whole host_mask = elim (index_at addr whole) [
  | none ↦ none
  | some octet ↦
      let later = any_from addr (whole + 1) in
      if not (bit_and octet host_mask == 0) then some true else later
]

-- The mask is `(1u8 << (8 - rem)) - 1`. `none` is a panic: an index or a slice outside the address.
unfoldable pub prefix_has_host_bits : Bytes → ℕ → Option Bool
prefix_has_host_bits addr bits =
    let whole = bits / 8 in
    let rem = bits % 8 in
    if rem == 0 then any_from addr whole else any_within addr whole (2 ^ (8 - rem) - 1)
