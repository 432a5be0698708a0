-- ===== src/Routes/Communities.antt =====
-- The community, route-distinguisher and router-id parsers of src/routes.rs.
pub mod Sizes
pub mod Identifiers
pub mod Printed
use mrtgen.Base.{
  ℕ, ◌+◌, ◌*◌, ◌++◌, [], ◌∷◌, List, Bool, true, ◌&&◌, ◌||◌, Option, none, some, Bytes, leb, ◌==◌,
  length, unwrap_or, be16, be32, as_u16, as_u32, if◌then◌else◌,
}
use Prim.Native.String.{String}
use mrtgen.Types
use mrtgen.Text.{
  codes, text_eq, to_ascii_lowercase, split_once, rsplit_once, split, strip_prefix, from_str_radix,
  parse_u16, parse_u32, parse_u64,
}
use mrtgen.Text.Address.{parse_ipv4, parse_ipv6}
use mrtgen.Bgp.Nlri.{rd_type0, rd_type1, rd_type2}
use mrtgen.Bgp.Attr.{LargeCommunity}
use mrtgen.Outcome.{
  Error, bad_community, bad_ext_community, bad_ipv6_ext_community, bad_rd, bad_aggregator,
  bad_large_community, bad_redirect, bad_router_id, Outcome, ok, err, panic, ◌>>=◌, ok_or,
}

-- `lower.strip_prefix("0x").unwrap_or(&lower)`, and the same with the other case
abbrev hex_word : Bytes → Option Bytes
hex_word s = elim (strip_prefix (codes "0x") s) [
  | some hex ↦ some hex
  | none ↦ strip_prefix (codes "0X") s
]

-- `"asn:value"`
abbrev pair_community : Bytes → Outcome ℕ
pair_community s = do
  (a, b) ← ok_or (split_once b':' s) bad_community
  a' ← ok_or (parse_u16 a) bad_community
  b' ← ok_or (parse_u16 b) bad_community
  ok (a' * 65536 + b')

unfoldable pub parse_std_community : Bytes → Outcome ℕ
parse_std_community s =
    let name = to_ascii_lowercase s in
    if text_eq name (codes "no-export")
    then ok Types.comm_no_export
    else if text_eq name (codes "no-advertise")
    then ok Types.comm_no_advertise
    else if text_eq name (codes "no-export-subconfed")
    then ok Types.comm_no_export_subconfed
    else elim (hex_word s) [
      | some hex ↦ ok_or (from_str_radix 16 4294967296 hex) bad_community
      | none ↦ pair_community s
    ]

-- `u8::is_ascii_hexdigit`
abbrev pub is_ascii_hexdigit : ℕ → Bool
is_ascii_hexdigit c =
    (leb b'0' c && leb c b'9') || ((leb b'a' c && leb c b'f') || (leb b'A' c && leb c b'F'))

unfoldable pub all_hexdigits : Bytes → Bool
all_hexdigits [] = true
all_hexdigits (c ∷ s) = is_ascii_hexdigit c && all_hexdigits s

-- `u8::from_str_radix(&hex[i * 2..i * 2 + 2], 16).unwrap()` for each pair of digits
unfoldable pub hex_bytes : Bytes → Outcome Bytes
hex_bytes [] = ok []
hex_bytes (a ∷ []) = ok []
hex_bytes (a ∷ b ∷ rest) = elim (from_str_radix 16 256 (a ∷ b ∷ [])) [
  | none ↦ panic
  | some v ↦ hex_bytes rest >>= (λ vs. ok (v ∷ vs))
]

-- The raw form of a community of `n` bytes.
unfoldable pub raw_community : ℕ → Error → Bytes → Outcome Bytes
raw_community n e lower =
    let hex = unwrap_or (strip_prefix (codes "0x") lower) lower in
    let bytes = hex_bytes hex in if (length hex == n * 2) && all_hexdigits hex then bytes else err e

-- The subtype of `rt:` and of `soo:`, and what follows.
unfoldable pub typed : Bytes → Option (ℕ × Bytes)
typed lower = elim (strip_prefix (codes "rt:") lower) [
  | some rest ↦ some (0x02, rest)
  | none ↦ elim (strip_prefix (codes "soo:") lower) [ some rest ↦ some (0x03, rest) | none ↦ none ]
]

-- Type 0x00 for an administrator of two bytes, 0x02 for one of four.
unfoldable pub as_specific : ℕ → Bytes → Outcome Bytes
as_specific subtype rest = do
  (admin, value) ← ok_or (split_once b':' rest) bad_ext_community
  a ← ok_or (parse_u32 admin) bad_ext_community
  let two_octet =
      ok_or (parse_u32 value) bad_ext_community
      >>= (λ v. ok ((0x00 ∷ subtype ∷ []) ++ (be16 a ++ be32 v)))
  let four_octet =
      ok_or (parse_u16 value) bad_ext_community
      >>= (λ v. ok ((0x02 ∷ subtype ∷ []) ++ (be32 a ++ be16 v)))
  if leb a 65535 then two_octet else four_octet

unfoldable pub parse_ext_community : Bytes → Outcome Bytes
parse_ext_community s =
    let lower = to_ascii_lowercase s in
    elim (typed lower) [
      | some (subtype, rest) ↦ as_specific subtype rest
      | none ↦ raw_community 8 bad_ext_community lower
    ]

unfoldable pub ipv6_specific : ℕ → Bytes → Outcome Bytes
ipv6_specific subtype rest = do
  (addr, local) ← ok_or (rsplit_once b':' rest) bad_ipv6_ext_community
  ip ← ok_or (parse_ipv6 addr) bad_ipv6_ext_community
  l ← ok_or (parse_u16 local) bad_ipv6_ext_community
  ok ((0x00 ∷ subtype ∷ []) ++ (ip ++ be16 l))

unfoldable pub parse_ipv6_ext_community : Bytes → Outcome Bytes
parse_ipv6_ext_community s =
    let lower = to_ascii_lowercase s in
    elim (typed lower) [
      | some (subtype, rest) ↦ ipv6_specific subtype rest
      | none ↦ raw_community 20 bad_ipv6_ext_community lower
    ]

-- `number.parse()` to the encoding that takes it
abbrev assigned : Option ℕ → Error → (ℕ → Bytes) → Outcome Bytes
assigned number e encode = ok_or number e >>= (λ n. ok (encode n))

unfoldable pub parse_rd : Bytes → Outcome Bytes
parse_rd s = do
  (admin, number) ← ok_or (split_once b':' s) bad_rd
  elim (parse_ipv4 admin) [
    | some ip ↦ assigned (parse_u16 number) bad_rd (rd_type1 ip)
    | none ↦ do
      a ← ok_or (parse_u64 admin) bad_rd
      let short = assigned (parse_u32 number) bad_rd (rd_type0 (as_u16 a))
      let long = assigned (parse_u16 number) bad_rd (rd_type2 (as_u32 a))
      if leb a 65535 then short else if leb a 4294967295 then long else err bad_rd
  ]

unfoldable pub parse_aggregator : Bytes → Outcome (ℕ × Bytes)
parse_aggregator s = do
  (asn, ip) ← ok_or (split_once b':' s) bad_aggregator
  a ← ok_or (parse_u32 asn) bad_aggregator
  i ← ok_or (parse_ipv4 ip) bad_aggregator
  ok (a, i)

unfoldable pub parse_router_id : Bytes → String → Outcome Bytes
parse_router_id s what = ok_or (parse_ipv4 s) (bad_router_id what)

abbrev three_parts : List Bytes → Outcome LargeCommunity
three_parts (a ∷ b ∷ c ∷ []) = do
  a' ← ok_or (parse_u32 a) bad_large_community
  b' ← ok_or (parse_u32 b) bad_large_community
  c' ← ok_or (parse_u32 c) bad_large_community
  ok (a', b', c')
three_parts _ = err bad_large_community

unfoldable pub parse_large_community : Bytes → Outcome LargeCommunity
parse_large_community s = three_parts (split b':' s)

-- The administrator picks the form: 0x8008, 0x8108 or 0x8208.
unfoldable pub redirect_community : Bytes → Outcome Bytes
redirect_community s = do
  (admin, number) ← ok_or (split_once b':' s) bad_redirect
  elim (parse_ipv4 admin) [
    | some ip ↦ assigned (parse_u16 number) bad_redirect (λ n. (0x81 ∷ 0x08 ∷ []) ++ (ip ++ be16 n))
    | none ↦ do
      a ← ok_or (parse_u64 admin) bad_redirect
      let short =
          assigned (parse_u32 number) bad_redirect
            (λ n. (0x80 ∷ 0x08 ∷ []) ++ (be16 (as_u16 a) ++ be32 n))
      let long =
          assigned (parse_u16 number) bad_redirect
            (λ n. (0x82 ∷ 0x08 ∷ []) ++ (be32 (as_u32 a) ++ be16 n))
      if leb a 65535 then short else if leb a 4294967295 then long else err bad_redirect
  ]
