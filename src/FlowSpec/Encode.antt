-- ===== src/FlowSpec/Encode.antt =====
-- `FlowSpec`, `validate_domains`, `family` and `encode_nlri` of src/flowspec.rs.
pub mod Framing
use Prim.Native.String.{String}
use mrtgen.Base.{
  ℕ, ◌+◌, ◌/◌, ◌++◌, [], ◌∷◌, List, Bool, true, false, not, Option, none, some, Bytes, as_u8,
  length, ltb, leb, ◌==◌, bit_or, take, if◌then◌else◌,
}
use mathlib.Core.Bool.{xor}
use mrtgen.Text.{text_eq, codes}
use mrtgen.Bgp.Nlri.{div_ceil8, slice_to}
use mrtgen.Routes.Prefix.{Prefix, parse_prefix, prefix_has_host_bits}
use mrtgen.Outcome.{
  Error, host_bits, families_differ, bad_afi, flow_label_ipv4, no_component, nlri_too_long, Outcome,
  ok, err, panic, ◌>>=◌, ◌>>◌, or_panic, refuse_if,
}
use mrtgen.FlowSpec.Hex.{parse_hex}
use mrtgen.FlowSpec.Numeric.{NumericMatch, validate_numeric_max, encode_numeric}
use mrtgen.FlowSpec.Bitmask.{BitmaskMatch, tcp_flag_names, fragment_flag_names, encode_bitmask}

pub record FlowSpec : Type 0 where
  pub afi : Option Bytes
  pub dst_prefix : Option Bytes
  pub src_prefix : Option Bytes
  pub protocol : List NumericMatch
  pub port : List NumericMatch
  pub dst_port : List NumericMatch
  pub src_port : List NumericMatch
  pub icmp_type : List NumericMatch
  pub icmp_code : List NumericMatch
  pub tcp_flags : List BitmaskMatch
  pub packet_length : List NumericMatch
  pub dscp : List NumericMatch
  pub fragment : List BitmaskMatch
  pub flow_label : List NumericMatch
  pub raw_components_hex : Option Bytes

unfoldable pub validate_prefix : Bytes → String → Outcome (Unit {0})
validate_prefix spec what = do
  p ← parse_prefix spec
  set ← or_panic (prefix_has_host_bits p.addr p.bits)
  refuse_if set (host_bits what)

abbrev validate_some : Option Bytes → String → Outcome (Unit {0})
validate_some none what = ok tt
validate_some (some p) what = validate_prefix p what

unfoldable pub validate_domains : FlowSpec → Outcome (Unit {0})
validate_domains fs = do
  validate_some fs.dst_prefix "flowspec dst_prefix"
  validate_some fs.src_prefix "flowspec src_prefix"
  validate_numeric_max fs.protocol "flowspec protocol" 255
  validate_numeric_max fs.port "flowspec port" 65535
  validate_numeric_max fs.dst_port "flowspec dst_port" 65535
  validate_numeric_max fs.src_port "flowspec src_port" 65535
  validate_numeric_max fs.icmp_type "flowspec icmp_type" 255
  validate_numeric_max fs.icmp_code "flowspec icmp_code" 255
  validate_numeric_max fs.packet_length "flowspec packet_length" 65535
  validate_numeric_max fs.dscp "flowspec dscp" 63
  validate_numeric_max fs.flow_label "flowspec flow_label" 0x000f_ffff

-- `out.push(0)` for the offset octet of IPv6
abbrev offset_octet : Bool → Bytes
offset_octet true = 0 ∷ []
offset_octet false = []

-- `if let Some(want) = want_v6 { if want != v6 .. }`
abbrev differs : Option Bool → Bool → Bool
differs none v6 = false
differs (some want) v6 = xor want v6

-- The only caller passes `Some(v6)` for the wanted family.
unfoldable pub encode_prefix : Bytes → ℕ → Bytes → Option Bool → String → Outcome Bytes
encode_prefix out ty spec want_v6 what = do
  p ← parse_prefix spec
  refuse_if (differs want_v6 p.v6) (families_differ what)
  octets ← or_panic (slice_to p.addr (div_ceil8 p.bits))
  ok (((out ++ (ty ∷ p.bits ∷ [])) ++ offset_octet p.v6) ++ octets)

-- `dst_prefix.or(src_prefix)`
abbrev first_of_two : Option Bytes → Option Bytes → Option Bytes
first_of_two (some a) b = some a
first_of_two none b = b

abbrev explicit_family : Option Bytes → Outcome Bool
explicit_family none = ok false
explicit_family (some afi) =
    if text_eq afi (codes "ipv4")
    then ok false
    else if text_eq afi (codes "ipv6")
    then ok true
    else err bad_afi

abbrev prefix_family : Option Bytes → Outcome Bool → Outcome Bool
prefix_family none explicit = explicit
prefix_family (some p) explicit = do prefix ← parse_prefix p; ok prefix.v6

unfoldable pub family : FlowSpec → Outcome Bool
family fs = prefix_family (first_of_two fs.dst_prefix fs.src_prefix) (explicit_family fs.afi)

-- `if let Some(p) = &fs.dst_prefix { encode_prefix(..)?; }`
abbrev encode_some_prefix : Bytes → ℕ → Option Bytes → Bool → String → Outcome Bytes
encode_some_prefix out ty none v6 what = ok out
encode_some_prefix out ty (some p) v6 what = encode_prefix out ty p (some v6) what

-- The flow label is refused in an IPv4 rule.
abbrev encode_flow_label : Bytes → List NumericMatch → Bool → Outcome Bytes
encode_flow_label out [] v6 = ok out
encode_flow_label out (item ∷ items) v6 = do
  refuse_if (not v6) flow_label_ipv4
  encode_numeric out 13 (item ∷ items) "flowspec flow_label"

abbrev extend_raw : Bytes → Option Bytes → Outcome Bytes
extend_raw out none = ok out
extend_raw out (some hex) = do raw ← parse_hex hex "flowspec raw_components_hex"; ok (out ++ raw)

-- The components in ascending type order, then the raw bytes.
unfoldable pub encode_components : FlowSpec → Bool → Outcome Bytes
encode_components fs v6 = do
  c₁ ← encode_some_prefix [] 1 fs.dst_prefix v6 "flowspec dst_prefix"
  c₂ ← encode_some_prefix c₁ 2 fs.src_prefix v6 "flowspec src_prefix"
  c₃ ← encode_numeric c₂ 3 fs.protocol "flowspec protocol"
  c₄ ← encode_numeric c₃ 4 fs.port "flowspec port"
  c₅ ← encode_numeric c₄ 5 fs.dst_port "flowspec dst_port"
  c₆ ← encode_numeric c₅ 6 fs.src_port "flowspec src_port"
  c₇ ← encode_numeric c₆ 7 fs.icmp_type "flowspec icmp_type"
  c₈ ← encode_numeric c₇ 8 fs.icmp_code "flowspec icmp_code"
  c₉ ← encode_bitmask c₈ 9 fs.tcp_flags tcp_flag_names "flowspec tcp_flags" 2
  c₁₀ ← encode_numeric c₉ 10 fs.packet_length "flowspec packet_length"
  c₁₁ ← encode_numeric c₁₀ 11 fs.dscp "flowspec dscp"
  c₁₂ ← encode_bitmask c₁₁ 12 fs.fragment fragment_flag_names "flowspec fragment" 1
  c₁₃ ← encode_flow_label c₁₂ fs.flow_label v6
  extend_raw c₁₃ fs.raw_components_hex

-- `0xF0 | (len >> 8) as u8` and `len as u8`
abbrev pub long_length : ℕ → Bytes
long_length len = bit_or 0xf0 (as_u8 (len / 256)) ∷ as_u8 len ∷ []

-- One length octet below 240, two below 4096.
unfoldable pub frame_nlri : Bytes → Outcome Bytes
frame_nlri c =
    if length c == 0
    then err no_component
    else if ltb (length c) 240
    then ok ((as_u8 (length c) ∷ []) ++ c)
    else if ltb (length c) 4096
    then ok (long_length (length c) ++ c)
    else err nlri_too_long

unfoldable pub encode_nlri : FlowSpec → Outcome (Bytes × Bool)
encode_nlri fs = do v6 ← family fs; c ← encode_components fs v6; nlri ← frame_nlri c; ok (nlri, v6)
