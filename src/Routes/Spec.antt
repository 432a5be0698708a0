-- ===== src/Routes/Spec.antt =====
-- `RouteSpec` and `ParsedRoute` of src/routes.rs, the actions and the raw attributes.
pub mod Sound
use Prim.Native.String.{String}
use mrtgen.Base.{
  ℕ, ◌*◌, ◌%◌, ◌++◌, [], ◌∷◌, List, Bool, true, false, ◌||◌, not, Option, none, some, Bytes, leb,
  ltb, ◌==◌, length, be32, bit_or, is_some, unwrap_or, if◌then◌else◌,
}
use mrtgen.Types
use mrtgen.Text.{codes, text_eq, to_ascii_lowercase}
use mrtgen.Text.Address.{parse_ipv4, parse_ipv6}
use mrtgen.Bgp.Attr.{LargeCommunity}
use mrtgen.Manifest.{Expect, valid, skip, abort}
use mrtgen.FlowSpec.Encode.{FlowSpec}
use mrtgen.Routes.Communities.{redirect_community, all_hexdigits, hex_bytes}
use mrtgen.Outcome.{
  abort_expected, bad_nexthop, bad_origin, bad_rate, bad_dscp, bad_flags, bad_value_hex, in_route,
  Outcome, ok, err, ◌>>=◌, ◌>>◌, ok_or, refuse_if,
}

pub data RouteFormat : Type 0 where
  table_dump_v2 bgp4mp : RouteFormat

pub data OriginSpec : Type 0 where
  code : ℕ → OriginSpec
  name : Bytes → OriginSpec

pub data FlagsSpec : Type 0 where
  byte : ℕ → FlagsSpec
  names : List Bytes → FlagsSpec

pub record RawAttribute : Type 0 where
  pub flags : FlagsSpec
  pub code : ℕ
  pub value_hex : Bytes

-- An `f32` is its bit pattern.
pub record Actions : Type 0 where
  pub rate_limit_bytes : Option ℕ
  pub rate_limit_packets : Option ℕ
  pub redirect : Option Bytes
  pub traffic_marking : Option ℕ
  pub terminal_action : Option Bool
  pub sample : Option Bool

pub record RouteSpec : Type 0 where
  pub prefix : Option Bytes
  pub nexthop : Option Bytes
  pub as_path : Option (List ℕ)
  pub origin : Option OriginSpec
  pub med : Option ℕ
  pub local_pref : Option ℕ
  pub atomic_aggregate : Bool
  pub aggregator : Option Bytes
  pub originator_id : Option Bytes
  pub cluster_list : List Bytes
  pub aigp : Option ℕ
  pub standard_communities : List Bytes
  pub extended_communities : List Bytes
  pub ipv6_extended_communities : List Bytes
  pub large_communities : List Bytes
  pub path_id : Option ℕ
  pub rd : Option Bytes
  pub label : Option ℕ
  pub flowspec : Option FlowSpec
  pub actions : Option Actions
  pub expect : Option Expect
  pub raw_attributes : List RawAttribute

pub record ParsedRoute : Type 0 where
  pub v6 : Bool
  pub prefix : Bytes
  pub bits : ℕ
  pub nexthop : Bytes
  pub origin : ℕ
  pub as_path : List ℕ
  pub std_comms : List ℕ
  pub aggregator : Option (ℕ × Bytes)
  pub originator_id : Option Bytes
  pub cluster_list : List Bytes
  pub ext_comms : List Bytes
  pub ipv6_ext_comms : List Bytes
  pub large_comms : List LargeCommunity
  pub rd : Option Bytes
  pub label : ℕ
  pub flow_nlri : Option Bytes
  pub raw_attrs : List (ℕ × ℕ × Bytes)
  pub expect : Expect

unfoldable pub route_expect : ℕ → RouteSpec → Outcome Expect
route_expect i r = elim (unwrap_or r.expect valid) [
  | valid ↦ ok valid
  | skip ↦ ok skip
  | abort ↦ err (in_route i abort_expected)
]

unfoldable pub parse_nexthop : Bytes → Bool → Outcome Bytes
parse_nexthop s v6 = ok_or (if v6 then parse_ipv6 s else parse_ipv4 s) bad_nexthop

unfoldable pub parse_origin : Option OriginSpec → Outcome ℕ
parse_origin none = ok 0
parse_origin (some (code c)) = if leb c 2 then ok c else err bad_origin
parse_origin (some (name n)) =
    let lower = to_ascii_lowercase n in
    if text_eq lower (codes "igp")
    then ok 0
    else if text_eq lower (codes "egp")
    then ok 1
    else if text_eq lower (codes "incomplete")
    then ok 2
    else err bad_origin

-- `!rate.is_finite() || rate < 0.0` on the bits: an exponent of ones, or the sign with any other bit.
-- A negative zero is not below 0.0.
abbrev rate_refused : ℕ → Bool
rate_refused rate = leb 0x7f80_0000 (rate % 0x8000_0000) || ltb 0x8000_0000 rate

unfoldable pub rate_community : ℕ → ℕ → String → Outcome Bytes
rate_community subtype rate what = do
  refuse_if (rate_refused rate) (bad_rate what)
  ok ((0x80 ∷ subtype ∷ 0 ∷ 0 ∷ []) ++ be32 rate)

-- `b as u8`
abbrev as_bit : Bool → ℕ
as_bit true = 1
as_bit false = 0

abbrev rate_part : ℕ → Option ℕ → String → Outcome (List Bytes)
rate_part subtype none what = ok []
rate_part subtype (some rate) what = rate_community subtype rate what >>= (λ c. ok (c ∷ []))

abbrev flags_part : Actions → List Bytes
flags_part a =
    if is_some a.terminal_action || is_some a.sample
    then (0x80
        ∷ 0x07
        ∷ 0
        ∷ 0
        ∷ 0
        ∷ 0
        ∷ 0
        ∷ bit_or (as_bit (unwrap_or a.sample false) * 2)
            (as_bit (unwrap_or a.terminal_action false))
        ∷ [])
      ∷ []
    else []

abbrev redirect_part : Option Bytes → Outcome (List Bytes)
redirect_part none = ok []
redirect_part (some r) = redirect_community r >>= (λ c. ok (c ∷ []))

abbrev marking_part : Option ℕ → Outcome (List Bytes)
marking_part none = ok []
marking_part (some dscp) =
    if ltb 63 dscp then err bad_dscp else ok ((0x80 ∷ 0x09 ∷ 0 ∷ 0 ∷ 0 ∷ 0 ∷ 0 ∷ dscp ∷ []) ∷ [])

unfoldable pub action_communities : Actions → Outcome (List Bytes)
action_communities a = do
  bytes ← rate_part 0x06 a.rate_limit_bytes "actions.rate_limit_bytes"
  packets ← rate_part 0x0c a.rate_limit_packets "actions.rate_limit_packets"
  redirect ← redirect_part a.redirect
  marking ← marking_part a.traffic_marking
  ok (bytes ++ (packets ++ (flags_part a ++ (redirect ++ marking))))

abbrev flag_of : Bytes → Outcome ℕ
flag_of n =
    let lower = to_ascii_lowercase n in
    if text_eq lower (codes "optional")
    then ok Types.flag_optional
    else if text_eq lower (codes "transitive")
    then ok Types.flag_transitive
    else if text_eq lower (codes "partial")
    then ok Types.flag_partial
    else err bad_flags

-- `f |= ..` for each name in turn
unfoldable pub flags_of : ℕ → List Bytes → Outcome ℕ
flags_of f [] = ok f
flags_of f (n ∷ ns) = do flag ← flag_of n; flags_of (bit_or f flag) ns

abbrev resolve : FlagsSpec → Outcome ℕ
resolve (byte b) = ok b
resolve (names ns) = flags_of 0 ns

unfoldable pub parse_raw_attribute : RawAttribute → Outcome (ℕ × ℕ × Bytes)
parse_raw_attribute a = do
  flags ← resolve a.flags
  let hex = to_ascii_lowercase a.value_hex
  refuse_if (not (length hex % 2 == 0) || not (all_hexdigits hex)) bad_value_hex
  value ← hex_bytes hex
  ok (flags, a.code, value)
