-- ===== src/Routes/Rib.antt =====
-- The record of one route in a table dump, as `generate_from_routes` of src/routes.rs makes it.
pub mod Read
pub mod Framed
pub mod Limits
pub mod Hop
pub mod Parts
pub mod Decoding
pub mod Total
use Prim.Native.String.{String}
use mrtgen.Base.{
  ℕ, ◌++◌, [], ◌∷◌, List, Bool, true, false, none, some, Bytes, length, ltb, ◌==◌, as_u32, is_some,
  if◌then◌else◌,
}
use mrtgen.Types
use mrtgen.Writer.{MrtRecord}
use mrtgen.Bgp.Attr.{attr_mp_reach_td2, attr_next_hop}
use mrtgen.Bgp.Nlri.{nlri_v4, nlri_v6, nlri_vpn, vpn_next_hop}
use mrtgen.Records.TableDump.{Peer, new_entry, rib_afi_safi, rib_generic}
use mrtgen.Routes.Spec.{RouteSpec, ParsedRoute}
use mrtgen.Routes.Attrs.{with_path_id, head_attrs, tail_attrs}
use mrtgen.Outcome.{
  attributes_too_long, in_route, Outcome, ok, panic, ◌>>=◌, ◌>>◌, or_panic, refuse_if,
}

-- `addr.try_into().unwrap()` to an array of `n` octets
abbrev pub exactly : ℕ → Bytes → Outcome Bytes
exactly n bs = if length bs == n then ok bs else panic

-- 2001:db8::last
abbrev pub documentation_v6 : ℕ → Bytes
documentation_v6 last =
    0x20 ∷ 0x01 ∷ 0x0d ∷ 0xb8 ∷ 0 ∷ 0 ∷ 0 ∷ 0 ∷ 0 ∷ 0 ∷ 0 ∷ 0 ∷ 0 ∷ 0 ∷ 0 ∷ last ∷ []

abbrev pub documentation_v4 : ℕ → Bytes
documentation_v4 last = 192 ∷ 0 ∷ 2 ∷ last ∷ []

-- Peer 0 answers IPv4 routes, peer 1 IPv6 routes.
abbrev pub route_peers : List Peer
route_peers =
    record { bgp_id = documentation_v4 1; ip = documentation_v4 1; asn = 64500; as4 = true }
    ∷ record { bgp_id = documentation_v4 2; ip = documentation_v6 1; asn = 64500; as4 = true }
    ∷ []

-- `match (p.v6, spec.path_id.is_some())`
abbrev pub rib_subtype : Bool → Bool → ℕ × String
rib_subtype false false = (Types.rib_ipv4_unicast, "route_rib_ipv4_unicast")
rib_subtype false true = (Types.rib_ipv4_unicast_addpath, "route_rib_ipv4_unicast_addpath")
rib_subtype true false = (Types.rib_ipv6_unicast, "route_rib_ipv6_unicast")
rib_subtype true true = (Types.rib_ipv6_unicast_addpath, "route_rib_ipv6_unicast_addpath")

abbrev pub vpn_subtype : Bool → Bool → ℕ × String
vpn_subtype false false = (Types.rib_generic, "route_rib_generic_vpnv4")
vpn_subtype false true = (Types.rib_generic_addpath, "route_rib_generic_vpnv4_addpath")
vpn_subtype true false = (Types.rib_generic, "route_rib_generic_vpnv6")
vpn_subtype true true = (Types.rib_generic_addpath, "route_rib_generic_vpnv6_addpath")

abbrev pub afi_of : Bool → ℕ
afi_of v6 = if v6 then Types.bgp_afi_ipv6 else Types.bgp_afi_ipv4

-- NEXT_HOP, or MP_REACH_NLRI in the abbreviated form.
abbrev pub rib_next_hop : ParsedRoute → Outcome Bytes
rib_next_hop p =
    if is_some p.rd
    then ok (attr_mp_reach_td2 (vpn_next_hop p.nexthop))
    else if p.v6
    then ok (attr_mp_reach_td2 p.nexthop)
    else (exactly 4 p.nexthop >>= λ nh. ok (attr_next_hop nh))

abbrev pub unicast_nlri : ParsedRoute → Outcome Bytes
unicast_nlri p =
    let v6 = exactly 16 p.prefix >>= (λ a. or_panic (nlri_v6 a p.bits)) in
    let v4 = exactly 4 p.prefix >>= (λ a. or_panic (nlri_v4 a p.bits)) in if p.v6 then v6 else v4

-- The record of one route in a table dump, and its kind.
unfoldable pub rib_record : ℕ → ℕ → RouteSpec → ParsedRoute → Bytes → Outcome (MrtRecord × String)
rib_record ts i spec p attrs =
    let peer : ℕ = if p.v6 then 1 else 0 in
    let entry = new_entry peer ts attrs in
    elim p.rd [
      | some rd ↦ do
        nlri ← or_panic (nlri_vpn p.label rd p.prefix p.bits)
        let (subtype, kind) = vpn_subtype p.v6 (is_some spec.path_id)
        ok (
          rib_generic ts subtype (as_u32 i) (afi_of p.v6) Types.safi_mpls_vpn
              (with_path_id spec.path_id nlri) (entry ∷ []),
          kind,
        )
      | none ↦ do
        nlri ← unicast_nlri p
        let (subtype, kind) = rib_subtype p.v6 (is_some spec.path_id)
        ok (
          rib_afi_safi ts subtype (as_u32 i) nlri (record entry { path_id = spec.path_id } ∷ []),
          kind,
        )
    ]

-- The attributes and the record; a set over 65535 bytes is refused.
unfoldable pub rib_route : ℕ → ℕ → RouteSpec → ParsedRoute → Outcome (MrtRecord × String)
rib_route ts i spec p = do
  carrier ← rib_next_hop p
  let attrs = (head_attrs p ++ carrier) ++ tail_attrs p spec
  refuse_if (ltb 65535 (length attrs)) (in_route i attributes_too_long)
  rib_record ts i spec p attrs
