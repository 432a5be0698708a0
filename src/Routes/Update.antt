-- ===== src/Routes/Update.antt =====
-- The BGP4MP record of one route, as `generate_from_routes` of src/routes.rs makes it.
pub mod Announced
pub mod Carried
pub mod Parts
pub mod Reading
pub mod Decoding
pub mod Total
use Prim.Native.String.{String}
use mrtgen.Base.{
  ℕ, ◌++◌, [], ◌∷◌, List, Bool, true, false, none, some, Bytes, length, ltb, is_some, if◌then◌else◌,
}
use mrtgen.Types
use mrtgen.Writer.{MrtRecord}
use mrtgen.Bgp.Attr.{attr_mp_reach, attr_next_hop}
use mrtgen.Bgp.Nlri.{nlri_vpn, vpn_next_hop}
use mrtgen.Bgp.Message.{bgp_update}
use mrtgen.Records.Bgp4mp.{Session, bgp4mp_message}
use mrtgen.Routes.Spec.{RouteSpec, ParsedRoute}
use mrtgen.Routes.Attrs.{with_path_id, head_attrs, tail_attrs}
use mrtgen.Routes.Rib.{exactly, afi_of, unicast_nlri, documentation_v4, documentation_v6}
use mrtgen.Outcome.{update_too_long, in_route, Outcome, ok, ◌>>=◌, ◌>>◌, or_panic, refuse_if}

-- MP_REACH_NLRI of a VPN route.
abbrev vpn_reach : RouteSpec → ParsedRoute → Bytes → Outcome (Bytes × Bytes)
vpn_reach spec p rd = do
  nlri ← or_panic (nlri_vpn p.label rd p.prefix p.bits)
  ok (
    attr_mp_reach (afi_of p.v6) Types.safi_mpls_vpn (vpn_next_hop p.nexthop)
        (with_path_id spec.path_id nlri),
    [],
  )

-- MP_REACH_NLRI for IPv6; NEXT_HOP and the UPDATE's own NLRI for IPv4.
abbrev unicast_reach : RouteSpec → ParsedRoute → Outcome (Bytes × Bytes)
unicast_reach spec p =
    let announced = unicast_nlri p >>= (λ nlri. ok (with_path_id spec.path_id nlri)) in
    let v6 =
      announced
      >>= (λ nlri. ok (attr_mp_reach Types.bgp_afi_ipv6 Types.safi_unicast p.nexthop nlri, [])) in
    let v4 = exactly 4 p.nexthop >>= (λ nh. announced >>= (λ nlri. ok (attr_next_hop nh, nlri))) in
    if p.v6 then v6 else v4

-- The attribute that carries the next hop, and what the UPDATE announces by itself.
unfoldable pub reach : RouteSpec → ParsedRoute → Outcome (Bytes × Bytes)
reach spec p = elim p.flow_nlri [
  | some flow ↦ ok (
    attr_mp_reach (afi_of p.v6) Types.safi_flowspec p.nexthop (with_path_id spec.path_id flow),
    [],
  )
  | none ↦ elim p.rd [ some rd ↦ vpn_reach spec p rd | none ↦ unicast_reach spec p ]
]

-- `match (p.flow_nlri.is_some(), p.rd.is_some(), addpath)`
abbrev pub update_kind : Bool → Bool → Bool → String
update_kind true _ false = "route_bgp4mp_flowspec"
update_kind true _ true = "route_bgp4mp_flowspec_addpath"
update_kind false true false = "route_bgp4mp_update_vpn"
update_kind false true true = "route_bgp4mp_update_vpn_addpath"
update_kind false false false = "route_bgp4mp_update"
update_kind false false true = "route_bgp4mp_update_addpath"

-- `p.as_path.first().copied().unwrap_or(64500)`
abbrev pub peer_as_of : List ℕ → ℕ
peer_as_of [] = 64500
peer_as_of (a ∷ asns) = a

abbrev pub update_session : ParsedRoute → Session
update_session p = record {
  peer_as = peer_as_of p.as_path;
  local_as = 64511;
  ifindex = 1;
  peer_ip = if p.v6 then documentation_v6 1 else documentation_v4 1;
  local_ip = if p.v6 then documentation_v6 2 else documentation_v4 2;
}

abbrev pub update_subtype : Bool → ℕ
update_subtype addpath =
    if addpath then Types.bgp4mp_message_as4_addpath else Types.bgp4mp_message_as4

-- A message over 4096 bytes is refused.
unfoldable pub update_route : ℕ → ℕ → RouteSpec → ParsedRoute → Outcome (MrtRecord × String)
update_route ts i spec p = do
  (carrier, nlri) ← reach spec p
  let update = bgp_update [] ((head_attrs p ++ carrier) ++ tail_attrs p spec) nlri
  refuse_if (ltb 4096 (length update)) (in_route i update_too_long)
  let addpath = is_some spec.path_id
  ok (
    bgp4mp_message ts Types.bgp4mp none (update_subtype addpath) (update_session p) update,
    update_kind (is_some p.flow_nlri) (is_some p.rd) addpath,
  )
