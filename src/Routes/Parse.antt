-- ===== src/Routes/Parse.antt =====
-- `parse_route` of src/routes.rs.
pub mod Targets
pub mod Sound
use mrtgen.Base.{
  ℕ, ◌++◌, [], ◌∷◌, List, Bool, true, false, ◌&&◌, not, Option, none, some, Bytes, leb, ltb, length,
  is_some, unwrap_or, if◌then◌else◌,
}
use mrtgen.Manifest.{Expect, valid}
use mrtgen.FlowSpec.Encode.{FlowSpec, validate_domains, encode_nlri}
use mrtgen.Routes.Prefix.{parse_prefix, prefix_has_host_bits}
use mrtgen.Routes.Communities.{
  parse_std_community, parse_ext_community, parse_ipv6_ext_community, parse_rd, parse_aggregator,
  parse_router_id, parse_large_community,
}
use mrtgen.Routes.Spec.{
  RouteSpec, ParsedRoute, Actions, route_expect, parse_nexthop, parse_origin, action_communities,
  parse_raw_attribute,
}
use mrtgen.Outcome.{
  in_route, prefix_and_flowspec, no_prefix, prefix_host_bits, raw_components,
  actions_without_flowspec, rd_with_flowspec, label_without_rd, label_too_large, no_nexthop,
  as_path_too_long, Outcome, ok, err, ◌>>=◌, ◌>>◌, or_panic, refuse_if, map_err, collect, transpose,
}

-- `expect == Expect::Valid`
abbrev pub is_valid : Expect → Bool
is_valid valid = true
is_valid _ = false

-- What a route announces: the family, the address, the length and the flow specification's NLRI.
pub record Target : Type 0 where
  pub v6 : Bool
  pub prefix : Bytes
  pub bits : ℕ
  pub flow_nlri : Option Bytes

abbrev prefix_target : Bytes → Expect → Outcome Target
prefix_target pfx expect = do
  p ← parse_prefix pfx
  set ← if is_valid expect then or_panic (prefix_has_host_bits p.addr p.bits) else ok false
  refuse_if set prefix_host_bits
  ok (record { v6 = p.v6; prefix = p.addr; bits = p.bits; flow_nlri = none })

abbrev valid_flowspec : FlowSpec → Outcome (Unit {0})
valid_flowspec fs = do validate_domains fs; refuse_if (is_some fs.raw_components_hex) raw_components

abbrev flowspec_target : FlowSpec → Expect → Outcome Target
flowspec_target fs expect = do
  if is_valid expect then valid_flowspec fs else ok tt
  (nlri, v6) ← encode_nlri fs
  ok (record { v6 = v6; prefix = []; bits = 0; flow_nlri = some nlri })

unfoldable pub target_of : Option Bytes → Option FlowSpec → Expect → Outcome Target
target_of (some pfx) (some fs) expect = err prefix_and_flowspec
target_of none none expect = err no_prefix
target_of (some pfx) none expect = prefix_target pfx expect
target_of none (some fs) expect = flowspec_target fs expect

abbrev nexthop_of : Option Bytes → Target → Outcome Bytes
nexthop_of (some nh) target = parse_nexthop nh target.v6
nexthop_of none target = if is_some target.flow_nlri then ok [] else err no_nexthop

abbrev actions_of : Option Actions → Outcome (List Bytes)
actions_of none = ok []
actions_of (some a) = action_communities a

-- The checks on the distinguisher and the label.
unfoldable pub check_vpn : RouteSpec → Target → Option Bytes → Outcome (Unit {0})
check_vpn r target rd = do
  refuse_if (is_some rd && is_some target.flow_nlri) rd_with_flowspec
  refuse_if (is_some r.label && not (is_some rd)) label_without_rd
  refuse_if (leb 1048576 (unwrap_or r.label 0)) label_too_large

-- All of `parse_route` after `expect`, before the route's number is put in front of the error.
unfoldable pub parse_fields : Expect → RouteSpec → Outcome ParsedRoute
parse_fields expect r = do
  target ← target_of r.prefix r.flowspec expect
  refuse_if (is_some r.actions && not (is_some r.flowspec)) actions_without_flowspec
  rd ← transpose parse_rd r.rd
  check_vpn r target rd
  nexthop ← nexthop_of r.nexthop target
  exts ← collect parse_ext_community r.extended_communities
  acts ← actions_of r.actions
  let as_path = unwrap_or r.as_path (64500 ∷ [])
  refuse_if (is_valid expect && ltb 255 (length as_path)) as_path_too_long
  origin ← parse_origin r.origin
  std_comms ← collect parse_std_community r.standard_communities
  aggregator ← transpose parse_aggregator r.aggregator
  originator_id ← transpose (λ s. parse_router_id s "originator_id") r.originator_id
  cluster_list ← collect (λ s. parse_router_id s "cluster_list") r.cluster_list
  ipv6_ext_comms ← collect parse_ipv6_ext_community r.ipv6_extended_communities
  large_comms ← collect parse_large_community r.large_communities
  raw_attrs ← collect parse_raw_attribute r.raw_attributes
  ok (record {
    v6 = target.v6;
    prefix = target.prefix;
    bits = target.bits;
    nexthop = nexthop;
    origin = origin;
    as_path = as_path;
    std_comms = std_comms;
    aggregator = aggregator;
    originator_id = originator_id;
    cluster_list = cluster_list;
    ext_comms = exts ++ acts;
    ipv6_ext_comms = ipv6_ext_comms;
    large_comms = large_comms;
    rd = rd;
    label = unwrap_or r.label 0;
    flow_nlri = target.flow_nlri;
    raw_attrs = raw_attrs;
    expect = expect;
  })

unfoldable pub parse_route : ℕ → RouteSpec → Outcome ParsedRoute
parse_route i r = do expect ← route_expect i r; map_err (in_route i) (parse_fields expect r)
