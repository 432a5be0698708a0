-- ===== src/Routes/Update/Parts.antt =====
-- What an UPDATE of src/routes.rs announces, over the parts of its route.
use mrtgen.Base.{ℕ, ◌≡◌, [], Bool, true, false, Option, none, some, arith, Bytes}
use mrtgen.Types
use mrtgen.Bgp.Attr.{attr_mp_reach, attr_next_hop}
use mrtgen.Bgp.Nlri.{nlri_vpn, nlri_v4, nlri_v6, vpn_next_hop}
use mrtgen.Routes.Spec.{RouteSpec, ParsedRoute}
use mrtgen.Routes.Attrs.{with_path_id}
use mrtgen.Routes.Rib.{exactly, afi_of}
use mrtgen.Routes.Update.{reach}
use mrtgen.Outcome.{Outcome, ok, ◌>>=◌, or_panic}

-- The three ways to announce, over the parts of a route.
unfoldable pub reach_vpn : Option ℕ → Bool → Bytes → ℕ → Bytes → ℕ → Bytes → Outcome (Bytes × Bytes)
reach_vpn id v6 addr bits hop label rd = do
  nlri ← or_panic (nlri_vpn label rd addr bits)
  ok (attr_mp_reach (afi_of v6) Types.safi_mpls_vpn (vpn_next_hop hop) (with_path_id id nlri), [])

unfoldable pub reach_v6 : Option ℕ → Bytes → ℕ → Bytes → Outcome (Bytes × Bytes)
reach_v6 id addr bits hop = do
  a ← exactly 16 addr
  nlri ← or_panic (nlri_v6 a bits)
  ok (attr_mp_reach Types.bgp_afi_ipv6 Types.safi_unicast hop (with_path_id id nlri), [])

unfoldable pub reach_v4 : Option ℕ → Bytes → ℕ → Bytes → Outcome (Bytes × Bytes)
reach_v4 id addr bits hop = do
  nh ← exactly 4 hop
  a ← exactly 4 addr
  nlri ← or_panic (nlri_v4 a bits)
  ok (attr_next_hop nh, with_path_id id nlri)

unfoldable pub reach_parts :
    Option ℕ → Bool → Bytes → ℕ → Bytes → ℕ → Option Bytes → Option Bytes → Outcome (Bytes × Bytes)
reach_parts id v6 addr bits hop label (some flow) rd =
    ok (attr_mp_reach (afi_of v6) Types.safi_flowspec hop (with_path_id id flow), [])
reach_parts id v6 addr bits hop label none (some rd) = reach_vpn id v6 addr bits hop label rd
reach_parts id true addr bits hop label none none = reach_v6 id addr bits hop
reach_parts id false addr bits hop label none none = reach_v4 id addr bits hop

pub reach_by_parts :
    (spec : RouteSpec) (p : ParsedRoute)
    → reach spec p
      ≡ reach_parts spec.path_id p.v6 p.prefix p.bits p.nexthop p.label p.flow_nlri p.rd
unfolding reach reach_parts reach_vpn reach_v6 reach_v4
reach_by_parts spec p = ground arith
