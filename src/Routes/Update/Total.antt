-- ===== src/Routes/Update/Total.antt =====
-- An accepted route of src/routes.rs becomes an UPDATE, or its message is too long.
use mrtgen.Base.{
  ℕ, ◌<◌, ◌≡◌, refl, [], ◌++◌, Bool, true, false, Option, none, some, arith, Bytes, is_some, length,
  ltb, ◌==◌, Bool-cases, inl, inr, ◌⊎◌, ◌∙◌,
}
use mrtgen.Types
use mrtgen.Bgp.Attr.{attr_mp_reach, attr_next_hop}
use mrtgen.Bgp.Nlri.{nlri_vpn, vpn_next_hop}
use mrtgen.Records.Bgp4mp.{bgp4mp_message}
use mrtgen.Routes.Rib.{afi_of}
use mrtgen.Bgp.Message.{bgp_update}
use mrtgen.Bgp.Nlri.Reading.{encoded_prefix, nlri_v4_total, nlri_v6_total}
use mrtgen.Bgp.Nlri.Vpn.{encoded_vpn, nlri_vpn_total}
use mrtgen.Routes.Spec.{RouteSpec, ParsedRoute}
use mrtgen.Routes.Parse.Targets.{IsTarget, IsNexthop}
use mrtgen.Routes.Parse.Sound.{IsAccepted}
use mrtgen.Routes.Attrs.{with_path_id, head_attrs, tail_attrs}
use mrtgen.Routes.Announced.{width_le}
use mrtgen.Routes.Update.{reach, update_route, update_subtype, update_session, update_kind}
use mrtgen.Routes.Update.Parts.{reach_vpn, reach_v6, reach_v4, reach_parts, reach_by_parts}
use mrtgen.Outcome.{ok, err, IsMade, in_route, update_too_long}

reach_parts-IsMade :
    (id : Option ℕ) (addr : Bytes) (bits : ℕ) (hop : Bytes) (v6 : Bool) (label : ℕ)
    (flow rd : Option Bytes)
    → IsTarget v6 addr bits flow
    → IsNexthop v6 flow hop
    → ((v : Bytes) → rd ≡ some v → length v ≡ 8)
    → label < 1048576
    → IsMade (reach_parts id v6 addr bits hop label flow rd)
unfolding reach_parts reach_vpn reach_v6 reach_v4
reach_parts-IsMade id addr bits hop v6 label (some rule) rd t nh octets small = (_, refl)
reach_parts-IsMade id addr bits hop v6 label none (some rd) t nh octets small =
    let encoded : nlri_vpn label rd addr bits ≡ some (encoded_vpn label rd addr bits) =
      nlri_vpn_total label rd addr bits small (octets rd refl) (width_le v6 addr t.0.sized)
        t.0.in_width in
    (
      (
        attr_mp_reach (afi_of v6) Types.safi_mpls_vpn (vpn_next_hop hop)
            (with_path_id id (encoded_vpn label rd addr bits)),
        [],
      ),
      rw encoded,
    )
reach_parts-IsMade id addr bits hop true label none none t nh octets small =
    let sized : (length addr == 16) ≡ true = ground (arith, t.0.sized) in
    (
      (
        attr_mp_reach Types.bgp_afi_ipv6 Types.safi_unicast hop
            (with_path_id id (encoded_prefix addr bits)),
        [],
      ),
      rw (sized, nlri_v6_total addr bits t.0.in_width t.1),
    )
reach_parts-IsMade id addr bits hop false label none none t nh octets small =
    let sized : (length addr == 4) ≡ true = ground (arith, t.0.sized) in
    let hop_sized : (length hop == 4) ≡ true = ground arith in
    (
      (attr_next_hop hop, with_path_id id (encoded_prefix addr bits)),
      rw (sized, hop_sized, nlri_v4_total addr bits t.0.in_width t.1),
    )

-- Of the failures of an accepted route, a message over 4096 bytes is the only one.
pub update_route-total :
    (ts i : ℕ) (spec : RouteSpec) (p : ParsedRoute)
    → IsAccepted spec p
    → IsMade (update_route ts i spec p)
      ⊎ (update_route ts i spec p ≡ err (in_route i update_too_long))
unfolding update_route
update_route-total ts i spec p accepted =
    let ((carrier, nlri), found) =
      reach_parts-IsMade spec.path_id p.prefix p.bits p.nexthop p.v6 p.label p.flow_nlri p.rd
        accepted.target accepted.nexthop accepted.rd_octets accepted.label_small in
    let reached : reach spec p ≡ ok (carrier, nlri) = reach_by_parts spec p ∙ found in
    let update = bgp_update [] ((head_attrs p ++ carrier) ++ tail_attrs p spec) nlri in
    elim (Bool-cases (ltb 4096 (length update))) [
      | inl over ↦ inr (rw (reached, over))
      | inr fits ↦ inl (
        (
          bgp4mp_message ts Types.bgp4mp none (update_subtype (is_some spec.path_id))
              (update_session p) update,
          update_kind (is_some p.flow_nlri) (is_some p.rd) (is_some spec.path_id),
        ),
        rw (reached, fits),
      )
    ]
