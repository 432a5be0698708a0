-- ===== src/Routes/Update/Reading.antt =====
-- What a reader finds in the next-hop attribute and the NLRI that `generate_from_routes` of src/routes.rs
-- gives an UPDATE.
use mrtgen.Base.{
  ℕ, ◌<◌, ◌≤◌, ◌≡◌, refl, ◌++◌, Bool, true, false, Option, none, some, arith, Bytes, ◌==◌, length,
  replicate, subst, ◌∙◌, sym,
}
use mrtgen.Bgp.Attr.Values.{Context, Meaning}
use mrtgen.Bgp.Attr.Meanings.Scalars.{attr_next_hop-Encodes}
use mrtgen.Bgp.Nlri.{vpn_next_hop}
use mrtgen.Bgp.Nlri.Reading.{IsCanonical, encoded_prefix, nlri_v4_total, nlri_v6_total}
use mrtgen.Bgp.Nlri.Vpn.{encoded_vpn, nlri_vpn_total}
use mrtgen.Routes.Spec.{RouteSpec, ParsedRoute}
use mrtgen.Routes.Prefix.Sound.{IsPrefix}
use mrtgen.Routes.Parse.Targets.{IsTarget, IsNexthop}
use mrtgen.Routes.Parse.Sound.{IsAccepted}
use mrtgen.Routes.Attrs.{with_path_id}
use mrtgen.Routes.Attrs.Wire.{IsTyped}
use mrtgen.Routes.Update.{reach}
use mrtgen.Routes.Update.Announced.{announced_by}
use mrtgen.Routes.Announced.{announcement_of, announced_parts, IsWordOption, width_le, nexthop_le}
use mrtgen.Outcome.{ok, ok-injective}
use mrtgen.Routes.Update.Carried.{
  Carries, mp_reach-Carries, flow_announced, prefix_announced, vpn_announced,
}
use mrtgen.Routes.Update.Parts.{reach_vpn, reach_v6, reach_v4, reach_parts, reach_by_parts}

module _ (id : Option ℕ) (word : IsWordOption id) (addr : Bytes) (bits : ℕ) (hop : Bytes) where
  reach_vpn-Carries :
      (v6 : Bool) (label : ℕ) (rd : Bytes) (made : Bytes × Bytes)
      → IsPrefix v6 addr bits
      → IsCanonical addr bits
      → length hop ≤ 16
      → length rd ≡ 8
      → label < 1048576
      → reach_vpn id v6 addr bits hop label rd ≡ ok made
      → length made.0 ≤ 65535
      → Carries id made (announced_parts id v6 addr bits hop label none (some rd))
  unfolding reach_vpn vpn_next_hop
  reach_vpn-Carries v6 label rd made p canonical small octets label_small h fits =
      let encoded =
        nlri_vpn_total label rd addr bits label_small octets (width_le v6 addr p.sized)
          p.in_width in
      let whole = ok-injective (rw encoded at h) in
      subst
        (λ (m : Bytes × Bytes).
          Carries id m (announced_parts id v6 addr bits hop label none (some rd)))
        whole
        (mp_reach-Carries id word v6 128 (replicate 8 0 ++ hop)
          (with_path_id id (encoded_vpn label rd addr bits)) _ (omega arith)
          (subst (λ (m : Bytes × Bytes). length m.0 ≤ 65535) (sym whole) fits)
          (vpn_announced id word v6 (replicate 8 0 ++ hop) label rd addr bits label_small octets p
            canonical))

  reach_v6-Carries :
      (label : ℕ) (made : Bytes × Bytes)
      → IsPrefix true addr bits
      → IsCanonical addr bits
      → length hop ≤ 16
      → reach_v6 id addr bits hop ≡ ok made
      → length made.0 ≤ 65535
      → Carries id made (announced_parts id true addr bits hop label none none)
  unfolding reach_v6
  reach_v6-Carries label made p canonical small h fits =
      let sized : (length addr == 16) ≡ true = ground (arith, p.sized) in
      let whole =
        ok-injective (rw (nlri_v6_total addr bits p.in_width canonical) at (rw sized at h)) in
      subst
        (λ (m : Bytes × Bytes).
          Carries id m (announced_parts id true addr bits hop label none none))
        whole
        (mp_reach-Carries id word true 1 hop (with_path_id id (encoded_prefix addr bits)) _
          (omega arith) (subst (λ (m : Bytes × Bytes). length m.0 ≤ 65535) (sym whole) fits)
          (prefix_announced id word true hop addr bits p canonical))

  reach_v4-Carries :
      (label : ℕ) (made : Bytes × Bytes)
      → IsPrefix false addr bits
      → IsCanonical addr bits
      → length hop ≡ 4
      → reach_v4 id addr bits hop ≡ ok made
      → Carries id made (announced_parts id false addr bits hop label none none)
  unfolding reach_v4 announced_by
  reach_v4-Carries label made p canonical four h =
      let sized : (length addr == 4) ≡ true = ground (arith, p.sized) in
      let hop_sized : (length hop == 4) ≡ true = ground arith in
      let whole =
        ok-injective (
          rw (nlri_v4_total addr bits p.in_width canonical) at (rw sized at (rw hop_sized at h))) in
      subst
        (λ (m : Bytes × Bytes).
          Carries id m (announced_parts id false addr bits hop label none none))
        whole
        (
          Meaning.next_hop hop,
          attr_next_hop-Encodes Context.update hop four,
          prefix_announced id word false hop addr bits p canonical,
        )

  reach_parts-Carries :
      (v6 : Bool) (label : ℕ) (flow rd : Option Bytes) (made : Bytes × Bytes)
      → IsTarget v6 addr bits flow
      → IsNexthop v6 flow hop
      → ((v : Bytes) → rd ≡ some v → length v ≡ 8)
      → label < 1048576
      → reach_parts id v6 addr bits hop label flow rd ≡ ok made
      → length made.0 ≤ 65535
      → Carries id made (announced_parts id v6 addr bits hop label flow rd)
  unfolding reach_parts
  reach_parts-Carries v6 label (some flow) rd made t nh octets small h fits =
      let whole = ok-injective h in
      subst
        (λ (m : Bytes × Bytes).
          Carries id m (announced_parts id v6 addr bits hop label (some flow) rd))
        whole
        (mp_reach-Carries id word v6 133 hop (with_path_id id flow) _
          (omega (arith, nexthop_le v6 (some flow) hop nh))
          (subst (λ (m : Bytes × Bytes). length m.0 ≤ 65535) (sym whole) fits)
          (flow_announced id word v6 hop flow))
  reach_parts-Carries v6 label none (some rd) made t nh octets small h fits =
      reach_vpn-Carries v6 label rd made t.0 t.1 (nexthop_le v6 none hop nh) (octets rd refl) small
        h fits
  reach_parts-Carries true label none none made t nh octets small h fits =
      reach_v6-Carries label made t.0 t.1 (nexthop_le true none hop nh) h fits
  reach_parts-Carries false label none none made t nh octets small h fits =
      reach_v4-Carries label made t.0 t.1 nh h

-- The next hop and the NLRI of an accepted route, as a reader sees them.
pub reach-Carries :
    (spec : RouteSpec) (p : ParsedRoute) (made : Bytes × Bytes)
    → IsTyped spec
    → IsAccepted spec p
    → reach spec p ≡ ok made
    → length made.0 ≤ 65535
    → Carries spec.path_id made (announcement_of spec p)
reach-Carries spec p made typed accepted h fits =
    reach_parts-Carries spec.path_id typed.path_id_word p.prefix p.bits p.nexthop p.v6 p.label
      p.flow_nlri p.rd made accepted.target accepted.nexthop accepted.rd_octets accepted.label_small
      (sym (reach_by_parts spec p) ∙ h) fits
