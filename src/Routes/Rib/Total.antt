-- ===== src/Routes/Rib/Total.antt =====
-- An accepted route of src/routes.rs becomes a record of a table dump, or its attributes are too long.
use mrtgen.Base.{
  ℕ, ◌<◌, ◌≡◌, refl, [], ◌∷◌, ◌++◌, Bool, true, false, Option, none, some, arith, Bytes, length,
  ltb, ◌==◌, as_u32, is_some, if◌then◌else◌, Bool-cases, inl, inr, ◌⊎◌, ◌∙◌, subst,
}
use mrtgen.Types
use mrtgen.Bgp.Attr.{attr_mp_reach_td2, attr_next_hop}
use mrtgen.Bgp.Nlri.{nlri_vpn, vpn_next_hop}
use mrtgen.Bgp.Nlri.Reading.{encoded_prefix}
use mrtgen.Bgp.Nlri.Vpn.{encoded_vpn, nlri_vpn_total}
use mrtgen.Records.TableDump.{new_entry, rib_generic}
use mrtgen.Routes.Spec.{RouteSpec, ParsedRoute}
use mrtgen.Routes.Prefix.Sound.{width_of}
use mrtgen.Routes.Parse.Targets.{IsTarget, IsNexthop}
use mrtgen.Routes.Parse.Sound.{IsAccepted}
use mrtgen.Routes.Attrs.{with_path_id, head_attrs, tail_attrs}
use mrtgen.Routes.Announced.{width_le}
use mrtgen.Routes.Rib.{afi_of, vpn_subtype, rib_next_hop, rib_record, rib_route}
use mrtgen.Routes.Rib.Hop.{hop_parts, hop_by_parts}
use mrtgen.Routes.Rib.Parts.{
  record_vpn, record_unicast, record_parts, record_by_parts, unicast_parts,
}
use mrtgen.Outcome.{ok, err, IsMade, in_route, attributes_too_long}

hop_parts-IsMade :
    (v6 : Bool) (hop : Bytes) (rd : Option Bytes)
    → length hop ≡ width_of v6
    → IsMade (hop_parts v6 hop rd)
unfolding hop_parts
hop_parts-IsMade v6 hop (some rd) h = (attr_mp_reach_td2 (vpn_next_hop hop), refl)
hop_parts-IsMade true hop none h = (attr_mp_reach_td2 hop, refl)
hop_parts-IsMade false hop none h =
    let sized : (length hop == 4) ≡ true = ground arith in (attr_next_hop hop, rw sized)

record_parts-IsMade :
    (id : Option ℕ) (ts i : ℕ) (v6 : Bool) (addr : Bytes) (bits label : ℕ) (attrs : Bytes)
    (rd : Option Bytes)
    → IsTarget v6 addr bits none
    → ((v : Bytes) → rd ≡ some v → length v ≡ 8)
    → label < 1048576
    → IsMade (record_parts id ts i v6 addr bits label attrs rd)
unfolding record_parts record_vpn
record_parts-IsMade id ts i v6 addr bits label attrs (some rd) t octets small =
    let encoded : nlri_vpn label rd addr bits ≡ some (encoded_vpn label rd addr bits) =
      nlri_vpn_total label rd addr bits small (octets rd refl) (width_le v6 addr t.0.sized)
        t.0.in_width in
    (
      (
        rib_generic ts (vpn_subtype v6 (is_some id)).0 (as_u32 i) (afi_of v6) Types.safi_mpls_vpn
            (with_path_id id (encoded_vpn label rd addr bits))
            (new_entry (if v6 then 1 else 0) ts attrs ∷ []),
        (vpn_subtype v6 (is_some id)).1,
      ),
      rw encoded,
    )
record_parts-IsMade id ts i v6 addr bits label attrs none t octets small = (
  record_unicast id ts i v6 (encoded_prefix addr bits) attrs,
  unicast_parts ts i id addr bits label attrs t.0.in_width t.1 v6 t.0.sized,
)

-- Of the failures of an accepted route that is no flow specification, attributes over 65535 bytes are
-- the only one.
pub rib_route-total :
    (ts i : ℕ) (spec : RouteSpec) (p : ParsedRoute)
    → IsAccepted spec p
    → p.flow_nlri ≡ none
    → IsMade (rib_route ts i spec p)
      ⊎ (rib_route ts i spec p ≡ err (in_route i attributes_too_long))
unfolding rib_route
rib_route-total ts i spec p accepted unicast =
    let (carrier, found) =
      hop_parts-IsMade p.v6 p.nexthop p.rd
        (subst (λ (rule : Option Bytes). IsNexthop p.v6 rule p.nexthop) unicast accepted.nexthop) in
    let hopped : rib_next_hop p ≡ ok carrier = hop_by_parts p ∙ found in
    let attrs = (head_attrs p ++ carrier) ++ tail_attrs p spec in
    let (made, recorded) =
      record_parts-IsMade spec.path_id ts i p.v6 p.prefix p.bits p.label attrs p.rd
        (subst (IsTarget p.v6 p.prefix p.bits) unicast accepted.target) accepted.rd_octets
        accepted.label_small in
    let built : rib_record ts i spec p attrs ≡ ok made =
      record_by_parts ts i spec p attrs ∙ recorded in
    elim (Bool-cases (ltb 65535 (length attrs))) [
      | inl over ↦ inr (rw (hopped, over))
      | inr fits ↦ inl (made, rw (hopped, fits, built))
    ]
