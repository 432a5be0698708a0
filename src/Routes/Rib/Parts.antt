-- ===== src/Routes/Rib/Parts.antt =====
-- The RIB record of src/routes.rs over the parts of a route, as a reader takes it apart.
use Prim.Native.String.{String}
use mrtgen.Base.{
  ℕ, ◌*◌, ◌<◌, ◌≤◌, ◌≡◌, refl, ◌++◌, [], ◌∷◌, List, Bool, true, false, Option, none, some, arith,
  Bytes, IsU32, ◌==◌, as_u32, length, length-append, length-take, take, replicate, is_some,
  if◌then◌else◌, subst, sym, ◌∙◌,
}
use mrtgen.Types
use mrtgen.Writer.{MrtRecord}
use mrtgen.Bgp.Attr.Values.{Context, Meaning}
use mrtgen.Bgp.Attr.Meanings.{decode}
use mrtgen.Bgp.Nlri.{div_ceil8, nlri_vpn, nlri_v4, nlri_v6}
use mrtgen.Bgp.Nlri.Reading.{IsCanonical, encoded_prefix, nlri_v4_total, nlri_v6_total}
use mrtgen.Bgp.Nlri.Vpn.{encoded_vpn, nlri_vpn_total}
use mrtgen.Records.TableDump.{new_entry, rib_afi_safi, rib_generic}
use mrtgen.Records.TableDump.Rib.{id_bytes}
use mrtgen.Routes.Spec.{RouteSpec, ParsedRoute}
use mrtgen.Routes.Prefix.Sound.{IsPrefix, width_of}
use mrtgen.Routes.Attrs.{with_path_id}
use mrtgen.Routes.Announced.{announced_parts, hop_of, IsWordOption, with_path_id-id_bytes, width_le}
use mrtgen.Routes.Rib.{exactly, afi_of, rib_subtype, vpn_subtype, rib_record}
use mrtgen.Routes.Rib.Framed.{
  IsDumped, peer_of, view_of, rib_subtype-read, vpn_subtype-read, read_unicast-rib,
  read_generic-rib,
}
use mrtgen.Routes.Rib.Read.{take_hop}
use mrtgen.Outcome.{Outcome, ok, ◌>>=◌, or_panic, ok-injective}
use mrtgen.Routes.Rib.Limits.{
  subtype_fits, rib_generic-IsHonest, rib_afi_safi-IsHonest, id_bytes_le,
}

-- The record, over the parts of a route without a flow specification.
unfoldable pub record_vpn :
    Option ℕ → ℕ → ℕ → Bool → Bytes → ℕ → ℕ → Bytes → Bytes → Outcome (MrtRecord × String)
record_vpn id ts i v6 addr bits label attrs rd = do
  nlri ← or_panic (nlri_vpn label rd addr bits)
  ok (
    rib_generic ts (vpn_subtype v6 (is_some id)).0 (as_u32 i) (afi_of v6) Types.safi_mpls_vpn
        (with_path_id id nlri) (new_entry (if v6 then 1 else 0) ts attrs ∷ []),
    (vpn_subtype v6 (is_some id)).1,
  )

unfoldable pub record_unicast : Option ℕ → ℕ → ℕ → Bool → Bytes → Bytes → MrtRecord × String
record_unicast id ts i v6 nlri attrs = (
  rib_afi_safi ts (rib_subtype v6 (is_some id)).0 (as_u32 i) nlri
      (record (new_entry (if v6 then 1 else 0) ts attrs) { path_id = id } ∷ []),
  (rib_subtype v6 (is_some id)).1,
)

unfoldable pub record_parts :
    Option ℕ → ℕ → ℕ → Bool → Bytes → ℕ → ℕ → Bytes → Option Bytes → Outcome (MrtRecord × String)
record_parts id ts i v6 addr bits label attrs (some rd) =
    record_vpn id ts i v6 addr bits label attrs rd
record_parts id ts i true addr bits label attrs none = do
  a ← exactly 16 addr
  nlri ← or_panic (nlri_v6 a bits)
  ok (record_unicast id ts i true nlri attrs)
record_parts id ts i false addr bits label attrs none = do
  a ← exactly 4 addr
  nlri ← or_panic (nlri_v4 a bits)
  ok (record_unicast id ts i false nlri attrs)

pub record_by_parts :
    (ts i : ℕ) (spec : RouteSpec) (p : ParsedRoute) (attrs : Bytes)
    → rib_record ts i spec p attrs
      ≡ record_parts spec.path_id ts i p.v6 p.prefix p.bits p.label attrs p.rd
unfolding rib_record record_parts record_vpn record_unicast
record_by_parts ts i spec p attrs = ground arith

-- The octets of a prefix, and of a VPN route with its Path Identifier, are few.
prefix_size : (addr : Bytes) (bits : ℕ) → length addr ≤ 16 → length (encoded_prefix addr bits) ≤ 100
prefix_size addr bits small = omega (arith, length-take (div_ceil8 bits) addr)

vpn_size :
    (id : Option ℕ) (label : ℕ) (rd addr : Bytes) (bits : ℕ)
    → length rd ≡ 8
    → length addr ≤ 16
    → length (id_bytes id ++ encoded_vpn label rd addr bits) ≤ 100
unfolding encoded_vpn
vpn_size id label rd addr bits octets small =
    let octet = take (div_ceil8 bits) addr in
    omega (
      arith,
      id_bytes_le id,
      length-append (id_bytes id) (encoded_vpn label rd addr bits),
      length-append rd octet,
      length-take (div_ceil8 bits) addr,
    )

module _ (ts i : ℕ) (id : Option ℕ) (addr : Bytes) (bits label : ℕ) (attrs : Bytes)
    (in_width : bits ≤ 8 * length addr) (canonical : IsCanonical addr bits) where
  pub unicast_parts :
      (v6 : Bool)
      → length addr ≡ width_of v6
      → record_parts id ts i v6 addr bits label attrs none
        ≡ ok (record_unicast id ts i v6 (encoded_prefix addr bits) attrs)
  unfolding record_parts
  unicast_parts true size =
      let sized : (length addr == 16) ≡ true = ground arith in
      rw (sized, nlri_v6_total addr bits in_width canonical)
  unicast_parts false size =
      let sized : (length addr == 4) ≡ true = ground arith in
      rw (sized, nlri_v4_total addr bits in_width canonical)

module _ (ts i : ℕ) (v6 : Bool) (id : Option ℕ) (addr : Bytes) (bits label : ℕ)
    (attrs nexthop : Bytes) (meanings others : List Meaning) (stamp : IsU32 ts)
    (word : IsWordOption id) (pfx : IsPrefix v6 addr bits) (canonical : IsCanonical addr bits)
    (fits : length attrs ≤ 65535) (decoded : decode Context.rib attrs ≡ some meanings) where
  vpn-IsDumped :
      (rd : Bytes)
      → take_hop meanings ≡ some (replicate 8 0 ++ nexthop, others)
      → label < 1048576
      → length rd ≡ 8
      → (made : MrtRecord × String) → record_vpn id ts i v6 addr bits label attrs rd ≡ ok made
      → IsDumped v6 ts
          (view_of i ts v6 others (announced_parts id v6 addr bits nexthop label none (some rd)))
          made.0
  unfolding record_vpn rib_generic
  vpn-IsDumped rd taken small octets made h =
      let total =
        nlri_vpn_total label rd addr bits small octets (width_le v6 addr pfx.sized) pfx.in_width in
      let subtype = (vpn_subtype v6 (is_some id)).0 in
      let read =
        read_generic-rib ts i v6 id addr bits attrs (replicate 8 0 ++ nexthop) meanings others stamp
          word pfx canonical fits decoded taken subtype label rd small octets in
      let good =
        rib_generic-IsHonest ts subtype (as_u32 i) (id_bytes id ++ encoded_vpn label rd addr bits)
          (new_entry (peer_of v6) ts attrs) stamp (subtype_fits v6 (is_some id)).1
          (vpn_size id label rd addr bits octets (width_le v6 addr pfx.sized)) fits (afi_of v6)
          Types.safi_mpls_vpn in
      subst
        (λ (m : MrtRecord × String).
          IsDumped v6 ts
            (view_of i ts v6 others (announced_parts id v6 addr bits nexthop label none (some rd)))
            m.0)
        (ok-injective (rw (total, with_path_id-id_bytes id (encoded_vpn label rd addr bits)) at h))
        (good, (refl, refl, vpn_subtype-read v6 (is_some id) _ ∙ read))

  unicast-IsDumped :
      take_hop meanings ≡ some (nexthop, others)
      → IsDumped v6 ts
          (view_of i ts v6 others (announced_parts id v6 addr bits nexthop label none none))
          (record_unicast id ts i v6 (encoded_prefix addr bits) attrs).0
  unfolding record_unicast rib_afi_safi
  unicast-IsDumped taken =
      let subtype = (rib_subtype v6 (is_some id)).0 in
      let read =
        read_unicast-rib ts i v6 id addr bits attrs nexthop meanings others stamp word pfx canonical
          fits decoded taken subtype in
      let good =
        rib_afi_safi-IsHonest ts subtype (as_u32 i) (encoded_prefix addr bits)
          (record (new_entry (peer_of v6) ts attrs) { path_id = id }) stamp
          (subtype_fits v6 (is_some id)).0 (prefix_size addr bits (width_le v6 addr pfx.sized))
          fits in
      (good, (refl, refl, rib_subtype-read v6 (is_some id) _ ∙ read))

  pub record_parts-IsDumped :
      (rd : Option Bytes)
      → take_hop meanings ≡ some (hop_of none rd nexthop, others)
      → label < 1048576
      → ((v : Bytes) → rd ≡ some v → length v ≡ 8)
      → (made : MrtRecord × String) → record_parts id ts i v6 addr bits label attrs rd ≡ ok made
      → IsDumped v6 ts
          (view_of i ts v6 others (announced_parts id v6 addr bits nexthop label none rd))
          made.0
  unfolding record_parts
  record_parts-IsDumped (some rd) taken small octets made h =
      vpn-IsDumped rd taken small (octets rd refl) made h
  record_parts-IsDumped none taken small octets made h =
      subst
        (λ (m : MrtRecord × String).
          IsDumped v6 ts
            (view_of i ts v6 others (announced_parts id v6 addr bits nexthop label none none)) m.0)
        (ok-injective (
          sym (unicast_parts ts i id addr bits label attrs pfx.in_width canonical v6 pfx.sized)
          ∙ h))
        (unicast-IsDumped taken)
