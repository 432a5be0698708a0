-- ===== src/Generator/Valid.antt =====
-- `emit_valid` of src/generator.rs, its table dumps: the peer table, the RIB records of every subtype and
-- the legacy form.
use Prim.Native.String.{String}
use mrtgen.Base.{
  ℕ, ◌+◌, ◌++◌, [], ◌∷◌, List, Bool, true, false, Option, some, Bytes, map, as_u8, as_u32,
  replicate,
}
use mrtgen.Types
use mrtgen.Text.{codes}
use mrtgen.Wire.{◌>>=◌}
use mrtgen.Manifest.{valid}
use mrtgen.Writer.{MrtRecord}
use mrtgen.Bgp.Attr.{
  attr_origin, attr_as_path_2b, attr_as_path_4b, attr_next_hop, attr_mp_reach, attr_mp_reach_td2,
  attr_ext_communities,
}
use mrtgen.Bgp.Nlri.{nlri_v4, nlri_v6, nlri_v4_addpath, nlri_vpn, rd_type0, rd_type1, vpn_next_hop}
use mrtgen.Records.TableDump.{
  Peer, RibEntry, new_entry, peer_index_table, rib_afi_safi, rib_generic, table_dump,
}
use mrtgen.Records.Attrs.{standard_attrs_v4, standard_attrs_v6}
use mrtgen.Generator.Emit.{Emission, emission, always, enumerate_from, v6, ip4}

abbrev corpus_peers : List Peer
corpus_peers =
    record { bgp_id = ip4 192 0 2 10; ip = ip4 10 0 0 1; asn = 64500; as4 = false }
    ∷ record { bgp_id = ip4 192 0 2 11; ip = ip4 10 0 0 2; asn = 4200000001; as4 = true }
    ∷ record { bgp_id = ip4 192 0 2 12; ip = v6 1; asn = 4200000002; as4 = true }
    ∷ record { bgp_id = ip4 192 0 2 13; ip = v6 2; asn = 64501; as4 = false }
    ∷ []

abbrev RibCase : Type 0
RibCase = ℕ × String × Bool

-- `if *addpath { e.path_id = Some(id); }`
abbrev with_id : Bool → ℕ → RibEntry → RibEntry
with_id true id e = record e { path_id = some id }
with_id false id e = e

abbrev v4_cases : List RibCase
v4_cases =
    (Types.rib_ipv4_unicast, "rib_ipv4_unicast", false)
    ∷ (Types.rib_ipv4_multicast, "rib_ipv4_multicast", false)
    ∷ (Types.rib_ipv4_unicast_addpath, "rib_ipv4_unicast_addpath", true)
    ∷ (Types.rib_ipv4_multicast_addpath, "rib_ipv4_multicast_addpath", true)
    ∷ []

abbrev v4_record : ℕ → ℕ → Bool → ℕ → Option MrtRecord
v4_record i subtype addpath ts = do
  let seq = as_u32 (i + 1)
  let e0 = with_id addpath seq (new_entry 0 ts (standard_attrs_v4 seq))
  let e1 = with_id addpath (seq + 100) (new_entry 1 ts (standard_attrs_v4 (seq + 10)))
  nlri ← nlri_v4 (ip4 10 (as_u8 (100 + i)) 0 0) 16
  some (rib_afi_safi ts subtype seq nlri (e0 ∷ e1 ∷ []))

abbrev v4_emission : ℕ × RibCase → Emission
v4_emission (i, (subtype, kind, addpath)) =
    emission kind valid "TABLE_DUMP_V2 IPv4 RIB record with 2 RIB entries"
      (v4_record i subtype addpath)

abbrev v6_cases : List RibCase
v6_cases =
    (Types.rib_ipv6_unicast, "rib_ipv6_unicast", false)
    ∷ (Types.rib_ipv6_multicast, "rib_ipv6_multicast", false)
    ∷ (Types.rib_ipv6_unicast_addpath, "rib_ipv6_unicast_addpath", true)
    ∷ (Types.rib_ipv6_multicast_addpath, "rib_ipv6_multicast_addpath", true)
    ∷ []

-- `v6(0)` with octet 4 set
abbrev v6_record : ℕ → ℕ → Bool → ℕ → Option MrtRecord
v6_record i subtype addpath ts = do
  let seq = as_u32 (i + 10)
  let e = with_id addpath seq (new_entry 2 ts (standard_attrs_v6 seq))
  nlri ← nlri_v6 (0x20 ∷ 0x01 ∷ 0x0d ∷ 0xb8 ∷ as_u8 (i + 1) ∷ replicate 11 0) 48
  some (rib_afi_safi ts subtype seq nlri (e ∷ []))

abbrev v6_emission : ℕ × RibCase → Emission
v6_emission (i, (subtype, kind, addpath)) =
    emission kind valid "TABLE_DUMP_V2 IPv6 RIB record with 1 RIB entry"
      (v6_record i subtype addpath)

-- Route Target 64500:n
abbrev pub route_target : ℕ → Bytes
route_target n = 0x00 ∷ 0x02 ∷ 0xFB ∷ 0xF4 ∷ 0x00 ∷ 0x00 ∷ 0x00 ∷ n ∷ []

abbrev pub valid_ribs : List Emission
valid_ribs =
    emission "peer_index_table" valid
      "TABLE_DUMP_V2 PEER_INDEX_TABLE with 4 peers covering all peer-type bit combinations"
      (always λ ts. peer_index_table ts (ip4 192 0 2 100) (codes "mrtgen-view") corpus_peers)
    ∷ (map v4_emission (enumerate_from 0 v4_cases) ++ map v6_emission (enumerate_from 0 v6_cases))

abbrev generic_v4 : ℕ → Option MrtRecord
generic_v4 ts = do
  nlri ← nlri_v4 (ip4 203 0 113 0) 24
  some (
      rib_generic ts Types.rib_generic 20 Types.bgp_afi_ipv4 Types.safi_unicast nlri
        (new_entry 1 ts (standard_attrs_v4 42) ∷ []))

abbrev generic_v4_addpath : ℕ → Option MrtRecord
generic_v4_addpath ts = do
  nlri ← nlri_v4_addpath 7 (ip4 203 0 113 128) 25
  some (
      rib_generic ts Types.rib_generic_addpath 21 Types.bgp_afi_ipv4 Types.safi_unicast nlri
        (new_entry 1 ts (standard_attrs_v4 43) ∷ []))

abbrev vpn_attrs : ℕ → Bytes → ℕ → Bytes
vpn_attrs asn next_hop target =
    ((attr_origin 0 ++ attr_as_path_4b (64500 ∷ asn ∷ []))
      ++ attr_mp_reach_td2 (vpn_next_hop next_hop))
    ++ attr_ext_communities (route_target target ∷ [])

abbrev generic_vpnv4 : ℕ → Option MrtRecord
generic_vpnv4 ts = do
  let entry = new_entry 1 ts (vpn_attrs 4200000001 (ip4 192 0 2 5) 1)
  nlri ← nlri_vpn 100 (rd_type0 64500 1) (ip4 10 30 0 0) 24
  some
      (rib_generic ts Types.rib_generic 22 Types.bgp_afi_ipv4 Types.safi_mpls_vpn nlri (entry ∷ []))

-- The prefix is `v6(0)` with octet 5 set.
abbrev generic_vpnv6 : ℕ → Option MrtRecord
generic_vpnv6 ts = do
  let entry = new_entry 2 ts (vpn_attrs 4200000002 (v6 9) 2)
  let p = 0x20 ∷ 0x01 ∷ 0x0d ∷ 0xb8 ∷ 0 ∷ 0x64 ∷ replicate 10 0
  nlri ← nlri_vpn 200 (rd_type1 (ip4 192 0 2 66) 2) p 48
  some
      (rib_generic ts Types.rib_generic 23 Types.bgp_afi_ipv6 Types.safi_mpls_vpn nlri (entry ∷ []))

abbrev pub valid_generic : List Emission
valid_generic =
    emission "rib_generic" valid "TABLE_DUMP_V2 RIB_GENERIC record (AFI 1 / SAFI 1)" generic_v4
    ∷ emission "rib_generic_addpath" valid
        "TABLE_DUMP_V2 RIB_GENERIC_ADDPATH record (path id in NLRI)" generic_v4_addpath
    ∷ emission "rib_generic_vpnv4" valid
        "TABLE_DUMP_V2 RIB_GENERIC VPNv4 route (AFI 1 / SAFI 128): label + type-0 RD + prefix NLRI, 12-byte RD-prefixed next hop, Route Target"
        generic_vpnv4
    ∷ emission "rib_generic_vpnv6" valid
        "TABLE_DUMP_V2 RIB_GENERIC VPNv6 route (AFI 2 / SAFI 128): label + type-1 RD + prefix NLRI, 24-byte RD-prefixed next hop, Route Target"
        generic_vpnv6
    ∷ []

abbrev dump_v4 : ℕ → MrtRecord
dump_v4 ts = table_dump ts Types.afi_ipv4 (record {
  view = 0;
  sequence = 1;
  prefix = ip4 10 200 0 0;
  prefix_len = 16;
  originated = ts;
  peer_ip = ip4 192 0 2 1;
  peer_as = 64500;
  attributes =
      (attr_origin 0 ++ attr_as_path_2b (64500 ∷ 65000 ∷ [])) ++ attr_next_hop (ip4 192 0 2 1);
})

abbrev dump_v6 : ℕ → Option MrtRecord
dump_v6 ts = do
  nlri ← nlri_v6 (v6 0) 32
  some (
      table_dump ts Types.afi_ipv6 (record {
        view = 0;
        sequence = 2;
        prefix = v6 0;
        prefix_len = 32;
        originated = ts;
        peer_ip = v6 1;
        peer_as = 64500;
        attributes =
            (attr_origin 0 ++ attr_as_path_2b (64500 ∷ 65001 ∷ []))
            ++ attr_mp_reach Types.bgp_afi_ipv6 Types.safi_unicast (v6 9) nlri;
      }))

abbrev pub valid_dumps : List Emission
valid_dumps =
    emission "table_dump_ipv4" valid "Legacy TABLE_DUMP AFI_IPv4 RIB entry" (always dump_v4)
    ∷ emission "table_dump_ipv6" valid "Legacy TABLE_DUMP AFI_IPv6 RIB entry" dump_v6
    ∷ []
