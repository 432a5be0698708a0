-- ===== src/Generator/Combo.antt =====
-- `emit_combo` of src/generator.rs: the community attributes crossed with the ADD-PATH carriers.
use Prim.Native.String.{String}
use mrtgen.Base.{
  ℕ, ◌+◌, ◌++◌, [], ◌∷◌, List, Option, none, some, Bytes, map, as_u8, bit_and, bit_or, range_from,
}
use mrtgen.Types
use mrtgen.Wire.{◌>>=◌}
use mrtgen.Manifest.{Expect, valid, skip}
use mrtgen.Writer.{MrtRecord}
use mrtgen.Bgp.Attr.{
  LargeCommunity, attr_origin, attr_as_path_2b, attr_as_path_4b, attr_next_hop, attr_communities,
  attr_ext_communities, attr_large_communities, attr_community_raw, attr_mp_reach_td2,
}
use mrtgen.Bgp.Nlri.{nlri_v4, nlri_v6, nlri_v4_addpath}
use mrtgen.Bgp.Message.{bgp_update}
use mrtgen.Records.Bgp4mp.{bgp4mp_message}
use mrtgen.Records.TableDump.{new_entry, rib_afi_safi, rib_generic}
use mrtgen.Generator.Emit.{Emission, emission, v6, ip4}
use mrtgen.Generator.ValidMessages.{session_v4}

abbrev pub std_comms : List ℕ
std_comms = 4227072010 ∷ Types.comm_no_export ∷ Types.comm_no_advertise ∷ []

abbrev pub ext_comms : List Bytes
ext_comms =
    (0x00 ∷ 0x02 ∷ 0x00 ∷ 0xFC ∷ 0x00 ∷ 0x00 ∷ 0x00 ∷ 0x0A ∷ [])
    ∷ (0x00 ∷ 0x03 ∷ 0x00 ∷ 0xFD ∷ 0x00 ∷ 0x00 ∷ 0x00 ∷ 0x14 ∷ [])
    ∷ []

abbrev pub large_comms : List LargeCommunity
large_comms = (64500, 1, 2) ∷ (4200000001, 7, 8) ∷ []

-- `(64500u32 << 16) | (i & 0xFFFF)` for each `i` below `n`
abbrev numbered_comms : ℕ → List ℕ
numbered_comms n = map (λ i. bit_or 4227072000 (bit_and i 0xffff)) (range_from 0 n)

-- `base_v4(salt)`; the salts are small, and no sum wraps.
abbrev base_v4 : ℕ → Bytes
base_v4 salt =
    (attr_origin 0 ++ attr_as_path_4b ((64500 + salt) ∷ (4200000000 + salt) ∷ []))
    ++ attr_next_hop (ip4 192 0 2 (as_u8 (1 + salt)))

-- The closure `push_rib_v4`; every call passes 16 bits.
abbrev rib_v4 : ℕ → ℕ → Option ℕ → Bytes → Bytes → String → Expect → String → Emission
rib_v4 subtype seq path_id prefix attrs kind expect description =
    emission kind expect description (λ ts. do
      nlri ← nlri_v4 prefix 16
      some (
          rib_afi_safi ts subtype seq nlri
            (record (new_entry 1 ts attrs) { path_id = path_id } ∷ [])))

abbrev combo_ribs : List Emission
combo_ribs =
    rib_v4 Types.rib_ipv4_unicast_addpath 100 (some 1001) (ip4 10 1 0 0)
      (base_v4 1 ++ attr_communities std_comms) "combo_rib_v4_addpath_std_comm" valid
      "RIB_IPV4_UNICAST_ADDPATH entry with a Path Identifier and standard (RFC 1997) communities, including well-known NO_EXPORT/NO_ADVERTISE"
    ∷ rib_v4 Types.rib_ipv4_unicast_addpath 101 (some 1002) (ip4 10 2 0 0)
        (base_v4 2 ++ attr_ext_communities ext_comms) "combo_rib_v4_addpath_ext_comm" valid
        "RIB_IPV4_UNICAST_ADDPATH entry with a Path Identifier and extended (RFC 4360) communities"
    ∷ rib_v4 Types.rib_ipv4_unicast_addpath 102 (some 1003) (ip4 10 3 0 0)
        (base_v4 3 ++ attr_large_communities large_comms) "combo_rib_v4_addpath_large_comm" valid
        "RIB_IPV4_UNICAST_ADDPATH entry with a Path Identifier and large (RFC 8092) communities"
    ∷ []

abbrev all_comm_attrs : Bytes
all_comm_attrs =
    ((((attr_origin 1 ++ attr_as_path_4b (64500 ∷ 4200000002 ∷ [])) ++ attr_mp_reach_td2 (v6 9))
        ++ attr_communities std_comms)
      ++ attr_ext_communities ext_comms)
    ++ attr_large_communities large_comms

abbrev rib_v6_all_comm : ℕ → Option MrtRecord
rib_v6_all_comm ts = do
  let e = new_entry 2 ts all_comm_attrs
  nlri ← nlri_v6 (v6 0) 48
  some (
      rib_afi_safi ts Types.rib_ipv6_unicast_addpath 103 nlri
        (record e { path_id = some 2001 } ∷ record e { path_id = some 2002 } ∷ []))

abbrev generic_addpath_comm : ℕ → Option MrtRecord
generic_addpath_comm ts = do
  let attrs = (base_v4 4 ++ attr_communities std_comms) ++ attr_large_communities large_comms
  nlri ← nlri_v4_addpath 3003 (ip4 203 0 113 0) 24
  some (
      rib_generic ts Types.rib_generic_addpath 104 Types.bgp_afi_ipv4 Types.safi_unicast nlri
        (new_entry 1 ts attrs ∷ []))

-- A BGP4MP_MESSAGE_ADDPATH record of an UPDATE with these communities and this NLRI.
abbrev addpath_message : Bytes → Option Bytes → ℕ → Option MrtRecord
addpath_message communities announced ts = do
  let attrs =
      ((attr_origin 0 ++ attr_as_path_2b (64500 ∷ 65000 ∷ [])) ++ attr_next_hop (ip4 192 0 2 1))
      ++ communities
  nlri ← announced
  some (
      bgp4mp_message ts Types.bgp4mp none Types.bgp4mp_message_addpath (session_v4 64500 64501 1)
        (bgp_update [] attrs nlri))

abbrev combo_carriers : List Emission
combo_carriers =
    emission "combo_rib_v6_addpath_all_comm" valid
      "RIB_IPV6_UNICAST_ADDPATH with two Path Identifiers, each entry carrying standard + extended + large communities"
      rib_v6_all_comm
    ∷ emission "combo_rib_generic_addpath_comm" valid
        "RIB_GENERIC_ADDPATH (Path Identifier in the NLRI) with standard + large communities"
        generic_addpath_comm
    ∷ emission "combo_bgp4mp_addpath_comm" valid
        "BGP4MP_MESSAGE_ADDPATH UPDATE: ADD-PATH Path Identifier in the NLRI, standard + large communities in the attributes"
        (addpath_message (attr_communities std_comms ++ attr_large_communities large_comms)
          (nlri_v4_addpath 4004 (ip4 198 51 100 0) 24))
    ∷ rib_v4 Types.rib_ipv4_unicast_addpath 105 (some 0) (ip4 10 5 0 0)
        (base_v4 5 ++ attr_communities std_comms) "combo_rib_v4_addpath_pathid0_comm" valid
        "RIB_IPV4_UNICAST_ADDPATH entry with Path Identifier 0 (legal) and standard communities"
    ∷ rib_v4 Types.rib_ipv4_unicast_addpath 112 (some 10010) (ip4 10 12 0 0)
        (base_v4 12 ++ attr_communities (numbered_comms 1000)) "combo_rib_v4_addpath_many_comm"
        valid
        "RIB_IPV4_UNICAST_ADDPATH entry with a Path Identifier and 1000 standard communities (extended-length attribute)"
    ∷ []

abbrev combo_illegal : List Emission
combo_illegal =
    rib_v4 Types.rib_ipv4_unicast 106 (some 5005) (ip4 10 6 0 0)
      (base_v4 6 ++ attr_communities std_comms) "combo_rib_pathid_in_nonaddpath" skip
      "Path Identifier encoded in a RIB_IPV4_UNICAST (non-ADD-PATH) entry: subtype forbids the id, so attribute parsing desynchronises"
    ∷ rib_v4 Types.rib_ipv4_unicast_addpath 107 none (ip4 10 7 0 0)
        (base_v4 7 ++ attr_communities std_comms) "combo_rib_addpath_missing_pathid" skip
        "RIB_IPV4_UNICAST_ADDPATH entry with the mandatory Path Identifier omitted: entry framing desynchronises"
    ∷ rib_v4 Types.rib_ipv4_unicast_addpath 108 (some 6006) (ip4 10 8 0 0)
        (base_v4 8
          ++ attr_community_raw Types.attr_community (0xFC ∷ 0x00 ∷ 0x00 ∷ 0x0A ∷ 0x12 ∷ 0x34 ∷ []))
        "combo_std_comm_bad_len_addpath" skip
        "ADD-PATH entry whose standard COMMUNITY attribute value is 6 bytes (not a multiple of 4)"
    ∷ rib_v4 Types.rib_ipv4_unicast_addpath 109 (some 7007) (ip4 10 9 0 0)
        (base_v4 9
          ++ attr_community_raw Types.attr_ext_community
              (0x00 ∷ 0x02 ∷ 0x00 ∷ 0xFC ∷ 0x00 ∷ 0x00 ∷ []))
        "combo_ext_comm_bad_len_addpath" skip
        "ADD-PATH entry whose extended COMMUNITY attribute value is 6 bytes (not a multiple of 8)"
    ∷ rib_v4 Types.rib_ipv4_unicast_addpath 110 (some 8008) (ip4 10 10 0 0)
        (base_v4 10
          ++ attr_community_raw Types.attr_large_community
              (0x00 ∷ 0x00 ∷ 0xFC ∷ 0x14 ∷ 0x00 ∷ 0x00 ∷ 0x00 ∷ 0x01 ∷ []))
        "combo_large_comm_bad_len_addpath" skip
        "ADD-PATH entry whose large COMMUNITY attribute value is 8 bytes (not a multiple of 12)"
    ∷ rib_v4 Types.rib_ipv4_unicast_addpath 111 (some 9009) (ip4 10 11 0 0)
        ((base_v4 11 ++ attr_communities std_comms)
          ++ attr_communities (Types.comm_no_export_subconfed ∷ []))
        "combo_dup_community_addpath" skip
        "ADD-PATH entry carrying the COMMUNITY attribute twice (attribute types must be unique per RFC 4271)"
    ∷ emission "combo_bgp4mp_addpath_plain_nlri" skip
        "BGP4MP_MESSAGE_ADDPATH UPDATE whose announced NLRI omits the mandatory Path Identifier (plain NLRI in an ADD-PATH subtype)"
        (addpath_message (attr_communities std_comms) (nlri_v4 (ip4 198 51 100 128) 25))
    ∷ emission "combo_bgp4mp_addpath_comm_over_4096" skip
        "BGP4MP_MESSAGE_ADDPATH UPDATE carrying 1100 communities: the BGP message exceeds the 4096-byte RFC 4271 maximum"
        (addpath_message (attr_communities (numbered_comms 1100))
          (nlri_v4_addpath 11011 (ip4 198 51 100 0) 24))
    ∷ []

-- What `emit_combo` pushes.
unfoldable pub combo_section : List Emission
combo_section = combo_ribs ++ (combo_carriers ++ combo_illegal)
