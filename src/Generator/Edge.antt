-- ===== src/Generator/Edge.antt =====
-- `emit_edge_cases` and `emit_igp_edge_cases` of src/generator.rs, their well-formed records.
use Prim.Native.String.{String}
use Prim.Native.String
use mrtgen.Base.{
  ℕ, ◌+◌, ◌++◌, [], ◌∷◌, List, ◌||◌, Option, none, some, Bytes, map, as_u16, be16, length, take,
  drop, replicate, ◌==◌, if◌then◌else◌,
}
use mrtgen.Types
use mrtgen.Wire.{◌>>=◌}
use mrtgen.Manifest.{valid}
use mrtgen.Writer.{MrtRecord}
use mrtgen.Bgp.Attr.{
  attribute, optional_transitive, attr_origin, attr_as_path_4b, attr_next_hop, attr_mp_unreach,
}
use mrtgen.Bgp.Nlri.{nlri_v4, nlri_v6}
use mrtgen.Bgp.Message.{bgp_update, bgp_keepalive, bgp_notification}
use mrtgen.Records.Bgp4mp.{bgp4mp_message, message_as4}
use mrtgen.Records.TableDump.{new_entry, peer_index_table, rib_afi_safi}
use mrtgen.Records.Igp.{ospfv2, ospfv3, isis}
use mrtgen.Records.Attrs.{standard_attrs_v4, standard_attrs_v6}
use mrtgen.Generator.Emit.{Emission, emission, always, enumerate_from, decimal, v6, ip4}
use mrtgen.Generator.ValidMessages.{session_v4}

-- `format!("..{n}")`
abbrev pub numbered : String → ℕ → String
numbered prefix n = String.◌++◌ prefix (decimal n)

-- The closure `wrap_bgp`.
abbrev pub wrap_bgp : ℕ → Bytes → MrtRecord
wrap_bgp ts msg =
    bgp4mp_message ts Types.bgp4mp none Types.bgp4mp_message_as4
      (session_v4 4200000001 4200000002 0) msg

-- A RIB_IPV4_UNICAST record with one entry of peer 0.
abbrev pub rib_v4_one : ℕ → Bytes → ℕ → Bytes → ℕ → Option MrtRecord
rib_v4_one sequence prefix bits attrs ts = do
  nlri ← nlri_v4 prefix bits
  some (rib_afi_safi ts Types.rib_ipv4_unicast sequence nlri (new_entry 0 ts attrs ∷ []))

abbrev zero_entries : ℕ → Option MrtRecord
zero_entries ts = do
  nlri ← nlri_v4 (ip4 0 0 0 0) 0
  some (rib_afi_safi ts Types.rib_ipv4_unicast 0 nlri [])

abbrev prefix_emission : ℕ × ℕ → Emission
prefix_emission (i, bits) =
    emission (numbered "boundary_rib_v4_prefix_" bits) valid
      "Valid non-octet-aligned IPv4 prefix boundary"
      (rib_v4_one (2000 + i) (ip4 0x80 0 0 0) bits (standard_attrs_v4 (i + 60)))

abbrev v6_prefix_127 : ℕ → Option MrtRecord
v6_prefix_127 ts = do
  nlri ← nlri_v6 (v6 0xfe) 127
  some (
      rib_afi_safi ts Types.rib_ipv6_unicast 2010 nlri (new_entry 2 ts (standard_attrs_v6 60) ∷ []))

abbrev edge_tables : List Emission
edge_tables =
    emission "boundary_peer_index_zero" valid "PEER_INDEX_TABLE with empty view name and zero peers"
      (always λ ts. peer_index_table ts (ip4 0 0 0 0) [] [])
    ∷ emission "boundary_rib_zero_entries" valid "RIB_IPV4_UNICAST default route with zero entries"
        zero_entries
    ∷ (map prefix_emission (enumerate_from 0 (1 ∷ 7 ∷ 8 ∷ 9 ∷ 31 ∷ []))
        ++ (emission "boundary_rib_v6_prefix_127" valid "Valid non-octet-aligned IPv6 /127 prefix"
              v6_prefix_127
            ∷ []))

abbrev pub announce_attrs : Bytes
announce_attrs = (attr_origin 0 ++ attr_as_path_4b (64500 ∷ [])) ++ attr_next_hop (ip4 192 0 2 1)

abbrev valid_updates : List (String × Option Bytes)
valid_updates =
    ("boundary_bgp_empty_update", some (bgp_update [] [] []))
    ∷ (
      "boundary_bgp_withdraw_only",
      nlri_v4 (ip4 198 51 100 0) 24 >>= (λ withdrawn. some (bgp_update withdrawn [] [])),
    )
    ∷ (
      "boundary_bgp_multi_nlri",
      nlri_v4 (ip4 10 0 0 0) 8 >>= (λ one.
          nlri_v4 (ip4 172 16 0 0) 12
          >>= (λ two. some (bgp_update [] announce_attrs (one ++ two)))),
    )
    ∷ (
      "boundary_bgp_mp_unreach_v6",
      nlri_v6 (v6 0) 64 >>= (λ nlri.
          some (bgp_update [] (attr_mp_unreach Types.bgp_afi_ipv6 Types.safi_unicast nlri) [])),
    )
    ∷ []

abbrev update_emission : String × Option Bytes → Emission
update_emission (kind, message) =
    emission kind valid "Valid BGP UPDATE boundary form"
      (λ ts. message >>= (λ msg. some (wrap_bgp ts msg)))

abbrev value_emission : ℕ → Emission
value_emission len =
    emission (numbered "boundary_attr_value_" len) valid
      "Unknown optional-transitive attribute at the one/two-octet length transition"
      (rib_v4_one (2100 + len) (ip4 203 0 113 0) 24
        (standard_attrs_v4 (70 + len) ++ attribute optional_transitive 240 (replicate len 0xa5)))

abbrev et_subtypes : List ℕ
et_subtypes =
    Types.bgp4mp_state_change ∷ Types.bgp4mp_message ∷ Types.bgp4mp_message_as4
    ∷ Types.bgp4mp_state_change_as4 ∷ Types.bgp4mp_message_local ∷ Types.bgp4mp_message_as4_local
    ∷ Types.bgp4mp_message_addpath ∷ Types.bgp4mp_message_as4_addpath
    ∷ Types.bgp4mp_message_local_addpath ∷ Types.bgp4mp_message_as4_local_addpath ∷ []

-- The `matches!` for the size of the AS numbers lists the subtypes of `message_as4`.
abbrev et_record : ℕ → ℕ → MrtRecord
et_record subtype ts =
    let state = subtype == Types.bgp4mp_state_change || subtype == Types.bgp4mp_state_change_as4 in
    let payload : Bytes =
      if state then 0 ∷ Types.state_idle ∷ 0 ∷ Types.state_established ∷ [] else bgp_keepalive in
    let session =
      if message_as4 subtype
      then session_v4 4200000001 4200000002 65535
      else session_v4 64500 64501 65535 in
    let microsecond : ℕ = if subtype == 0 then 0 else 999999 in
    bgp4mp_message ts Types.bgp4mp_et (some microsecond) subtype session payload

abbrev et_emission : ℕ → Emission
et_emission subtype =
    emission (numbered "boundary_bgp4mp_et_subtype_" subtype) valid
      "BGP4MP_ET subtype and microsecond boundary" (always (et_record subtype))

abbrev edge_messages : List Emission
edge_messages =
    map update_emission valid_updates
    ++ (emission "boundary_bgp_length_4096" valid
          "BGP message exactly at the RFC 4271 4096-byte maximum"
          (always λ ts. wrap_bgp ts (bgp_notification 6 0 (replicate 4075 0x5a)))
        ∷ (map value_emission (255 ∷ 256 ∷ []) ++ map et_emission et_subtypes))

-- `pdu[2..4].copy_from_slice(&(pdu.len() as u16).to_be_bytes())`
abbrev with_length : Bytes → Bytes
with_length pdu = take 2 pdu ++ (be16 (as_u16 (length pdu)) ++ drop 4 pdu)

abbrev ospfv2_emission : ℕ → Emission
ospfv2_emission ty =
    emission (numbered "boundary_ospfv2_type_" ty) valid
      "Length-consistent OSPFv2 packet-type sample"
      (always λ ts.
        ospfv2 ts (ip4 192 0 2 40) (ip4 192 0 2 41)
          (with_length (2 ∷ ty ∷ 0 ∷ 24 ∷ 192 ∷ 0 ∷ 2 ∷ 40 ∷ replicate 16 0)))

abbrev ospfv3_emission : ℕ → Emission
ospfv3_emission ty =
    emission (numbered "boundary_ospfv3_type_" ty) valid
      "Length-consistent OSPFv3 packet-type sample"
      (always λ ts.
        ospfv3 ts none (v6 50) (v6 51)
          (with_length (3 ∷ ty ∷ 0 ∷ 16 ∷ 192 ∷ 0 ∷ 2 ∷ 50 ∷ replicate 8 0)))

abbrev isis_emission : ℕ → Emission
isis_emission ty =
    emission (numbered "boundary_isis_pdu_" ty) valid "IS-IS PDU family header sample"
      (always λ ts. isis ts none (0x83 ∷ 8 ∷ 1 ∷ 0 ∷ ty ∷ 1 ∷ 0 ∷ 0 ∷ []))

-- `emit_igp_edge_cases(b, true)`
abbrev edge_igp : List Emission
edge_igp =
    map ospfv2_emission (2 ∷ 3 ∷ 4 ∷ 5 ∷ [])
    ++ (map ospfv3_emission (2 ∷ 3 ∷ 4 ∷ 5 ∷ [])
        ++ map isis_emission (15 ∷ 16 ∷ 17 ∷ 18 ∷ 20 ∷ 24 ∷ 25 ∷ 26 ∷ 27 ∷ []))

-- What `emit_edge_cases` pushes under `include_valid`.
unfoldable pub edge_valid_section : List Emission
edge_valid_section = edge_tables ++ (edge_messages ++ edge_igp)
