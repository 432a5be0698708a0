-- ===== src/Generator/EdgeSkip.antt =====
-- `emit_edge_cases` and `emit_igp_edge_cases` of src/generator.rs, their malformed records.
use Prim.Native.String.{String}
use mrtgen.Base.{
  ℕ, ◌++◌, [], ◌∷◌, List, Option, none, some, Bytes, map, be16, be32, length, drop, leb, replicate,
  if◌then◌else◌,
}
use mrtgen.Types
use mrtgen.Wire.{◌>>=◌}
use mrtgen.Manifest.{skip}
use mrtgen.Writer
use mrtgen.Writer.{MrtRecord}
use mrtgen.Bgp.Attr.{attribute, attr_origin, attr_as_path_4b, attr_next_hop}
use mrtgen.Bgp.Nlri.{nlri_v4}
use mrtgen.Bgp.Message.{bgp_message_raw, bgp_message, bgp_update, bgp_keepalive}
use mrtgen.Records.Bgp4mp.{bgp4mp_message}
use mrtgen.Records.Igp.{ospfv2, ospfv3, isis}
use mrtgen.Records.Attrs.{standard_attrs_v4}
use mrtgen.Generator.Emit.{Emission, emission, always, v6, ip4}
use mrtgen.Generator.ValidMessages.{session_v4}
use mrtgen.Generator.Edge.{wrap_bgp, rib_v4_one, announce_attrs}

-- The reason is in the JSON facts only.
abbrev pub malformed : List (String × Bytes)
malformed =
    ("boundary_bgp_length_18", bgp_message_raw (replicate 16 0xff) 18 Types.bgp_keepalive [])
    ∷ (
      "boundary_bgp_length_4097",
      bgp_message_raw (replicate 16 0xff) 4097 Types.bgp_notification (replicate 4078 0),
    )
    ∷ ("boundary_bgp_unknown_message_type", bgp_message 255 [])
    ∷ ("boundary_bgp_keepalive_payload", bgp_message Types.bgp_keepalive (1 ∷ []))
    ∷ ("boundary_bgp_trailing_bytes", bgp_keepalive ++ (0xde ∷ 0xad ∷ []))
    ∷ []

abbrev malformed_emission : String × Bytes → Emission
malformed_emission (kind, msg) =
    emission kind skip "Malformed BGP message boundary" (always λ ts. wrap_bgp ts msg)

abbrev nlri_emission : String × Bytes → Emission
nlri_emission (kind, nlri) =
    emission kind skip "Malformed NLRI prefix boundary"
      (always λ ts. wrap_bgp ts (bgp_update [] announce_attrs nlri))

abbrev malformed_nlri : List (String × Bytes)
malformed_nlri =
    ("boundary_bgp_prefix_truncated", 24 ∷ 192 ∷ 0 ∷ [])
    ∷ ("boundary_bgp_prefix_padding_bits", 9 ∷ 10 ∷ 0x7f ∷ [])
    ∷ []

abbrev attr_cases : List (String × Bytes)
attr_cases =
    ("boundary_attr_missing_origin", attr_as_path_4b (64500 ∷ []) ++ attr_next_hop (ip4 192 0 2 1))
    ∷ ("boundary_attr_missing_as_path", attr_origin 0 ++ attr_next_hop (ip4 192 0 2 1))
    ∷ ("boundary_attr_duplicate_nexthop", announce_attrs ++ attr_next_hop (ip4 192 0 2 2))
    ∷ (
      "boundary_attr_localpref_optional",
      announce_attrs ++ attribute Types.flag_optional Types.attr_local_pref (be32 100),
    )
    ∷ (
      "boundary_attr_unknown_wellknown",
      announce_attrs ++ attribute Types.flag_transitive 241 (1 ∷ []),
    )
    ∷ []

abbrev attr_emission : String × Bytes → Emission
attr_emission (kind, attrs) =
    emission kind skip "BGP path-attribute semantic error"
      (λ ts. do nlri ← nlri_v4 (ip4 198 51 100 0) 24; some (wrap_bgp ts (bgp_update [] attrs nlri)))

-- The collector, an empty view name and one peer, whose type sets a reserved bit.
abbrev reserved_type_body : Bytes
reserved_type_body =
    (0 ∷ 0 ∷ 0 ∷ 0 ∷ 0 ∷ 0 ∷ 0 ∷ 1 ∷ [])
    ++ (0x80 ∷ 192 ∷ 0 ∷ 2 ∷ 1 ∷ 192 ∷ 0 ∷ 2 ∷ 2 ∷ 0xfc ∷ 0x00 ∷ [])

-- `&bs[n..]`
abbrev pub slice_from : ℕ → Bytes → Option Bytes
slice_from n bs = if leb n (length bs) then some (drop n bs) else none

-- The count is two; the one entry is cut out of an honest record.
abbrev count_plus_one : ℕ → Option MrtRecord
count_plus_one ts = do
  one ← rib_v4_one 7 (ip4 203 0 113 0) 24 (standard_attrs_v4 1) ts
  rest ← slice_from 10 one.body
  some (
      Writer.new ts Types.table_dump_v2 Types.rib_ipv4_unicast
        (((be32 7 ++ (24 ∷ 203 ∷ 0 ∷ 113 ∷ [])) ++ be16 2) ++ rest))

abbrev edge_broken_tables : List Emission
edge_broken_tables =
    emission "boundary_peer_reserved_type_bits" skip "PEER_INDEX_TABLE peer type uses reserved bits"
      (always λ ts. Writer.new ts Types.table_dump_v2 Types.peer_index_table reserved_type_body)
    ∷ emission "boundary_rib_entry_count_plus_one" skip
        "RIB entry count claims one more entry than present" count_plus_one
    ∷ emission "boundary_et_microsecond_1000000" skip "ET microsecond timestamp outside 0..999999" (
        always λ ts.
          bgp4mp_message ts Types.bgp4mp_et (some 1000000) Types.bgp4mp_message_as4
            (session_v4 4200000001 4200000002 0) bgp_keepalive)
    ∷ []

-- `emit_igp_edge_cases(b, false)`
abbrev edge_broken_igp : List Emission
edge_broken_igp =
    emission "boundary_ospfv2_length_overrun" skip "OSPFv2 packet length exceeds the available PDU"
      (always λ ts. ospfv2 ts (ip4 192 0 2 1) (ip4 192 0 2 2) (2 ∷ 1 ∷ 0 ∷ 44 ∷ 0 ∷ 0 ∷ 0 ∷ 0 ∷ []))
    ∷ emission "boundary_ospfv3_unknown_type" skip "OSPFv3 packet has an unknown type"
        (always λ ts. ospfv3 ts none (v6 1) (v6 2) (3 ∷ 255 ∷ 0 ∷ 16 ∷ replicate 12 0))
    ∷ emission "boundary_isis_truncated_header" skip "IS-IS PDU ends inside its fixed header"
        (always λ ts. isis ts none (0x83 ∷ 27 ∷ 1 ∷ 0 ∷ 15 ∷ []))
    ∷ emission "boundary_isis_unknown_pdu" skip "IS-IS PDU uses an unassigned PDU type"
        (always λ ts. isis ts none (0x83 ∷ 8 ∷ 1 ∷ 0 ∷ 31 ∷ 1 ∷ 0 ∷ 0 ∷ []))
    ∷ []

-- What `emit_edge_cases` pushes under `include_skip`.
unfoldable pub edge_skip_section : List Emission
edge_skip_section =
    map malformed_emission malformed
    ++ (map nlri_emission malformed_nlri
        ++ (map attr_emission attr_cases ++ (edge_broken_tables ++ edge_broken_igp)))
