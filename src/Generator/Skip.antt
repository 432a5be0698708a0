-- ===== src/Generator/Skip.antt =====
-- `emit_skip` of src/generator.rs: the skip-class records of src/invalid.rs.
use Prim.Native.String.{String}
use mrtgen.Base.{ℕ, ◌++◌, [], ◌∷◌, List, true, false, map}
use mrtgen.Types
use mrtgen.Manifest.{skip}
use mrtgen.Bgp.Attr.{optional_transitive}
use mrtgen.Invalid.Messages.{
  unknown_mrt_type, unknown_subtype, bgp4mp_wrong_attr_size, bgp4mp_duplicate_origin_bad_len,
  bgp4mp_attr_overrun, bgp4mp_bad_marker, bgp4mp_bad_bgp_length, bgp4mp_truncated_bgp,
  bgp4mp_empty_body,
}
use mrtgen.Invalid.Tables.{
  rib_attr_len_overrun, rib_bad_prefix_len, rib_generic_vpn_bad_prefix_len,
  peer_index_count_mismatch, table_dump_attr_overrun,
}
use mrtgen.Generator.Emit.{Emission, emission, always}

abbrev skip_unknown : List Emission
skip_unknown =
    emission "invalid_unknown_type" skip "MRT record with undefined Type 99"
      (always λ ts. unknown_mrt_type ts 99)
    ∷ emission "invalid_td2_unknown_subtype" skip "TABLE_DUMP_V2 record with undefined Subtype 99"
        (always λ ts. unknown_subtype ts Types.table_dump_v2 99)
    ∷ emission "invalid_bgp4mp_unknown_subtype" skip "BGP4MP record with undefined Subtype 99"
        (always λ ts. unknown_subtype ts Types.bgp4mp 99)
    ∷ []

-- Kind, flags, code, encoded length and description; the required length is in the JSON facts only.
abbrev WrongSize : Type 0
WrongSize = String × ℕ × ℕ × ℕ × String

abbrev wrong_size_cases : List WrongSize
wrong_size_cases =
    (
      "invalid_attr_origin_len4", Types.flag_transitive, Types.attr_origin, 4,
      "ORIGIN must be 1 byte, encoded with 4",
    )
    ∷ (
      "invalid_attr_med_len2", Types.flag_optional, Types.attr_multi_exit_disc, 2,
      "MULTI_EXIT_DISC must be 4 bytes, encoded with 2",
    )
    ∷ (
      "invalid_attr_med_len8", Types.flag_optional, Types.attr_multi_exit_disc, 8,
      "MULTI_EXIT_DISC must be 4 bytes, encoded with 8",
    )
    ∷ (
      "invalid_attr_nexthop_len16", Types.flag_transitive, Types.attr_next_hop, 16,
      "NEXT_HOP must be 4 bytes, encoded with 16",
    )
    ∷ (
      "invalid_attr_aggregator4_len4", optional_transitive, Types.attr_as4_aggregator, 4,
      "AS4_AGGREGATOR must be 8 bytes, encoded with 4",
    )
    ∷ (
      "invalid_attr_aggregator4_len16", optional_transitive, Types.attr_as4_aggregator, 16,
      "AS4_AGGREGATOR must be 8 bytes, encoded with 16",
    )
    ∷ []

abbrev wrong_size_emission : WrongSize → Emission
wrong_size_emission (kind, flags, code, encoded_len, description) =
    emission kind skip description (λ ts. bgp4mp_wrong_attr_size ts flags code encoded_len)

abbrev skip_attributes : List Emission
skip_attributes =
    map wrong_size_emission wrong_size_cases
    ++ (emission "invalid_attr_duplicate_origin_len4" skip
          "UPDATE carries a valid ORIGIN followed by a second ORIGIN encoded with length 4"
          bgp4mp_duplicate_origin_bad_len
        ∷ emission "invalid_attr_len_overrun" skip
            "Path attribute declares 200 value bytes but only 4 follow in the attribute section"
            (always λ ts. bgp4mp_attr_overrun ts 200 4)
        ∷ [])

abbrev skip_messages : List Emission
skip_messages =
    emission "invalid_bgp_marker" skip "BGP message whose 16-byte marker is not all-ones"
      (always bgp4mp_bad_marker)
    ∷ emission "invalid_bgp_length_too_small" skip "BGP header Length 10 (minimum legal is 19)"
        (always λ ts. bgp4mp_bad_bgp_length ts 10)
    ∷ emission "invalid_bgp_length_too_large" skip
        "BGP header Length 5000 (maximum legal is 4096) and larger than the MRT record"
        (always λ ts. bgp4mp_bad_bgp_length ts 5000)
    ∷ emission "invalid_bgp_truncated" skip "MRT record body ends inside the BGP marker"
        bgp4mp_truncated_bgp
    ∷ emission "invalid_bgp4mp_empty_body" skip
        "BGP4MP_MESSAGE record with Length 0: mandatory fields absent" (always bgp4mp_empty_body)
    ∷ []

abbrev skip_tables : List Emission
skip_tables =
    emission "invalid_rib_attr_len_overrun" skip
      "RIB entry Attribute Length exceeds the bytes remaining in the record"
      (λ ts. rib_attr_len_overrun ts 900)
    ∷ emission "invalid_rib_v4_prefix_len_33" skip "RIB_IPV4_UNICAST NLRI with prefix length 33"
        (always λ ts. rib_bad_prefix_len ts 901 false 33)
    ∷ emission "invalid_rib_v6_prefix_len_129" skip "RIB_IPV6_UNICAST NLRI with prefix length 129"
        (always λ ts. rib_bad_prefix_len ts 902 true 129)
    ∷ emission "invalid_rib_vpn_prefix_len_too_short" skip
        "RIB_GENERIC VPNv4 (SAFI 128) NLRI of 64 bits, too short to contain the mandatory label (24) + RD (64)"
        (always λ ts. rib_generic_vpn_bad_prefix_len ts 903 64)
    ∷ emission "invalid_rib_vpn_prefix_len_too_long" skip
        "RIB_GENERIC VPNv4 (SAFI 128) NLRI of 200 bits, past label + RD + a full IPv4 address (120)"
        (always λ ts. rib_generic_vpn_bad_prefix_len ts 904 200)
    ∷ emission "invalid_peer_index_count" skip "PEER_INDEX_TABLE claims 10 peers but encodes only 2"
        (always λ ts. peer_index_count_mismatch ts 10 2)
    ∷ emission "invalid_table_dump_attr_overrun" skip
        "TABLE_DUMP Attribute Length exceeds the bytes remaining in the record"
        (always table_dump_attr_overrun)
    ∷ []

-- What `emit_skip` pushes.
unfoldable pub skip_section : List Emission
skip_section = skip_unknown ++ (skip_attributes ++ (skip_messages ++ skip_tables))
