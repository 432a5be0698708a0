-- ===== src/Generator/AttrErrors.antt =====
-- `emit_attr_errors` of src/generator.rs: the attribute errors of RFC 7606.
use Prim.Native.String.{String}
use Prim.Native.String
use mrtgen.Base.{ℕ, ◌++◌, [], ◌∷◌, List, Bytes, map}
use mrtgen.Types
use mrtgen.Manifest.{valid, skip}
use mrtgen.Bgp.Attr.{optional_transitive}
use mrtgen.Invalid.Messages.{bgp4mp_et_short}
use mrtgen.Invalid.Tables.{rib_bad_peer_index}
use mrtgen.Invalid.Attrs.{
  bgp4mp_as_path_raw, bgp4mp_as4_path_longer, bgp4mp_attr_bad_flags, bgp4mp_spurious_ext_len,
  bgp4mp_mp_reach_bad_nh_len, bgp4mp_mp_unreach_short, bgp4mp_zero_len_attr,
  bgp4mp_atomic_aggregate_nonzero, bgp4mp_aggregator_bad_len, bgp4mp_extra_attr,
}
use mrtgen.Generator.Emit.{Emission, emission, always}

abbrev as_path_cases : List (String × Bytes × String)
as_path_cases =
    (
      "attr_as_path_zero_len_segment",
      2 ∷ 0 ∷ [],
      "AS_PATH with an AS_SEQUENCE segment of count 0 (zero-length segment)",
    )
    ∷ (
      "attr_as_path_unknown_segment_type",
      5 ∷ 1 ∷ 0x00 ∷ 0x64 ∷ [],
      "AS_PATH segment with undefined type 5 (valid: 1 SET, 2 SEQUENCE, 3/4 CONFED)",
    )
    ∷ (
      "attr_as_path_count_overrun",
      2 ∷ 4 ∷ 0x00 ∷ 0x64 ∷ 0x00 ∷ 0xC8 ∷ [],
      "AS_PATH segment declares 4 ASNs but only 2 are present (segments overrun the attribute)",
    )
    ∷ (
      "attr_as_path_trailing_bytes",
      2 ∷ 2 ∷ 0x00 ∷ 0x64 ∷ 0x00 ∷ 0xC8 ∷ 0x00 ∷ 0x2A ∷ [],
      "AS_PATH segment of 2 ASNs followed by 2 stray bytes (segments underrun the attribute)",
    )
    ∷ []

abbrev as_path_emission : String × Bytes × String → Emission
as_path_emission (kind, segment, description) =
    emission kind skip description (λ ts. bgp4mp_as_path_raw ts segment)

abbrev zero_cases : List (String × ℕ × ℕ × String)
zero_cases =
    ("attr_zero_len_origin", Types.flag_transitive, Types.attr_origin, "ORIGIN")
    ∷ ("attr_zero_len_nexthop", Types.flag_transitive, Types.attr_next_hop, "NEXT_HOP")
    ∷ ("attr_zero_len_community", optional_transitive, Types.attr_community, "COMMUNITY")
    ∷ []

abbrev zero_emission : String × ℕ × ℕ × String → Emission
zero_emission (kind, flags, code, name) =
    emission kind skip
      (String.◌++◌ name
        " attribute encoded with length 0 (illegal for all but AS_PATH/ATOMIC_AGGREGATE)")
      (λ ts. bgp4mp_zero_len_attr ts flags code)

abbrev path_errors : List Emission
path_errors =
    map as_path_emission as_path_cases
    ++ (emission "attr_as4_path_longer_than_as_path" valid
          "AS_PATH of one AS_TRANS (23456) with an AS4_PATH of three 4-byte ASNs; RFC 6793 says ignore the longer AS4_PATH"
          bgp4mp_as4_path_longer
        ∷ emission "attr_origin_optional_flag" skip
            "ORIGIN (a well-known attribute) encoded with the Optional flag set instead of Transitive"
            (λ ts. bgp4mp_attr_bad_flags ts Types.flag_optional Types.attr_origin (0 ∷ []))
        ∷ emission "attr_spurious_extended_length" skip
            "MULTI_EXIT_DISC (4-byte value) with the Extended Length flag set, which RFC 4271 allows only for values > 255 bytes"
            bgp4mp_spurious_ext_len
        ∷ emission "attr_mp_reach_bad_nexthop_len" skip
            "MP_REACH_NLRI whose Next Hop Length (32) exceeds the next-hop bytes present, so the NLRI cannot be located"
            (always bgp4mp_mp_reach_bad_nh_len)
        ∷ emission "attr_mp_unreach_too_short" skip
            "MP_UNREACH_NLRI of 2 bytes, too short to hold the AFI + SAFI (RFC 7606: length < 3)"
            (always bgp4mp_mp_unreach_short)
        ∷ [])

abbrev value_errors : List Emission
value_errors =
    map zero_emission zero_cases
    ++ (emission "attr_atomic_aggregate_nonzero" skip
          "ATOMIC_AGGREGATE encoded with length 4 (must be 0)" bgp4mp_atomic_aggregate_nonzero
        ∷ emission "attr_aggregator_bad_len" skip
            "AGGREGATOR encoded with length 4 (must be 6 for a 2-byte AS or 8 for a 4-byte AS)"
            (λ ts. bgp4mp_aggregator_bad_len ts 4)
        ∷ emission "attr_unknown_optional_transitive" valid
            "UPDATE carrying an unassigned optional-transitive attribute (type 40): a conforming parser retains it as raw and still loads the record"
            (λ ts. bgp4mp_extra_attr ts 40)
        ∷ emission "attr_type_code_zero" skip
            "UPDATE carrying an attribute of reserved type code 0 (invalid per RFC 4271)"
            (λ ts. bgp4mp_extra_attr ts 0)
        ∷ emission "attr_rib_bad_peer_index" skip
            "RIB_IPV4_UNICAST entry whose Peer Index 99 is absent from the 4-entry PEER_INDEX_TABLE"
            (λ ts. rib_bad_peer_index ts 950 99)
        ∷ emission "attr_bgp4mp_et_short" skip
            "BGP4MP_ET record whose 2-byte body cannot hold the mandatory 4-byte Microsecond Timestamp"
            (always bgp4mp_et_short)
        ∷ [])

-- What `emit_attr_errors` pushes.
unfoldable pub attr_errors_section : List Emission
attr_errors_section = path_errors ++ value_errors
