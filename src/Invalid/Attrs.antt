-- ===== src/Invalid/Attrs.antt =====
-- The attribute errors of src/invalid.rs: UPDATE messages with honest framing in which one path attribute
-- is broken. `none` is a panic of the NLRI encoder.
use mrtgen.Base.{ℕ, [], ◌∷◌, ◌++◌, Option, some, Bytes, replicate, as_u16, length, be32, bit_or}
use mrtgen.Types
use mrtgen.Wire.{◌>>=◌}
use mrtgen.Writer.{MrtRecord}
use mrtgen.Writer.Buf.{new, ◌▷◌, u8, u16, u32, bytes, into_vec}
use mrtgen.Bgp.Attr.{
  attribute, attribute_declared, optional_transitive, attr_origin, attr_as_path_2b, attr_next_hop,
}
use mrtgen.Bgp.Message.{bgp_update}
use mrtgen.Invalid.Messages.{in_message, nlri24}

unfoldable pub bgp4mp_update : ℕ → Bytes → Bytes → MrtRecord
bgp4mp_update timestamp attrs nlri = in_message timestamp (bgp_update [] attrs nlri)

-- `bgp4mp_update(timestamp, &attrs, &nlri24())`
unfoldable pub update_nlri24 : ℕ → Bytes → Option MrtRecord
update_nlri24 timestamp attrs = do nlri ← nlri24; some (bgp4mp_update timestamp attrs nlri)

abbrev pub hop : Bytes
hop = attr_next_hop (192 ∷ 0 ∷ 2 ∷ 1 ∷ [])

-- ORIGIN, AS_PATH and NEXT_HOP, in front of the attribute in question.
abbrev base_attrs : Bytes
base_attrs = (attr_origin 0 ++ attr_as_path_2b (64500 ∷ [])) ++ hop

unfoldable pub bgp4mp_as_path_raw : ℕ → Bytes → Option MrtRecord
bgp4mp_as_path_raw timestamp segment =
    update_nlri24 timestamp
      ((attr_origin 0 ++ attribute Types.flag_transitive Types.attr_as_path segment) ++ hop)

unfoldable pub bgp4mp_as4_path_longer : ℕ → Option MrtRecord
bgp4mp_as4_path_longer timestamp =
    let seg = new ▷ u8 2 ▷ u8 3 ▷ u32 4200000001 ▷ u32 4200000002 ▷ u32 4200000003 in
    update_nlri24 timestamp (
      ((attr_origin 0 ++ attr_as_path_2b (23456 ∷ [])) ++ hop)
      ++ attribute optional_transitive Types.attr_as4_path (into_vec seg))

unfoldable pub bgp4mp_attr_bad_flags : ℕ → ℕ → ℕ → Bytes → Option MrtRecord
bgp4mp_attr_bad_flags timestamp flags code value = update_nlri24 timestamp (
    (attr_as_path_2b (64500 ∷ []) ++ attribute_declared flags code (as_u16 (length value)) value)
    ++ hop)

unfoldable pub bgp4mp_spurious_ext_len : ℕ → Option MrtRecord
bgp4mp_spurious_ext_len timestamp = update_nlri24 timestamp (
    base_attrs
    ++ attribute_declared (bit_or Types.flag_optional Types.flag_ext_len) Types.attr_multi_exit_disc
        4 (be32 100))

-- The next hop length is 32, and 16 bytes follow.
abbrev bad_nh_value : Bytes
bad_nh_value = into_vec (
    new
    ▷ u16 Types.bgp_afi_ipv6
    ▷ u8 Types.safi_unicast
    ▷ u8 32
    ▷ bytes (0x20 ∷ 0x01 ∷ 0x0d ∷ 0xb8 ∷ (replicate 11 0 ++ (9 ∷ [])))
    ▷ u8 0
    ▷ bytes (64 ∷ 0x20 ∷ 0x01 ∷ 0x0d ∷ 0xb8 ∷ 0 ∷ 0 ∷ 0 ∷ 0 ∷ []))

unfoldable pub bgp4mp_mp_reach_bad_nh_len : ℕ → MrtRecord
bgp4mp_mp_reach_bad_nh_len timestamp =
    bgp4mp_update timestamp
      ((attr_origin 0 ++ attr_as_path_2b (64500 ∷ []))
        ++ attribute Types.flag_optional Types.attr_mp_reach_nlri bad_nh_value)
      []

unfoldable pub bgp4mp_mp_unreach_short : ℕ → MrtRecord
bgp4mp_mp_unreach_short timestamp =
    bgp4mp_update timestamp
      ((attr_origin 0 ++ attr_as_path_2b (64500 ∷ []))
        ++ attribute Types.flag_optional Types.attr_mp_unreach_nlri (0x00 ∷ 0x02 ∷ []))
      []

unfoldable pub bgp4mp_zero_len_attr : ℕ → ℕ → ℕ → Option MrtRecord
bgp4mp_zero_len_attr timestamp flags code =
    update_nlri24 timestamp (attr_as_path_2b (64500 ∷ []) ++ attribute_declared flags code 0 [])

unfoldable pub bgp4mp_atomic_aggregate_nonzero : ℕ → Option MrtRecord
bgp4mp_atomic_aggregate_nonzero timestamp = update_nlri24 timestamp (
    base_attrs
    ++ attribute_declared Types.flag_transitive Types.attr_atomic_aggregate 4 (0 ∷ 0 ∷ 0 ∷ 0 ∷ []))

unfoldable pub bgp4mp_aggregator_bad_len : ℕ → ℕ → Option MrtRecord
bgp4mp_aggregator_bad_len timestamp declared = update_nlri24 timestamp (
    base_attrs
    ++ attribute_declared optional_transitive Types.attr_aggregator declared
        (replicate declared 0xAB))

unfoldable pub bgp4mp_extra_attr : ℕ → ℕ → Option MrtRecord
bgp4mp_extra_attr timestamp code =
    update_nlri24 timestamp
      (base_attrs ++ attribute optional_transitive code (0xDE ∷ 0xAD ∷ 0xBE ∷ 0xEF ∷ []))
