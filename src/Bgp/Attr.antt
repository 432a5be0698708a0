-- ===== src/Bgp/Attr.antt =====
-- The path attribute encoders of src/bgp.rs. An array such as `[u8; 4]` is a list of its bytes.
pub mod Tlv
pub mod Walk
pub mod Values
pub mod Meanings
use mrtgen.Base.{
  ℕ, ◌/◌, [], ◌∷◌, List, Bytes, as_u8, as_u16, as_u32, be32, length, ltb, ◌==◌, bit_and, bit_or,
  if◌then◌else◌,
}
use mrtgen.Types
use mrtgen.Writer.Buf.{Buf, new, ◌▷◌, u8, u16, u32, bytes, into_vec, each}

-- `!FLAG_EXT_LEN` as a `u8`
abbrev not_ext_len : ℕ
not_ext_len = 0xef

unfoldable pub attribute : ℕ → ℕ → Bytes → Bytes
attribute flags code value =
    let b =
      if ltb 255 (length value)
      then new ▷ u8 (bit_or flags Types.flag_ext_len) ▷ u8 code ▷ u16 (as_u16 (length value))
      else new ▷ u8 (bit_and flags not_ext_len) ▷ u8 code ▷ u8 (as_u8 (length value)) in
    into_vec (b ▷ bytes value)

unfoldable pub attribute_declared : ℕ → ℕ → ℕ → Bytes → Bytes
attribute_declared flags code declared_len value =
    let b =
      if bit_and flags Types.flag_ext_len == 0
      then new ▷ u8 flags ▷ u8 code ▷ u8 (as_u8 declared_len)
      else new ▷ u8 flags ▷ u8 code ▷ u16 declared_len in
    into_vec (b ▷ bytes value)

-- `FLAG_OPTIONAL | FLAG_TRANSITIVE`
abbrev pub optional_transitive : ℕ
optional_transitive = bit_or Types.flag_optional Types.flag_transitive

unfoldable pub attr_origin : ℕ → Bytes
attr_origin origin = attribute Types.flag_transitive Types.attr_origin (origin ∷ [])

unfoldable pub attr_as_path_2b : List ℕ → Bytes
attr_as_path_2b asns =
    attribute Types.flag_transitive Types.attr_as_path
      (into_vec (each u16 asns (new ▷ u8 2 ▷ u8 (as_u8 (length asns)))))

unfoldable pub attr_as_path_4b : List ℕ → Bytes
attr_as_path_4b asns =
    attribute Types.flag_transitive Types.attr_as_path
      (into_vec (each u32 asns (new ▷ u8 2 ▷ u8 (as_u8 (length asns)))))

unfoldable pub attr_next_hop : Bytes → Bytes
attr_next_hop ip = attribute Types.flag_transitive Types.attr_next_hop ip

unfoldable pub attr_med : ℕ → Bytes
attr_med v = attribute Types.flag_optional Types.attr_multi_exit_disc (be32 v)

unfoldable pub attr_local_pref : ℕ → Bytes
attr_local_pref v = attribute Types.flag_transitive Types.attr_local_pref (be32 v)

unfoldable pub attr_atomic_aggregate : Bytes
attr_atomic_aggregate = attribute Types.flag_transitive Types.attr_atomic_aggregate []

unfoldable pub attr_aggregator_2b : ℕ → Bytes → Bytes
attr_aggregator_2b asn ip =
    attribute optional_transitive Types.attr_aggregator (into_vec (new ▷ u16 asn ▷ bytes ip))

unfoldable pub attr_aggregator_4b : ℕ → Bytes → Bytes
attr_aggregator_4b asn ip =
    attribute optional_transitive Types.attr_aggregator (into_vec (new ▷ u32 asn ▷ bytes ip))

unfoldable pub attr_communities : List ℕ → Bytes
attr_communities comms =
    attribute optional_transitive Types.attr_community (into_vec (each u32 comms new))

unfoldable pub attr_originator_id : Bytes → Bytes
attr_originator_id id = attribute Types.flag_optional Types.attr_originator_id id

unfoldable pub attr_cluster_list : List Bytes → Bytes
attr_cluster_list ids =
    attribute Types.flag_optional Types.attr_cluster_list (into_vec (each bytes ids new))

-- The TLV: type 1, length 11, the metric as two words.
unfoldable pub attr_aigp : ℕ → Bytes
attr_aigp metric =
    attribute Types.flag_optional Types.attr_aigp
      (into_vec (new ▷ u8 1 ▷ u16 11 ▷ u32 (as_u32 (metric / 4294967296)) ▷ u32 (as_u32 metric)))

unfoldable pub attr_ext_communities : List Bytes → Bytes
attr_ext_communities comms =
    attribute optional_transitive Types.attr_ext_community (into_vec (each bytes comms new))

unfoldable pub attr_ipv6_ext_communities : List Bytes → Bytes
attr_ipv6_ext_communities comms =
    attribute optional_transitive Types.attr_ipv6_ext_community (into_vec (each bytes comms new))

-- One element of `&[[u32; 3]]`.
abbrev pub LargeCommunity : Type 0
LargeCommunity = ℕ × ℕ × ℕ

abbrev pub push_large : LargeCommunity → Buf → Buf
push_large (global, local1, local2) b = b ▷ u32 global ▷ u32 local1 ▷ u32 local2

unfoldable pub attr_large_communities : List LargeCommunity → Bytes
attr_large_communities comms =
    attribute optional_transitive Types.attr_large_community (into_vec (each push_large comms new))

unfoldable pub attr_community_raw : ℕ → Bytes → Bytes
attr_community_raw code value = attribute optional_transitive code value

unfoldable pub attr_mp_reach : ℕ → ℕ → Bytes → Bytes → Bytes
attr_mp_reach afi safi next_hop nlri = attribute Types.flag_optional Types.attr_mp_reach_nlri (
    into_vec
      (new ▷ u16 afi ▷ u8 safi ▷ u8 (as_u8 (length next_hop)) ▷ bytes next_hop ▷ u8 0 ▷ bytes nlri))

-- The form of RFC 6396 section 4.3.4: the next hop only.
unfoldable pub attr_mp_reach_td2 : Bytes → Bytes
attr_mp_reach_td2 next_hop =
    attribute Types.flag_optional Types.attr_mp_reach_nlri
      (into_vec (new ▷ u8 (as_u8 (length next_hop)) ▷ bytes next_hop))

unfoldable pub attr_mp_unreach : ℕ → ℕ → Bytes → Bytes
attr_mp_unreach afi safi nlri =
    attribute Types.flag_optional Types.attr_mp_unreach_nlri
      (into_vec (new ▷ u16 afi ▷ u8 safi ▷ bytes nlri))
