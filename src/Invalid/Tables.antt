-- ===== src/Invalid/Tables.antt =====
-- The malformed table dump records of src/invalid.rs. `none` is a panic of the NLRI encoder.
use mrtgen.Base.{
  ℕ, ◌+◌, [], ◌∷◌, Bool, Option, some, Bytes, replicate, as_u8, as_u16, length, range_from,
  if◌then◌else◌,
}
use mrtgen.Types
use mrtgen.Wire.{◌>>=◌}
use mrtgen.Writer
use mrtgen.Writer.{MrtRecord}
use mrtgen.Writer.Buf.{Buf, new, ◌▷◌, u8, u16, u32, bytes, into_vec, each}
use mrtgen.Bgp.Attr.{attr_origin}
use mrtgen.Bgp.Nlri.{nlri_v4, div_ceil8}
use mrtgen.Records.TableDump.{new_entry, rib_afi_safi, rib_generic}
use mrtgen.Records.Attrs.{standard_attrs_v4, standard_attrs_v6}

-- `&bgp::nlri_v4([203, 0, 113, 0], 24)`
abbrev documentation_nlri : Option Bytes
documentation_nlri = nlri_v4 (203 ∷ 0 ∷ 113 ∷ 0 ∷ []) 24

unfoldable pub rib_attr_len_overrun : ℕ → ℕ → Option MrtRecord
rib_attr_len_overrun timestamp sequence = do
  let entry = new_entry 0 timestamp (standard_attrs_v4 0)
  let real = as_u16 (length entry.attributes)
  nlri ← documentation_nlri
  some (
      rib_afi_safi timestamp Types.rib_ipv4_unicast sequence nlri
        (record entry { declared_attr_len = some (as_u16 (real + 64)) } ∷ []))

unfoldable pub rib_bad_prefix_len : ℕ → ℕ → Bool → ℕ → MrtRecord
rib_bad_prefix_len timestamp sequence ipv6 bits =
    if ipv6
    then rib_afi_safi timestamp Types.rib_ipv6_unicast sequence
        (bits ∷ 0x20 ∷ 0x01 ∷ replicate 14 0) (new_entry 2 timestamp (standard_attrs_v6 0) ∷ [])
    else rib_afi_safi timestamp Types.rib_ipv4_unicast sequence (bits ∷ 203 ∷ 0 ∷ 113 ∷ 0 ∷ [])
        (new_entry 0 timestamp (standard_attrs_v4 0) ∷ [])

unfoldable pub rib_generic_vpn_bad_prefix_len : ℕ → ℕ → ℕ → MrtRecord
rib_generic_vpn_bad_prefix_len timestamp sequence bits =
    rib_generic timestamp Types.rib_generic sequence Types.bgp_afi_ipv4 Types.safi_mpls_vpn
      (bits ∷ replicate (div_ceil8 bits) 0xAA) (new_entry 0 timestamp (standard_attrs_v4 0) ∷ [])

-- The peer of index `i`: IPv4 with a 2-byte AS.
abbrev pub push_indexed_peer : ℕ → Buf → Buf
push_indexed_peer i b =
    b
    ▷ u8 0
    ▷ bytes (192 ∷ 0 ∷ 2 ∷ as_u8 i ∷ [])
    ▷ bytes (10 ∷ 0 ∷ 0 ∷ as_u8 i ∷ [])
    ▷ u16 (as_u16 (64500 + i))

unfoldable pub peer_index_count_mismatch : ℕ → ℕ → ℕ → MrtRecord
peer_index_count_mismatch timestamp claimed actual =
    let b = new ▷ bytes (192 ∷ 0 ∷ 2 ∷ 99 ∷ []) ▷ u16 0 ▷ u16 claimed in
    Writer.new timestamp Types.table_dump_v2 Types.peer_index_table
      (into_vec (each push_indexed_peer (range_from 0 actual) b))

unfoldable pub table_dump_attr_overrun : ℕ → MrtRecord
table_dump_attr_overrun timestamp =
    let attrs = attr_origin 0 in
    Writer.new timestamp Types.table_dump Types.afi_ipv4 (
      into_vec (
        new
        ▷ u16 0
        ▷ u16 7
        ▷ bytes (203 ∷ 0 ∷ 113 ∷ 0 ∷ [])
        ▷ u8 24
        ▷ u8 1
        ▷ u32 timestamp
        ▷ bytes (192 ∷ 0 ∷ 2 ∷ 1 ∷ [])
        ▷ u16 64500
        ▷ u16 (as_u16 (as_u16 (length attrs) + 100))
        ▷ bytes attrs))

unfoldable pub rib_bad_peer_index : ℕ → ℕ → ℕ → Option MrtRecord
rib_bad_peer_index timestamp sequence peer_index = do
  nlri ← documentation_nlri
  some (
      rib_afi_safi timestamp Types.rib_ipv4_unicast sequence nlri
        (new_entry peer_index timestamp (standard_attrs_v4 0) ∷ []))
