-- ===== src/Records/TableDump/Generic.antt =====
-- RIB_GENERIC records of VPN routes read back: RFC 6396 section 4.3.3, and RFC 8050 section 4.2, which
-- puts the Path Identifier in front of the NLRI.
use mrtgen.Base.{
  ℕ, ◌<◌, ◌≤◌, ◌*◌, ◌≡◌, ◌++◌, ◌∷◌, [], List, Bool, false, Option, some, Bytes, All, IsU16, IsU32,
  as_u16, length, append_assoc, be16, be32,
}
use mrtgen.Wire.{◌>>=◌, read_u8, read_u16, read_u32, read_u16-be16, read_u32-be32}
use mrtgen.Writer.Buf.{each-flat}
use mrtgen.Bgp.Nlri.Reading.{IsCanonical}
use mrtgen.Bgp.Nlri.Vpn.{VpnRoute, read_vpn, encoded_vpn, read_vpn-encoded}
use mrtgen.Records.TableDump.{RibEntry, encode_entry, rib_generic}
use mrtgen.Records.TableDump.Rib.{
  read_path_id, IsPathId, id_bytes, read_path_id-bytes, IsEntry, entry_bytes, encode_entry_layout,
  read_entries, read_entries-flat,
}

pub record GenericRecord : Type 0 where
  pub sequence : ℕ
  pub afi : ℕ
  pub safi : ℕ
  pub path_id : Option ℕ
  pub route : VpnRoute
  pub entries : List RibEntry

-- For SAFI 128 over addresses of `width` bytes.
unfoldable pub read_generic_vpn : ℕ → Bool → Bytes → Option GenericRecord
read_generic_vpn width addpath bs = do
  (sequence, bs₁) ← read_u32 bs
  (afi, bs₂) ← read_u16 bs₁
  (safi, bs₃) ← read_u8 bs₂
  (path_id, bs₄) ← read_path_id addpath bs₃
  (route, bs₅) ← read_vpn width bs₄
  entries ← read_entries false bs₅
  some (record {
    sequence = sequence;
    afi = afi;
    safi = safi;
    path_id = path_id;
    route = route;
    entries = entries;
  })

-- The body of a RIB_GENERIC record of a VPN route gives back the family, the Path Identifier if
-- the subtype has one, the label, the Route Distinguisher, the prefix and every entry, if the
-- fields fit their widths and no octet is set behind the prefix's own.
pub read_generic_vpn-rib_generic :
    (timestamp subtype sequence afi safi : ℕ) (addpath : Bool) (path_id : Option ℕ)
    (route : VpnRoute) (entries : List RibEntry)
    → IsU32 sequence
    → IsU16 afi
    → IsPathId addpath path_id
    → route.label < 1048576
    → length route.rd ≡ 8
    → length route.prefix ≤ 16
    → route.bits ≤ 8 * length route.prefix
    → IsCanonical route.prefix route.bits
    → IsU16 (length entries)
    → All (IsEntry false) entries
    → read_generic_vpn
        (length route.prefix)
        addpath
        (rib_generic timestamp subtype sequence afi safi
          (id_bytes path_id ++ encoded_vpn route.label route.rd route.prefix route.bits)
          entries).body
      ≡ some (record {
        sequence = sequence;
        afi = afi;
        safi = safi;
        path_id = path_id;
        route = route;
        entries = entries;
      })
unfolding read_generic_vpn rib_generic read_u8
read_generic_vpn-rib_generic timestamp subtype sequence afi safi addpath path_id route entries hs ha
      hi hl hr hw hb hc hn h =
    let nlri = encoded_vpn route.label route.rd route.prefix route.bits in
    rw
      (each-flat encode_entry entry_bytes encode_entry_layout entries (
        be32 sequence
        ++ be16 afi
        ++ (safi ∷ [])
        ++ (id_bytes path_id ++ nlri)
        ++ be16 (as_u16 (length entries))))
      (simp append_assoc (
        rw (read_u32-be32 sequence _ hs) (
          rw (read_u16-be16 afi _ ha) (
            rw (read_path_id-bytes addpath path_id _ hi) (
              rw (read_vpn-encoded route.label route.rd route.prefix route.bits hl hr hw hb hc _)
                (rw (read_entries-flat false entries hn h)))))))
