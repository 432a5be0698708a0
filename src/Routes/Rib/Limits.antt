-- ===== src/Routes/Rib/Limits.antt =====
-- The RIB records of one entry that src/routes.rs makes fit their MRT header.
use mrtgen.Base.{
  ℕ, ◌+◌, ◌*◌, ◌<◌, ◌≤◌, ◌≡◌, refl, ◌++◌, [], ◌∷◌, List, Bool, true, false, Option, none, some,
  arith, Bytes, IsU16, IsU32, as_u16, as_u32, be16, be32, unwrap_or, length, length-append,
  length-take, is_some, if◌then◌else◌, subst, sym,
}
use mrtgen.Writer.Framing.{IsHonest}
use mrtgen.Records.TableDump.{RibEntry, push_path_id, encode_entry, rib_afi_safi, rib_generic}
use mrtgen.Records.TableDump.Rib.{id_bytes}
use mrtgen.Routes.Rib.{rib_subtype, vpn_subtype}

pub subtype_fits :
    (v6 addpath : Bool) → IsU16 (rib_subtype v6 addpath).0 × IsU16 (vpn_subtype v6 addpath).0
subtype_fits true true = (omega arith, omega arith)
subtype_fits true false = (omega arith, omega arith)
subtype_fits false true = (omega arith, omega arith)
subtype_fits false false = (omega arith, omega arith)

pub id_bytes_le : (id : Option ℕ) → length (id_bytes id) ≤ 4
unfolding be32
id_bytes_le none = omega arith
id_bytes_le (some id) = omega arith

length-push_path_id : (id : Option ℕ) (b : Bytes) → length (push_path_id id b) ≤ length b + 4
unfolding mrtgen.Base.be32
length-push_path_id none b = omega arith
length-push_path_id (some id) b = omega (arith, length-append b)

length-encode_entry_le :
    (e : RibEntry) (b : Bytes) → length (encode_entry e b) ≤ length b + length e.attributes + 12
unfolding encode_entry mrtgen.Base.be16 mrtgen.Base.be32
length-encode_entry_le e b =
    let timed = (b ++ be16 e.peer_index) ++ be32 e.originated_time in
    let placed = push_path_id e.path_id timed in
    let size = be16 (unwrap_or e.declared_attr_len (as_u16 (length e.attributes))) in
    omega (
      arith,
      length-push_path_id e.path_id timed,
      length-append (placed ++ size) e.attributes,
      length-append placed size,
      length-append (b ++ be16 e.peer_index) (be32 e.originated_time),
      length-append b (be16 e.peer_index),
    )

module _ (ts subtype sequence : ℕ) (nlri : Bytes) (e : RibEntry) (stamp : IsU32 ts)
    (known : IsU16 subtype) (small : length nlri ≤ 100) (fits : length e.attributes ≤ 65535) where
  pub rib_afi_safi-IsHonest : IsHonest (rib_afi_safi ts subtype sequence nlri (e ∷ []))
  unfolding rib_afi_safi mrtgen.Base.be16 mrtgen.Base.be32
  rib_afi_safi-IsHonest = record {
    timestamp_fits = stamp;
    type_fits = omega arith;
    subtype_fits = known;
    computed = refl;
    payload_fits = omega (
      arith,
      length-encode_entry_le e ((be32 sequence ++ nlri) ++ be16 1),
      length-append (be32 sequence ++ nlri) (be16 1),
      length-append (be32 sequence) nlri,
    );
  }

  pub rib_generic-IsHonest :
      (afi safi : ℕ) → IsHonest (rib_generic ts subtype sequence afi safi nlri (e ∷ []))
  unfolding rib_generic mrtgen.Base.be16 mrtgen.Base.be32
  rib_generic-IsHonest afi safi =
      let head = (be32 sequence ++ be16 afi) ++ (safi ∷ []) in
      record {
        timestamp_fits = stamp;
        type_fits = omega arith;
        subtype_fits = known;
        computed = refl;
        payload_fits = omega (
          arith,
          length-encode_entry_le e ((head ++ nlri) ++ be16 1),
          length-append (head ++ nlri) (be16 1),
          length-append head nlri,
          length-append (be32 sequence ++ be16 afi) (safi ∷ []),
          length-append (be32 sequence) (be16 afi),
        );
      }
