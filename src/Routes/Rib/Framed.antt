-- ===== src/Routes/Rib/Framed.antt =====
-- The record of a route in a table dump, over its parts, as a reader takes it apart.
use mrtgen.Base.{
  ℕ, ◌<◌, ◌≤◌, ◌≡◌, refl, ◌++◌, [], ◌∷◌, List, Bool, true, false, Option, none, some, arith, Bytes,
  IsU16, IsU32, as_u32, length, is_some, if◌then◌else◌,
}
use mrtgen.Types
use mrtgen.Writer.{MrtRecord}
use mrtgen.Writer.Framing.{Frame, IsHonest, frame_of}
use mrtgen.Bgp.Attr.Values.{Context, Meaning}
use mrtgen.Bgp.Attr.Meanings.{decode}
use mrtgen.Bgp.Nlri.Reading.{IsCanonical, encoded_prefix}
use mrtgen.Bgp.Nlri.Vpn.{encoded_vpn}
use mrtgen.Records.TableDump.{new_entry, rib_afi_safi, rib_generic}
use mrtgen.Records.TableDump.Rib.{IsEntry, id_bytes, read_rib-rib_afi_safi}
use mrtgen.Records.TableDump.Generic.{read_generic_vpn-rib_generic}
use mrtgen.Routes.Prefix.Sound.{IsPrefix}
use mrtgen.Routes.Announced.{Nlri, Announcement, IsWordOption, word-IsPathId, width_le}
use mrtgen.Routes.Rib.{afi_of, rib_subtype, vpn_subtype}
use mrtgen.Routes.Rib.Read.{
  RibView, take_hop, read_view, read_unicast, read_generic, read_rib_route,
}

abbrev pub peer_of : Bool → ℕ
peer_of v6 = if v6 then 1 else 0

-- The entry's peer answers for the family, and its attributes are those of the route.
abbrev pub view_of : ℕ → ℕ → Bool → List Meaning → Announcement → RibView
view_of i ts v6 others announcement = record {
  sequence = as_u32 i;
  peer_index = peer_of v6;
  originated_time = ts;
  attributes = others;
  announcement = announcement;
}

pub rib_subtype-read :
    (v6 addpath : Bool) (bs : Bytes)
    → read_rib_route v6 (rib_subtype v6 addpath).0 bs ≡ read_unicast v6 addpath bs
unfolding read_rib_route
rib_subtype-read true true bs = refl
rib_subtype-read true false bs = refl
rib_subtype-read false true bs = refl
rib_subtype-read false false bs = refl

pub vpn_subtype-read :
    (v6 addpath : Bool) (bs : Bytes)
    → read_rib_route v6 (vpn_subtype v6 addpath).0 bs ≡ read_generic v6 addpath bs
unfolding read_rib_route
vpn_subtype-read true true bs = refl
vpn_subtype-read true false bs = refl
vpn_subtype-read false true bs = refl
vpn_subtype-read false false bs = refl

peer_of-IsU16 : (v6 : Bool) → IsU16 (peer_of v6)
peer_of-IsU16 true = omega arith
peer_of-IsU16 false = omega arith

module _ (ts i : ℕ) (v6 : Bool) (attrs : Bytes) (stamp : IsU32 ts)
    (fits : length attrs ≤ 65535) where
  new_entry-IsEntry :
      (id : Option ℕ)
      → IsWordOption id
      → IsEntry (is_some id) (record (new_entry (peer_of v6) ts attrs) { path_id = id })
  new_entry-IsEntry id word = record {
    index_fits = peer_of-IsU16 v6;
    time_fits = stamp;
    id_present = word-IsPathId id word;
    attrs_fit = omega arith;
    computed = refl;
  }

module _ (ts : ℕ) (v6 : Bool) (attrs hop : Bytes) (meanings others : List Meaning)
    (decoded : decode Context.rib attrs ≡ some meanings)
    (taken : take_hop meanings ≡ some (hop, others)) where
  read_view-single :
      (sequence afi safi : ℕ) (path_id own : Option ℕ) (nlri : Nlri)
      → read_view sequence afi safi path_id nlri
          (record (new_entry (peer_of v6) ts attrs) { path_id = own } ∷ [])
        ≡ some (record {
          sequence = sequence;
          peer_index = peer_of v6;
          originated_time = ts;
          attributes = others;
          announcement = record {
            afi = afi;
            safi = safi;
            next_hop = hop;
            path_id = path_id;
            nlri = nlri;
          };
        })
  unfolding read_view
  read_view-single sequence afi safi path_id own nlri = rw decoded (rw taken)

-- The reader gets the view out of the frame.
abbrev pub IsViewed : Bool → ℕ → RibView → Frame → Type 0
IsViewed v6 ts view f =
    (f.timestamp ≡ ts)
    × (f.mrt_type ≡ Types.table_dump_v2)
    × (read_rib_route v6 f.subtype f.payload ≡ some view)

-- A record that gives such a frame.
abbrev pub IsDumped : Bool → ℕ → RibView → MrtRecord → Type 0
IsDumped v6 ts view r = IsHonest r × IsViewed v6 ts view (frame_of r)

-- A path identifier is a word, and the prefix is one of the family with no host bit set.
module _ (ts i : ℕ) (v6 : Bool) (id : Option ℕ) (addr : Bytes) (bits : ℕ) (attrs hop : Bytes)
    (meanings others : List Meaning) (stamp : IsU32 ts) (word : IsWordOption id)
    (pfx : IsPrefix v6 addr bits) (canonical : IsCanonical addr bits) (fits : length attrs ≤ 65535)
    (decoded : decode Context.rib attrs ≡ some meanings)
    (taken : take_hop meanings ≡ some (hop, others)) where
  pub read_unicast-rib :
      (subtype : ℕ)
      → read_unicast v6
          (is_some id)
          (rib_afi_safi ts subtype
            (as_u32 i)
            (encoded_prefix addr bits)
            (record (new_entry (peer_of v6) ts attrs) { path_id = id } ∷ [])).body
        ≡ some (
            view_of i ts v6 others (record {
              afi = afi_of v6;
              safi = Types.safi_unicast;
              next_hop = hop;
              path_id = id;
              nlri = Nlri.prefix bits addr;
            }))
  unfolding read_unicast
  read_unicast-rib subtype = rw (← pfx.sized) (
      rw
        (read_rib-rib_afi_safi ts subtype (as_u32 i) addr bits (is_some id)
          (record (new_entry (peer_of v6) ts attrs) { path_id = id } ∷ []) (omega arith)
          pfx.in_width canonical (omega arith)
          (new_entry-IsEntry ts i v6 attrs stamp fits id word, tt))
        (rw
          (read_view-single ts v6 attrs hop meanings others decoded taken (as_u32 i)
            (if v6 then 2 else 1) 1 id id (Nlri.prefix bits addr))
          refl))

  pub read_generic-rib :
      (subtype label : ℕ) (rd : Bytes)
      → label < 1048576
      → length rd ≡ 8
      → read_generic v6
          (is_some id)
          (rib_generic ts subtype
            (as_u32 i)
            (afi_of v6)
            Types.safi_mpls_vpn
            (id_bytes id ++ encoded_vpn label rd addr bits)
            (new_entry (peer_of v6) ts attrs ∷ [])).body
        ≡ some (
            view_of i ts v6 others (record {
              afi = afi_of v6;
              safi = Types.safi_mpls_vpn;
              next_hop = hop;
              path_id = id;
              nlri = Nlri.vpn (record { label = label; rd = rd; bits = bits; prefix = addr });
            }))
  unfolding read_generic
  read_generic-rib subtype label rd small octets = rw (← pfx.sized) (
      rw
        (read_generic_vpn-rib_generic ts subtype (as_u32 i) (afi_of v6) Types.safi_mpls_vpn
          (is_some id) id (record { label = label; rd = rd; bits = bits; prefix = addr })
          (new_entry (peer_of v6) ts attrs ∷ []) (omega arith) (afi_fits v6) (word-IsPathId id word)
          small octets (width_le v6 addr pfx.sized) pfx.in_width canonical (omega arith)
          (new_entry-IsEntry ts i v6 attrs stamp fits none no_id, tt))
        (read_view-single ts v6 attrs hop meanings others decoded taken (as_u32 i) (afi_of v6)
          Types.safi_mpls_vpn id none
          (Nlri.vpn (record { label = label; rd = rd; bits = bits; prefix = addr }))))
    where
      afi_fits : (v6 : Bool) → IsU16 (afi_of v6)
      afi_fits true = omega arith
      afi_fits false = omega arith

      no_id : IsWordOption none
      no_id v e = cc
