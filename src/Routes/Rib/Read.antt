-- ===== src/Routes/Rib/Read.antt =====
-- A RIB record of one route as a reader of RFC 6396 section 4.3, RFC 8050 and RFC 7911 takes it apart.
use mrtgen.Base.{
  ℕ, [], ◌∷◌, List, Bool, true, false, Option, none, some, Bytes, ◌==◌, if◌then◌else◌,
}
use mrtgen.Wire.{◌>>=◌}
use mrtgen.Bgp.Attr.Values.{Context, Meaning}
use mrtgen.Bgp.Attr.Meanings.{decode}
use mrtgen.Records.TableDump.{RibEntry}
use mrtgen.Records.TableDump.Rib.{read_rib}
use mrtgen.Records.TableDump.Generic.{read_generic_vpn}
use mrtgen.Routes.Announced.{Nlri, Announcement}

-- Number, peer and time of an entry, its attributes but the next hop, and what it announces.
pub record RibView : Type 0 where
  pub sequence : ℕ
  pub peer_index : ℕ
  pub originated_time : ℕ
  pub attributes : List Meaning
  pub announcement : Announcement

-- The next hop, and the other attributes.
unfoldable pub take_hop : List Meaning → Option (Bytes × List Meaning)
take_hop [] = none
take_hop (Meaning.mp_next_hop hop ∷ ms) = some (hop, ms)
take_hop (Meaning.next_hop hop ∷ ms) = some (hop, ms)
take_hop (m ∷ ms) = do (hop, rest) ← take_hop ms; some (hop, m ∷ rest)

abbrev single : List RibEntry → Option RibEntry
single (e ∷ []) = some e
single _ = none

unfoldable pub read_view : ℕ → ℕ → ℕ → Option ℕ → Nlri → List RibEntry → Option RibView
read_view sequence afi safi path_id nlri entries = do
  e ← single entries
  meanings ← decode Context.rib e.attributes
  (hop, others) ← take_hop meanings
  some (record {
    sequence = sequence;
    peer_index = e.peer_index;
    originated_time = e.originated_time;
    attributes = others;
    announcement = record {
      afi = afi;
      safi = safi;
      next_hop = hop;
      path_id = path_id;
      nlri = nlri;
    };
  })

-- The Path Identifier of an AFI/SAFI-specific record stands in the entry.
abbrev path_id_of : List RibEntry → Option ℕ
path_id_of [] = none
path_id_of (e ∷ es) = e.path_id

-- Subtypes 2 and 8 for IPv4 unicast, 4 and 10 for IPv6 unicast.
unfoldable pub read_unicast : Bool → Bool → Bytes → Option RibView
read_unicast v6 addpath bs = do
  r ← read_rib (if v6 then 16 else 4) addpath bs
  read_view r.sequence (if v6 then 2 else 1) 1 (path_id_of r.entries) (Nlri.prefix r.bits r.prefix)
      r.entries

-- Subtypes 6 and 12 over VPN routes of a family.
unfoldable pub read_generic : Bool → Bool → Bytes → Option RibView
read_generic v6 addpath bs = do
  r ← read_generic_vpn (if v6 then 16 else 4) addpath bs
  read_view r.sequence r.afi r.safi r.path_id (Nlri.vpn r.route) r.entries

-- The record of a route of a family, by its subtype.
unfoldable pub read_rib_route : Bool → ℕ → Bytes → Option RibView
read_rib_route v6 subtype bs =
    if subtype == 6
    then read_generic v6 false bs
    else if subtype == 12
    then read_generic v6 true bs
    else if subtype == (if v6 then 4 else 2)
    then read_unicast v6 false bs
    else if subtype == (if v6 then 10 else 8)
    then read_unicast v6 true bs
    else none
