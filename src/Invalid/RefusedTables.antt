-- ===== src/Invalid/RefusedTables.antt =====
-- The malformed table dump records of src/invalid.rs, as the readers of the protocol see them.
use mrtgen.Base.{
  ℕ, ◌<◌, ◌*◌, ◌+◌, ◌≡◌, ◌⊎◌, refl, ◌++◌, ◌∷◌, [], none, some, arith, Bytes, Bool, true, false,
  IsU16, IsU32, leb, length, append_assoc, ◌&&◌, range_from, as_u8, as_u16, length-range_from, be16,
  be32,
}
use mrtgen.Wire.{read_u8, read_bytes, read_u16-be16, read_u32-be32}
use mrtgen.Wire.Many.{read_many_short}
use mrtgen.Bgp.Nlri.Reading.{read_prefix}
use mrtgen.Bgp.Nlri.Vpn.{read_vpn}
use mrtgen.Records.TableDump.{Peer, rib_afi_safi, rib_generic, encode_entry}
use mrtgen.Records.TableDump.Rib.{read_rib}
use mrtgen.Records.TableDump.Generic.{read_generic_vpn}
use mrtgen.Writer.Buf.{Buf, each-flat}
use mrtgen.Records.TableDump.Peers.{read_peer, read_peer_index_table}
use mrtgen.Invalid.Tables.{
  rib_bad_prefix_len, rib_generic_vpn_bad_prefix_len, peer_index_count_mismatch, push_indexed_peer,
}

-- A record whose body goes on after an NLRI that is refused.
read_rib_bad_prefix :
    (width : ℕ) (addpath : Bool) (sequence bits : ℕ) (rest : Bytes)
    → IsU32 sequence
    → 8 * width < bits
    → read_rib width addpath (be32 sequence ++ (bits ∷ rest)) ≡ none
unfolding read_rib read_prefix read_u8
read_rib_bad_prefix width addpath sequence bits rest h wide =
    let refused : leb bits (8 * width) ≡ false = ground arith in
    rw (read_u32-be32 sequence _ h) (rw refused refl)

-- The widths of the two families.
abbrev family_width : Bool → ℕ
family_width true = 16
family_width false = 4

-- The RIB record with a prefix length above the width of its family, IPv4 or IPv6, is refused
-- by a reader of that family, if the sequence number is a 32-bit word.
read_rib-rib_bad_prefix_len :
    (timestamp sequence : ℕ) (ipv6 : Bool) (bits : ℕ)
    → IsU32 sequence
    → 8 * family_width ipv6 < bits
    → read_rib (family_width ipv6) false (rib_bad_prefix_len timestamp sequence ipv6 bits).body
      ≡ none
unfolding rib_bad_prefix_len rib_afi_safi encode_entry
read_rib-rib_bad_prefix_len timestamp sequence true bits h wide =
    simp append_assoc (read_rib_bad_prefix 16 false sequence bits _ h wide)
read_rib-rib_bad_prefix_len timestamp sequence false bits h wide =
    simp append_assoc (read_rib_bad_prefix 4 false sequence bits _ h wide)

read_generic_vpn-rib_generic_vpn_bad_prefix_len :
    (timestamp sequence bits : ℕ)
    → IsU32 sequence
    → (bits < 88) ⊎ (120 < bits)
    → read_generic_vpn 4 false (rib_generic_vpn_bad_prefix_len timestamp sequence bits).body ≡ none
unfolding rib_generic_vpn_bad_prefix_len rib_generic encode_entry read_generic_vpn read_vpn read_u8
read_generic_vpn-rib_generic_vpn_bad_prefix_len timestamp sequence bits h wrong =
    let refused : (leb 88 bits && leb bits 120) ≡ false = ground arith in
    simp append_assoc
      (rw (read_u32-be32 sequence _ h) (rw (read_u16-be16 1 _ (omega arith)) (rw refused refl)))

abbrev indexed_bytes : ℕ → Bytes
indexed_bytes i = 0 ∷ 192 ∷ 0 ∷ 2 ∷ as_u8 i ∷ 10 ∷ 0 ∷ 0 ∷ as_u8 i ∷ be16 (as_u16 (64500 + i))

abbrev indexed_peer : ℕ → Peer
indexed_peer i = record {
  bgp_id = 192 ∷ 0 ∷ 2 ∷ as_u8 i ∷ [];
  ip = 10 ∷ 0 ∷ 0 ∷ as_u8 i ∷ [];
  asn = as_u16 (64500 + i);
  as4 = false;
}

read_peer-indexed :
    (i : ℕ) (rest : Bytes) → read_peer (indexed_bytes i ++ rest) ≡ some (indexed_peer i, rest)
unfolding read_peer read_u8 read_bytes
read_peer-indexed i rest = rw (read_u16-be16 (as_u16 (64500 + i)) rest (omega arith)) refl

read_peer_end : read_peer [] ≡ none
unfolding read_peer read_u8
read_peer_end = refl

push_indexed_peer-append : (i : ℕ) (b : Buf) → push_indexed_peer i b ≡ b ++ indexed_bytes i
push_indexed_peer-append i b = simp append_assoc

-- The PEER_INDEX_TABLE that claims more peers than it holds is refused by a reader, if the
-- claimed number fits 16 bits.
read-peer_index_count_mismatch :
    (timestamp claimed actual : ℕ)
    → IsU16 claimed
    → actual < claimed
    → read_peer_index_table (peer_index_count_mismatch timestamp claimed actual).body ≡ none
unfolding peer_index_count_mismatch read_peer_index_table read_bytes
read-peer_index_count_mismatch timestamp claimed actual h few =
    let size : length (range_from 0 actual) < claimed = omega (arith, length-range_from 0 actual) in
    let short =
      read_many_short read_peer indexed_bytes indexed_peer read_peer-indexed read_peer_end
        (range_from 0 actual) claimed size in
    rw
      (each-flat push_indexed_peer indexed_bytes push_indexed_peer-append (range_from 0 actual)
        ((192 ∷ 0 ∷ 2 ∷ 99 ∷ []) ++ be16 0 ++ be16 claimed))
      (simp append_assoc
        (rw (read_u16-be16 0 _ (omega arith)) (rw (read_u16-be16 claimed _ h) (rw short refl))))
