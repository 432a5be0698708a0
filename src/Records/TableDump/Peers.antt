-- ===== src/Records/TableDump/Peers.antt =====
-- PEER_INDEX_TABLE read back: RFC 6396 section 4.3.1.
use mrtgen.Base.{
  ℕ, ◌≡◌, ◌⊎◌, inl, inr, refl, ◌++◌, ◌∷◌, [], List, Bool, true, false, Option, some, Bytes, All,
  IsU16, IsU32, as_u16, length, append_assoc, append-nil, be16, be32, ◌==◌, bit_and, bit_or,
  if◌then◌else◌, not,
}
use native.Mathlib.Nat.{mod-eq_of_lt}
use mrtgen.Wire.{
  ◌>>=◌, read_u8, read_u16, read_u32, read_bytes, read_u16-be16, read_u32-be32, read_bytes-append,
  read_bytes_exact,
}
use mrtgen.Wire.Many.{read_many, read_many-flat}
use mrtgen.Writer.Buf.{Buf, each-flat}
use mrtgen.Records.TableDump.{Peer, peer_type, encode_peer, peer_index_table}

abbrev ip_octets : Bool → ℕ
ip_octets wide = if wide then 16 else 4

-- Bit 0 of the type is the address family, bit 1 the AS number's size.
unfoldable pub read_peer : Bytes → Option (Peer × Bytes)
read_peer bs = do
  (ty, bs₁) ← read_u8 bs
  (bgp_id, bs₂) ← read_bytes 4 bs₁
  (ip, bs₃) ← read_bytes (ip_octets (not (bit_and ty 1 == 0))) bs₂
  (asn, rest) ← (if bit_and ty 2 == 0 then read_u16 bs₃ else read_u32 bs₃)
  some (
    record { bgp_id = bgp_id; ip = ip; asn = asn; as4 = if bit_and ty 2 == 0 then false else true },
    rest,
  )

-- Sizes as the types say; a two-byte AS number has to fit.
pub record IsPeer (p : Peer) : Type 0 where
  pub id_size : length p.bgp_id ≡ 4
  pub ip_size : (length p.ip ≡ 4) ⊎ (length p.ip ≡ 16)
  pub asn_fits : IsU32 p.asn
  pub as2_fits : p.as4 ≡ false → IsU16 p.asn

abbrev asn_bytes : Bool → ℕ → Bytes
asn_bytes true asn = be32 asn
asn_bytes false asn = be16 (as_u16 asn)

abbrev peer_bytes : Peer → Bytes
peer_bytes p = peer_type p ∷ (p.bgp_id ++ (p.ip ++ asn_bytes p.as4 p.asn))

encode_peer_layout : (p : Peer) (b : Buf) → encode_peer p b ≡ b ++ peer_bytes p
unfolding encode_peer
encode_peer_layout p b = go p.as4
  where
    go :
        (as4 : Bool)
        → (if as4
            then ((b ++ (peer_type p ∷ [])) ++ p.bgp_id ++ p.ip) ++ be32 p.asn
            else ((b ++ (peer_type p ∷ [])) ++ p.bgp_id ++ p.ip) ++ be16 (as_u16 p.asn))
          ≡ b ++ (peer_type p ∷ (p.bgp_id ++ (p.ip ++ asn_bytes as4 p.asn)))
    go true = simp append_assoc
    go false = simp append_assoc

-- The type byte by its two bits.
type_byte : Bool → Bool → ℕ
type_byte as4 wide =
    let t : ℕ = if as4 then bit_or 0 0x02 else 0 in if wide then bit_or t 0x01 else t

peer_type_bits : (p : Peer) → peer_type p ≡ type_byte p.as4 (length p.ip == 16)
unfolding peer_type type_byte
peer_type_bits p = refl

bit_ip : (as4 wide : Bool) → not (bit_and (type_byte as4 wide) 1 == 0) ≡ wide
unfolding type_byte
bit_ip true true = refl
bit_ip true false = refl
bit_ip false true = refl
bit_ip false false = refl

bit_as4 : (as4 wide : Bool) → (bit_and (type_byte as4 wide) 2 == 0) ≡ not as4
unfolding type_byte
bit_as4 true true = refl
bit_as4 true false = refl
bit_as4 false true = refl
bit_as4 false false = refl

ip_width : (p : Peer) → IsPeer p → ip_octets (not (bit_and (peer_type p) 1 == 0)) ≡ length p.ip
ip_width p h = rw (peer_type_bits p) (rw (bit_ip p.as4 (length p.ip == 16)) (width h.ip_size))
  where
    width : (length p.ip ≡ 4) ⊎ (length p.ip ≡ 16) → ip_octets (length p.ip == 16) ≡ length p.ip
    width (inl e) = rw e
    width (inr e) = rw e

as4_bit : (p : Peer) → (bit_and (peer_type p) 2 == 0) ≡ not p.as4
as4_bit p = rw (peer_type_bits p) (bit_as4 p.as4 (length p.ip == 16))

read_asn :
    (as4 : Bool) (asn : ℕ) (rest : Bytes)
    → IsU32 asn
    → (as4 ≡ false → IsU16 asn)
    → (if not as4
        then read_u16 (asn_bytes as4 asn ++ rest)
        else read_u32 (asn_bytes as4 asn ++ rest))
      ≡ some (asn, rest)
read_asn true asn rest h k = read_u32-be32 asn rest h
read_asn false asn rest h k = rw (mod-eq_of_lt (k refl)) (read_u16-be16 asn rest (k refl))

as4_back : (as4 : Bool) → (if not as4 then false else true) ≡ as4
as4_back true = refl
as4_back false = refl

read_peer-bytes :
    (p : Peer) (rest : Bytes) → IsPeer p → read_peer (peer_bytes p ++ rest) ≡ some (p, rest)
unfolding read_peer read_u8
read_peer-bytes p rest h = simp append_assoc (
    rw (read_bytes_exact 4 p.bgp_id (p.ip ++ (asn_bytes p.as4 p.asn ++ rest)) h.id_size) (
      rw (ip_width p h) (
        rw (read_bytes-append p.ip (asn_bytes p.as4 p.asn ++ rest)) (
          rw (as4_bit p)
            (rw (read_asn p.as4 p.asn rest h.asn_fits h.as2_fits) (rw (as4_back p.as4)))))))

-- Collector, view name, peers.
unfoldable pub read_peer_index_table : Bytes → Option (Bytes × Bytes × List Peer)
read_peer_index_table bs = do
  (collector, bs₁) ← read_bytes 4 bs
  (name_len, bs₂) ← read_u16 bs₁
  (name, bs₃) ← read_bytes name_len bs₂
  (count, bs₄) ← read_u16 bs₃
  (peers, rest) ← read_many read_peer count bs₄
  some (collector, name, peers)

-- The body of a PEER_INDEX_TABLE of well-formed peers gives back the collector, the view name
-- and every peer in order, with the address family and the size of the AS number that the
-- peer's type byte declares, if the name and the number of peers fit 16 bits.
pub read-peer_index_table :
    (timestamp : ℕ) (collector name : Bytes) (peers : List Peer)
    → length collector ≡ 4
    → IsU16 (length name)
    → IsU16 (length peers)
    → All IsPeer peers
    → read_peer_index_table (peer_index_table timestamp collector name peers).body
      ≡ some (collector, name, peers)
unfolding read_peer_index_table peer_index_table
read-peer_index_table timestamp collector name peers hc hn hp h =
    rw
      (each-flat encode_peer peer_bytes encode_peer_layout peers
        (collector ++ be16 (as_u16 (length name)) ++ name ++ be16 (as_u16 (length peers))))
      (simp append_assoc (
        rw (mod-eq_of_lt hn) (
          rw (mod-eq_of_lt hp) (
            rw (read_bytes_exact 4 collector _ hc) (
              rw (read_u16-be16 (length name) _ hn) (
                rw (read_bytes-append name _) (
                  rw (read_u16-be16 (length peers) _ hp) (
                    rw (
                      simp append-nil at (
                        read_many-flat read_peer peer_bytes IsPeer read_peer-bytes peers []
                          h))))))))))
