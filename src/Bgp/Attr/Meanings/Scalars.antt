-- ===== src/Bgp/Attr/Meanings/Scalars.antt =====
-- Attributes that hold one value.
use mrtgen.Base.{
  ℕ, ◌+◌, ◌/◌, ◌≡◌, refl, ◌++◌, ◌∷◌, [], arith, Bytes, IsU16, IsU8, IsU32, IsU64, length, be16,
  be32, as_u8, as_u32, append_assoc, length-append,
}
use native.Mathlib.Nat.{mod-eq_of_lt}
use mrtgen.Wire.{
  read_u8, read_u64, read_u32_end, read_bytes_end, read_u32-be32, read_u16-be16, read_bytes-append,
}
use mrtgen.Bgp.Attr.{
  attr_origin, attr_next_hop, attr_med, attr_local_pref, attr_atomic_aggregate, attr_aggregator_4b,
  attr_originator_id, attr_aigp, attr_mp_reach, attr_mp_reach_td2,
}
use mrtgen.Bgp.Attr.Values.{
  Context, rib, update, Meaning, read_aggregator, read_aigp, read_mp_reach,
}
use mrtgen.Bgp.Attr.Meanings.{Encodes, attribute-Encodes}

length-be16 : (v : ℕ) → length (be16 v) ≡ 2
unfolding be16
length-be16 v = refl

pub attr_origin-Encodes : (c : Context) (v : ℕ) → Encodes c (attr_origin v) (Meaning.origin v ∷ [])
unfolding attr_origin read_u8
attr_origin-Encodes c v = attribute-Encodes c _ _ (v ∷ []) _ (omega arith) (omega arith) refl

pub attr_next_hop-Encodes :
    (c : Context) (ip : Bytes)
    → length ip ≡ 4
    → Encodes c (attr_next_hop ip) (Meaning.next_hop ip ∷ [])
unfolding attr_next_hop
attr_next_hop-Encodes c ip h =
    attribute-Encodes c _ _ ip _ (omega arith) (omega arith) (rw (read_bytes_end 4 ip h))

pub attr_med-Encodes : (c : Context) (v : ℕ) → IsU32 v → Encodes c (attr_med v) (Meaning.med v ∷ [])
unfolding attr_med
attr_med-Encodes c v h =
    attribute-Encodes c _ _ (be32 v) _ (omega arith) (unfold be32 in omega arith)
      (rw (read_u32_end v h))

pub attr_local_pref-Encodes :
    (c : Context) (v : ℕ) → IsU32 v → Encodes c (attr_local_pref v) (Meaning.local_pref v ∷ [])
unfolding attr_local_pref
attr_local_pref-Encodes c v h =
    attribute-Encodes c _ _ (be32 v) _ (omega arith) (unfold be32 in omega arith)
      (rw (read_u32_end v h))

pub attr_atomic_aggregate-Encodes :
    (c : Context) → Encodes c attr_atomic_aggregate (Meaning.atomic_aggregate ∷ [])
unfolding attr_atomic_aggregate
attr_atomic_aggregate-Encodes c = attribute-Encodes c _ _ [] _ (omega arith) (omega arith) refl

pub attr_aggregator_4b-Encodes :
    (c : Context) (asn : ℕ) (ip : Bytes)
    → IsU32 asn
    → length ip ≡ 4
    → Encodes c (attr_aggregator_4b asn ip) (Meaning.aggregator asn ip ∷ [])
unfolding attr_aggregator_4b read_aggregator
attr_aggregator_4b-Encodes c asn ip h k =
    attribute-Encodes c _ _ (be32 asn ++ ip) _ (omega arith) (unfold be32 in omega arith)
      (rw (read_u32-be32 asn ip h) (rw (read_bytes_end 4 ip k)))

pub attr_originator_id-Encodes :
    (c : Context) (ip : Bytes)
    → length ip ≡ 4
    → Encodes c (attr_originator_id ip) (Meaning.originator_id ip ∷ [])
unfolding attr_originator_id
attr_originator_id-Encodes c ip h =
    attribute-Encodes c _ _ ip _ (omega arith) (omega arith) (rw (read_bytes_end 4 ip h))

pub attr_aigp-Encodes :
    (c : Context) (metric : ℕ)
    → IsU64 metric
    → Encodes c (attr_aigp metric) (Meaning.aigp metric ∷ [])
unfolding attr_aigp read_aigp read_u8 read_u64
attr_aigp-Encodes c metric h =
    attribute-Encodes c _ _ _ _ (omega arith) (unfold be32 be16 in omega arith) (
      let hi = as_u32 (metric / 4294967296) in
      let lo = as_u32 metric in
      simp append_assoc (
        rw (read_u16-be16 11 (be32 hi ++ be32 lo) (omega arith)) (
          rw (read_u32-be32 hi (be32 lo) (omega arith))
            (rw (read_u32_end lo (omega arith)) (ground arith)))))

-- The next hop of a RIB entry.
pub attr_mp_reach_td2-Encodes :
    (hop : Bytes)
    → IsU8 (length hop)
    → Encodes rib (attr_mp_reach_td2 hop) (Meaning.mp_next_hop hop ∷ [])
unfolding attr_mp_reach_td2 read_mp_reach read_u8
attr_mp_reach_td2-Encodes hop h =
    attribute-Encodes rib _ _ _ _ (omega arith) (omega arith)
      (rw (mod-eq_of_lt h) (rw (read_bytes_end (length hop) hop refl)))

-- AFI, SAFI, next hop and NLRI of an UPDATE.
pub attr_mp_reach-Encodes :
    (afi safi : ℕ) (hop nlri : Bytes)
    → IsU16 afi
    → IsU8 (length hop)
    → IsU16 (5 + length hop + length nlri)
    → Encodes update (attr_mp_reach afi safi hop nlri) (Meaning.mp_reach afi safi hop nlri ∷ [])
unfolding attr_mp_reach read_mp_reach read_u8
attr_mp_reach-Encodes afi safi hop nlri ha hh hl =
    attribute-Encodes update _ _ _ _ (omega arith)
      (simp append_assoc (
        omega (
          arith,
          length-append (be16 afi) (safi ∷ as_u8 (length hop) ∷ (hop ++ (0 ∷ nlri))),
          length-append hop (0 ∷ nlri),
          length-be16 afi,
        )))
      (simp append_assoc (
        rw (mod-eq_of_lt hh) (
          rw (read_u16-be16 afi (safi ∷ length hop ∷ (hop ++ (0 ∷ nlri))) ha)
            (rw (read_bytes-append hop (0 ∷ nlri))))))
