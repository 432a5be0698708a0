-- ===== src/Bgp/Attr/Values.antt =====
-- What the attribute values stand for: RFC 4271, 1997, 4360, 4456, 4760, 5701, 7311, 8092 and, for
-- RIB entries, RFC 6396 section 4.3.4.
use mrtgen.Base.{
  ℕ, ◌/◌, ◌∷◌, [], List, Option, none, some, Bytes, length, if◌then◌else◌, ◌==◌, ◌&&◌,
}
use mrtgen.Types
use mrtgen.Wire.{◌>>=◌, read_u8, read_u16, read_u32, read_u64, read_bytes}
use mrtgen.Wire.Many.{read_many}
use mrtgen.Bgp.Attr.{LargeCommunity}
use mrtgen.Bgp.Attr.Tlv.{PathAttr}

-- Nothing may be left.
abbrev pub at_end {ℓ} : {A : Type ℓ} → A × Bytes → Option A
at_end (a, []) = some a
at_end (a, b ∷ bs) = none

-- Elements of `width` bytes each, to the end of the value.
unfoldable pub read_elements {ℓ} :
    {A : Type ℓ} → (Bytes → Option (A × Bytes)) → ℕ → Bytes → Option (List A)
read_elements read width v = read_many read (length v / width) v >>= at_end

unfoldable pub read_large : Bytes → Option (LargeCommunity × Bytes)
read_large bs = do
  (global, bs₁) ← read_u32 bs
  (local1, bs₂) ← read_u32 bs₁
  (local2, rest) ← read_u32 bs₂
  some ((global, local1, local2), rest)

-- One segment, its type and its AS numbers; an empty value has no segment.
pub data AsPath : Type 0 where
  empty : AsPath
  segment : ℕ → List ℕ → AsPath

unfoldable pub read_as_path : Bytes → Option AsPath
read_as_path [] = some AsPath.empty
read_as_path (ty ∷ bs) = do
  (count, bs₁) ← read_u8 bs
  asns ← read_many read_u32 count bs₁ >>= at_end
  some (AsPath.segment ty asns)

-- The two contexts: MP_REACH_NLRI is abbreviated in a TABLE_DUMP_V2 RIB entry.
pub data Context : Type 0 where
  rib update : Context

pub data Meaning : Type 0 where
  origin : ℕ → Meaning
  as_path : AsPath → Meaning
  next_hop : Bytes → Meaning
  med : ℕ → Meaning
  local_pref : ℕ → Meaning
  atomic_aggregate : Meaning
  aggregator : ℕ → Bytes → Meaning
  communities : List ℕ → Meaning
  originator_id : Bytes → Meaning
  cluster_list : List Bytes → Meaning
  ext_communities : List Bytes → Meaning
  ipv6_ext_communities : List Bytes → Meaning
  aigp : ℕ → Meaning
  large_communities : List LargeCommunity → Meaning
  mp_next_hop : Bytes → Meaning
  mp_reach : ℕ → ℕ → Bytes → Bytes → Meaning
  unknown : PathAttr → Meaning

unfoldable pub read_aggregator : Bytes → Option Meaning
read_aggregator v = do
  (asn, bs) ← read_u32 v
  id ← read_bytes 4 bs >>= at_end
  some (Meaning.aggregator asn id)

-- One TLV of type 1 and length 11.
unfoldable pub read_aigp : Bytes → Option Meaning
read_aigp v = do
  (ty, bs₁) ← read_u8 v
  (len, bs₂) ← read_u16 bs₁
  metric ← read_u64 bs₂ >>= at_end
  if ty == 1 && len == 11 then some (Meaning.aigp metric) else none

unfoldable pub read_mp_reach : Context → Bytes → Option Meaning
read_mp_reach Context.rib v = do
  (len, bs) ← read_u8 v
  hop ← read_bytes len bs >>= at_end
  some (Meaning.mp_next_hop hop)
read_mp_reach Context.update v = do
  (afi, bs₁) ← read_u16 v
  (safi, bs₂) ← read_u8 bs₁
  (len, bs₃) ← read_u8 bs₂
  (hop, bs₄) ← read_bytes len bs₃
  (reserved, nlri) ← read_u8 bs₄
  some (Meaning.mp_reach afi safi hop nlri)

abbrev pub interpret : Context → PathAttr → Option Meaning
interpret context a =
    if a.code == Types.attr_origin
    then (read_u8 a.value >>= at_end) >>= (λ v. some (Meaning.origin v))
    else if a.code == Types.attr_as_path
    then read_as_path a.value >>= (λ p. some (Meaning.as_path p))
    else if a.code == Types.attr_next_hop
    then (read_bytes 4 a.value >>= at_end) >>= (λ v. some (Meaning.next_hop v))
    else if a.code == Types.attr_multi_exit_disc
    then (read_u32 a.value >>= at_end) >>= (λ v. some (Meaning.med v))
    else if a.code == Types.attr_local_pref
    then (read_u32 a.value >>= at_end) >>= (λ v. some (Meaning.local_pref v))
    else if a.code == Types.attr_atomic_aggregate
    then at_end (Meaning.atomic_aggregate, a.value)
    else if a.code == Types.attr_aggregator
    then read_aggregator a.value
    else if a.code == Types.attr_community
    then read_elements read_u32 4 a.value >>= (λ v. some (Meaning.communities v))
    else if a.code == Types.attr_originator_id
    then (read_bytes 4 a.value >>= at_end) >>= (λ v. some (Meaning.originator_id v))
    else if a.code == Types.attr_cluster_list
    then read_elements (read_bytes 4) 4 a.value >>= (λ v. some (Meaning.cluster_list v))
    else if a.code == Types.attr_mp_reach_nlri
    then read_mp_reach context a.value
    else if a.code == Types.attr_ext_community
    then read_elements (read_bytes 8) 8 a.value >>= (λ v. some (Meaning.ext_communities v))
    else if a.code == Types.attr_ipv6_ext_community
    then read_elements (read_bytes 20) 20 a.value >>= (λ v. some (Meaning.ipv6_ext_communities v))
    else if a.code == Types.attr_aigp
    then read_aigp a.value
    else if a.code == Types.attr_large_community
    then read_elements read_large 12 a.value >>= (λ v. some (Meaning.large_communities v))
    else some (Meaning.unknown a)
