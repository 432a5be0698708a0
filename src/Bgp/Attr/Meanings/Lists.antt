-- ===== src/Bgp/Attr/Meanings/Lists.antt =====
-- Attributes that hold a list: AS_PATH, the communities, CLUSTER_LIST.
use mrtgen.Base.{
  ℕ, ◌*◌, ◌<◌, ◌≡◌, refl, ◌++◌, ◌∷◌, [], List, Option, some, arith, Bytes, IsU16, IsU8, IsU32, All,
  length, be32, as_u8, append-nil, append_assoc,
}
use native.Mathlib.Nat.{mod-eq_of_lt, mul-div_cancel}
use mrtgen.Wire.{read_u8, read_u32, read_bytes, read_u32-be32, read_bytes-append}
use mrtgen.Wire.Many.{flat, read_many-flat, length-flat}
use mrtgen.Writer.Buf.{Buf, u32, bytes, each, each-flat}
use mrtgen.Bgp.Attr.{
  attr_as_path_4b, attr_communities, attr_cluster_list, attr_ext_communities,
  attr_ipv6_ext_communities, attr_large_communities, LargeCommunity, push_large,
}
use mrtgen.Bgp.Attr.Values.{Context, Meaning, AsPath, read_elements, read_large, read_as_path}
use mrtgen.Bgp.Attr.Meanings.{Encodes, attribute-Encodes}

length-be32 : (v : ℕ) → length (be32 v) ≡ 4
unfolding be32
length-be32 v = refl

module _ {ℓ κ} {A : Type ℓ} (read : Bytes → Option (A × Bytes)) (write : A → Bytes) (P : A → Type κ)
    (k : ℕ) (positive : 0 < k) (sized : (x : A) → P x → length (write x) ≡ k)
    (inverse : (x : A) (rest : Bytes) → P x → read (write x ++ rest) ≡ some (x, rest)) where
  read_elements-flat : (xs : List A) → All P xs → read_elements read k (flat write xs) ≡ some xs
  unfolding read_elements
  read_elements-flat xs h = rw (length-flat write k P sized xs h) (
      rw (mul-div_cancel (length xs) positive)
        (rw (simp append-nil at (read_many-flat read write P inverse xs [] h))))

-- One AS_SEQUENCE of at most 255 four-byte AS numbers.
pub attr_as_path_4b-Encodes :
    (c : Context) (asns : List ℕ)
    → All IsU32 asns
    → IsU8 (length asns)
    → Encodes c (attr_as_path_4b asns) (Meaning.as_path (AsPath.segment 2 asns) ∷ [])
unfolding attr_as_path_4b read_as_path read_u8
attr_as_path_4b-Encodes c asns h k =
    rw (each-flat u32 be32 (λ v b. refl) asns (2 ∷ as_u8 (length asns) ∷ [])) (
      attribute-Encodes c _ _ (2 ∷ as_u8 (length asns) ∷ flat be32 asns) _ (omega arith)
        (omega (arith, length-flat be32 4 IsU32 (λ v hv. length-be32 v) asns h))
        (rw (mod-eq_of_lt k)
          (rw (simp append-nil at (read_many-flat read_u32 be32 IsU32 read_u32-be32 asns [] h)))))

pub attr_communities-Encodes :
    (c : Context) (comms : List ℕ)
    → All IsU32 comms
    → IsU16 (length comms * 4)
    → Encodes c (attr_communities comms) (Meaning.communities comms ∷ [])
unfolding attr_communities
attr_communities-Encodes c comms h k = rw (each-flat u32 be32 (λ v b. refl) comms []) (
    attribute-Encodes c _ _ (flat be32 comms) _ (omega arith)
      (rw (length-flat be32 4 IsU32 (λ v hv. length-be32 v) comms h) k)
      (rw (
        read_elements-flat read_u32 be32 IsU32 4 (omega arith) (λ v hv. length-be32 v) read_u32-be32
          comms h)))

-- Arrays of `k` bytes each.
abbrev pub HasLength : ℕ → Bytes → Type 0
HasLength k xs = length xs ≡ k

read_chunk :
    (k : ℕ) (xs rest : Bytes) → HasLength k xs → read_bytes k (xs ++ rest) ≡ some (xs, rest)
read_chunk k xs rest h = rw (← h) (read_bytes-append xs rest)

flat_self : (xs : List Bytes) → each bytes xs [] ≡ flat (λ x. x) xs
flat_self xs = each-flat bytes (λ x. x) (λ v b. refl) xs []

read_chunks :
    (k : ℕ) (xs : List Bytes)
    → 0 < k
    → All (HasLength k) xs
    → read_elements (read_bytes k) k (flat (λ x. x) xs) ≡ some xs
read_chunks k xs hk h =
    read_elements-flat (read_bytes k) (λ x. x) (HasLength k) k hk (λ x hx. hx) (read_chunk k) xs h

length-chunks :
    (k : ℕ) (xs : List Bytes) → All (HasLength k) xs → length (flat (λ x. x) xs) ≡ length xs * k
length-chunks k xs h = length-flat (λ x. x) k (HasLength k) (λ x hx. hx) xs h

pub attr_cluster_list-Encodes :
    (c : Context) (ids : List Bytes)
    → All (HasLength 4) ids
    → IsU16 (length ids * 4)
    → Encodes c (attr_cluster_list ids) (Meaning.cluster_list ids ∷ [])
unfolding attr_cluster_list
attr_cluster_list-Encodes c ids h k = rw (flat_self ids) (
    attribute-Encodes c _ _ (flat (λ x. x) ids) _ (omega arith) (rw (length-chunks 4 ids h) k)
      (rw (read_chunks 4 ids (omega arith) h)))

pub attr_ext_communities-Encodes :
    (c : Context) (comms : List Bytes)
    → All (HasLength 8) comms
    → IsU16 (length comms * 8)
    → Encodes c (attr_ext_communities comms) (Meaning.ext_communities comms ∷ [])
unfolding attr_ext_communities
attr_ext_communities-Encodes c comms h k = rw (flat_self comms) (
    attribute-Encodes c _ _ (flat (λ x. x) comms) _ (omega arith) (rw (length-chunks 8 comms h) k)
      (rw (read_chunks 8 comms (omega arith) h)))

pub attr_ipv6_ext_communities-Encodes :
    (c : Context) (comms : List Bytes)
    → All (HasLength 20) comms
    → IsU16 (length comms * 20)
    → Encodes c (attr_ipv6_ext_communities comms) (Meaning.ipv6_ext_communities comms ∷ [])
unfolding attr_ipv6_ext_communities
attr_ipv6_ext_communities-Encodes c comms h k = rw (flat_self comms) (
    attribute-Encodes c _ _ (flat (λ x. x) comms) _ (omega arith) (rw (length-chunks 20 comms h) k)
      (rw (read_chunks 20 comms (omega arith) h)))

abbrev pub IsLarge : LargeCommunity → Type 0
IsLarge (global, local1, local2) = IsU32 global × IsU32 local1 × IsU32 local2

abbrev large_bytes : LargeCommunity → Bytes
large_bytes (global, local1, local2) = be32 global ++ (be32 local1 ++ be32 local2)

read_large-bytes :
    (c : LargeCommunity) (rest : Bytes)
    → IsLarge c
    → read_large (large_bytes c ++ rest) ≡ some (c, rest)
unfolding read_large
read_large-bytes (global, local1, local2) rest h = simp append_assoc (
    rw (read_u32-be32 global _ h.0)
      (rw (read_u32-be32 local1 _ h.1) (rw (read_u32-be32 local2 _ h.2))))

push_large_layout : (c : LargeCommunity) (b : Buf) → push_large c b ≡ b ++ large_bytes c
push_large_layout (x, y, z) b = simp append_assoc

length-large : (c : LargeCommunity) → length (large_bytes c) ≡ 12
unfolding be32
length-large (x, y, z) = refl

pub attr_large_communities-Encodes :
    (c : Context) (comms : List LargeCommunity)
    → All IsLarge comms
    → IsU16 (length comms * 12)
    → Encodes c (attr_large_communities comms) (Meaning.large_communities comms ∷ [])
unfolding attr_large_communities
attr_large_communities-Encodes c comms h k =
    rw (each-flat push_large large_bytes push_large_layout comms []) (
      attribute-Encodes c _ _ (flat large_bytes comms) _ (omega arith)
        (rw (length-flat large_bytes 12 IsLarge (λ v hv. length-large v) comms h) k)
        (rw (
          read_elements-flat read_large large_bytes IsLarge 12 (omega arith)
            (λ v hv. length-large v) read_large-bytes comms h)))
