-- ===== src/Routes/Attrs/Wire.antt =====
-- A route that `parse_route` of src/routes.rs accepts fits its attributes, if the whole section fits the
-- 65535 bytes of a RIB entry.
use mrtgen.Base.{
  ℕ, ◌+◌, ◌*◌, ◌<◌, ◌≤◌, ◌≡◌, refl, ◌++◌, [], ◌∷◌, List, Bool, true, false, Option, none, some,
  arith, Bytes, All, IsU16, IsU32, IsU64, length, length-append, be32, unwrap_or, if◌then◌else◌,
  Option-cases, ltb, subst, sym, ap, ◌∙◌, Bool-cases, inl, inr,
}
use mrtgen.Writer.Buf.{Buf, u32, bytes, each}
use mrtgen.Bgp.Attr.{
  attribute, attr_communities, attr_cluster_list, attr_ext_communities, attr_ipv6_ext_communities,
  attr_large_communities, LargeCommunity, push_large,
}
use mrtgen.Bgp.Attr.Meanings.Lists.{HasLength, IsLarge}
use mrtgen.Routes.Spec.{RouteSpec, ParsedRoute, parse_raw_attribute}
use mrtgen.Bgp.Attr.Values.{Context}
use mrtgen.Outcome.{collect, ok-injective}
use mrtgen.Routes.Attrs.{from_list, tail_attrs}
use mrtgen.Routes.Attrs.Meanings.{IsWire, RawMeanings}
use mrtgen.Routes.Parse.Sound.{IsAccepted}

-- The fields of the input whose type is a word of the source.
pub record IsTyped (spec : RouteSpec) : Type 0 where
  pub path_words : All IsU32 (unwrap_or spec.as_path [])
  pub med_word : (v : ℕ) → spec.med ≡ some v → IsU32 v
  pub local_pref_word : (v : ℕ) → spec.local_pref ≡ some v → IsU32 v
  pub aigp_word : (v : ℕ) → spec.aigp ≡ some v → IsU64 v
  pub path_id_word : (v : ℕ) → spec.path_id ≡ some v → IsU32 v

pub length-attribute_ge :
    (flags code : ℕ) (value : Bytes) → length value ≤ length (attribute flags code value)
unfolding attribute mrtgen.Base.be16
length-attribute_ge flags code value = elim (Bool-cases (ltb 255 (length value))) [
  | inl long ↦ rw long (omega arith)
  | inr short ↦ rw short (omega arith)
]

from_list_ge {ℓ} :
    {A : Type ℓ} (encode : List A → Bytes) (k : ℕ) (vs : List A)
    → length vs * k ≤ length (encode vs)
    → length vs * k ≤ length (from_list encode vs)
from_list_ge encode k [] h = omega arith
from_list_ge encode k (v ∷ vs) h = h

-- A loop that appends `k` bytes for each element.
module _ {ℓ} {A : Type ℓ} (write : A → Buf → Buf) (k : ℕ) (P : A → Type 0)
    (sized : (x : A) (b : Buf) → P x → length (write x b) ≡ length b + k) where
  length-each :
      (xs : List A) (b : Buf) → All P xs → length (each write xs b) ≡ length b + length xs * k
  length-each [] b h = omega arith
  length-each (x ∷ xs) b h = omega (arith, length-each xs (write x b) h.1, sized x b h.0)

  attribute-each_ge :
      (flags code : ℕ) (xs : List A)
      → All P xs
      → length xs * k ≤ length (attribute flags code (each write xs []))
  attribute-each_ge flags code xs h =
      omega (arith, length-attribute_ge flags code (each write xs []), length-each xs [] h)

length-push_u32 : (v : ℕ) (b : Buf) → IsU32 v → length (u32 v b) ≡ length b + 4
unfolding be32
length-push_u32 v b h = length-append b (be32 v)

length-push_bytes : (k : ℕ) (v b : Bytes) → HasLength k v → length (bytes v b) ≡ length b + k
length-push_bytes k v b h = rw (← h) (length-append b v)

length-push_large :
    (v : LargeCommunity) (b : Buf) → IsLarge v → length (push_large v b) ≡ length b + 12
unfolding be32
length-push_large (x, y, z) b h = omega (
  arith,
  length-append ((b ++ be32 x) ++ be32 y) (be32 z),
  length-append (b ++ be32 x) (be32 y),
  length-append b (be32 x),
)

-- Each list of the section takes its size there.
module _ (spec : RouteSpec) (p : ParsedRoute) (h : IsAccepted spec p) where
  communities_le : length p.std_comms * 4 ≤ length (from_list attr_communities p.std_comms)
  unfolding attr_communities
  communities_le =
      from_list_ge attr_communities 4 p.std_comms
        (attribute-each_ge u32 4 IsU32 length-push_u32 _ _ p.std_comms h.std_words)

  clusters_le : length p.cluster_list * 4 ≤ length (from_list attr_cluster_list p.cluster_list)
  unfolding attr_cluster_list
  clusters_le =
      from_list_ge attr_cluster_list 4 p.cluster_list (
        attribute-each_ge bytes 4 (HasLength 4) (length-push_bytes 4) _ _ p.cluster_list h.clusters)

  ext_le : length p.ext_comms * 8 ≤ length (from_list attr_ext_communities p.ext_comms)
  unfolding attr_ext_communities
  ext_le =
      from_list_ge attr_ext_communities 8 p.ext_comms
        (attribute-each_ge bytes 8 (HasLength 8) (length-push_bytes 8) _ _ p.ext_comms h.ext_octets)

  ipv6_le :
      length p.ipv6_ext_comms * 20 ≤ length (from_list attr_ipv6_ext_communities p.ipv6_ext_comms)
  unfolding attr_ipv6_ext_communities
  ipv6_le = from_list_ge attr_ipv6_ext_communities 20 p.ipv6_ext_comms (
      attribute-each_ge bytes 20 (HasLength 20) (length-push_bytes 20) _ _ p.ipv6_ext_comms
        h.ipv6_octets)

  large_le : length p.large_comms * 12 ≤ length (from_list attr_large_communities p.large_comms)
  unfolding attr_large_communities
  large_le =
      from_list_ge attr_large_communities 12 p.large_comms
        (attribute-each_ge push_large 12 IsLarge length-push_large _ _ p.large_comms h.large_words)

  section_parts_le :
      length (from_list attr_communities p.std_comms)
        + length (from_list attr_cluster_list p.cluster_list)
        + length (from_list attr_ext_communities p.ext_comms)
        + length (from_list attr_ipv6_ext_communities p.ipv6_ext_comms)
        + length (from_list attr_large_communities p.large_comms)
      ≤ length (tail_attrs p spec)
  unfolding tail_attrs
  section_parts_le = simp (length-append) (omega arith)

path_words_of :
    (o : Option (List ℕ)) → All IsU32 (unwrap_or o []) → All IsU32 (unwrap_or o (64500 ∷ []))
path_words_of none h = (omega arith, tt)
path_words_of (some path) h = h

pub accepted-IsWire :
    (spec : RouteSpec) (p : ParsedRoute)
    → IsTyped spec
    → IsAccepted spec p
    → length (tail_attrs p spec) ≤ 65535
    → IsWire p spec
accepted-IsWire spec p typed h fits = record {
  path_words = subst (All IsU32) (sym h.path) (path_words_of spec.as_path typed.path_words);
  path_fits = omega (arith, h.path_fits);
  med_word = typed.med_word;
  local_pref_word = typed.local_pref_word;
  aggregator_word = h.aggregator;
  std_words = h.std_words;
  std_fits = omega (arith, communities_le spec p h, section_parts_le spec p h);
  originator_octets = h.originator;
  cluster_octets = h.clusters;
  cluster_fits = omega (arith, clusters_le spec p h, section_parts_le spec p h);
  ext_octets = h.ext_octets;
  ext_fits = omega (arith, ext_le spec p h, section_parts_le spec p h);
  ipv6_octets = h.ipv6_octets;
  ipv6_fits = omega (arith, ipv6_le spec p h, section_parts_le spec p h);
  aigp_word = typed.aigp_word;
  large_words = h.large_words;
  large_fits = omega (arith, large_le spec p h, section_parts_le spec p h);
}

-- No attribute of the input's own, none to read.
pub no_raws :
    (spec : RouteSpec) (p : ParsedRoute) (c : Context)
    → IsAccepted spec p
    → spec.raw_attributes ≡ []
    → RawMeanings c p.raw_attrs []
no_raws spec p c accepted none_given =
    subst (λ (rs : List (ℕ × ℕ × Bytes)). RawMeanings c rs [])
      (ok-injective (ap (collect parse_raw_attribute) (sym none_given) ∙ accepted.raws)) tt
