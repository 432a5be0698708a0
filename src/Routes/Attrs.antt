-- ===== src/Routes/Attrs.antt =====
-- `with_path_id`, `attr_as_path` and `common_attrs` of src/routes.rs.
pub mod Meanings
pub mod Wire
use mrtgen.Base.{
  ℕ, ◌+◌, ◌++◌, [], ◌∷◌, List, Bool, true, false, Option, none, some, Bytes, be32, if◌then◌else◌,
}
use mrtgen.Types
use mrtgen.Bgp.Attr.{
  attribute, attr_origin, attr_as_path_4b, attr_med, attr_local_pref, attr_atomic_aggregate,
  attr_aggregator_4b, attr_communities, attr_originator_id, attr_cluster_list, attr_ext_communities,
  attr_ipv6_ext_communities, attr_aigp, attr_large_communities,
}
use mrtgen.Routes.Spec.{RouteSpec, ParsedRoute}

unfoldable pub with_path_id : Option ℕ → Bytes → Bytes
with_path_id none nlri = nlri
with_path_id (some id) nlri = be32 id ++ nlri

unfoldable pub attr_as_path : List ℕ → Bytes
attr_as_path [] = attribute Types.flag_transitive Types.attr_as_path []
attr_as_path (a ∷ asns) = attr_as_path_4b (a ∷ asns)

-- `if let Some(v) = .. { tail.extend(encode(v)); }`
abbrev pub from_some {ℓ} : {A : Type ℓ} → (A → Bytes) → Option A → Bytes
from_some encode none = []
from_some encode (some v) = encode v

-- `if !vs.is_empty() { tail.extend(encode(&vs)); }`
abbrev pub from_list {ℓ} : {A : Type ℓ} → (List A → Bytes) → List A → Bytes
from_list encode [] = []
from_list encode (v ∷ vs) = encode (v ∷ vs)

unfoldable pub raw_attributes : List (ℕ × ℕ × Bytes) → Bytes
raw_attributes [] = []
raw_attributes ((flags, code, value) ∷ raws) = attribute flags code value ++ raw_attributes raws

unfoldable pub head_attrs : ParsedRoute → Bytes
head_attrs p = attr_origin p.origin ++ attr_as_path p.as_path

unfoldable pub tail_attrs : ParsedRoute → RouteSpec → Bytes
tail_attrs p spec =
    from_some attr_med spec.med
    ++ (from_some attr_local_pref spec.local_pref
        ++ ((if spec.atomic_aggregate then attr_atomic_aggregate else [])
            ++ (from_some (λ (asn, id). attr_aggregator_4b asn id) p.aggregator
                ++ (from_list attr_communities p.std_comms
                    ++ (from_some attr_originator_id p.originator_id
                        ++ (from_list attr_cluster_list p.cluster_list
                            ++ (from_list attr_ext_communities p.ext_comms
                                ++ (from_list attr_ipv6_ext_communities p.ipv6_ext_comms
                                    ++ (from_some attr_aigp spec.aigp
                                        ++ (from_list attr_large_communities p.large_comms
                                            ++ raw_attributes p.raw_attrs))))))))))

abbrev pub common_attrs : ParsedRoute → RouteSpec → Bytes × Bytes
common_attrs p spec = (head_attrs p, tail_attrs p spec)
