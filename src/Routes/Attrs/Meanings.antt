-- ===== src/Routes/Attrs/Meanings.antt =====
-- The attributes that `common_attrs` of src/routes.rs writes, as a decoder understands them.
use mrtgen.Base.{
  ℕ, ◌*◌, ◌≡◌, refl, ◌++◌, [], ◌∷◌, List, Bool, true, false, Option, none, some, arith, Bytes, All,
  IsU8, IsU16, IsU32, IsU64, length, if◌then◌else◌,
}
use mrtgen.Bgp.Attr.{
  attribute, attr_atomic_aggregate, attr_communities, attr_cluster_list, attr_ext_communities,
  attr_ipv6_ext_communities, attr_large_communities,
}
use mrtgen.Bgp.Attr.Tlv.{attr_of}
use mrtgen.Bgp.Attr.Values.{AsPath, Context, Meaning, interpret, read_as_path}
use mrtgen.Bgp.Attr.Meanings.{
  Encodes, decode, nil-Encodes, append-Encodes, decode-Encodes, attribute-Encodes,
}
use mrtgen.Bgp.Attr.Meanings.Scalars.{
  attr_origin-Encodes, attr_med-Encodes, attr_local_pref-Encodes, attr_atomic_aggregate-Encodes,
  attr_aggregator_4b-Encodes, attr_originator_id-Encodes, attr_aigp-Encodes,
}
use mrtgen.Bgp.Attr.Meanings.Lists.{
  attr_as_path_4b-Encodes, attr_communities-Encodes, attr_cluster_list-Encodes,
  attr_ext_communities-Encodes, attr_ipv6_ext_communities-Encodes, attr_large_communities-Encodes,
  HasLength, IsLarge,
}
use mrtgen.Routes.Spec.{RouteSpec, ParsedRoute}
use mrtgen.Routes.Attrs.{attr_as_path, from_some, from_list, raw_attributes, head_attrs, tail_attrs}

-- A field that is there if the option is, and a list that is there unless it is empty.
abbrev meant_some {ℓ} : {A : Type ℓ} → (A → Meaning) → Option A → List Meaning
meant_some mean none = []
meant_some mean (some v) = mean v ∷ []

abbrev meant_list {ℓ} : {A : Type ℓ} → (List A → Meaning) → List A → List Meaning
meant_list mean [] = []
meant_list mean (v ∷ vs) = mean (v ∷ vs) ∷ []

abbrev path_of : List ℕ → AsPath
path_of [] = AsPath.empty
path_of (a ∷ asns) = AsPath.segment 2 (a ∷ asns)

-- A raw attribute, read in context as any other.
abbrev RawMeaning : Context → ℕ × ℕ × Bytes → Meaning → Type 0
RawMeaning c (flags, code, value) m =
    IsU8 flags × IsU16 (length value) × (interpret c (attr_of flags code value) ≡ some m)

abbrev pub RawMeanings : Context → List (ℕ × ℕ × Bytes) → List Meaning → Type 0
RawMeanings c [] [] = Unit {0}
RawMeanings c (r ∷ rs) (m ∷ ms) = RawMeaning c r m × RawMeanings c rs ms
RawMeanings c _ _ = ⊥

-- What the encoder takes: machine words, addresses of four octets, communities of their size, one path
-- segment of at most 255 AS numbers, and lists whose value fits an attribute.
pub record IsWire (p : ParsedRoute) (spec : RouteSpec) : Type 0 where
  pub path_words : All IsU32 p.as_path
  pub path_fits : IsU8 (length p.as_path)
  pub med_word : (v : ℕ) → spec.med ≡ some v → IsU32 v
  pub local_pref_word : (v : ℕ) → spec.local_pref ≡ some v → IsU32 v
  pub aggregator_word : (v : ℕ × Bytes) → p.aggregator ≡ some v → IsU32 v.0 × HasLength 4 v.1
  pub std_words : All IsU32 p.std_comms
  pub std_fits : IsU16 (length p.std_comms * 4)
  pub originator_octets : (v : Bytes) → p.originator_id ≡ some v → HasLength 4 v
  pub cluster_octets : All (HasLength 4) p.cluster_list
  pub cluster_fits : IsU16 (length p.cluster_list * 4)
  pub ext_octets : All (HasLength 8) p.ext_comms
  pub ext_fits : IsU16 (length p.ext_comms * 8)
  pub ipv6_octets : All (HasLength 20) p.ipv6_ext_comms
  pub ipv6_fits : IsU16 (length p.ipv6_ext_comms * 20)
  pub aigp_word : (v : ℕ) → spec.aigp ≡ some v → IsU64 v
  pub large_words : All IsLarge p.large_comms
  pub large_fits : IsU16 (length p.large_comms * 12)

from_some-Encodes {ℓ} :
    {A : Type ℓ} (c : Context) (encode : A → Bytes) (mean : A → Meaning) (o : Option A)
    → ((v : A) → o ≡ some v → Encodes c (encode v) (mean v ∷ []))
    → Encodes c (from_some encode o) (meant_some mean o)
from_some-Encodes c encode mean none h = nil-Encodes c
from_some-Encodes c encode mean (some v) h = h v refl

from_list-Encodes {ℓ} :
    {A : Type ℓ} (c : Context) (encode : List A → Bytes) (mean : List A → Meaning) (vs : List A)
    → Encodes c (encode vs) (mean vs ∷ [])
    → Encodes c (from_list encode vs) (meant_list mean vs)
from_list-Encodes c encode mean [] h = nil-Encodes c
from_list-Encodes c encode mean (v ∷ vs) h = h

raw_attributes-Encodes :
    (c : Context) (raws : List (ℕ × ℕ × Bytes)) (ms : List Meaning)
    → RawMeanings c raws ms
    → Encodes c (raw_attributes raws) ms
unfolding raw_attributes
raw_attributes-Encodes c [] [] h = nil-Encodes c
raw_attributes-Encodes c [] (m ∷ ms) h = absurd h
raw_attributes-Encodes c (r ∷ raws) [] h = absurd h
raw_attributes-Encodes c ((flags, code, value) ∷ raws) (m ∷ ms) ((hf, hv, e), hs) =
    append-Encodes c (attribute flags code value) (raw_attributes raws) (m ∷ []) ms
      (attribute-Encodes c flags code value m hf hv e) (raw_attributes-Encodes c raws ms hs)

attr_as_path-Encodes :
    (c : Context) (asns : List ℕ)
    → All IsU32 asns
    → IsU8 (length asns)
    → Encodes c (attr_as_path asns) (Meaning.as_path (path_of asns) ∷ [])
unfolding attr_as_path read_as_path
attr_as_path-Encodes c [] h k = attribute-Encodes c _ _ [] _ (omega arith) (omega arith) refl
attr_as_path-Encodes c (a ∷ asns) h k = attr_as_path_4b-Encodes c (a ∷ asns) h k

meant_flag : Bool → List Meaning
meant_flag true = Meaning.atomic_aggregate ∷ []
meant_flag false = []

atomic-Encodes :
    (c : Context) (b : Bool) → Encodes c (if b then attr_atomic_aggregate else []) (meant_flag b)
unfolding meant_flag
atomic-Encodes c true = attr_atomic_aggregate-Encodes c
atomic-Encodes c false = nil-Encodes c

abbrev pub head_meanings : ParsedRoute → List Meaning
head_meanings p = (Meaning.origin p.origin ∷ []) ++ (Meaning.as_path (path_of p.as_path) ∷ [])

unfoldable pub tail_meanings : ParsedRoute → RouteSpec → List Meaning → List Meaning
unfolding meant_flag
tail_meanings p spec raws =
    meant_some Meaning.med spec.med
    ++ (meant_some Meaning.local_pref spec.local_pref
        ++ (meant_flag spec.atomic_aggregate
            ++ (meant_some (λ (asn, id). Meaning.aggregator asn id) p.aggregator
                ++ (meant_list Meaning.communities p.std_comms
                    ++ (meant_some Meaning.originator_id p.originator_id
                        ++ (meant_list Meaning.cluster_list p.cluster_list
                            ++ (meant_list Meaning.ext_communities p.ext_comms
                                ++ (meant_list Meaning.ipv6_ext_communities p.ipv6_ext_comms
                                    ++ (meant_some Meaning.aigp spec.aigp
                                        ++ (meant_list Meaning.large_communities p.large_comms
                                            ++ raws))))))))))

head_attrs-Encodes :
    (c : Context) (p : ParsedRoute) (spec : RouteSpec)
    → IsWire p spec
    → Encodes c (head_attrs p) (head_meanings p)
unfolding head_attrs
head_attrs-Encodes c p spec h =
    append-Encodes c _ _ (Meaning.origin p.origin ∷ []) (Meaning.as_path (path_of p.as_path) ∷ [])
      (attr_origin-Encodes c p.origin) (attr_as_path-Encodes c p.as_path h.path_words h.path_fits)

tail_attrs-Encodes :
    (c : Context) (p : ParsedRoute) (spec : RouteSpec) (raws : List Meaning)
    → IsWire p spec
    → RawMeanings c p.raw_attrs raws
    → Encodes c (tail_attrs p spec) (tail_meanings p spec raws)
unfolding tail_attrs tail_meanings
tail_attrs-Encodes c p spec raws h raw =
    append-Encodes c _ _ _ _
      (from_some-Encodes c _ _ spec.med (λ v e. attr_med-Encodes c v (h.med_word v e)))
      (append-Encodes c _ _ _ _
        (from_some-Encodes c _ _ spec.local_pref
          (λ v e. attr_local_pref-Encodes c v (h.local_pref_word v e)))
        (append-Encodes c _ _ _ _ (atomic-Encodes c spec.atomic_aggregate) (
          append-Encodes c _ _ _ _
            (from_some-Encodes c _ _ p.aggregator (λ (asn, id) e.
              attr_aggregator_4b-Encodes c asn id (h.aggregator_word (asn, id) e).0
                (h.aggregator_word (asn, id) e).1))
            (append-Encodes c _ _ _ _
              (from_list-Encodes c attr_communities Meaning.communities p.std_comms
                (attr_communities-Encodes c p.std_comms h.std_words h.std_fits))
              (append-Encodes c _ _ _ _
                (from_some-Encodes c _ _ p.originator_id
                  (λ v e. attr_originator_id-Encodes c v (h.originator_octets v e)))
                (append-Encodes c _ _ _ _
                  (from_list-Encodes c attr_cluster_list Meaning.cluster_list p.cluster_list
                    (attr_cluster_list-Encodes c p.cluster_list h.cluster_octets h.cluster_fits))
                  (append-Encodes c _ _ _ _
                    (from_list-Encodes c attr_ext_communities Meaning.ext_communities p.ext_comms
                      (attr_ext_communities-Encodes c p.ext_comms h.ext_octets h.ext_fits))
                    (append-Encodes c _ _ _ _
                      (from_list-Encodes c attr_ipv6_ext_communities Meaning.ipv6_ext_communities
                        p.ipv6_ext_comms
                        (attr_ipv6_ext_communities-Encodes c p.ipv6_ext_comms h.ipv6_octets
                          h.ipv6_fits))
                      (append-Encodes c _ _ _ _
                        (from_some-Encodes c _ _ spec.aigp
                          (λ v e. attr_aigp-Encodes c v (h.aigp_word v e)))
                        (append-Encodes c _ _ _ _
                          (from_list-Encodes c attr_large_communities Meaning.large_communities
                            p.large_comms
                            (attr_large_communities-Encodes c p.large_comms h.large_words
                              h.large_fits))
                          (raw_attributes-Encodes c p.raw_attrs raws raw)))))))))))

-- The attributes of a route, with any next-hop attribute between the two parts, decode to the
-- origin, the AS path, the next hop, each field that the route carries, and the raw attributes,
-- in that order, if the route's values fit their wire form and the raw attributes have a
-- meaning.
pub decode-route_attrs :
    (c : Context) (p : ParsedRoute) (spec : RouteSpec) (carrier : Bytes) (hops raws : List Meaning)
    → IsWire p spec
    → Encodes c carrier hops
    → RawMeanings c p.raw_attrs raws
    → decode c ((head_attrs p ++ carrier) ++ tail_attrs p spec)
      ≡ some ((head_meanings p ++ hops) ++ tail_meanings p spec raws)
decode-route_attrs c p spec carrier hops raws h hop raw = decode-Encodes c _ _ (
    append-Encodes c _ _ (head_meanings p ++ hops) (tail_meanings p spec raws)
      (append-Encodes c _ _ (head_meanings p) hops (head_attrs-Encodes c p spec h) hop)
      (tail_attrs-Encodes c p spec raws h raw))
