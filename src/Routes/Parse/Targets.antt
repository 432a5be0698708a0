-- ===== src/Routes/Parse/Targets.antt =====
-- What a route that `parse_route` of src/routes.rs accepts announces, and its next hop.
use mrtgen.Base.{
  ℕ, ◌≡◌, refl, [], Bool, true, false, Option, none, some, Bytes, length, is_some, subst,
  Bool-cases, inl, inr, ◌⊎◌, ap, sym, ◌∙◌,
}
use mrtgen.Manifest.{valid}
use mrtgen.Bgp.Nlri.Reading.{IsCanonical}
use mrtgen.FlowSpec.Encode.{FlowSpec, encode_nlri}
use mrtgen.Routes.Prefix.{parse_prefix, prefix_has_host_bits}
use mrtgen.Routes.Prefix.Sound.{
  IsPrefix, width_of, parse_prefix-IsPrefix, prefix_has_host_bits-IsCanonical,
}
use mrtgen.Routes.Prefix.Hosts.{IsHostFree, prefix_has_host_bits-IsHostFree}
use mrtgen.Routes.Spec.Sound.{length-parse_nexthop}
use mrtgen.Routes.Parse.{
  Target, prefix_target, valid_flowspec, flowspec_target, target_of, nexthop_of,
}
use mrtgen.Outcome.{
  prefix_host_bits, ok, or_panic, refuse_if, or_panic-ok, refuse_if-ok, >>=-ok, ok-injective,
}

-- A prefix in its family's width with no host bit set, or a flow specification, which has none.
abbrev pub IsTarget : Bool → Bytes → ℕ → Option Bytes → Type 0
IsTarget v6 prefix bits none =
    IsPrefix v6 prefix bits × IsCanonical prefix bits × IsHostFree bits prefix
IsTarget v6 prefix bits (some flow) = (prefix ≡ []) × (bits ≡ 0)

-- An address of the route's family; a flow specification may do without.
abbrev pub IsNexthop : Bool → Option Bytes → Bytes → Type 0
IsNexthop v6 none nh = length nh ≡ width_of v6
IsNexthop v6 (some flow) nh = (length nh ≡ width_of v6) ⊎ (nh ≡ [])

abbrev IsFound : Target → Type 0
IsFound t = IsTarget t.v6 t.prefix t.bits t.flow_nlri

prefix_target-IsFound : (pfx : Bytes) (t : Target) → prefix_target pfx valid ≡ ok t → IsFound t
prefix_target-IsFound pfx t h =
    let (p, e₁, h₁) = >>=-ok (parse_prefix pfx) _ h in
    let (set, e₂, h₂) = >>=-ok (or_panic (prefix_has_host_bits p.addr p.bits)) _ h₁ in
    let (u, e₃, made) = >>=-ok (refuse_if set prefix_host_bits) _ h₂ in
    let clear : prefix_has_host_bits p.addr p.bits ≡ some false =
      or_panic-ok _ e₂ ∙ ap (λ (b : Bool). some b) (refuse_if-ok set prefix_host_bits e₃) in
    subst IsFound (ok-injective made) (
      parse_prefix-IsPrefix pfx p e₁,
      prefix_has_host_bits-IsCanonical p.addr p.bits clear,
      prefix_has_host_bits-IsHostFree p.addr p.bits clear,
    )

flowspec_target-IsFound : (fs : FlowSpec) (t : Target) → flowspec_target fs valid ≡ ok t → IsFound t
flowspec_target-IsFound fs t h =
    let (u, checked, h₁) = >>=-ok (valid_flowspec fs) _ h in
    let ((nlri, v6), e, made) = >>=-ok (encode_nlri fs) _ h₁ in
    subst IsFound (ok-injective made) (refl, refl)

pub target_of-IsFound :
    (pfx : Option Bytes) (fs : Option FlowSpec) (t : Target)
    → target_of pfx fs valid ≡ ok t
    → IsFound t
unfolding target_of
target_of-IsFound (some pfx) (some fs) t h = cc
target_of-IsFound none none t h = cc
target_of-IsFound (some pfx) none t h = prefix_target-IsFound pfx t h
target_of-IsFound none (some fs) t h = flowspec_target-IsFound fs t h

weaken-IsNexthop :
    (v6 : Bool) (flow : Option Bytes) (nh : Bytes) → length nh ≡ width_of v6 → IsNexthop v6 flow nh
weaken-IsNexthop v6 none nh h = h
weaken-IsNexthop v6 (some flow) nh h = inl h

empty-IsNexthop :
    (v6 : Bool) (flow : Option Bytes) (nh : Bytes)
    → is_some flow ≡ true
    → nh ≡ []
    → IsNexthop v6 flow nh
empty-IsNexthop v6 none nh h e = cc
empty-IsNexthop v6 (some flow) nh h e = inr e

pub nexthop_of-IsNexthop :
    (s : Option Bytes) (t : Target) (nh : Bytes)
    → nexthop_of s t ≡ ok nh
    → IsNexthop t.v6 t.flow_nlri nh
nexthop_of-IsNexthop (some s) t nh h =
    weaken-IsNexthop t.v6 t.flow_nlri nh (length-parse_nexthop s t.v6 h)
nexthop_of-IsNexthop none t nh h = elim (Bool-cases (is_some t.flow_nlri)) [
  | inl flow ↦
      empty-IsNexthop t.v6 t.flow_nlri nh flow (sym (ok-injective (rw (flow, nexthop_of) at h)))
  | inr plain ↦ absurd (cc (rw (plain, nexthop_of) at h))
]
