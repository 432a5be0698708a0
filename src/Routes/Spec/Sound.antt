-- ===== src/Routes/Spec/Sound.antt =====
-- What the next hop, the origin and the flow specification actions of src/routes.rs come out as.
use Prim.Native.String.{String}
use mrtgen.Base.{
  ℕ, ◌≤◌, ◌≡◌, refl, List, Bool, true, false, ◌||◌, Option, none, some, arith, Bytes, All,
  All-append, ltb, is_some, be32, length, subst, Bool-cases, inl, inr,
}
use mrtgen.Text.Address.{parse_ipv4, parse_ipv6}
use mrtgen.Text.Address.Lengths.{length-parse_ipv4, length-parse_ipv6}
use mrtgen.Bgp.Attr.Meanings.Lists.{HasLength}
use mrtgen.Routes.Prefix.Sound.{width_of}
use mrtgen.Routes.Communities.{redirect_community}
use mrtgen.Routes.Communities.Identifiers.{redirect_community-HasLength}
use mrtgen.Routes.Spec.{
  Actions, OriginSpec, code, name, parse_nexthop, parse_origin, rate_refused, rate_community,
  rate_part, flags_part, redirect_part, marking_part, action_communities,
}
use mrtgen.Outcome.{bad_nexthop, ok, ok_or-ok, >>=-ok, ok-injective}

pub length-parse_nexthop :
    (s : Bytes) (v6 : Bool) {nh : Bytes} → parse_nexthop s v6 ≡ ok nh → length nh ≡ width_of v6
unfolding parse_nexthop
length-parse_nexthop s true h = length-parse_ipv6 s (ok_or-ok (parse_ipv6 s) bad_nexthop h)
length-parse_nexthop s false h = length-parse_ipv4 s (ok_or-ok (parse_ipv4 s) bad_nexthop h)

pub parse_origin-le : (o : Option OriginSpec) {v : ℕ} → parse_origin o ≡ ok v → v ≤ 2
unfolding parse_origin
parse_origin-le none h = ground arith
parse_origin-le (some (code c)) h = ground arith
parse_origin-le (some (name n)) h = ground arith

rate_part-HasLength :
    (subtype : ℕ) (rate : Option ℕ) (what : String) {cs : List Bytes}
    → rate_part subtype rate what ≡ ok cs
    → All (HasLength 8) cs
unfolding rate_community be32
rate_part-HasLength subtype none what h = subst (All (HasLength 8)) (ok-injective h) tt
rate_part-HasLength subtype (some rate) what h = elim (Bool-cases (rate_refused rate)) [
  | inl refused ↦ absurd (cc (rw (refused, rate_part) at h))
  | inr fits ↦ subst (All (HasLength 8)) (ok-injective (rw (fits, rate_part) at h)) (refl, tt)
]

flags_part-HasLength : (a : Actions) → All (HasLength 8) (flags_part a)
flags_part-HasLength a = elim (Bool-cases (is_some a.terminal_action || is_some a.sample)) [
  | inl set ↦ rw set (refl, tt)
  | inr unset ↦ rw unset tt
]

redirect_part-HasLength :
    (r : Option Bytes) {cs : List Bytes} → redirect_part r ≡ ok cs → All (HasLength 8) cs
redirect_part-HasLength none h = subst (All (HasLength 8)) (ok-injective h) tt
redirect_part-HasLength (some r) h =
    let (c, e, made) = >>=-ok (redirect_community r) _ h in
    subst (All (HasLength 8)) (ok-injective made) (redirect_community-HasLength r e, tt)

marking_part-HasLength :
    (m : Option ℕ) {cs : List Bytes} → marking_part m ≡ ok cs → All (HasLength 8) cs
marking_part-HasLength none h = subst (All (HasLength 8)) (ok-injective h) tt
marking_part-HasLength (some dscp) h = elim (Bool-cases (ltb 63 dscp)) [
  | inl over ↦ absurd (cc (rw over at h))
  | inr fits ↦ subst (All (HasLength 8)) (ok-injective (rw fits at h)) (refl, tt)
]

-- The actions are extended communities of eight bytes each.
pub action_communities-HasLength :
    (a : Actions) {cs : List Bytes} → action_communities a ≡ ok cs → All (HasLength 8) cs
unfolding action_communities
action_communities-HasLength a h =
    let (bytes, e₁, h₁) =
      >>=-ok (rate_part 0x06 a.rate_limit_bytes "actions.rate_limit_bytes") _ h in
    let (packets, e₂, h₂) =
      >>=-ok (rate_part 0x0c a.rate_limit_packets "actions.rate_limit_packets") _ h₁ in
    let (redirect, e₃, h₃) = >>=-ok (redirect_part a.redirect) _ h₂ in
    let (marking, e₄, made) = >>=-ok (marking_part a.traffic_marking) _ h₃ in
    subst (All (HasLength 8)) (ok-injective made) (
      All-append _ bytes _
        (rate_part-HasLength 0x06 a.rate_limit_bytes "actions.rate_limit_bytes" e₁)
        (All-append _ packets _
          (rate_part-HasLength 0x0c a.rate_limit_packets "actions.rate_limit_packets" e₂)
          (All-append _ (flags_part a) _ (flags_part-HasLength a) (
            All-append _ redirect _ (redirect_part-HasLength a.redirect e₃)
              (marking_part-HasLength a.traffic_marking e₄)))))
