-- ===== src/Routes/Parse/Sound.antt =====
-- What a route that `parse_route` of src/routes.rs accepts satisfies.
use mrtgen.Base.{
  ℕ, ◌<◌, ◌≤◌, ◌≡◌, refl, [], ◌∷◌, List, false, ◌&&◌, not, Option, none, some, arith, Bytes, All,
  All-append, IsU32, length, leb, ltb, is_some, unwrap_or, subst,
}
use mrtgen.Manifest.{valid}
use mrtgen.Bgp.Attr.Meanings.Lists.{HasLength, IsLarge}
use mrtgen.Routes.Communities.{
  parse_std_community, parse_ext_community, parse_ipv6_ext_community, parse_rd, parse_aggregator,
  parse_router_id, parse_large_community,
}
use mrtgen.Routes.Communities.Sizes.{
  parse_std_community-IsU32, parse_ext_community-HasLength, parse_ipv6_ext_community-HasLength,
}
use mrtgen.Routes.Communities.Identifiers.{
  IsAggregator, parse_rd-HasLength, parse_aggregator-IsAggregator, parse_router_id-HasLength,
  parse_large_community-IsLarge,
}
use mrtgen.Routes.Spec.{
  RouteSpec, ParsedRoute, Actions, route_expect, parse_origin, parse_raw_attribute,
}
use mrtgen.Routes.Spec.Sound.{parse_origin-le, action_communities-HasLength}
use mrtgen.Routes.Parse.{
  Target, target_of, nexthop_of, actions_of, check_vpn, parse_fields, parse_route,
}
use mrtgen.Outcome.{
  in_route, actions_without_flowspec, rd_with_flowspec, label_without_rd, label_too_large,
  as_path_too_long, ok, refuse_if, collect, transpose, refuse_if-ok, map_err-ok, >>=-ok, >>=-elim,
  ok-injective, collect-All, transpose-ok,
}
use mrtgen.Routes.Parse.Targets.{IsTarget, IsNexthop, target_of-IsFound, nexthop_of-IsNexthop}

-- A route that is meant to be valid, as its encoders take it.
pub record IsAccepted (spec : RouteSpec) (p : ParsedRoute) : Type 0 where
  pub target : IsTarget p.v6 p.prefix p.bits p.flow_nlri
  pub nexthop : IsNexthop p.v6 p.flow_nlri p.nexthop
  origin_small : p.origin ≤ 2
  pub path : p.as_path ≡ unwrap_or spec.as_path (64500 ∷ [])
  pub path_fits : length p.as_path ≤ 255
  pub std_words : All IsU32 p.std_comms
  pub aggregator : (v : ℕ × Bytes) → p.aggregator ≡ some v → IsAggregator v
  pub originator : (v : Bytes) → p.originator_id ≡ some v → HasLength 4 v
  pub clusters : All (HasLength 4) p.cluster_list
  pub ext_octets : All (HasLength 8) p.ext_comms
  pub ipv6_octets : All (HasLength 20) p.ipv6_ext_comms
  pub large_words : All IsLarge p.large_comms
  pub rd_octets : (v : Bytes) → p.rd ≡ some v → HasLength 8 v
  rd_alone : (is_some p.rd && is_some p.flow_nlri) ≡ false
  pub label_small : p.label < 1048576
  pub raws : collect parse_raw_attribute spec.raw_attributes ≡ ok p.raw_attrs
  pub expects : p.expect ≡ valid

actions_of-HasLength :
    (a : Option Actions) {cs : List Bytes} → actions_of a ≡ ok cs → All (HasLength 8) cs
actions_of-HasLength none h = subst (All (HasLength 8)) (ok-injective h) tt
actions_of-HasLength (some a) h = action_communities-HasLength a h

check_vpn_sound :
    (r : RouteSpec) (t : Target) (rd : Option Bytes) {u : Unit {0}}
    → check_vpn r t rd ≡ ok u
    → ((is_some rd && is_some t.flow_nlri) ≡ false) × (unwrap_or r.label 0 < 1048576)
unfolding check_vpn
check_vpn_sound r t rd h =
    let (u₁, e₁, h₁) =
      >>=-ok (refuse_if (is_some rd && is_some t.flow_nlri) rd_with_flowspec) _ h in
    let (u₂, e₂, h₂) =
      >>=-ok (refuse_if (is_some r.label && not (is_some rd)) label_without_rd) _ h₁ in
    let small = refuse_if-ok (leb 1048576 (unwrap_or r.label 0)) label_too_large h₂ in
    (refuse_if-ok (is_some rd && is_some t.flow_nlri) rd_with_flowspec e₁, ground arith)

parse_fields-IsAccepted :
    (r : RouteSpec) (p : ParsedRoute) → parse_fields valid r ≡ ok p → IsAccepted r p
unfolding parse_fields
parse_fields-IsAccepted r p h =
    let path = unwrap_or r.as_path (64500 ∷ []) in
    >>=-elim (target_of r.prefix r.flowspec valid) h (λ t e₁ h₁.
      >>=-elim (refuse_if (is_some r.actions && not (is_some r.flowspec)) actions_without_flowspec)
        h₁
        (λ u₁ e₂ h₂. >>=-elim (transpose parse_rd r.rd) h₂ (λ rd e₃ h₃.
          >>=-elim (check_vpn r t rd) h₃ (λ u₂ e₄ h₄.
            >>=-elim (nexthop_of r.nexthop t) h₄ (λ nh e₅ h₅.
              >>=-elim (collect parse_ext_community r.extended_communities) h₅ (λ exts e₆ h₆.
                >>=-elim (actions_of r.actions) h₆ (λ acts e₇ h₇.
                  >>=-elim (refuse_if (ltb 255 (length path)) as_path_too_long) h₇ (λ u₃ e₈ h₈.
                    >>=-elim (parse_origin r.origin) h₈ (λ origin e₉ h₉.
                      >>=-elim (collect parse_std_community r.standard_communities) h₉
                        (λ std e₁₀ h₁₀.
                          >>=-elim (transpose parse_aggregator r.aggregator) h₁₀ (λ aggr e₁₁ h₁₁.
                            >>=-elim
                              (transpose (λ s. parse_router_id s "originator_id") r.originator_id)
                              h₁₁
                              (λ orig e₁₂ h₁₂.
                                >>=-elim
                                  (collect (λ s. parse_router_id s "cluster_list") r.cluster_list)
                                  h₁₂
                                  (λ clusters e₁₃ h₁₃.
                                    >>=-elim
                                      (collect parse_ipv6_ext_community r.ipv6_extended_communities)
                                      h₁₃
                                      (λ ipv6 e₁₄ h₁₄.
                                        >>=-elim (collect parse_large_community r.large_communities)
                                          h₁₄
                                          (λ large e₁₅ h₁₅.
                                            >>=-elim (collect parse_raw_attribute r.raw_attributes)
                                              h₁₅
                                              (λ raws e₁₆ made.
                                                let vpn = check_vpn_sound r t rd e₄ in
                                                let fits =
                                                  refuse_if-ok (ltb 255 (length path))
                                                    as_path_too_long e₈ in
                                                subst (IsAccepted r) (ok-injective made) (record {
                                                  target =
                                                      target_of-IsFound r.prefix r.flowspec t e₁;
                                                  nexthop = nexthop_of-IsNexthop r.nexthop t nh e₅;
                                                  origin_small = parse_origin-le r.origin e₉;
                                                  path = refl;
                                                  path_fits = ground arith;
                                                  std_words =
                                                      collect-All IsU32 parse_std_community
                                                        parse_std_community-IsU32 _ e₁₀;
                                                  aggregator =
                                                      transpose-ok IsAggregator parse_aggregator
                                                        parse_aggregator-IsAggregator r.aggregator
                                                        e₁₁;
                                                  originator =
                                                      transpose-ok (HasLength 4) _
                                                        (parse_router_id-HasLength "originator_id")
                                                        r.originator_id e₁₂;
                                                  clusters =
                                                      collect-All (HasLength 4) _
                                                        (parse_router_id-HasLength "cluster_list")
                                                        r.cluster_list e₁₃;
                                                  ext_octets =
                                                      All-append (HasLength 8) exts acts
                                                        (collect-All (HasLength 8) _
                                                          parse_ext_community-HasLength
                                                          r.extended_communities e₆)
                                                        (actions_of-HasLength r.actions e₇);
                                                  ipv6_octets =
                                                      collect-All (HasLength 20) _
                                                        parse_ipv6_ext_community-HasLength
                                                        r.ipv6_extended_communities e₁₄;
                                                  large_words =
                                                      collect-All IsLarge _
                                                        parse_large_community-IsLarge
                                                        r.large_communities e₁₅;
                                                  rd_octets =
                                                      transpose-ok (HasLength 8) _
                                                        parse_rd-HasLength r.rd e₃;
                                                  rd_alone = vpn.0;
                                                  label_small = vpn.1;
                                                  raws = e₁₆;
                                                  expects = refl;
                                                })))))))))))))))))

-- The route is meant to be valid: no other expectation is asked for.
abbrev pub IsMeantValid : RouteSpec → Type 0
IsMeantValid r = unwrap_or r.expect valid ≡ valid

route_expect-valid : (i : ℕ) (r : RouteSpec) → IsMeantValid r → route_expect i r ≡ ok valid
unfolding route_expect
route_expect-valid i r h = rw (h, route_expect)

-- A route that is meant to be valid and that parse_route accepts is fit to be encoded: its
-- prefix is in range, in its family's width and has no bit set behind its length, in the octet
-- that it ends in or a later one, or it is a flow specification; the next hop has the width of
-- the family, and only a flow specification does without; the origin is at most 2, the AS path
-- is the given one or the default, of 255 at most; communities, router ids, cluster list and
-- Route Distinguisher have their sizes, a distinguisher is not beside a flow specification, the
-- label is below 2^20, and the raw attributes are the parsed ones.
pub parse_route-IsAccepted :
    (i : ℕ) (r : RouteSpec) (p : ParsedRoute)
    → IsMeantValid r
    → parse_route i r ≡ ok p
    → IsAccepted r p
unfolding parse_route
parse_route-IsAccepted i r p meant h =
    let wanted = route_expect-valid i r meant in
    parse_fields-IsAccepted r p (map_err-ok (in_route i) (parse_fields valid r) (rw wanted at h))
