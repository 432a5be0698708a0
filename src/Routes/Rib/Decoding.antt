-- ===== src/Routes/Rib/Decoding.antt =====
-- The record that `generate_from_routes` of src/routes.rs makes of a route in a table dump, as a reader
-- decodes it.
use Prim.Native.String.{String}
use mrtgen.Base.{
  ℕ, ◌≤◌, ◌≡◌, ◌++◌, [], ◌∷◌, false, Option, none, arith, Bytes, IsU32, length, length-append,
  subst, sym, ◌∙◌, ltb,
}
use mrtgen.Writer.{MrtRecord}
use mrtgen.Bgp.Attr.Values.{Context}
use mrtgen.Routes.Spec.{RouteSpec, ParsedRoute}
use mrtgen.Routes.Parse.Targets.{IsTarget, IsNexthop}
use mrtgen.Routes.Parse.Sound.{IsAccepted}
use mrtgen.Routes.Attrs.{head_attrs, tail_attrs}
use mrtgen.Routes.Attrs.Meanings.{head_meanings, tail_meanings, decode-route_attrs}
use mrtgen.Routes.Attrs.Wire.{IsTyped, accepted-IsWire, no_raws}
use mrtgen.Routes.Announced.{announcement_of, announced_parts, hop_of}
use mrtgen.Routes.Rib.{rib_next_hop, rib_route}
use mrtgen.Routes.Rib.Framed.{IsDumped, view_of}
use mrtgen.Routes.Rib.Read.{RibView}
use mrtgen.Outcome.{ok, refuse_if, refuse_if-ok, >>=-ok, in_route, attributes_too_long}
use mrtgen.Routes.Rib.Hop.{take_hop-behind, hop_by_parts, hop_parts-CarriesHop}
use mrtgen.Routes.Rib.Parts.{record_by_parts, record_parts-IsDumped}

-- The number of a route, the peer of its family, the timestamp, its attributes and what it announces.
abbrev pub view_of_route : RouteSpec → ParsedRoute → ℕ → ℕ → RibView
view_of_route spec p ts i =
    view_of i ts p.v6 (head_meanings p ++ tail_meanings p spec []) (announcement_of spec p)

-- The reader of RFC 6396 gets them.
abbrev IsRouteRecord : RouteSpec → ParsedRoute → ℕ → ℕ → MrtRecord → Type 0
IsRouteRecord spec p ts i r = IsDumped p.v6 ts (view_of_route spec p ts i) r

module _ (spec : RouteSpec) (p : ParsedRoute) (typed : IsTyped spec) (accepted : IsAccepted spec p)
    (none_given : spec.raw_attributes ≡ []) where
  -- The record of an accepted route, where one is made, gives the reader its route, if the route keeps
  -- to the types of its input, adds no raw attribute and is no flow specification.
  pub rib_route-IsRouteRecord :
      (ts i : ℕ) (made : MrtRecord × String)
      → IsU32 ts
      → p.flow_nlri ≡ none
      → rib_route ts i spec p ≡ ok made
      → IsRouteRecord spec p ts i made.0
  unfolding rib_route
  rib_route-IsRouteRecord ts i made stamp unicast h =
      let (carrier, found, h₁) = >>=-ok (rib_next_hop p) _ h in
      let attrs = (head_attrs p ++ carrier) ++ tail_attrs p spec in
      let (u, checked, h₂) =
        >>=-ok (refuse_if (ltb 65535 (length attrs)) (in_route i attributes_too_long)) _ h₁ in
      let fits : length attrs ≤ 65535 = limit attrs (refuse_if-ok _ _ checked) in
      let (pfx, canonical, clear) = unicast_target p unicast accepted.target in
      let (m, encodes, hop) =
        hop_parts-CarriesHop p.v6 p.nexthop p.rd carrier
          (unicast_nexthop p unicast accepted.nexthop) (sym (hop_by_parts p) ∙ found) in
      let wire =
        accepted-IsWire spec p typed accepted
          (omega (arith, fits, length-append (head_attrs p ++ carrier) (tail_attrs p spec))) in
      let decoded =
        decode-route_attrs Context.rib p spec carrier (m ∷ []) [] wire encodes
          (no_raws spec p Context.rib accepted none_given) in
      subst
        (λ (rule : Option Bytes).
          IsDumped p.v6 ts
            (view_of i ts p.v6 (head_meanings p ++ tail_meanings p spec [])
              (announced_parts spec.path_id p.v6 p.prefix p.bits p.nexthop p.label rule p.rd))
            made.0)
        (sym unicast)
        (record_parts-IsDumped ts i p.v6 spec.path_id p.prefix p.bits p.label attrs p.nexthop _
          (head_meanings p ++ tail_meanings p spec []) stamp typed.path_id_word pfx canonical fits
          decoded p.rd
          (take_hop-behind m (hop_of none p.rd p.nexthop) p (tail_meanings p spec []) hop)
          accepted.label_small accepted.rd_octets made
          (sym (record_by_parts ts i spec p attrs) ∙ h₂))
    where
      limit : (attrs : Bytes) → ltb 65535 (length attrs) ≡ false → length attrs ≤ 65535
      limit attrs e = ground arith

      unicast_target :
          (p : ParsedRoute)
          → p.flow_nlri ≡ none
          → IsTarget p.v6 p.prefix p.bits p.flow_nlri
          → IsTarget p.v6 p.prefix p.bits none
      unicast_target p e h = subst (IsTarget p.v6 p.prefix p.bits) e h

      unicast_nexthop :
          (p : ParsedRoute)
          → p.flow_nlri ≡ none
          → IsNexthop p.v6 p.flow_nlri p.nexthop
          → IsNexthop p.v6 none p.nexthop
      unicast_nexthop p e h = subst (λ (rule : Option Bytes). IsNexthop p.v6 rule p.nexthop) e h
