-- ===== src/Routes/Generate/Total.antt =====
-- What `generate_from_routes` of src/routes.rs gives for routes that parse: a corpus, or a refused route.
use Prim.Native.String.{String}
use mrtgen.Base.{ℕ, ◌+◌, ◌≡◌, refl, [], ◌∷◌, List, All, arith, length, inl, inr, ◌⊎◌}
use mrtgen.Routes.Spec.{RouteFormat, table_dump_v2, bgp4mp, RouteSpec, ParsedRoute}
use mrtgen.Routes.Parse.Sound.{IsAccepted, IsMeantValid, parse_route-IsAccepted}
use mrtgen.Routes.Rib.Total.{rib_route-total}
use mrtgen.Routes.Update.Total.{update_route-total}
use mrtgen.Routes.Generate.{
  Output, parse_routes, refuse_flowspec, push_record, no_output, corpus_of, stamp_of, route_record,
  emit_routes, start, generate_from_routes,
}
use mrtgen.Routes.Generate.Frames.{AreRoutes, parse_routes-AreRoutes}
use mrtgen.Routes.Generate.Refusals.{
  IsUnicast, IsRefused, later-IsRefused, refuse_flowspec-AreRoutes, refuse_flowspec-cases,
}
use mrtgen.Outcome.{
  Error, in_route, flowspec_in_table_dump, attributes_too_long, update_too_long, Outcome, ok, err,
  IsMade, ◌>>=◌,
}

-- Why a route of a format is refused once it is parsed.
abbrev pub IsReason : RouteFormat → Error → Type 0
IsReason table_dump_v2 e = (e ≡ flowspec_in_table_dump) ⊎ (e ≡ attributes_too_long)
IsReason bgp4mp e = e ≡ update_too_long

module _ {D : Type 0} (base_timestamp : ℕ)
    (describe : RouteFormat → RouteSpec → ParsedRoute → String)
    (details : RouteSpec → ParsedRoute → D) (format : RouteFormat)
    (Good : RouteSpec → ParsedRoute → Type 0) (Reason : Error → Type 0)
    (record_total : (ts i : ℕ) (spec : RouteSpec) (p : ParsedRoute)
      → Good spec p
      → IsMade (route_record base_timestamp describe details format ts i spec p)
        ⊎ ((e : Error) × Reason e
            × (route_record base_timestamp describe details format ts i spec p
                ≡ err (in_route i e)))) where
  emit_routes-total :
      (i : ℕ) (specs : List RouteSpec) (ps : List ParsedRoute) (out : Output D)
      → AreRoutes Good specs ps
      → IsMade (emit_routes base_timestamp describe details format i specs ps out)
        ⊎ IsRefused Reason i
            (length specs)
            (emit_routes base_timestamp describe details format i specs ps out)
  unfolding emit_routes
  emit_routes-total i [] [] out good = inl (out, refl)
  emit_routes-total i [] (p ∷ ps) out good = absurd good
  emit_routes-total i (spec ∷ specs) [] out good = absurd good
  emit_routes-total i (spec ∷ specs) (p ∷ ps) out good =
      elim (record_total (stamp_of base_timestamp out) i spec p good.0) [
        | inr (e, reason, refused) ↦ inr (i, e, omega arith, omega arith, reason, rw refused)
        | inl ((rec, kind), made) ↦
            let next =
              push_record rec kind p.expect (describe format spec p) (details spec p) out in
            elim (emit_routes-total (i + 1) specs ps next good.1) [
              | inl (done, h) ↦ inl (done, rw made h)
              | inr refused ↦ inr (
                  later-IsRefused Reason i (length specs)
                    (emit_routes base_timestamp describe details format (i + 1) specs ps next)
                    (emit_routes base_timestamp describe details format i (spec ∷ specs) (p ∷ ps)
                      out)
                    (rw made) refused)
            ]
      ]

then_ok {ℓ κ} :
    {A : Type ℓ} {B : Type κ} (r : Outcome A) (next : A → B) {a : A}
    → r ≡ ok a
    → IsMade (r >>= λ x. ok (next x))
then_ok r next {a} h = (next a, rw h)

module _ {D : Type 0} (base_timestamp : ℕ)
    (describe : RouteFormat → RouteSpec → ParsedRoute → String)
    (details : RouteSpec → ParsedRoute → D) where
  bgp4mp_emitted :
      (specs : List RouteSpec) (parsed : List ParsedRoute) (out : Output D)
      → AreRoutes IsAccepted specs parsed
      → IsMade (emit_routes base_timestamp describe details bgp4mp 0 specs parsed out)
        ⊎ IsRefused
            (IsReason bgp4mp)
            0
            (length specs)
            (emit_routes base_timestamp describe details bgp4mp 0 specs parsed out)
  unfolding route_record
  bgp4mp_emitted =
      emit_routes-total base_timestamp describe details bgp4mp IsAccepted (IsReason bgp4mp)
        (λ ts i spec p good. elim (update_route-total ts i spec p good) [
          | inl made ↦ inl made
          | inr long ↦ inr (update_too_long, refl, long)
        ])
        0

  table_dump_emitted :
      (specs : List RouteSpec) (parsed : List ParsedRoute) (out : Output D)
      → AreRoutes (IsUnicast IsAccepted) specs parsed
      → IsMade (emit_routes base_timestamp describe details table_dump_v2 0 specs parsed out)
        ⊎ IsRefused
            (IsReason table_dump_v2)
            0
            (length specs)
            (emit_routes base_timestamp describe details table_dump_v2 0 specs parsed out)
  unfolding route_record
  table_dump_emitted =
      emit_routes-total base_timestamp describe details table_dump_v2 (IsUnicast IsAccepted)
        (IsReason table_dump_v2)
        (λ ts i spec p good. elim (rib_route-total ts i spec p good.0 good.1) [
          | inl made ↦ inl made
          | inr long ↦ inr (attributes_too_long, inr refl, long)
        ])
        0

  bgp4mp_started :
      (table_details : D) (parsed : List ParsedRoute)
      → start base_timestamp describe details bgp4mp table_details parsed ≡ ok no_output
  unfolding start
  bgp4mp_started table_details parsed = refl

  table_dump_started :
      (table_details : D) (specs : List RouteSpec) (parsed : List ParsedRoute)
      → AreRoutes IsAccepted specs parsed
      → ((first : Output D) × (start base_timestamp describe details table_dump_v2 table_details
              parsed
            ≡ ok first)
          × AreRoutes (IsUnicast IsAccepted) specs parsed)
        ⊎ IsRefused
            (IsReason table_dump_v2)
            0
            (length specs)
            (start base_timestamp describe details table_dump_v2 table_details parsed)
  unfolding start
  table_dump_started table_details specs parsed good =
      elim (refuse_flowspec-cases IsAccepted 0 specs parsed good) [
        | inl through ↦
            let (first, opened) : IsMade
                (start base_timestamp describe details table_dump_v2 table_details parsed) =
              then_ok (refuse_flowspec 0 parsed) _ through in
            inl (first, opened, refuse_flowspec-AreRoutes IsAccepted 0 specs parsed good through)
        | inr (n, e, low, high, reason, refused) ↦ inr (n, e, low, high, inl reason, rw refused)
      ]

  -- Where every route of a list is meant to be valid and the list parses, generate_from_routes
  -- gives a corpus in either format, without a panic of a slice, an array conversion or an NLRI
  -- encoder; or it refuses one of the routes of the list, by its number: in the BGP4MP format
  -- for an UPDATE that is too long, in a table dump for a flow specification or for attributes
  -- that are too long.
  pub generate_from_routes-total :
      (version : String) (table_details : D) (specs : List RouteSpec) (parsed : List ParsedRoute)
      (format : RouteFormat)
      → All IsMeantValid specs
      → parse_routes 0 specs ≡ ok parsed
      → IsMade
          (generate_from_routes base_timestamp describe details version table_details specs format)
        ⊎ IsRefused (IsReason format) 0 (length specs) (
            generate_from_routes base_timestamp describe details version table_details specs format)
  unfolding generate_from_routes
  generate_from_routes-total version table_details specs parsed bgp4mp meant h =
      let good =
        parse_routes-AreRoutes IsMeantValid IsAccepted parse_route-IsAccepted 0 specs parsed meant
          h in
      let opened = bgp4mp_started table_details parsed in
      elim (bgp4mp_emitted specs parsed no_output good) [
        | inl (out, made) ↦ inl (corpus_of version out, rw (h, opened, made))
        | inr (n, e, low, high, reason, refused) ↦
            inr (n, e, low, high, reason, rw (h, opened, refused))
      ]
  generate_from_routes-total version table_details specs parsed table_dump_v2 meant h =
      let good =
        parse_routes-AreRoutes IsMeantValid IsAccepted parse_route-IsAccepted 0 specs parsed meant
          h in
      elim (table_dump_started table_details specs parsed good) [
        | inr (n, e, low, high, reason, refused) ↦ inr (n, e, low, high, reason, rw (h, refused))
        | inl (first, opened, unicast) ↦ elim (table_dump_emitted specs parsed first unicast) [
          | inl (out, made) ↦ inl (corpus_of version out, rw (h, opened, made))
          | inr (n, e, low, high, reason, refused) ↦
              inr (n, e, low, high, reason, rw (h, opened, refused))
        ]
      ]
