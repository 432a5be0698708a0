-- ===== src/Routes/Generate/Decoding.antt =====
-- What a decoder gets out of a BGP4MP file of routes.
use Prim.Native.String.{String}
use mrtgen.Base.{ℕ, ◌≡◌, refl, [], List, IsU32, All, subst, map}
use mrtgen.Writer.{MrtRecord}
use mrtgen.Writer.Framing.{Frame, IsHonest, frame_of, load, loaded, load-encode_all}
use mrtgen.Generator.{Corpus}
use mrtgen.Routes.Spec.{RouteFormat, bgp4mp, RouteSpec, ParsedRoute}
use mrtgen.Routes.Update.Decoding.{IsRouteFrame, update_route-IsRouteFrame}
use mrtgen.Routes.Generate.{
  parse_routes, no_output, route_record, emit_routes, start, generate_from_routes,
}
use mrtgen.Routes.Generate.Loading.{update_route-IsHonest}
use mrtgen.Routes.Generate.Frames.{
  IsPlain, IsGood, parse_route-IsGood, parse_routes-AreRoutes, AreFrames, emit_routes-AreFrames,
}
use mrtgen.Outcome.{ok, ok-injective, >>=-ok}

-- The frame of a route, stamped with `ts`.
abbrev IsStampedFrame : ℕ → ℕ → RouteSpec → ParsedRoute → Frame → Type 0
IsStampedFrame i ts spec p f = IsRouteFrame spec p f × (f.timestamp ≡ ts)

-- One frame for each route, stamped in turn and decoded to its route.
abbrev pub AreRouteFrames : ℕ → List RouteSpec → List ParsedRoute → List Frame → Type 0
AreRouteFrames base = AreFrames IsStampedFrame base 0 0

module _ {D : Type 0} (base_timestamp : ℕ)
    (describe : RouteFormat → RouteSpec → ParsedRoute → String)
    (details : RouteSpec → ParsedRoute → D) where
  bgp4mp_record-IsStampedFrame :
      (i ts : ℕ) (spec : RouteSpec) (p : ParsedRoute) (made : MrtRecord × String)
      → IsU32 ts
      → IsGood spec p
      → route_record base_timestamp describe details bgp4mp ts i spec p ≡ ok made
      → IsHonest made.0 × IsStampedFrame i ts spec p (frame_of made.0)
  unfolding route_record
  bgp4mp_record-IsStampedFrame i ts spec p made stamp good h = (
    update_route-IsHonest ts i spec p made stamp h,
    update_route-IsRouteFrame spec p good.0.typed good.1 good.0.no_raw ts i made h,
  )

  -- Where a route list gives a corpus in the BGP4MP format, and every route keeps to the
  -- integer types of its fields, is meant to be valid and adds no raw attribute, the list
  -- parses and the file loads whole, with one frame for each route, in order, stamped in turn
  -- from the base timestamp. Its subtype is 9, BGP4MP_MESSAGE_AS4_ADDPATH, for a route with a
  -- Path Identifier and 4, BGP4MP_MESSAGE_AS4, for another. A reader that goes by the subtype
  -- for the size of the AS numbers and for the Path Identifier gets the documentation session
  -- of the family with the first AS of the path as the peer, the attributes of the route but
  -- the next hop, and what was parsed of the route to be announced: family, next hop, Path
  -- Identifier, and the prefix, the VPN route or the flow specification.
  pub decode-generate_from_routes :
      (version : String) (table_details : D) (specs : List RouteSpec) (corpus : Corpus D)
      → All IsPlain specs
      → generate_from_routes base_timestamp describe details version table_details specs bgp4mp
        ≡ ok corpus
      → (parsed : List ParsedRoute) × (seen : List Frame) × (parse_routes 0 specs ≡ ok parsed)
        × (load corpus.bytes ≡ loaded seen)
        × AreRouteFrames base_timestamp specs parsed seen
  unfolding generate_from_routes start
  decode-generate_from_routes version table_details specs corpus plain h =
      let (parsed, e₁, h₁) = >>=-ok (parse_routes 0 specs) _ h in
      let (out, e₂, made) =
        >>=-ok (emit_routes base_timestamp describe details bgp4mp 0 specs parsed no_output) _ h₁ in
      let (rs, file, frames) =
        emit_routes-AreFrames base_timestamp describe details bgp4mp IsGood IsStampedFrame
          bgp4mp_record-IsStampedFrame 0 0 specs parsed no_output out []
          (parse_routes-AreRoutes IsPlain IsGood parse_route-IsGood 0 specs parsed plain e₁) refl
          (record { encoded = refl; honest = tt; listed = refl }) e₂ in
      let loads : load out.bytes ≡ loaded (map frame_of rs) =
        rw file.encoded (load-encode_all rs file.honest) in
      (
        parsed,
        map frame_of rs,
        e₁,
        subst (λ (c : Corpus D). load c.bytes ≡ loaded (map frame_of rs)) (ok-injective made) loads,
        frames,
      )
