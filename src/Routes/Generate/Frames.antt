-- ===== src/Routes/Generate/Frames.antt =====
-- The loop over the routes of `generate_from_routes` in src/routes.rs, in either format: a frame for each
-- route.
use Prim.Native.String.{String}
use mrtgen.Base.{
  ℕ, ◌+◌, ◌≡◌, ◌++◌, [], ◌∷◌, List, IsU32, arith, All, as_u32, length, length-append, subst, map,
  append-nil, append_assoc,
}
use mrtgen.Writer.{MrtRecord}
use mrtgen.Writer.Framing.{Frame, IsHonest, frame_of}
use mrtgen.Routes.Spec.{RouteFormat, RouteSpec, ParsedRoute}
use mrtgen.Routes.Parse.{parse_route}
use mrtgen.Routes.Parse.Sound.{IsAccepted, IsMeantValid, parse_route-IsAccepted}
use mrtgen.Routes.Attrs.Wire.{IsTyped}
use mrtgen.Routes.Generate.{Output, parse_routes, push_record, stamp_of, route_record, emit_routes}
use mrtgen.Routes.Generate.Loading.{IsFile, push_record-IsFile}
use mrtgen.Outcome.{ok, ok-injective, >>=-ok}

-- A route of the input's types that is meant to be valid and adds no attribute of its own.
pub record IsPlain (spec : RouteSpec) : Type 0 where
  pub typed : IsTyped spec
  pub meant : IsMeantValid spec
  pub no_raw : spec.raw_attributes ≡ []

-- A predicate on each route and what was parsed of it.
abbrev pub AreRoutes :
    (RouteSpec → ParsedRoute → Type 0) → List RouteSpec → List ParsedRoute → Type 0
AreRoutes Good [] [] = Unit {0}
AreRoutes Good (spec ∷ specs) (p ∷ ps) = Good spec p × AreRoutes Good specs ps
AreRoutes Good _ _ = ⊥

abbrev pub IsGood : RouteSpec → ParsedRoute → Type 0
IsGood spec p = IsPlain spec × IsAccepted spec p

pub parse_route-IsGood :
    (i : ℕ) (spec : RouteSpec) (p : ParsedRoute)
    → IsPlain spec
    → parse_route i spec ≡ ok p
    → IsGood spec p
parse_route-IsGood i spec p plain h = (plain, parse_route-IsAccepted i spec p plain.meant h)

module _ (Before : RouteSpec → Type 0) (Good : RouteSpec → ParsedRoute → Type 0)
    (sound : (i : ℕ) (spec : RouteSpec) (p : ParsedRoute)
      → Before spec
      → parse_route i spec ≡ ok p
      → Good spec p) where
  pub parse_routes-AreRoutes :
      (i : ℕ) (specs : List RouteSpec) (ps : List ParsedRoute)
      → All Before specs
      → parse_routes i specs ≡ ok ps
      → AreRoutes Good specs ps
  unfolding parse_routes
  parse_routes-AreRoutes i [] ps plain h = subst (AreRoutes Good []) (ok-injective h) tt
  parse_routes-AreRoutes i (spec ∷ specs) ps plain h =
      let (p, e₁, h₁) = >>=-ok (parse_route i spec) _ h in
      let (rest, e₂, made) = >>=-ok (parse_routes (i + 1) specs) _ h₁ in
      subst (AreRoutes Good (spec ∷ specs)) (ok-injective made)
        (sound i spec p plain.0 e₁, parse_routes-AreRoutes (i + 1) specs rest plain.1 e₂)

-- One frame for each route, from number `i` on, stamped in turn behind the `first` records.
abbrev pub AreFrames :
    (ℕ → ℕ → RouteSpec → ParsedRoute → Frame → Type 0)
    → ℕ
    → ℕ
    → ℕ
    → List RouteSpec
    → List ParsedRoute
    → List Frame
    → Type 0
AreFrames Made base first i [] [] [] = Unit {0}
AreFrames Made base first i (spec ∷ specs) (p ∷ ps) (f ∷ fs) =
    Made i (as_u32 (base + as_u32 (first + i))) spec p f
    × AreFrames Made base first (i + 1) specs ps fs
AreFrames Made base first i _ _ _ = ⊥

module _ {D : Type 0} (base_timestamp : ℕ)
    (describe : RouteFormat → RouteSpec → ParsedRoute → String)
    (details : RouteSpec → ParsedRoute → D) (format : RouteFormat)
    (Good : RouteSpec → ParsedRoute → Type 0)
    (Made : ℕ → ℕ → RouteSpec → ParsedRoute → Frame → Type 0)
    (record_Made : (i ts : ℕ) (spec : RouteSpec) (p : ParsedRoute) (made : MrtRecord × String)
      → IsU32 ts
      → Good spec p
      → route_record base_timestamp describe details format ts i spec p ≡ ok made
      → IsHonest made.0 × Made i ts spec p (frame_of made.0)) where
  pub emit_routes-AreFrames :
      (first i : ℕ) (specs : List RouteSpec) (ps : List ParsedRoute) (out out' : Output D)
      (rs : List MrtRecord)
      → AreRoutes Good specs ps
      → length out.entries ≡ first + i
      → IsFile out rs
      → emit_routes base_timestamp describe details format i specs ps out ≡ ok out'
      → (rs' : List MrtRecord) × IsFile out' (rs ++ rs')
        × AreFrames Made base_timestamp first i specs ps (map frame_of rs')
  unfolding emit_routes
  emit_routes-AreFrames first i [] [] out out' rs good here file h =
      ([], subst (λ o. IsFile o (rs ++ [])) (ok-injective h) (rw append-nil file), tt)
  emit_routes-AreFrames first i [] (p ∷ ps) out out' rs good here file h = absurd good
  emit_routes-AreFrames first i (spec ∷ specs) [] out out' rs good here file h = absurd good
  emit_routes-AreFrames first i (spec ∷ specs) (p ∷ ps) out out' rs good here file h =
      let stamp = stamp_of base_timestamp out in
      let ((rec, kind), made, rest) =
        >>=-ok (route_record base_timestamp describe details format stamp i spec p) _ h in
      let (honest, seen) = record_Made i stamp spec p (rec, kind) (omega arith) good.0 made in
      let (rs', file', frames') =
        emit_routes-AreFrames first (i + 1) specs ps
          (push_record rec kind p.expect (describe format spec p) (details spec p) out) out'
          (rs ++ (rec ∷ [])) good.1 (pushed i rec kind spec p out here)
          (push_record-IsFile rec kind p.expect (describe format spec p) (details spec p) out rs
            honest file)
          rest in
      (
        rec ∷ rs',
        rw (append_assoc rs (rec ∷ []) rs') at file',
        (
          subst (λ (n : ℕ). Made i (as_u32 (base_timestamp + as_u32 n)) spec p (frame_of rec)) here
              seen,
          frames',
        ),
      )
    where
      pushed :
          (n : ℕ) (rec : MrtRecord) (kind : String) (spec : RouteSpec) (p : ParsedRoute)
          (out : Output D)
          → length out.entries ≡ first + n
          → length
              (push_record rec kind p.expect (describe format spec p) (details spec p) out).entries
            ≡ first + (n + 1)
      pushed n rec kind spec p out here =
          unfold push_record in omega (arith, length-append out.entries)
