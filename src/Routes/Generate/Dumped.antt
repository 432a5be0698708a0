-- ===== src/Routes/Generate/Dumped.antt =====
-- What a decoder gets out of a table dump of routes.
use Prim.Native.String.{String}
use mrtgen.Base.{
  ℕ, ◌+◌, ◌≤◌, ◌≡◌, refl, ◌++◌, [], ◌∷◌, List, Bool, true, false, none, some, Option, Bytes, IsU32,
  arith, All, as_u32, length, subst, sym, map, is_some, Bool-cases, inl, inr, if◌then◌else◌,
  unwrap_or,
}
use mrtgen.Types
use mrtgen.Text.{codes}
use mrtgen.Writer.{MrtRecord}
use mrtgen.Writer.Framing.{Frame, IsHonest, frame_of, load, loaded, load-encode_all}
use mrtgen.Manifest.{valid}
use mrtgen.Generator.{Corpus}
use mrtgen.Records.TableDump.{Peer, encode_peer, peer_index_table}
use mrtgen.Records.TableDump.Peers.{IsPeer, read_peer_index_table, read-peer_index_table}
use mrtgen.Routes.Spec.{RouteFormat, table_dump_v2, RouteSpec, ParsedRoute}
use mrtgen.Routes.Rib.{route_peers}
use mrtgen.Routes.Rib.Framed.{IsViewed}
use mrtgen.Routes.Rib.Decoding.{view_of_route, rib_route-IsRouteRecord}
use mrtgen.Routes.Generate.{
  Output, parse_routes, refuse_flowspec, push_record, no_output, route_record, emit_routes, start,
  generate_from_routes,
}
use mrtgen.Routes.Generate.Loading.{IsFile, push_record-IsFile}
use mrtgen.Routes.Generate.Refusals.{IsUnicast, refuse_flowspec-AreRoutes}
use mrtgen.Routes.Generate.Frames.{
  IsPlain, IsGood, parse_route-IsGood, parse_routes-AreRoutes, AreFrames, emit_routes-AreFrames,
}
use mrtgen.Outcome.{ok, ok-injective, >>=-ok}

-- Peer 0 speaks IPv4 from 192.0.2.1 and peer 1 IPv6 from 2001:db8::1, both as AS 64500 in four bytes.
abbrev named_peers : List Peer
named_peers =
    record { bgp_id = 192 ∷ 0 ∷ 2 ∷ 1 ∷ []; ip = 192 ∷ 0 ∷ 2 ∷ 1 ∷ []; asn = 64500; as4 = true }
    ∷ record {
      bgp_id = 192 ∷ 0 ∷ 2 ∷ 2 ∷ [];
      ip = 0x20 ∷ 0x01 ∷ 0x0d ∷ 0xb8 ∷ 0 ∷ 0 ∷ 0 ∷ 0 ∷ 0 ∷ 0 ∷ 0 ∷ 0 ∷ 0 ∷ 0 ∷ 0 ∷ 1 ∷ [];
      asn = 64500;
      as4 = true;
    }
    ∷ []

-- The first frame names them.
abbrev pub IsPeerFrame : ℕ → Frame → Type 0
IsPeerFrame base f =
    (f.timestamp ≡ base)
    × (f.mrt_type ≡ Types.table_dump_v2)
    × (f.subtype ≡ Types.peer_index_table)
    × (read_peer_index_table f.payload
        ≡ some (192 ∷ 0 ∷ 2 ∷ 100 ∷ [], codes "mrtgen-routes", named_peers))

abbrev IsRibFrame : ℕ → ℕ → RouteSpec → ParsedRoute → Frame → Type 0
IsRibFrame i ts spec p f = IsViewed p.v6 ts (view_of_route spec p ts i) f

-- One frame for each route, stamped in turn behind the peers and decoded to its route.
abbrev pub AreRibFrames : ℕ → List RouteSpec → List ParsedRoute → List Frame → Type 0
AreRibFrames base = AreFrames IsRibFrame base 1 0

abbrev IsDumpable : RouteSpec → ParsedRoute → Type 0
IsDumpable = IsUnicast IsGood

peers_good : All IsPeer route_peers
peers_good = (
  record { id_size = refl; ip_size = inl refl; asn_fits = omega arith; as2_fits = λ e. cc },
  (record { id_size = refl; ip_size = inr refl; asn_fits = omega arith; as2_fits = λ e. cc }, tt),
)

table_of : ℕ → MrtRecord
table_of base = peer_index_table base (192 ∷ 0 ∷ 2 ∷ 100 ∷ []) (codes "mrtgen-routes") route_peers

table_of-IsPeerFrame :
    (base : ℕ) → IsU32 base → IsHonest (table_of base) × IsPeerFrame base (frame_of (table_of base))
unfolding table_of peer_index_table encode_peer mrtgen.Base.be16 mrtgen.Base.be32
table_of-IsPeerFrame base stamp =
    let read =
      read-peer_index_table base (192 ∷ 0 ∷ 2 ∷ 100 ∷ []) (codes "mrtgen-routes") route_peers refl
        (omega arith) (omega arith) peers_good in
    (
      record {
        timestamp_fits = stamp;
        type_fits = omega arith;
        subtype_fits = omega arith;
        computed = refl;
        payload_fits = omega arith;
      },
      (refl, refl, refl, read),
    )

module _ {D : Type 0} (base_timestamp : ℕ)
    (describe : RouteFormat → RouteSpec → ParsedRoute → String)
    (details : RouteSpec → ParsedRoute → D) where
  table_dump_record-IsRibFrame :
      (i ts : ℕ) (spec : RouteSpec) (p : ParsedRoute) (made : MrtRecord × String)
      → IsU32 ts
      → IsDumpable spec p
      → route_record base_timestamp describe details table_dump_v2 ts i spec p ≡ ok made
      → IsHonest made.0 × IsRibFrame i ts spec p (frame_of made.0)
  unfolding route_record
  table_dump_record-IsRibFrame i ts spec p made stamp good h =
      rib_route-IsRouteRecord spec p good.0.0.typed good.0.1 good.0.0.no_raw ts i made stamp good.1
        h

  begun : D → Output D
  begun table_details =
      push_record (table_of base_timestamp) "route_peer_index_table" valid
        "TABLE_DUMP_V2 PEER_INDEX_TABLE for the user route list" table_details no_output

  start-begun :
      (table_details : D) (parsed : List ParsedRoute) (first : Output D)
      → start base_timestamp describe details table_dump_v2 table_details parsed ≡ ok first
      → (refuse_flowspec 0 parsed ≡ ok tt) × (begun table_details ≡ first)
  unfolding start begun table_of
  start-begun table_details parsed first h =
      let (u, allowed, made) = >>=-ok (refuse_flowspec 0 parsed) _ h in (allowed, ok-injective made)

  begun-IsFile :
      (table_details : D)
      → IsHonest (table_of base_timestamp)
      → IsFile (begun table_details) (table_of base_timestamp ∷ [])
  unfolding begun
  begun-IsFile table_details honest =
      push_record-IsFile (table_of base_timestamp) "route_peer_index_table" valid
        "TABLE_DUMP_V2 PEER_INDEX_TABLE for the user route list" table_details no_output [] honest
        (record { encoded = refl; honest = tt; listed = refl })

  begun_one : (table_details : D) → length (begun table_details).entries ≡ 1
  unfolding begun push_record
  begun_one table_details = refl

  -- Where a route list gives a corpus in the table-dump format, the base timestamp is a 32-bit
  -- word, and every route keeps to the integer types of its fields, is meant to be valid and
  -- adds no raw attribute, the list parses and the file loads whole. The first frame is stamped
  -- with the base timestamp and reads as the peer table with its collector, view name and two
  -- peers, 192.0.2.1 for IPv4 and then 2001:db8::1 for IPv6. One frame follows for each route,
  -- in order, stamped in turn. A reader gets out of it the number of the route in 32 bits, the
  -- peer of its family, the timestamp, its attributes but the next hop, and what was parsed of
  -- the route to be announced: family, next hop, Path Identifier, and the prefix or the VPN
  -- route.
  pub decode-generate_table_dump :
      (version : String) (table_details : D) (specs : List RouteSpec) (corpus : Corpus D)
      → IsU32 base_timestamp
      → All IsPlain specs
      → generate_from_routes base_timestamp describe details version table_details specs
          table_dump_v2
        ≡ ok corpus
      → (parsed : List ParsedRoute) × (table : Frame) × (seen : List Frame) × (parse_routes 0 specs
          ≡ ok parsed)
        × (load corpus.bytes ≡ loaded (table ∷ seen))
        × IsPeerFrame base_timestamp table
        × AreRibFrames base_timestamp specs parsed seen
  unfolding generate_from_routes
  decode-generate_table_dump version table_details specs corpus stamp plain h =
      let (parsed, e₁, h₁) = >>=-ok (parse_routes 0 specs) _ h in
      let (first, e₂, h₂) =
        >>=-ok (start base_timestamp describe details table_dump_v2 table_details parsed) _ h₁ in
      let (allowed, opened) = start-begun table_details parsed first e₂ in
      let (out, e₃, made) =
        >>=-ok (emit_routes base_timestamp describe details table_dump_v2 0 specs parsed first) _
          h₂ in
      let (honest, named) = table_of-IsPeerFrame base_timestamp stamp in
      let good =
        refuse_flowspec-AreRoutes IsGood 0 specs parsed
          (parse_routes-AreRoutes IsPlain IsGood parse_route-IsGood 0 specs parsed plain e₁)
          allowed in
      let (rs, file, frames) =
        emit_routes-AreFrames base_timestamp describe details table_dump_v2 IsDumpable IsRibFrame
          table_dump_record-IsRibFrame 1 0 specs parsed (begun table_details) out
          (table_of base_timestamp ∷ []) good (begun_one table_details)
          (begun-IsFile table_details honest)
          (subst
            (λ (o : Output D).
              emit_routes base_timestamp describe details table_dump_v2 0 specs parsed o ≡ ok out)
            (sym opened) e₃) in
      let seen = frame_of (table_of base_timestamp) ∷ map frame_of rs in
      let loads : load out.bytes ≡ loaded seen =
        rw file.encoded (load-encode_all (table_of base_timestamp ∷ rs) file.honest) in
      (
        parsed,
        frame_of (table_of base_timestamp),
        map frame_of rs,
        e₁,
        subst (λ (c : Corpus D). load c.bytes ≡ loaded seen) (ok-injective made) loads,
        named,
        frames,
      )
