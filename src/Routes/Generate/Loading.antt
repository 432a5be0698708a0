-- ===== src/Routes/Generate/Loading.antt =====
-- What a loader gets out of a BGP4MP file of routes.
use Prim.Native.String.{String}
use mathlib.Core.List.{map-append}
use mrtgen.Base.{
  ℕ, ◌+◌, ◌≤◌, ◌≡◌, refl, ◌++◌, [], ◌∷◌, List, Bool, true, false, none, Bytes, arith, All,
  All-append, length, length-append, subst, is_some, ltb, Bool-cases, inl, inr, map, append-nil,
  IsU16, IsU32, be16, be32, if◌then◌else◌,
}
use mrtgen.Writer.{MrtRecord, encode}
use mrtgen.Writer.Framing.{
  Frame, IsHonest, frame_of, load, loaded, encode_all, load-encode_all, encode_into-append,
}
use mrtgen.Bgp.Message.{bgp_update}
use mrtgen.Manifest.{Expect}
use mrtgen.Generator.{Corpus}
use mrtgen.Generator.Loading.{
  entry_header, frame_header, encode_all-append, encoded_len-frame, frames,
}
use mrtgen.Records.Bgp4mp.{Session, bgp4mp_prelude, bgp4mp_message, message_as4}
use mrtgen.Routes.Spec.{RouteFormat, bgp4mp, RouteSpec, ParsedRoute}
use mrtgen.Routes.Attrs.{head_attrs, tail_attrs}
use mrtgen.Routes.Update.{reach, update_route, update_session, update_subtype, peer_as_of}
use mrtgen.Routes.Rib.{documentation_v4, documentation_v6}
use mrtgen.Routes.Generate.{
  Output, parse_routes, push_record, no_output, stamp_of, route_record, emit_routes, start,
  generate_from_routes,
}
use mrtgen.Outcome.{ok, Outcome-cases, ok-injective}

abbrev session_at : Bool → ℕ → Session
session_at v6 peer_as = record {
  peer_as = peer_as;
  local_as = 64511;
  ifindex = 1;
  peer_ip = if v6 then documentation_v6 1 else documentation_v4 1;
  local_ip = if v6 then documentation_v6 2 else documentation_v4 2;
}

-- The prelude of a route's session, in either family and size of AS number.
prelude_fits :
    (v6 as4 : Bool) (peer_as : ℕ) → length (bgp4mp_prelude (session_at v6 peer_as) as4) ≤ 44
unfolding bgp4mp_prelude be16 be32
prelude_fits true true peer_as = omega arith
prelude_fits true false peer_as = omega arith
prelude_fits false true peer_as = omega arith
prelude_fits false false peer_as = omega arith

subtype_fits : (addpath : Bool) → IsU16 (update_subtype addpath)
subtype_fits true = omega arith
subtype_fits false = omega arith

message-IsHonest :
    (ts : ℕ) (p : ParsedRoute) (addpath : Bool) (update : Bytes)
    → IsU32 ts
    → length update ≤ 4096
    → IsHonest (bgp4mp_message ts 16 none (update_subtype addpath) (update_session p) update)
unfolding bgp4mp_message
message-IsHonest ts p addpath update ht hu = record {
  timestamp_fits = ht;
  type_fits = omega arith;
  subtype_fits = subtype_fits addpath;
  computed = refl;
  payload_fits = omega (
    arith,
    prelude_fits p.v6 (message_as4 (update_subtype addpath)) (peer_as_of p.as_path),
    length-append (bgp4mp_prelude (update_session p) (message_as4 (update_subtype addpath))) update,
  );
}

pub update_route-IsHonest :
    (ts i : ℕ) (spec : RouteSpec) (p : ParsedRoute) (made : MrtRecord × String)
    → IsU32 ts
    → update_route ts i spec p ≡ ok made
    → IsHonest made.0
unfolding update_route
update_route-IsHonest ts i spec p made ht e = elim (Outcome-cases (reach spec p)) [
  | inl ((carrier, nlri), found) ↦
      let update = bgp_update [] ((head_attrs p ++ carrier) ++ tail_attrs p spec) nlri in
      elim (Bool-cases (ltb 4096 (length update))) [
        | inl over ↦ cc
        | inr fits ↦
            subst (λ (m : MrtRecord × String). IsHonest m.0) (ok-injective (rw (found, fits) at e))
              (message-IsHonest ts p (is_some spec.path_id) update ht (ground arith))
      ]
  | inr (inl (x, refused)) ↦ cc
  | inr (inr panicked) ↦ cc
]

module _ {D : Type 0} where
  -- The bytes and the manifest are those of the honest records `rs`.
  pub record IsFile (out : Output D) (rs : List MrtRecord) : Type 0 where
    pub encoded : out.bytes ≡ encode_all rs
    pub honest : All IsHonest rs
    pub listed : map entry_header out.entries ≡ map (λ r. frame_header (frame_of r)) rs

  pub push_record-IsFile :
      (rec : MrtRecord) (kind : String) (expect : Expect) (description : String) (details : D)
      (out : Output D) (rs : List MrtRecord)
      → IsHonest rec
      → IsFile out rs
      → IsFile (push_record rec kind expect description details out) (rs ++ (rec ∷ []))
  unfolding push_record
  push_record-IsFile rec kind expect description details out rs good h = record {
    encoded =
        rw (encode_into-append rec out.bytes)
          (rw h.encoded (rw (encode_all-append rs (rec ∷ [])) (rw (append-nil (encode rec)))));
    honest = All-append IsHonest rs (rec ∷ []) h.honest (good, tt);
    listed = rw map-append (rw (encoded_len-frame rec) (rw h.listed (rw map-append)));
  }

module _ {D : Type 0} (base_timestamp : ℕ)
    (describe : RouteFormat → RouteSpec → ParsedRoute → String)
    (details : RouteSpec → ParsedRoute → D) where
  emit_routes-IsFile :
      (i : ℕ) (specs : List RouteSpec) (ps : List ParsedRoute) (out out' : Output D)
      (rs : List MrtRecord)
      → emit_routes base_timestamp describe details bgp4mp i specs ps out ≡ ok out'
      → IsFile out rs
      → (rs' : List MrtRecord) × IsFile out' rs'
  unfolding emit_routes route_record
  emit_routes-IsFile i [] ps out out' rs e h = (rs, subst (λ o. IsFile o rs) (ok-injective e) h)
  emit_routes-IsFile i (spec ∷ specs) [] out out' rs e h =
      (rs, subst (λ o. IsFile o rs) (ok-injective e) h)
  emit_routes-IsFile i (spec ∷ specs) (p ∷ ps) out out' rs e h =
      elim (Outcome-cases (update_route (stamp_of base_timestamp out) i spec p)) [
        | inl ((rec, kind), found) ↦
            emit_routes-IsFile (i + 1) specs ps _ out' (rs ++ (rec ∷ [])) (rw found at e) (
              push_record-IsFile rec kind p.expect (describe bgp4mp spec p) (details spec p) out rs
                (update_route-IsHonest (stamp_of base_timestamp out) i spec p (rec, kind)
                  (omega arith) found)
                h)
        | inr (inl (x, refused)) ↦ cc
        | inr (inr panicked) ↦ cc
      ]

  -- Where a route list gives a corpus in the BGP4MP format, at any base timestamp, the file
  -- loads whole, and the manifest lists, in order, the timestamp, type, subtype and size of
  -- exactly the records that the loader gets.
  pub load-generate_from_routes :
      (version : String) (table_details : D) (specs : List RouteSpec) (corpus : Corpus D)
      → generate_from_routes base_timestamp describe details version table_details specs bgp4mp
        ≡ ok corpus
      → (seen : List Frame) × (load corpus.bytes ≡ loaded seen)
        × (map entry_header corpus.manifest.records ≡ map frame_header seen)
  unfolding generate_from_routes start
  load-generate_from_routes version table_details specs corpus e =
      elim (Outcome-cases (parse_routes 0 specs)) [
        | inl (parsed, e₁) ↦
            elim (Outcome-cases
              (emit_routes base_timestamp describe details bgp4mp 0 specs parsed no_output)) [
                | inl (out, e₂) ↦
                    let (rs, file) =
                      emit_routes-IsFile 0 specs parsed no_output out [] e₂
                        (record { encoded = refl; honest = tt; listed = refl }) in
                    subst
                      (λ (c : Corpus D).
                        (seen : List Frame) × (load c.bytes ≡ loaded seen)
                        × (map entry_header c.manifest.records ≡ map frame_header seen))
                      (ok-injective (rw (e₁, e₂) at e))
                      (
                        map frame_of rs,
                        rw file.encoded (load-encode_all rs file.honest),
                        rw file.listed (frames rs),
                      )
                | inr (inl (x, refused)) ↦ cc
                | inr (inr panicked) ↦ cc
              ]
        | inr (inl (x, refused)) ↦ cc
        | inr (inr panicked) ↦ cc
      ]
