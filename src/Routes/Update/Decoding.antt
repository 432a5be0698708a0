-- ===== src/Routes/Update/Decoding.antt =====
-- The record that `generate_from_routes` of src/routes.rs makes of a route in the BGP4MP format, as a
-- reader decodes it.
use Prim.Native.String.{String}
use mrtgen.Base.{
  ℕ, ◌+◌, ◌≤◌, ◌≡◌, refl, ◌++◌, [], ◌∷◌, List, Bool, true, false, Option, none, some, arith, Bytes,
  All, IsU32, ltb, length, length-append, is_some, if◌then◌else◌, subst, Bool-cases, inl, inr,
  append-nil,
}
use mrtgen.Types
use mrtgen.Writer.{MrtRecord}
use mrtgen.Writer.Framing.{Frame, frame_of}
use mrtgen.Bgp.Attr.Values.{Context, Meaning}
use mrtgen.Bgp.Message.{bgp_update}
use mrtgen.Bgp.Message.Reading.{read_message-bgp_update, length-bgp_update}
use mrtgen.Records.Bgp4mp.{Session, bgp4mp_message}
use mrtgen.Records.Bgp4mp.Reading.{IsSession, is_as4_subtype, read_session-bgp4mp_message}
use mrtgen.Routes.Spec.{RouteSpec, ParsedRoute}
use mrtgen.Routes.Parse.Sound.{IsAccepted}
use mrtgen.Routes.Attrs.{head_attrs, tail_attrs}
use mrtgen.Routes.Attrs.Meanings.{head_meanings, tail_meanings, decode-route_attrs}
use mrtgen.Routes.Attrs.Wire.{IsTyped, accepted-IsWire, no_raws}
use mrtgen.Routes.Rib.{documentation_v4, documentation_v6}
use mrtgen.Routes.Update.{reach, update_route, update_session, update_subtype, peer_as_of}
use mrtgen.Routes.Announced.{Announcement, announcement_of}
use mrtgen.Routes.Update.Announced.{
  take_reach, announced_by, read_route, is_addpath_subtype, read_route_body, subtype_of, session_of,
}
use mrtgen.Routes.Update.Reading.{reach-Carries}
use mrtgen.Outcome.{ok, Outcome-cases, ok-injective}

-- The subtype is the route's, and a reader that goes by it gets the session of the route, its attributes
-- and what it announces.
abbrev pub IsRouteFrame : RouteSpec → ParsedRoute → Frame → Type 0
IsRouteFrame spec p f =
    (f.mrt_type ≡ 16)
    × (f.subtype ≡ subtype_of spec.path_id)
    × (read_route_body f.subtype f.payload
        ≡ some (
          session_of p.v6 p.as_path,
          head_meanings p ++ tail_meanings p spec [],
          announcement_of spec p,
        ))

-- What announces stands behind the origin and the path, and is found.
found_behind :
    (addpath : Bool) (m : Meaning) (nlri : Bytes) {a : Announcement} (p : ParsedRoute)
    (behind : List Meaning)
    → announced_by addpath m nlri ≡ some a
    → take_reach ((head_meanings p ++ (m ∷ [])) ++ behind) ≡ some (m, head_meanings p ++ behind)
unfolding announced_by take_reach
found_behind addpath (Meaning.next_hop hop) nlri p behind h = refl
found_behind addpath (Meaning.mp_reach afi safi hop bs) nlri p behind h = refl
found_behind addpath m nlri p behind h = cc

peer_as-IsU32 : (path : List ℕ) → All IsU32 path → IsU32 (peer_as_of path)
peer_as-IsU32 [] h = omega arith
peer_as-IsU32 (a ∷ path) h = h.0

session_for : Bool → ℕ → Session
session_for v6 peer_as = record {
  peer_as = peer_as;
  local_as = 64511;
  ifindex = 1;
  peer_ip = if v6 then documentation_v6 1 else documentation_v4 1;
  local_ip = if v6 then documentation_v6 2 else documentation_v4 2;
}

session_for-IsSession :
    (v6 : Bool) (peer_as : ℕ) → IsU32 peer_as → IsSession true (session_for v6 peer_as)
unfolding session_for
session_for-IsSession true peer_as h = record {
  peer_fits = h;
  local_fits = omega arith;
  ifindex_fits = omega arith;
  peer_size = inr refl;
  same_size = refl;
}
session_for-IsSession false peer_as h = record {
  peer_fits = h;
  local_fits = omega arith;
  ifindex_fits = omega arith;
  peer_size = inl refl;
  same_size = refl;
}

-- The code's subtype is the route's, and says that AS numbers have four bytes and whether there is a Path
-- Identifier.
update_subtype_known :
    (id : Option ℕ)
    → (update_subtype (is_some id) ≡ subtype_of id)
      × (is_as4_subtype (update_subtype (is_some id)) ≡ true)
      × (is_addpath_subtype (update_subtype (is_some id)) ≡ is_some id)
update_subtype_known none = (refl, refl, refl)
update_subtype_known (some id) = (refl, refl, refl)

session_for_known :
    (v6 : Bool) (path : List ℕ) → session_for v6 (peer_as_of path) ≡ session_of v6 path
unfolding session_for
session_for_known true [] = refl
session_for_known false [] = refl
session_for_known true (asn ∷ path) = refl
session_for_known false (asn ∷ path) = refl

module _ (spec : RouteSpec) (p : ParsedRoute) (typed : IsTyped spec) (accepted : IsAccepted spec p)
    (none_given : spec.raw_attributes ≡ []) where
  read_route-update :
      (carrier nlri : Bytes)
      → reach spec p ≡ ok (carrier, nlri)
      → let update = bgp_update [] ((head_attrs p ++ carrier) ++ tail_attrs p spec) nlri in
        length update ≤ 4096
        → read_route (is_some spec.path_id) update
          ≡ some (head_meanings p ++ tail_meanings p spec [], announcement_of spec p)
  unfolding read_route
  read_route-update carrier nlri found fits =
      let attrs = (head_attrs p ++ carrier) ++ tail_attrs p spec in
      let sizes : 23 + length attrs + length nlri ≤ 4096 =
        omega (arith, length-bgp_update [] attrs nlri) in
      let parts : length attrs
          ≡ length (head_attrs p) + length carrier + length (tail_attrs p spec) =
        simp length-append in
      let (m, encodes, announced) =
        reach-Carries spec p (carrier, nlri) typed accepted found (omega arith) in
      let raw = no_raws spec p Context.update accepted none_given in
      let decoded =
        decode-route_attrs Context.update p spec carrier (m ∷ []) []
          (accepted-IsWire spec p typed accepted (omega arith)) encodes raw in
      let (framed, split) = read_message-bgp_update [] attrs nlri [] fits in
      rw (simp append-nil at framed) (
        rw split (
          rw decoded (
            rw (found_behind (is_some spec.path_id) m nlri p (tail_meanings p spec []) announced)
              (rw announced))))

  message-IsRouteFrame :
      (ts : ℕ) (carrier nlri : Bytes)
      → reach spec p ≡ ok (carrier, nlri)
      → let update = bgp_update [] ((head_attrs p ++ carrier) ++ tail_attrs p spec) nlri in
        length update ≤ 4096
        → IsRouteFrame spec p (
            frame_of (
              bgp4mp_message ts Types.bgp4mp none
                (update_subtype (is_some spec.path_id))
                (update_session p)
                update))
  unfolding bgp4mp_message session_for read_route_body
  message-IsRouteFrame ts carrier nlri found fits =
      let path_ok : All IsU32 p.as_path =
        (accepted-IsWire spec p typed accepted (tail-le carrier nlri fits)).path_words in
      let session =
        session_for-IsSession p.v6 (peer_as_of p.as_path) (peer_as-IsU32 p.as_path path_ok) in
      let subtype = update_subtype (is_some spec.path_id) in
      let (known, four, addpath) = update_subtype_known spec.path_id in
      let read =
        read_session-bgp4mp_message ts Types.bgp4mp subtype none (update_session p)
          (bgp_update [] ((head_attrs p ++ carrier) ++ tail_attrs p spec) nlri) (rw four session) in
      (
        refl,
        known,
        rw read.0 (
            rw addpath (
              rw (read_route-update carrier nlri found fits)
                (rw (session_for_known p.v6 p.as_path) refl))),
      )
    where
      tail-le :
          (carrier nlri : Bytes)
          → length (bgp_update [] ((head_attrs p ++ carrier) ++ tail_attrs p spec) nlri) ≤ 4096
          → length (tail_attrs p spec) ≤ 65535
      tail-le carrier nlri h = omega (
        arith,
        length-bgp_update [] ((head_attrs p ++ carrier) ++ tail_attrs p spec) nlri,
        length-append (head_attrs p ++ carrier) (tail_attrs p spec),
      )

  -- The record of an accepted route, where one is made, gives the reader its route, if the route keeps
  -- to the types of its input and adds no raw attribute.
  pub update_route-IsRouteFrame :
      (ts i : ℕ) (made : MrtRecord × String)
      → update_route ts i spec p ≡ ok made
      → IsRouteFrame spec p (frame_of made.0) × (made.0.timestamp ≡ ts)
  unfolding update_route bgp4mp_message
  update_route-IsRouteFrame ts i made h = elim (Outcome-cases (reach spec p)) [
    | inl ((carrier, nlri), found) ↦
        let update = bgp_update [] ((head_attrs p ++ carrier) ++ tail_attrs p spec) nlri in
        elim (Bool-cases (ltb 4096 (length update))) [
          | inl over ↦ absurd (cc (rw (found, over) at h))
          | inr fits ↦
              subst
                (λ (m : MrtRecord × String).
                  IsRouteFrame spec p (frame_of m.0) × (m.0.timestamp ≡ ts))
                (ok-injective (rw (found, fits) at h))
                (message-IsRouteFrame ts carrier nlri found (ground arith), refl)
        ]
    | inr (inl (x, refused)) ↦ absurd (cc (rw refused at h))
    | inr (inr panicked) ↦ absurd (cc (rw panicked at h))
  ]
