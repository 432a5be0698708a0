-- ===== src/Routes/Update/Announced.antt =====
-- An UPDATE as a reader of RFC 4271, 4760, 7911, 8955 and 4364 takes it apart: the attributes, and what is
-- announced with which next hop.
use mrtgen.Base.{
  ℕ, [], ◌∷◌, List, Bool, true, false, Option, none, some, Bytes, ◌==◌, ◌||◌, if◌then◌else◌,
}
use mrtgen.Wire.{◌>>=◌}
use mrtgen.Bgp.Attr.Values.{Context, Meaning, at_end}
use mrtgen.Bgp.Attr.Meanings.{decode}
use mrtgen.Bgp.Message.Reading.{read_message, read_update}
use mrtgen.Bgp.Nlri.Reading.{read_prefix}
use mrtgen.Bgp.Nlri.Vpn.{read_vpn}
use mrtgen.Records.Bgp4mp.{Session}
use mrtgen.Records.Bgp4mp.Reading.{read_session, is_as4_subtype}
use mrtgen.Routes.Announced.{Nlri, Announcement}
use mrtgen.Records.TableDump.Rib.{read_path_id}

-- One route, over addresses of `width` bytes; nothing may be left.
abbrev read_one : ℕ → ℕ → Bytes → Option Nlri
read_one safi width bs =
    if safi == 133
    then some (Nlri.flow bs)
    else if safi == 128
    then (read_vpn width bs >>= at_end) >>= (λ r. some (Nlri.vpn r))
    else (read_prefix width bs >>= (λ (bits, addr, rest). at_end (Nlri.prefix bits addr, rest)))

-- The Path Identifier stands in front, in an `_ADDPATH` subtype.
unfoldable pub read_announced : Bool → ℕ → ℕ → Bytes → Bytes → Option Announcement
read_announced addpath afi safi hop bs = do
  (id, bs₁) ← read_path_id addpath bs
  nlri ← read_one safi (if afi == 2 then 16 else 4) bs₁
  some (record { afi = afi; safi = safi; next_hop = hop; path_id = id; nlri = nlri })

-- The first MP_REACH_NLRI or NEXT_HOP, and the other attributes.
unfoldable pub take_reach : List Meaning → Option (Meaning × List Meaning)
take_reach [] = none
take_reach (Meaning.mp_reach afi safi hop nlri ∷ ms) = some (Meaning.mp_reach afi safi hop nlri, ms)
take_reach (Meaning.next_hop hop ∷ ms) = some (Meaning.next_hop hop, ms)
take_reach (m ∷ ms) = do (reach, rest) ← take_reach ms; some (reach, m ∷ rest)

-- NEXT_HOP goes with the UPDATE's own NLRI; MP_REACH_NLRI has its own, and the UPDATE none.
unfoldable pub announced_by : Bool → Meaning → Bytes → Option Announcement
announced_by addpath (Meaning.next_hop hop) nlri = read_announced addpath 1 1 hop nlri
announced_by addpath (Meaning.mp_reach afi safi hop bs) [] = read_announced addpath afi safi hop bs
announced_by addpath _ nlri = none

-- A message that withdraws nothing and announces one route.
unfoldable pub read_route : Bool → Bytes → Option (List Meaning × Announcement)
read_route addpath message = do
  (msg_type, payload, trailing) ← read_message message
  (withdrawn, attrs, nlri) ← read_update payload
  meanings ← decode Context.update attrs
  (reach, others) ← take_reach meanings
  announcement ← announced_by addpath reach nlri
  some (others, announcement)

-- The subtypes with a Path Identifier in front of each NLRI: RFC 8050 section 3.
abbrev pub is_addpath_subtype : ℕ → Bool
is_addpath_subtype n = n == 8 || (n == 9 || (n == 10 || n == 11))

-- A BGP4MP body: the subtype says how wide the AS numbers are and whether there are Path Identifiers.
unfoldable pub read_route_body : ℕ → Bytes → Option (Session × List Meaning × Announcement)
read_route_body subtype bs = do
  (session, message) ← read_session (is_as4_subtype subtype) bs
  (attributes, announcement) ← read_route (is_addpath_subtype subtype) message
  some (session, attributes, announcement)

-- BGP4MP_MESSAGE_AS4, or BGP4MP_MESSAGE_AS4_ADDPATH for a route with a Path Identifier.
abbrev pub subtype_of : Option ℕ → ℕ
subtype_of none = 4
subtype_of (some id) = 9

-- The session of a route: the first AS of its path, or 64500, speaks to AS 64511 on interface 1, from
-- the first to the second documentation address of its family.
abbrev first_as : List ℕ → ℕ
first_as [] = 64500
first_as (asn ∷ path) = asn

abbrev pub session_of : Bool → List ℕ → Session
session_of false path = record {
  peer_as = first_as path;
  local_as = 64511;
  ifindex = 1;
  peer_ip = 192 ∷ 0 ∷ 2 ∷ 1 ∷ [];
  local_ip = 192 ∷ 0 ∷ 2 ∷ 2 ∷ [];
}
session_of true path = record {
  peer_as = first_as path;
  local_as = 64511;
  ifindex = 1;
  peer_ip = 0x20 ∷ 0x01 ∷ 0x0d ∷ 0xb8 ∷ 0 ∷ 0 ∷ 0 ∷ 0 ∷ 0 ∷ 0 ∷ 0 ∷ 0 ∷ 0 ∷ 0 ∷ 0 ∷ 1 ∷ [];
  local_ip = 0x20 ∷ 0x01 ∷ 0x0d ∷ 0xb8 ∷ 0 ∷ 0 ∷ 0 ∷ 0 ∷ 0 ∷ 0 ∷ 0 ∷ 0 ∷ 0 ∷ 0 ∷ 0 ∷ 2 ∷ [];
}
