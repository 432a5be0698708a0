-- ===== src/Generator/ValidMessages.antt =====
-- `emit_valid` of src/generator.rs, from the BGP4MP records on.
use Prim.Native.String.{String}
use mrtgen.Base.{
  ℕ, ◌++◌, [], ◌∷◌, List, Bool, true, false, ◌||◌, Option, none, some, Bytes, map, ◌==◌, replicate,
  if◌then◌else◌,
}
use mrtgen.Types
use mrtgen.Wire.{◌>>=◌}
use mrtgen.Manifest.{valid}
use mrtgen.Writer.{MrtRecord}
use mrtgen.Bgp.Attr.{
  attr_origin, attr_as_path_2b, attr_as_path_4b, attr_next_hop, attr_mp_reach, attr_ext_communities,
}
use mrtgen.Bgp.Nlri.{nlri_v4, nlri_v6, nlri_v6_addpath, nlri_vpn, rd_type0, vpn_next_hop}
use mrtgen.Bgp.Message.{bgp_update, bgp_open, bgp_keepalive, bgp_notification}
use mrtgen.Records.Bgp4mp.{Session, bgp4mp_message, bgp4mp_state_change}
use mrtgen.Records.Igp.{ospfv2, ospfv3, isis}
use mrtgen.Generator.Emit.{Emission, emission, always, v6, ip4}
use mrtgen.Generator.Valid.{valid_ribs, valid_generic, valid_dumps, route_target}

-- `peer_as, local_as, ifindex, &[192, 0, 2, 1], &[192, 0, 2, 2]`
abbrev pub session_v4 : ℕ → ℕ → ℕ → Session
session_v4 peer_as local_as ifindex = record {
  peer_as = peer_as;
  local_as = local_as;
  ifindex = ifindex;
  peer_ip = ip4 192 0 2 1;
  local_ip = ip4 192 0 2 2;
}

abbrev session_v6 : ℕ → ℕ → ℕ → Session
session_v6 peer_as local_as ifindex = record {
  peer_as = peer_as;
  local_as = local_as;
  ifindex = ifindex;
  peer_ip = v6 1;
  local_ip = v6 2;
}

abbrev valid_states : List Emission
valid_states =
    emission "bgp4mp_state_change" valid
      "BGP4MP_STATE_CHANGE OpenConfirm -> Established (2-byte AS)"
      (always λ ts.
        bgp4mp_state_change ts Types.bgp4mp_state_change (session_v4 64500 64501 1)
          Types.state_open_confirm Types.state_established)
    ∷ emission "bgp4mp_state_change_as4" valid
        "BGP4MP_STATE_CHANGE_AS4 Idle -> Connect (4-byte AS, IPv6 peers)"
        (always λ ts.
          bgp4mp_state_change ts Types.bgp4mp_state_change_as4 (session_v6 4200000001 4200000002 1)
            Types.state_idle Types.state_connect)
    ∷ []

-- A BGP4MP_MESSAGE of the session 64500, 64501.
abbrev plain_message : ℕ → Bytes → MrtRecord
plain_message ts message =
    bgp4mp_message ts Types.bgp4mp none Types.bgp4mp_message (session_v4 64500 64501 1) message

abbrev withdraw_announce : Option Bytes
withdraw_announce = do
  withdrawn ← nlri_v4 (ip4 198 51 100 0) 25
  announced ← nlri_v4 (ip4 198 51 100 128) 25
  some (
      bgp_update withdrawn
        ((attr_origin 0 ++ attr_as_path_2b (64500 ∷ 65000 ∷ [])) ++ attr_next_hop (ip4 192 0 2 1))
        announced)

abbrev message_emission : String × Option Bytes × String → Emission
message_emission (kind, message, description) =
    emission kind valid description (λ ts. message >>= (λ msg. some (plain_message ts msg)))

abbrev msg_cases : List (String × Option Bytes × String)
msg_cases =
    (
      "bgp4mp_message_update", withdraw_announce,
      "BGP4MP_MESSAGE carrying an UPDATE (withdraw + announce)",
    )
    ∷ (
      "bgp4mp_message_open",
      some (bgp_open 64500 180 (ip4 192 0 2 10)),
      "BGP4MP_MESSAGE carrying an OPEN",
    )
    ∷ ("bgp4mp_message_keepalive", some bgp_keepalive, "BGP4MP_MESSAGE carrying a KEEPALIVE")
    ∷ (
      "bgp4mp_message_notification",
      some (bgp_notification 6 2 []),
      "BGP4MP_MESSAGE carrying a NOTIFICATION (Cease/Shutdown)",
    )
    ∷ []

-- `update6(as4, addpath)`
abbrev update6 : Bool → Bool → Option Bytes
update6 as4 addpath = do
  plain ← nlri_v6 (v6 0) 64
  identified ← nlri_v6_addpath 3 (v6 0) 64
  let path : Bytes =
      if as4
      then attr_as_path_4b (4200000001 ∷ 64510 ∷ [])
      else attr_as_path_2b (64500 ∷ 64510 ∷ [])
  let nlri : Bytes = if addpath then identified else plain
  some (
      bgp_update []
        ((attr_origin 2 ++ path) ++ attr_mp_reach Types.bgp_afi_ipv6 Types.safi_unicast (v6 9) nlri)
        [])

-- `matches!(subtype, ..)`, here without the state change
abbrev pub subtype_as4 : ℕ → Bool
subtype_as4 subtype =
    subtype == Types.bgp4mp_message_as4
    || (subtype == Types.bgp4mp_message_as4_local
        || (subtype == Types.bgp4mp_message_as4_addpath
            || subtype == Types.bgp4mp_message_as4_local_addpath))

abbrev subtype_record : ℕ → Bool → ℕ → Option MrtRecord
subtype_record subtype addpath ts = do
  let as4 = subtype_as4 subtype
  update ← update6 as4 addpath
  some (
      bgp4mp_message ts Types.bgp4mp none subtype
        (if as4 then session_v6 4200000001 4200000002 2 else session_v6 64500 64501 2) update)

abbrev subtype_emission : ℕ × String × Bool → Emission
subtype_emission (subtype, kind, addpath) =
    emission kind valid "BGP4MP message subtype carrying an IPv6 UPDATE via MP_REACH_NLRI"
      (subtype_record subtype addpath)

abbrev subtype_cases : List (ℕ × String × Bool)
subtype_cases =
    (Types.bgp4mp_message_as4, "bgp4mp_message_as4", false)
    ∷ (Types.bgp4mp_message_local, "bgp4mp_message_local", false)
    ∷ (Types.bgp4mp_message_as4_local, "bgp4mp_message_as4_local", false)
    ∷ (Types.bgp4mp_message_addpath, "bgp4mp_message_addpath", true)
    ∷ (Types.bgp4mp_message_as4_addpath, "bgp4mp_message_as4_addpath", true)
    ∷ (Types.bgp4mp_message_local_addpath, "bgp4mp_message_local_addpath", true)
    ∷ (Types.bgp4mp_message_as4_local_addpath, "bgp4mp_message_as4_local_addpath", true)
    ∷ []

abbrev vpnv4_update : ℕ → Option MrtRecord
vpnv4_update ts = do
  nlri ← nlri_vpn 100 (rd_type0 64500 1) (ip4 10 30 0 0) 24
  let attrs =
      ((attr_origin 0 ++ attr_as_path_2b (64500 ∷ 65000 ∷ []))
        ++ attr_ext_communities (route_target 1 ∷ []))
      ++ attr_mp_reach Types.bgp_afi_ipv4 Types.safi_mpls_vpn (vpn_next_hop (ip4 192 0 2 5)) nlri
  some (plain_message ts (bgp_update [] attrs []))

abbrev valid_messages : List Emission
valid_messages =
    map message_emission msg_cases
    ++ (map subtype_emission subtype_cases
        ++ (emission "bgp4mp_message_vpnv4_update" valid
              "BGP4MP_MESSAGE UPDATE announcing a VPNv4 route (AFI 1 / SAFI 128) via MP_REACH_NLRI with an RD-prefixed next hop and a Route Target"
              vpnv4_update
            ∷ emission "bgp4mp_et_message_as4" valid
                "BGP4MP_ET record (microsecond timestamp) carrying a KEEPALIVE"
                (always λ ts.
                  bgp4mp_message ts Types.bgp4mp_et (some 250000) Types.bgp4mp_message_as4
                    (session_v4 4200000001 4200000002 1) bgp_keepalive)
            ∷ []))

abbrev ospf2_pdu : Bytes
ospf2_pdu =
    (2 ∷ 1 ∷ 0 ∷ 44 ∷ 192 ∷ 0 ∷ 2 ∷ 30 ∷ replicate 16 0)
    ++ (255 ∷ 255 ∷ 255 ∷ 0 ∷ 0 ∷ 10 ∷ 2 ∷ 1 ∷ 0 ∷ 0 ∷ 0 ∷ 40 ∷ replicate 8 0)

abbrev ospf3_pdu : Bytes
ospf3_pdu =
    (3 ∷ 1 ∷ 0 ∷ 36 ∷ 192 ∷ 0 ∷ 2 ∷ 40 ∷ replicate 8 0)
    ++ (0 ∷ 0 ∷ 0 ∷ 5 ∷ 1 ∷ 0 ∷ 0 ∷ 19 ∷ 0 ∷ 10 ∷ 0 ∷ 40 ∷ replicate 8 0)

abbrev isis_pdu : Bytes
isis_pdu =
    (0x83 ∷ 27 ∷ 1 ∷ 0 ∷ 15 ∷ 1 ∷ 0 ∷ 0 ∷ 1 ∷ 0 ∷ 0 ∷ 0 ∷ 0 ∷ 0 ∷ 1 ∷ [])
    ++ (0 ∷ 30 ∷ 0 ∷ 27 ∷ 64 ∷ 0 ∷ 0 ∷ 0 ∷ 0 ∷ 0 ∷ 1 ∷ 1 ∷ [])

abbrev valid_igp : List Emission
valid_igp =
    emission "ospfv2" valid "OSPFv2 record with a minimal Hello PDU"
      (always λ ts. ospfv2 ts (ip4 192 0 2 30) (ip4 192 0 2 31) ospf2_pdu)
    ∷ emission "ospfv3" valid "OSPFv3 record with a minimal Hello PDU"
        (always λ ts. ospfv3 ts none (v6 30) (v6 31) ospf3_pdu)
    ∷ emission "ospfv3_et" valid "OSPFv3_ET record (microsecond timestamp)"
        (always λ ts. ospfv3 ts (some 500000) (v6 30) (v6 31) ospf3_pdu)
    ∷ emission "isis" valid "ISIS record with a minimal L1 LAN Hello PDU"
        (always λ ts. isis ts none isis_pdu)
    ∷ emission "isis_et" valid "ISIS_ET record (microsecond timestamp)"
        (always λ ts. isis ts (some 750000) isis_pdu)
    ∷ []

-- What `emit_valid` pushes.
unfoldable pub valid_section : List Emission
valid_section =
    valid_ribs
    ++ (valid_generic ++ (valid_dumps ++ (valid_states ++ (valid_messages ++ valid_igp))))
