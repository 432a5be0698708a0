-- ===== src/Tests/Tables.antt =====
-- TABLE_DUMP_V2 and BGP4MP records.
use mrtgen.Base.{◌≡◌, refl, inl, inr, ◌++◌, [], ◌∷◌, true, false, none, some, arith, replicate}
use mrtgen.Types
use mrtgen.Text.{codes}
use mrtgen.Bgp.Nlri.Reading.{encoded_prefix}
use mrtgen.Bgp.Nlri.Vpn.{VpnRoute, encoded_vpn}
use mrtgen.Records.TableDump.{
  Peer, RibEntry, new_entry, peer_index_table, rib_afi_safi, rib_generic,
}
use mrtgen.Records.TableDump.Peers.{IsPeer, read_peer_index_table, read-peer_index_table}
use mrtgen.Records.TableDump.Rib.{IsEntry, id_bytes, read_rib, read_rib-rib_afi_safi}
use mrtgen.Records.TableDump.Generic.{read_generic_vpn, read_generic_vpn-rib_generic}
use mrtgen.Records.Bgp4mp.{Session, bgp4mp_message}
use mrtgen.Records.Bgp4mp.Reading.{
  IsSession, read_session, is_as4_subtype, read_session-bgp4mp_message,
}

abbrev peer_v4 : Peer
peer_v4 = record {
  bgp_id = 192 ∷ 0 ∷ 2 ∷ 1 ∷ [];
  ip = 192 ∷ 0 ∷ 2 ∷ 1 ∷ [];
  asn = 64500;
  as4 = false;
}

abbrev peer_v6 : Peer
peer_v6 = record {
  bgp_id = 192 ∷ 0 ∷ 2 ∷ 2 ∷ [];
  ip = replicate 16 1;
  asn = 4200000001;
  as4 = true;
}

peer_v4-IsPeer : IsPeer peer_v4
peer_v4-IsPeer = record {
  id_size = refl;
  ip_size = inl refl;
  asn_fits = omega arith;
  as2_fits = λ e. omega arith;
}

peer_v6-IsPeer : IsPeer peer_v6
peer_v6-IsPeer = record {
  id_size = refl;
  ip_size = inr refl;
  asn_fits = omega arith;
  as2_fits = λ e. cc;
}

read-peer_index_table_example :
    read_peer_index_table
      (peer_index_table 1600000000
        (1 ∷ 2 ∷ 3 ∷ 4 ∷ [])
        (codes "view")
        (peer_v4 ∷ peer_v6 ∷ [])).body
    ≡ some (1 ∷ 2 ∷ 3 ∷ 4 ∷ [], codes "view", peer_v4 ∷ peer_v6 ∷ [])
read-peer_index_table_example =
    read-peer_index_table 1600000000 (1 ∷ 2 ∷ 3 ∷ 4 ∷ []) (codes "view") (peer_v4 ∷ peer_v6 ∷ [])
      refl (omega arith) (omega arith) (peer_v4-IsPeer, (peer_v6-IsPeer, tt))

abbrev entry : RibEntry
entry = new_entry 1 1600000000 (0x40 ∷ 1 ∷ 1 ∷ 0 ∷ [])

abbrev entry_addpath : RibEntry
entry_addpath = record entry { path_id = some 7 }

entry-IsEntry : IsEntry false entry
entry-IsEntry = record {
  index_fits = omega arith;
  time_fits = omega arith;
  id_present = tt;
  attrs_fit = omega arith;
  computed = refl;
}

entry_addpath-IsEntry : IsEntry true entry_addpath
entry_addpath-IsEntry = record {
  index_fits = omega arith;
  time_fits = omega arith;
  id_present = omega arith;
  attrs_fit = omega arith;
  computed = refl;
}

read_rib-rib_afi_safi_example :
    read_rib 4 true
      (rib_afi_safi 1600000000 Types.rib_ipv4_unicast_addpath 5
        (encoded_prefix (10 ∷ 1 ∷ 0 ∷ 0 ∷ []) 16)
        (entry_addpath ∷ [])).body
    ≡ some (record {
      sequence = 5;
      bits = 16;
      prefix = 10 ∷ 1 ∷ 0 ∷ 0 ∷ [];
      entries = entry_addpath ∷ [];
    })
read_rib-rib_afi_safi_example =
    read_rib-rib_afi_safi 1600000000 Types.rib_ipv4_unicast_addpath 5 (10 ∷ 1 ∷ 0 ∷ 0 ∷ []) 16 true
      (entry_addpath ∷ []) (omega arith) (omega arith) (refl, (refl, tt)) (omega arith)
      (entry_addpath-IsEntry, tt)

abbrev route : VpnRoute
route = record {
  label = 1000;
  rd = 0 ∷ 0 ∷ 0 ∷ 1 ∷ 0 ∷ 0 ∷ 0 ∷ 2 ∷ [];
  bits = 16;
  prefix = 10 ∷ 1 ∷ 0 ∷ 0 ∷ [];
}

read_generic_vpn-rib_generic_example :
    read_generic_vpn 4 true
      (rib_generic 1600000000 Types.rib_generic_addpath 5 1 128
        (id_bytes (some 7)
          ++ encoded_vpn 1000 (0 ∷ 0 ∷ 0 ∷ 1 ∷ 0 ∷ 0 ∷ 0 ∷ 2 ∷ []) (10 ∷ 1 ∷ 0 ∷ 0 ∷ []) 16)
        (entry ∷ [])).body
    ≡ some (record {
      sequence = 5;
      afi = 1;
      safi = 128;
      path_id = some 7;
      route = route;
      entries = entry ∷ [];
    })
read_generic_vpn-rib_generic_example =
    read_generic_vpn-rib_generic 1600000000 Types.rib_generic_addpath 5 1 128 true (some 7) route
      (entry ∷ []) (omega arith) (omega arith) (omega arith) (omega arith) refl (omega arith)
      (omega arith) (refl, (refl, tt)) (omega arith) (entry-IsEntry, tt)

abbrev session : Session
session = record {
  peer_as = 4200000001;
  local_as = 64511;
  ifindex = 1;
  peer_ip = 192 ∷ 0 ∷ 2 ∷ 1 ∷ [];
  local_ip = 192 ∷ 0 ∷ 2 ∷ 2 ∷ [];
}

session-IsSession : IsSession (is_as4_subtype Types.bgp4mp_message_as4) session
session-IsSession = record {
  peer_fits = omega arith;
  local_fits = omega arith;
  ifindex_fits = omega arith;
  peer_size = inl refl;
  same_size = refl;
}

read_session-bgp4mp_message_example :
    let r =
      bgp4mp_message 1600000000 Types.bgp4mp_et
        (some 5)
        Types.bgp4mp_message_as4
        session
        (1 ∷ 2 ∷ []) in
    (read_session true r.body ≡ some (session, 1 ∷ 2 ∷ []))
    × (r.microsecond ≡ some 5)
    × (r.declared_length ≡ none)
read_session-bgp4mp_message_example =
    read_session-bgp4mp_message 1600000000 Types.bgp4mp_et Types.bgp4mp_message_as4 (some 5) session
      (1 ∷ 2 ∷ []) session-IsSession
