-- ===== src/Types.antt =====
-- The constants of src/types.rs: MRT types and subtypes, BGP message types, path attribute codes
-- and flags, address families.
use mrtgen.Base.{ℕ}

abbrev pub ospfv2 : ℕ
ospfv2 = 11

abbrev pub table_dump : ℕ
table_dump = 12

abbrev pub table_dump_v2 : ℕ
table_dump_v2 = 13

abbrev pub bgp4mp : ℕ
bgp4mp = 16

abbrev pub bgp4mp_et : ℕ
bgp4mp_et = 17

abbrev pub isis : ℕ
isis = 32

abbrev pub isis_et : ℕ
isis_et = 33

abbrev pub ospfv3 : ℕ
ospfv3 = 48

abbrev pub ospfv3_et : ℕ
ospfv3_et = 49

abbrev pub afi_ipv4 : ℕ
afi_ipv4 = 1

abbrev pub afi_ipv6 : ℕ
afi_ipv6 = 2

abbrev pub peer_index_table : ℕ
peer_index_table = 1

abbrev pub rib_ipv4_unicast : ℕ
rib_ipv4_unicast = 2

abbrev pub rib_ipv4_multicast : ℕ
rib_ipv4_multicast = 3

abbrev pub rib_ipv6_unicast : ℕ
rib_ipv6_unicast = 4

abbrev pub rib_ipv6_multicast : ℕ
rib_ipv6_multicast = 5

abbrev pub rib_generic : ℕ
rib_generic = 6

abbrev pub rib_ipv4_unicast_addpath : ℕ
rib_ipv4_unicast_addpath = 8

abbrev pub rib_ipv4_multicast_addpath : ℕ
rib_ipv4_multicast_addpath = 9

abbrev pub rib_ipv6_unicast_addpath : ℕ
rib_ipv6_unicast_addpath = 10

abbrev pub rib_ipv6_multicast_addpath : ℕ
rib_ipv6_multicast_addpath = 11

abbrev pub rib_generic_addpath : ℕ
rib_generic_addpath = 12

abbrev pub bgp4mp_state_change : ℕ
bgp4mp_state_change = 0

abbrev pub bgp4mp_message : ℕ
bgp4mp_message = 1

abbrev pub bgp4mp_message_as4 : ℕ
bgp4mp_message_as4 = 4

abbrev pub bgp4mp_state_change_as4 : ℕ
bgp4mp_state_change_as4 = 5

abbrev pub bgp4mp_message_local : ℕ
bgp4mp_message_local = 6

abbrev pub bgp4mp_message_as4_local : ℕ
bgp4mp_message_as4_local = 7

abbrev pub bgp4mp_message_addpath : ℕ
bgp4mp_message_addpath = 8

abbrev pub bgp4mp_message_as4_addpath : ℕ
bgp4mp_message_as4_addpath = 9

abbrev pub bgp4mp_message_local_addpath : ℕ
bgp4mp_message_local_addpath = 10

abbrev pub bgp4mp_message_as4_local_addpath : ℕ
bgp4mp_message_as4_local_addpath = 11

abbrev pub state_idle : ℕ
state_idle = 1

abbrev pub state_connect : ℕ
state_connect = 2

abbrev state_active : ℕ
state_active = 3

abbrev state_open_sent : ℕ
state_open_sent = 4

abbrev pub state_open_confirm : ℕ
state_open_confirm = 5

abbrev pub state_established : ℕ
state_established = 6

abbrev pub bgp_open : ℕ
bgp_open = 1

abbrev pub bgp_update : ℕ
bgp_update = 2

abbrev pub bgp_notification : ℕ
bgp_notification = 3

abbrev pub bgp_keepalive : ℕ
bgp_keepalive = 4

abbrev pub attr_origin : ℕ
attr_origin = 1

abbrev pub attr_as_path : ℕ
attr_as_path = 2

abbrev pub attr_next_hop : ℕ
attr_next_hop = 3

abbrev pub attr_multi_exit_disc : ℕ
attr_multi_exit_disc = 4

abbrev pub attr_local_pref : ℕ
attr_local_pref = 5

abbrev pub attr_atomic_aggregate : ℕ
attr_atomic_aggregate = 6

abbrev pub attr_aggregator : ℕ
attr_aggregator = 7

abbrev pub attr_community : ℕ
attr_community = 8

abbrev pub attr_originator_id : ℕ
attr_originator_id = 9

abbrev pub attr_cluster_list : ℕ
attr_cluster_list = 10

abbrev pub attr_mp_reach_nlri : ℕ
attr_mp_reach_nlri = 14

abbrev pub attr_mp_unreach_nlri : ℕ
attr_mp_unreach_nlri = 15

abbrev pub attr_ext_community : ℕ
attr_ext_community = 16

abbrev pub attr_as4_path : ℕ
attr_as4_path = 17

abbrev pub attr_as4_aggregator : ℕ
attr_as4_aggregator = 18

abbrev pub attr_ipv6_ext_community : ℕ
attr_ipv6_ext_community = 25

abbrev pub attr_aigp : ℕ
attr_aigp = 26

abbrev pub attr_large_community : ℕ
attr_large_community = 32

abbrev pub comm_no_export : ℕ
comm_no_export = 0xFFFF_FF01

abbrev pub comm_no_advertise : ℕ
comm_no_advertise = 0xFFFF_FF02

abbrev pub comm_no_export_subconfed : ℕ
comm_no_export_subconfed = 0xFFFF_FF03

abbrev pub flag_optional : ℕ
flag_optional = 0x80

abbrev pub flag_transitive : ℕ
flag_transitive = 0x40

abbrev pub flag_partial : ℕ
flag_partial = 0x20

abbrev pub flag_ext_len : ℕ
flag_ext_len = 0x10

abbrev pub bgp_afi_ipv4 : ℕ
bgp_afi_ipv4 = 1

abbrev pub bgp_afi_ipv6 : ℕ
bgp_afi_ipv6 = 2

abbrev pub safi_unicast : ℕ
safi_unicast = 1

abbrev safi_multicast : ℕ
safi_multicast = 2

abbrev pub safi_mpls_vpn : ℕ
safi_mpls_vpn = 128

abbrev pub safi_flowspec : ℕ
safi_flowspec = 133
