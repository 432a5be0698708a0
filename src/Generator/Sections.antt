-- ===== src/Generator/Sections.antt =====
-- The records of each fixed section of src/generator.rs, made at any timestamp.
use mrtgen.Base.{ℕ, ◌≡◌, refl, List, Option, some, map, All}
use mrtgen.Generator.Emit.{Emission}
use mrtgen.Generator.Sound.{IsSound, checked, checked-IsSound}
use mrtgen.Generator.ValidMessages.{valid_section}
use mrtgen.Generator.Skip.{skip_section}
use mrtgen.Generator.Combo.{combo_section}
use mrtgen.Generator.AttrErrors.{attr_errors_section}
use mrtgen.Generator.Edge.{edge_valid_section}
use mrtgen.Generator.EdgeSkip.{edge_skip_section}
use mrtgen.Generator.Stress.{stress_skip_section}

unfoldable run : List Emission → ℕ → List (Option ℕ)
unfolding checked mrtgen.Generator.Sound.fields_fit mrtgen.Base.be16 mrtgen.Base.be32
    mrtgen.Bgp.Nlri.slice_to mrtgen.Bgp.Nlri.nlri_v4 mrtgen.Bgp.Nlri.nlri_v6
    mrtgen.Bgp.Nlri.nlri_v4_addpath mrtgen.Bgp.Nlri.nlri_v6_addpath mrtgen.Bgp.Nlri.rd_type0
    mrtgen.Bgp.Nlri.rd_type1 mrtgen.Bgp.Nlri.rd_type2 mrtgen.Bgp.Nlri.stack_entry
    mrtgen.Bgp.Nlri.nlri_vpn mrtgen.Bgp.Nlri.vpn_next_hop mrtgen.Bgp.Attr.attribute
    mrtgen.Bgp.Attr.attribute_declared mrtgen.Bgp.Attr.attr_origin mrtgen.Bgp.Attr.attr_as_path_2b
    mrtgen.Bgp.Attr.attr_as_path_4b mrtgen.Bgp.Attr.attr_next_hop mrtgen.Bgp.Attr.attr_med
    mrtgen.Bgp.Attr.attr_local_pref mrtgen.Bgp.Attr.attr_atomic_aggregate
    mrtgen.Bgp.Attr.attr_aggregator_2b mrtgen.Bgp.Attr.attr_aggregator_4b
    mrtgen.Bgp.Attr.attr_communities mrtgen.Bgp.Attr.attr_originator_id
    mrtgen.Bgp.Attr.attr_cluster_list mrtgen.Bgp.Attr.attr_aigp mrtgen.Bgp.Attr.attr_ext_communities
    mrtgen.Bgp.Attr.attr_ipv6_ext_communities mrtgen.Bgp.Attr.attr_large_communities
    mrtgen.Bgp.Attr.attr_community_raw mrtgen.Bgp.Attr.attr_mp_reach
    mrtgen.Bgp.Attr.attr_mp_reach_td2 mrtgen.Bgp.Attr.attr_mp_unreach
    mrtgen.Bgp.Message.bgp_message_raw mrtgen.Bgp.Message.bgp_message
    mrtgen.Bgp.Message.update_payload mrtgen.Bgp.Message.bgp_update
    mrtgen.Bgp.Message.bgp_update_declared_attr_len mrtgen.Bgp.Message.bgp_open
    mrtgen.Bgp.Message.bgp_keepalive mrtgen.Bgp.Message.bgp_notification
    mrtgen.Records.TableDump.peer_type mrtgen.Records.TableDump.encode_peer
    mrtgen.Records.TableDump.peer_index_table mrtgen.Records.TableDump.encode_entry
    mrtgen.Records.TableDump.rib_afi_safi mrtgen.Records.TableDump.rib_generic
    mrtgen.Records.TableDump.table_dump mrtgen.Records.Bgp4mp.bgp4mp_prelude
    mrtgen.Records.Bgp4mp.message_as4 mrtgen.Records.Bgp4mp.bgp4mp_message
    mrtgen.Records.Bgp4mp.bgp4mp_state_change mrtgen.Records.Igp.ospfv2 mrtgen.Records.Igp.ospfv3
    mrtgen.Records.Igp.isis mrtgen.Records.Attrs.standard_attrs_v4
    mrtgen.Records.Attrs.standard_attrs_v6 mrtgen.Invalid.Messages.unknown_mrt_type
    mrtgen.Invalid.Messages.unknown_subtype mrtgen.Invalid.Messages.in_message
    mrtgen.Invalid.Messages.nlri24 mrtgen.Invalid.Messages.bgp4mp_wrong_attr_size
    mrtgen.Invalid.Messages.bgp4mp_duplicate_origin_bad_len
    mrtgen.Invalid.Messages.bgp4mp_attr_overrun mrtgen.Invalid.Messages.bgp4mp_bad_marker
    mrtgen.Invalid.Messages.bgp4mp_bad_bgp_length mrtgen.Invalid.Messages.bgp4mp_truncated_bgp
    mrtgen.Invalid.Messages.bgp4mp_empty_body mrtgen.Invalid.Messages.bgp4mp_et_short
    mrtgen.Invalid.Tables.rib_attr_len_overrun mrtgen.Invalid.Tables.rib_bad_prefix_len
    mrtgen.Invalid.Tables.rib_generic_vpn_bad_prefix_len
    mrtgen.Invalid.Tables.peer_index_count_mismatch mrtgen.Invalid.Tables.table_dump_attr_overrun
    mrtgen.Invalid.Tables.rib_bad_peer_index mrtgen.Invalid.Attrs.bgp4mp_update
    mrtgen.Invalid.Attrs.update_nlri24 mrtgen.Invalid.Attrs.bgp4mp_as_path_raw
    mrtgen.Invalid.Attrs.bgp4mp_as4_path_longer mrtgen.Invalid.Attrs.bgp4mp_attr_bad_flags
    mrtgen.Invalid.Attrs.bgp4mp_spurious_ext_len mrtgen.Invalid.Attrs.bgp4mp_mp_reach_bad_nh_len
    mrtgen.Invalid.Attrs.bgp4mp_mp_unreach_short mrtgen.Invalid.Attrs.bgp4mp_zero_len_attr
    mrtgen.Invalid.Attrs.bgp4mp_atomic_aggregate_nonzero
    mrtgen.Invalid.Attrs.bgp4mp_aggregator_bad_len mrtgen.Invalid.Attrs.bgp4mp_extra_attr
run es ts = map (λ e. checked (e.make ts)) es

pub valid_section-IsSound : All IsSound valid_section
unfolding run valid_section
valid_section-IsSound = checked-IsSound valid_section (λ ts. refl)

pub skip_section-IsSound : All IsSound skip_section
unfolding run skip_section
skip_section-IsSound = checked-IsSound skip_section (λ ts. refl)

pub combo_section-IsSound : All IsSound combo_section
unfolding run combo_section
combo_section-IsSound = checked-IsSound combo_section (λ ts. refl)

pub attr_errors_section-IsSound : All IsSound attr_errors_section
unfolding run attr_errors_section
attr_errors_section-IsSound = checked-IsSound attr_errors_section (λ ts. refl)

pub edge_valid_section-IsSound : All IsSound edge_valid_section
unfolding run edge_valid_section
edge_valid_section-IsSound = checked-IsSound edge_valid_section (λ ts. refl)

pub edge_skip_section-IsSound : All IsSound edge_skip_section
unfolding run edge_skip_section
edge_skip_section-IsSound = checked-IsSound edge_skip_section (λ ts. refl)

pub stress_skip_section-IsSound : All IsSound stress_skip_section
unfolding run stress_skip_section
stress_skip_section-IsSound = checked-IsSound stress_skip_section (λ ts. refl)
