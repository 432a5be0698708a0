-- ===== src/Generator/Limits.antt =====
-- The records of `emit_stress` in src/generator.rs, by their sizes.
use mrtgen.Base.{
  ℕ, zero, ◌+◌, ◌*◌, ◌≤◌, ◌<◌, ◌≡◌, refl, [], ◌∷◌, List, Option, some, arith, Bytes, All, All-map,
  length, length-append, length-map, length-range_from, length-replicate, range_from, replicate,
  be16, be32, as_u16, ltb, lt→ltb, map, ◌++◌, IsU32,
}
use mrtgen.Text.{codes}
use mrtgen.Writer
use mrtgen.Writer.{MrtRecord}
use mrtgen.Writer.Buf.{Buf, each}
use mrtgen.Writer.Framing.{IsHonest}
use mrtgen.Bgp.Attr.{attribute, optional_transitive}
use mrtgen.Records.TableDump.{
  Peer, RibEntry, new_entry, encode_peer, encode_entry, peer_index_table, rib_afi_safi, peer_type,
}
use mrtgen.Generator.Emit.{Emission, ip4}
use mrtgen.Generator.Edge.{rib_v4_one}
use mrtgen.Generator.Sound.{IsSound, checked, made-IsSound}
use mrtgen.Generator.Stress.{
  keepalive_emission, stress_keepalives, stress_peer, stress_peers, stress_entries, stress_attrs,
  max_entries, sequence_emission, stress_limits,
}

-- A loop step that appends at most 30 bytes.
abbrev AddsFew {ℓ} : {A : Type ℓ} → (A → Buf → Buf) → A → Type 0
AddsFew write x = (b : Buf) → length (write x b) ≤ length b + 30

-- A loop whose steps append at most 30 bytes each.
length-each_bound {ℓ} :
    {A : Type ℓ} (write : A → Buf → Buf) (xs : List A) (b : Buf)
    → All (AddsFew write) xs
    → length (each write xs b) ≤ length b + 30 * length xs
length-each_bound write [] b h = omega arith
length-each_bound write (x ∷ xs) b h =
    omega (arith, length-each_bound write xs (write x b) h.1, h.0 b)

unfoldable run : Emission → ℕ → Option ℕ
unfolding checked mrtgen.Generator.Sound.fields_fit mrtgen.Base.be16 mrtgen.Base.be32
    mrtgen.Bgp.Nlri.slice_to mrtgen.Bgp.Nlri.nlri_v4 mrtgen.Bgp.Nlri.nlri_v6
    mrtgen.Bgp.Nlri.nlri_v4_addpath mrtgen.Bgp.Nlri.nlri_v6_addpath mrtgen.Bgp.Nlri.rd_type0
    mrtgen.Bgp.Nlri.rd_type1 mrtgen.Bgp.Nlri.rd_type2 mrtgen.Bgp.Nlri.stack_entry
    mrtgen.Bgp.Nlri.nlri_vpn mrtgen.Bgp.Nlri.vpn_next_hop mrtgen.Bgp.Attr.attribute
    mrtgen.Bgp.Attr.attribute_declared mrtgen.Bgp.Attr.attr_origin mrtgen.Bgp.Attr.attr_as_path_2b
    mrtgen.Bgp.Attr.attr_as_path_4b mrtgen.Bgp.Attr.attr_next_hop mrtgen.Bgp.Attr.attr_med
    mrtgen.Bgp.Attr.attr_local_pref mrtgen.Bgp.Attr.attr_atomic_aggregate
    mrtgen.Bgp.Attr.attr_aggregator_2b mrtgen.Bgp.Attr.attr_aggregator_4b
    mrtgen.Bgp.Attr.attr_communities mrtgen.Bgp.Attr.attr_originator_id
    mrtgen.Bgp.Attr.attr_cluster_list mrtgen.Bgp.Attr.attr_aigp mrtgen.Bgp.Attr.attr_ext_communities
    mrtgen.Bgp.Attr.attr_ipv6_ext_communities mrtgen.Bgp.Attr.attr_large_communities
    mrtgen.Bgp.Attr.attr_community_raw mrtgen.Bgp.Attr.attr_mp_reach
    mrtgen.Bgp.Attr.attr_mp_reach_td2 mrtgen.Bgp.Attr.attr_mp_unreach
    mrtgen.Bgp.Message.bgp_message_raw mrtgen.Bgp.Message.bgp_message
    mrtgen.Bgp.Message.update_payload mrtgen.Bgp.Message.bgp_update
    mrtgen.Bgp.Message.bgp_update_declared_attr_len mrtgen.Bgp.Message.bgp_open
    mrtgen.Bgp.Message.bgp_keepalive mrtgen.Bgp.Message.bgp_notification
    mrtgen.Records.TableDump.peer_type mrtgen.Records.TableDump.encode_peer
    mrtgen.Records.TableDump.peer_index_table mrtgen.Records.TableDump.encode_entry
    mrtgen.Records.TableDump.rib_afi_safi mrtgen.Records.TableDump.rib_generic
    mrtgen.Records.TableDump.table_dump mrtgen.Records.Bgp4mp.bgp4mp_prelude
    mrtgen.Records.Bgp4mp.message_as4 mrtgen.Records.Bgp4mp.bgp4mp_message
    mrtgen.Records.Bgp4mp.bgp4mp_state_change mrtgen.Records.Igp.ospfv2 mrtgen.Records.Igp.ospfv3
    mrtgen.Records.Igp.isis mrtgen.Records.Attrs.standard_attrs_v4
    mrtgen.Records.Attrs.standard_attrs_v6 mrtgen.Invalid.Messages.unknown_mrt_type
    mrtgen.Invalid.Messages.unknown_subtype mrtgen.Invalid.Messages.in_message
    mrtgen.Invalid.Messages.nlri24 mrtgen.Invalid.Messages.bgp4mp_wrong_attr_size
    mrtgen.Invalid.Messages.bgp4mp_duplicate_origin_bad_len
    mrtgen.Invalid.Messages.bgp4mp_attr_overrun mrtgen.Invalid.Messages.bgp4mp_bad_marker
    mrtgen.Invalid.Messages.bgp4mp_bad_bgp_length mrtgen.Invalid.Messages.bgp4mp_truncated_bgp
    mrtgen.Invalid.Messages.bgp4mp_empty_body mrtgen.Invalid.Messages.bgp4mp_et_short
    mrtgen.Invalid.Tables.rib_attr_len_overrun mrtgen.Invalid.Tables.rib_bad_prefix_len
    mrtgen.Invalid.Tables.rib_generic_vpn_bad_prefix_len
    mrtgen.Invalid.Tables.peer_index_count_mismatch mrtgen.Invalid.Tables.table_dump_attr_overrun
    mrtgen.Invalid.Tables.rib_bad_peer_index mrtgen.Invalid.Attrs.bgp4mp_update
    mrtgen.Invalid.Attrs.update_nlri24 mrtgen.Invalid.Attrs.bgp4mp_as_path_raw
    mrtgen.Invalid.Attrs.bgp4mp_as4_path_longer mrtgen.Invalid.Attrs.bgp4mp_attr_bad_flags
    mrtgen.Invalid.Attrs.bgp4mp_spurious_ext_len mrtgen.Invalid.Attrs.bgp4mp_mp_reach_bad_nh_len
    mrtgen.Invalid.Attrs.bgp4mp_mp_unreach_short mrtgen.Invalid.Attrs.bgp4mp_zero_len_attr
    mrtgen.Invalid.Attrs.bgp4mp_atomic_aggregate_nonzero
    mrtgen.Invalid.Attrs.bgp4mp_aggregator_bad_len mrtgen.Invalid.Attrs.bgp4mp_extra_attr
run e ts = checked (e.make ts)

pub stress_keepalives-IsSound : All IsSound stress_keepalives
unfolding stress_keepalives run
stress_keepalives-IsSound =
    All-map IsSound keepalive_emission (range_from 0 100000)
      (λ i. made-IsSound (keepalive_emission i) (λ ts. refl))

length-encode_peer :
    (p : Peer) (b : Buf)
    → length p.bgp_id ≤ 4
    → length p.ip ≤ 16
    → length (encode_peer p b) ≤ length b + 30
unfolding encode_peer be16 be32
length-encode_peer p b id address = grind (arith, length-append)

stress_peer_fits : (i : ℕ) → (length (stress_peer i).bgp_id ≤ 4) × (length (stress_peer i).ip ≤ 16)
unfolding be16
stress_peer_fits i = ground arith

length-encode_entry :
    (e : RibEntry) (b : Buf) → length e.attributes ≤ 0 → length (encode_entry e b) ≤ length b + 30
unfolding encode_entry be16 be32
length-encode_entry e b empty = grind (arith, length-append)

new-IsHonest :
    (ts mrt_type subtype : ℕ) (body : Bytes)
    → IsU32 ts
    → mrt_type < 65536
    → subtype < 65536
    → length body < 4294967296
    → IsHonest (Writer.new ts mrt_type subtype body)
new-IsHonest ts mrt_type subtype body h ht hs size = record {
  timestamp_fits = h;
  type_fits = ht;
  subtype_fits = hs;
  computed = refl;
  payload_fits = size;
}

peers-IsSound :
    (ts : ℕ)
    → IsU32 ts
    → IsHonest (peer_index_table ts (ip4 192 0 2 100) (codes "stress-max-peers") stress_peers)
unfolding peer_index_table be16 stress_peers
peers-IsSound ts h = new-IsHonest ts 13 1 _ h (omega arith) (omega arith) (
    omega (
      arith,
      length-each_bound encode_peer stress_peers _ (
          All-map (AddsFew encode_peer) stress_peer (range_from 0 65535) (λ i b.
            length-encode_peer (stress_peer i) b (stress_peer_fits i).0 (stress_peer_fits i).1)),
      length-map stress_peer (range_from 0 65535),
      length-range_from 0 65535,
    ))

entries_bound :
    (ts : ℕ) (b : Buf) → length (each encode_entry (stress_entries ts) b) ≤ length b + 1966050
unfolding stress_entries
entries_bound ts b = omega (
  arith,
  length-each_bound encode_entry (stress_entries ts) b (
      All-map (AddsFew encode_entry) (λ i. new_entry i ts []) (range_from 0 65535)
        (λ i c. length-encode_entry (new_entry i ts []) c (omega arith))),
  length-map (λ i. new_entry i ts []) (range_from 0 65535),
  length-range_from 0 65535,
)

max_entries-IsSound :
    (peers_ts ts : ℕ)
    → IsU32 ts
    → (r : MrtRecord) × (max_entries peers_ts ts ≡ some r) × IsHonest r × (r.timestamp ≡ ts)
unfolding mrtgen.Bgp.Nlri.nlri_v4 mrtgen.Bgp.Nlri.slice_to rib_afi_safi be16 be32
max_entries-IsSound peers_ts ts h = (
  _,
  refl,
  new-IsHonest ts 13 2 _ h (omega arith) (omega arith) (omega (arith, entries_bound peers_ts _)),
  refl,
)

length-attribute : (flags code : ℕ) (v : Bytes) → length (attribute flags code v) ≤ length v + 4
unfolding attribute be16
length-attribute flags code v = grind (arith, length-append)

length-stress_attrs : length stress_attrs ≤ 65535
unfolding stress_attrs
length-stress_attrs = omega (
  arith,
  length-attribute optional_transitive 240 (replicate 65531 0x5a),
  length-replicate {A = ℕ} 65531 0x5a,
)

one_entry-IsHonest :
    (ts sequence : ℕ) (nlri attrs : Bytes)
    → IsU32 ts
    → length nlri ≤ 30
    → length attrs ≤ 65535
    → IsHonest (rib_afi_safi ts 2 sequence nlri (new_entry 0 ts attrs ∷ []))
unfolding rib_afi_safi encode_entry be16 be32
one_entry-IsHonest ts sequence nlri attrs h small size =
    new-IsHonest ts 13 2 _ h (omega arith) (omega arith) (grind (arith, length-append))

rib_v4_one-IsSound :
    (sequence : ℕ) (attrs : Bytes) (ts : ℕ)
    → length attrs ≤ 65535
    → IsU32 ts
    → (r : MrtRecord) × (rib_v4_one sequence (ip4 203 0 113 0) 24 attrs ts ≡ some r)
      × IsHonest r
      × (r.timestamp ≡ ts)
unfolding mrtgen.Bgp.Nlri.nlri_v4 mrtgen.Bgp.Nlri.slice_to rib_afi_safi
rib_v4_one-IsSound sequence attrs ts size h = (
  _,
  refl,
  one_entry-IsHonest ts sequence (24 ∷ 203 ∷ 0 ∷ 113 ∷ []) attrs h (omega arith) size,
  refl,
)

pub stress_limits-IsSound : (peers_ts : ℕ) → All IsSound (stress_limits peers_ts)
unfolding stress_limits run
stress_limits-IsSound peers_ts = (
  λ ts h. (_, refl, peers-IsSound ts h, refl),
  (
    max_entries-IsSound peers_ts,
    (
      λ ts h. rib_v4_one-IsSound 0xffff_fffe stress_attrs ts length-stress_attrs h,
      (made-IsSound sequence_emission (λ ts. refl), tt),
    ),
  ),
)
