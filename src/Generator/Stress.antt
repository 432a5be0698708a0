-- ===== src/Generator/Stress.antt =====
-- `emit_stress` of src/generator.rs: high record counts and fields at their limits.
use Prim.Native.String.{String}
use Prim.Native.String
use mrtgen.Base.{
  ℕ, ◌+◌, ◌/◌, ◌++◌, [], ◌∷◌, List, Bool, true, false, Option, none, some, Bytes, map, as_u8,
  bit_and, be16, replicate, range_from, ◌==◌, not, if◌then◌else◌,
}
use mrtgen.Types
use mrtgen.Text.{codes}
use mrtgen.Wire.{◌>>=◌}
use mrtgen.Manifest.{valid, skip}
use mrtgen.Writer.{MrtRecord}
use mrtgen.Bgp.Attr.{attribute, optional_transitive, attr_origin, attr_as_path_4b, attr_next_hop}
use mrtgen.Bgp.Nlri.{nlri_v4}
use mrtgen.Bgp.Message.{bgp_message_raw, bgp_keepalive}
use mrtgen.Records.Bgp4mp.{bgp4mp_message}
use mrtgen.Records.TableDump.{Peer, RibEntry, new_entry, peer_index_table, rib_afi_safi}
use mrtgen.Generator.{Builder, next_timestamp}
use mrtgen.Generator.Emit.{Emission, emission, always, digits_of, emit_all, emit_if, ip4}
use mrtgen.Generator.ValidMessages.{session_v4}
use mrtgen.Generator.Edge.{numbered, rib_v4_one, wrap_bgp}

-- `format!("stress_keepalive_{i:06}")`; the ordinals have at most six digits.
abbrev pub keepalive_emission : ℕ → Emission
keepalive_emission i =
    emission (String.◌++◌ "stress_keepalive_" (digits_of 6 i)) valid
      "High-volume BGP4MP KEEPALIVE stream record"
      (always λ ts.
        bgp4mp_message ts Types.bgp4mp none Types.bgp4mp_message_as4
          (session_v4 4200000001 4200000002 (bit_and i 0xffff)) bgp_keepalive)

unfoldable pub stress_keepalives : List Emission
stress_keepalives = map keepalive_emission (range_from 0 100000)

-- The peer of index `i`, below 65535: IPv6 with its lowest bit set, a 4-byte AS with the second.
abbrev pub stress_peer : ℕ → Peer
stress_peer i =
    let ipv6 = not (bit_and i 1 == 0) in
    let as4 = not (bit_and i 2 == 0) in
    record {
      bgp_id = ip4 10 (as_u8 (i / 256)) (as_u8 i) 2;
      ip =
          if ipv6
          then (0x20 ∷ 0x01 ∷ 0x0d ∷ 0xb8 ∷ replicate 10 0) ++ be16 i
          else ip4 10 (as_u8 (i / 256)) (as_u8 i) 1;
      asn = if as4 then 4200000000 + i else i;
      as4 = as4;
    }

unfoldable pub stress_peers : List Peer
stress_peers = map stress_peer (range_from 0 65535)

-- The entries of the largest RIB record, at the timestamp of the peer table in front of it.
unfoldable pub stress_entries : ℕ → List RibEntry
stress_entries ts = map (λ i. new_entry i ts []) (range_from 0 65535)

abbrev pub max_entries : ℕ → ℕ → Option MrtRecord
max_entries peers_ts ts = do
  nlri ← nlri_v4 (ip4 0 0 0 0) 0
  some (rib_afi_safi ts Types.rib_ipv4_unicast 0xffff_ffff nlri (stress_entries peers_ts))

-- Four bytes of header and 65531 of value.
unfoldable pub stress_attrs : Bytes
stress_attrs = attribute optional_transitive 240 (replicate 65531 0x5a)

abbrev sequence_attrs : Bytes
sequence_attrs =
    (attr_origin 0 ++ attr_as_path_4b (range_from 64500 255)) ++ attr_next_hop (ip4 192 0 2 1)

abbrev pub sequence_emission : Emission
sequence_emission =
    emission "stress_as_sequence_count_255" valid "AS_SEQUENCE at its one-octet count limit"
      (rib_v4_one 0xffff_fffd (ip4 198 51 100 0) 24 sequence_attrs)

-- `peers_ts` is the `ts` of the peer table, which the entries of the next record still see.
unfoldable pub stress_limits : ℕ → List Emission
stress_limits peers_ts =
    emission "stress_peer_count_65535" valid "PEER_INDEX_TABLE at the u16 peer-count limit"
      (always λ ts. peer_index_table ts (ip4 192 0 2 100) (codes "stress-max-peers") stress_peers)
    ∷ emission "stress_rib_entry_count_65535" valid "RIB at the u16 entry-count limit"
        (max_entries peers_ts)
    ∷ emission "stress_rib_attribute_length_65535" valid
        "RIB entry at the u16 Attribute Length limit"
        (rib_v4_one 0xffff_fffe (ip4 203 0 113 0) 24 stress_attrs)
    ∷ sequence_emission
    ∷ []

abbrev length_emission : ℕ → Emission
length_emission declared =
    emission (numbered "stress_mutation_bgp_length_" declared) skip
      "Systematic BGP Length-field mutation"
      (always
        λ ts. wrap_bgp ts (bgp_message_raw (replicate 16 0xff) declared Types.bgp_keepalive []))

unfoldable pub stress_skip_section : List Emission
stress_skip_section = map length_emission (0 ∷ 1 ∷ 17 ∷ 18 ∷ 20 ∷ 4095 ∷ 4097 ∷ 65535 ∷ [])

module _ {D : Type 0} (details : String → D) where
  unfoldable pub emit_stress_valid : Bool → Builder D → Option (Builder D)
  emit_stress_valid false b = some b
  emit_stress_valid true b = do
    b₁ ← emit_all details stress_keepalives b
    emit_all details (stress_limits (next_timestamp b₁)) b₁

  unfoldable pub emit_stress : Bool → Bool → Builder D → Option (Builder D)
  emit_stress include_valid include_skip b = do
    b₁ ← emit_stress_valid include_valid b
    emit_if details stress_skip_section include_skip b₁
