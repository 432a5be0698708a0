-- ===== src/Tests/Routing.antt =====
-- The route-list mode.
use Prim.Native.String.{String}
use mrtgen.Base.{List, map, ℕ, ◌≡◌, refl, ◌++◌, [], ◌∷◌, false, none, some, be16, be32, arith}
use mrtgen.Types
use mrtgen.Text.{
  codes, split_once, split, from_str_radix, digits_value, to_digit, text_eq, strip_prefix,
}
use mrtgen.Text.Address.{parse_ipv4, parse_ipv6}
use mrtgen.Manifest.{valid}
use mrtgen.Bgp.Nlri.{nlri_v4, slice_to}
use mrtgen.FlowSpec.Hex.{parse_hex, hex_pairs}
use mrtgen.Bgp.Attr.{
  attribute, attr_origin, attr_as_path_4b, attr_med, attr_communities, attr_next_hop,
}
use mrtgen.Routes.Prefix.{parse_prefix, prefix_has_host_bits, any_nonzero, index_at, slice_from}
use mrtgen.Routes.Parse.{parse_route, parse_fields, target_of, check_vpn}
use mrtgen.Routes.Rib.{rib_route, rib_record}
use mrtgen.Bgp.Attr.Values.{Context, Meaning}
use mrtgen.Bgp.Attr.Meanings.{decode}
use mrtgen.Bgp.Attr.Meanings.Scalars.{attr_next_hop-Encodes}
use mrtgen.Routes.Spec.{
  bgp4mp, RouteFormat, table_dump_v2, RouteSpec, ParsedRoute, parse_nexthop, parse_origin,
  route_expect,
}
use mrtgen.Routes.Attrs.{with_path_id, attr_as_path, raw_attributes, head_attrs, tail_attrs}
use mrtgen.Routes.Attrs.Meanings.{IsWire, head_meanings, tail_meanings, decode-route_attrs}
use mrtgen.Routes.Communities.{
  parse_std_community, parse_ext_community, parse_large_community, typed, as_specific,
  raw_community, all_hexdigits, hex_bytes,
}
use mrtgen.Generator.{Corpus}
use mrtgen.Routes.Generate.{
  no_output, corpus_of, parse_routes, refuse_flowspec, route_record, emit_routes, start,
  generate_from_routes,
}
use mrtgen.Generator.Layout.{DescribesFile}
use mrtgen.Routes.Generate.Layout.{generate_from_routes-IsDescribed}
use mrtgen.Writer.Framing.{Frame, load, loaded}
use mrtgen.Generator.Loading.{entry_header, frame_header}
use mrtgen.Routes.Generate.Loading.{load-generate_from_routes}
use mrtgen.Routes.Update.{reach, update_route}
use mrtgen.Bgp.Message.{bgp_message_raw, bgp_message, update_payload, bgp_update}
use mrtgen.Outcome.{Outcome, ok, err, panic}

-- `{"prefix": "1.2.3.0/24", "nexthop": "1.1.1.1", "standard_communities": ["111:222"], "med": 50}`
abbrev pub spec_v4 : RouteSpec
spec_v4 = record {
  prefix = some (codes "1.2.3.0/24");
  nexthop = some (codes "1.1.1.1");
  as_path = none;
  origin = none;
  med = some 50;
  local_pref = none;
  atomic_aggregate = false;
  aggregator = none;
  originator_id = none;
  cluster_list = [];
  aigp = none;
  standard_communities = codes "111:222" ∷ [];
  extended_communities = [];
  ipv6_extended_communities = [];
  large_communities = [];
  path_id = none;
  rd = none;
  label = none;
  flowspec = none;
  actions = none;
  expect = none;
  raw_attributes = [];
}

abbrev pub parsed_v4 : ParsedRoute
parsed_v4 = record {
  v6 = false;
  prefix = 1 ∷ 2 ∷ 3 ∷ 0 ∷ [];
  bits = 24;
  nexthop = 1 ∷ 1 ∷ 1 ∷ 1 ∷ [];
  origin = 0;
  as_path = 64500 ∷ [];
  std_comms = 7274718 ∷ [];
  aggregator = none;
  originator_id = none;
  cluster_list = [];
  ext_comms = [];
  ipv6_ext_comms = [];
  large_comms = [];
  rd = none;
  label = 0;
  flow_nlri = none;
  raw_attrs = [];
  expect = valid;
}

word_of : {n v : ℕ} → some n ≡ some v → n ≡ v
word_of e = cc

parsed_v4-IsWire : IsWire parsed_v4 spec_v4
parsed_v4-IsWire = record {
  path_words = (omega arith, tt);
  path_fits = omega arith;
  med_word = λ v e. omega (arith, word_of e);
  local_pref_word = λ v e. cc;
  aggregator_word = λ v e. absurd cc;
  std_words = (omega arith, tt);
  std_fits = omega arith;
  originator_octets = λ v e. absurd cc;
  cluster_octets = tt;
  cluster_fits = omega arith;
  ext_octets = tt;
  ext_fits = omega arith;
  ipv6_octets = tt;
  ipv6_fits = omega arith;
  aigp_word = λ v e. absurd cc;
  large_words = tt;
  large_fits = omega arith;
}

decode-route_attrs_example :
    decode Context.rib
      ((head_attrs parsed_v4 ++ attr_next_hop (1 ∷ 1 ∷ 1 ∷ 1 ∷ [])) ++ tail_attrs parsed_v4 spec_v4)
    ≡ some (
        (head_meanings parsed_v4 ++ (Meaning.next_hop (1 ∷ 1 ∷ 1 ∷ 1 ∷ []) ∷ []))
        ++ tail_meanings parsed_v4 spec_v4 [])
decode-route_attrs_example =
    decode-route_attrs Context.rib parsed_v4 spec_v4 (attr_next_hop (1 ∷ 1 ∷ 1 ∷ 1 ∷ []))
      (Meaning.next_hop (1 ∷ 1 ∷ 1 ∷ 1 ∷ []) ∷ []) [] parsed_v4-IsWire
      (attr_next_hop-Encodes Context.rib (1 ∷ 1 ∷ 1 ∷ 1 ∷ []) refl) tt

abbrev pub describe : RouteFormat → RouteSpec → ParsedRoute → String
describe format spec p = "User route"

abbrev pub details : RouteSpec → ParsedRoute → ℕ
details spec p = p.bits

abbrev corpus_or : Outcome (Corpus ℕ) → Corpus ℕ
corpus_or (ok corpus) = corpus
corpus_or (err e) = corpus_of "0" no_output
corpus_or panic = corpus_of "0" no_output

abbrev pub corpus_v4 : Corpus ℕ
corpus_v4 =
    corpus_or (generate_from_routes 1600000000 describe details "0" 0 (spec_v4 ∷ []) table_dump_v2)

pub spec_v4_generated :
    generate_from_routes 1600000000 describe details "0" 0 (spec_v4 ∷ []) table_dump_v2
    ≡ ok corpus_v4
unfolding generate_from_routes parse_routes parse_route parse_fields target_of check_vpn
    parse_prefix prefix_has_host_bits start emit_routes refuse_flowspec route_record rib_route
    rib_record parse_nexthop parse_origin parse_std_community route_expect split_once from_str_radix
    digits_value to_digit parse_ipv4 text_eq strip_prefix nlri_v4 slice_to head_attrs tail_attrs
    attr_origin attr_as_path attr_as_path_4b attr_med attr_communities attr_next_hop attribute
    any_nonzero index_at slice_from be32 raw_attributes
spec_v4_generated = refl

generate_from_routes-IsDescribed_example : DescribesFile 2 corpus_v4
generate_from_routes-IsDescribed_example =
    generate_from_routes-IsDescribed 1600000000 describe details "0" 0 (spec_v4 ∷ []) table_dump_v2
      corpus_v4 spec_v4_generated

ipv4_text : parse_ipv4 (codes "1.2.3.4") ≡ some (1 ∷ 2 ∷ 3 ∷ 4 ∷ [])
unfolding parse_ipv4
ipv4_text = refl

ipv4_leading_zero : parse_ipv4 (codes "01.2.3.4") ≡ none
unfolding parse_ipv4
ipv4_leading_zero = refl

ipv6_text :
    parse_ipv6 (codes "::ffff:1.2.3.4")
    ≡ some (0 ∷ 0 ∷ 0 ∷ 0 ∷ 0 ∷ 0 ∷ 0 ∷ 0 ∷ 0 ∷ 0 ∷ 0xff ∷ 0xff ∷ 1 ∷ 2 ∷ 3 ∷ 4 ∷ [])
unfolding parse_ipv6
ipv6_text = refl

ipv6_two_gaps : parse_ipv6 (codes "1::2::3") ≡ none
unfolding parse_ipv6
ipv6_two_gaps = refl

std_community_text : parse_std_community (codes "0xFFFFFF02") ≡ ok Types.comm_no_advertise
unfolding parse_std_community text_eq strip_prefix from_str_radix digits_value to_digit
std_community_text = refl

ext_community_text :
    parse_ext_community (codes "rt:4200000001:7")
    ≡ ok (0x02 ∷ 0x02 ∷ 0xfa ∷ 0x56 ∷ 0xea ∷ 0x01 ∷ 0x00 ∷ 0x07 ∷ [])
unfolding parse_ext_community typed as_specific strip_prefix split_once from_str_radix digits_value
    to_digit be16 be32
ext_community_text = refl

ext_community_raw :
    parse_ext_community (codes "0002FBF400000001")
    ≡ ok (0x00 ∷ 0x02 ∷ 0xfb ∷ 0xf4 ∷ 0x00 ∷ 0x00 ∷ 0x00 ∷ 0x01 ∷ [])
unfolding parse_ext_community typed raw_community all_hexdigits hex_bytes strip_prefix
    from_str_radix digits_value to_digit
ext_community_raw = refl

large_community_text : parse_large_community (codes "64500:1:2") ≡ ok (64500, 1, 2)
unfolding parse_large_community split from_str_radix digits_value to_digit
large_community_text = refl

-- A text whose slices cut a character: the euro sign and one more byte.
hex_text_panics : parse_hex (0xe2 ∷ 0x82 ∷ 0xac ∷ 0x30 ∷ []) "raw" ≡ panic
unfolding parse_hex hex_pairs from_str_radix digits_value to_digit
hex_text_panics = refl

hex_text_sign : parse_hex (codes "+f") "raw" ≡ ok (15 ∷ [])
unfolding parse_hex hex_pairs from_str_radix digits_value to_digit
hex_text_sign = refl

abbrev pub corpus_updates : Corpus ℕ
corpus_updates =
    corpus_or (generate_from_routes 1600000000 describe details "0" 0 (spec_v4 ∷ []) bgp4mp)

pub updates_generated :
    generate_from_routes 1600000000 describe details "0" 0 (spec_v4 ∷ []) bgp4mp ≡ ok corpus_updates
unfolding generate_from_routes parse_routes parse_route parse_fields target_of check_vpn
    parse_prefix prefix_has_host_bits start emit_routes route_record update_route reach bgp_update
    update_payload bgp_message bgp_message_raw parse_nexthop parse_origin parse_std_community
    route_expect split_once from_str_radix digits_value to_digit parse_ipv4 text_eq strip_prefix
    nlri_v4 slice_to head_attrs tail_attrs attr_origin attr_as_path attr_as_path_4b attr_med
    attr_communities attr_next_hop attribute any_nonzero index_at slice_from be16 be32
    raw_attributes with_path_id
updates_generated = refl

load-generate_from_routes_example :
    (seen : List Frame) × (load corpus_updates.bytes ≡ loaded seen)
    × (map entry_header corpus_updates.manifest.records ≡ map frame_header seen)
load-generate_from_routes_example =
    load-generate_from_routes 1600000000 describe details "0" 0 (spec_v4 ∷ []) corpus_updates
      updates_generated
