-- ===== src/Tests/Decoding.antt =====
-- The corpora of a route list and their routes, decoded.
use mrtgen.Base.{ℕ, ◌≡◌, refl, [], ◌∷◌, List, some, arith, be32, ◌⊎◌}
use mrtgen.Text.{split_once, from_str_radix, digits_value, to_digit, text_eq, strip_prefix}
use mrtgen.Text.Address.{parse_ipv4}
use mrtgen.Writer.Framing.{Frame, load, loaded}
use mrtgen.Routes.Prefix.{parse_prefix, prefix_has_host_bits, any_nonzero, index_at, slice_from}
use mrtgen.Routes.Communities.{parse_std_community}
use mrtgen.Routes.Spec.{table_dump_v2, ParsedRoute, parse_nexthop, parse_origin, route_expect}
use mrtgen.Routes.Parse.{parse_route, parse_fields, target_of, check_vpn}
use mrtgen.Routes.Parse.Sound.{IsAccepted, parse_route-IsAccepted}
use mrtgen.Routes.Generate.{parse_routes, generate_from_routes}
use mrtgen.Routes.Generate.Refusals.{IsRefused}
use mrtgen.Routes.Generate.Total.{IsReason, generate_from_routes-total}
use mrtgen.Routes.Generate.Frames.{IsPlain}
use mrtgen.Routes.Generate.Decoding.{AreRouteFrames, decode-generate_from_routes}
use mrtgen.Routes.Generate.Dumped.{IsPeerFrame, AreRibFrames, decode-generate_table_dump}
use mrtgen.Outcome.{ok, IsMade}
use mrtgen.Tests.Routing.{
  spec_v4, parsed_v4, describe, details, corpus_v4, spec_v4_generated, corpus_updates,
  updates_generated,
}

some_word : {n v : ℕ} → some n ≡ some v → n ≡ v
some_word e = cc

spec_v4-IsPlain : IsPlain spec_v4
spec_v4-IsPlain = record {
  typed = record {
    path_words = tt;
    med_word = λ v e. omega (arith, some_word e);
    local_pref_word = λ v e. cc;
    aigp_word = λ v e. absurd cc;
    path_id_word = λ v e. cc;
  };
  meant = refl;
  no_raw = refl;
}

spec_v4_parsed : parse_route 0 spec_v4 ≡ ok parsed_v4
unfolding parse_route parse_fields target_of check_vpn parse_prefix prefix_has_host_bits
    parse_nexthop parse_origin parse_std_community route_expect split_once from_str_radix
    digits_value to_digit parse_ipv4 text_eq strip_prefix any_nonzero index_at slice_from be32
spec_v4_parsed = refl

list_v4_parsed : parse_routes 0 (spec_v4 ∷ []) ≡ ok (parsed_v4 ∷ [])
unfolding parse_routes
list_v4_parsed = rw spec_v4_parsed

parse_route-IsAccepted_example : IsAccepted spec_v4 parsed_v4
parse_route-IsAccepted_example = parse_route-IsAccepted 0 spec_v4 parsed_v4 refl spec_v4_parsed

decode-generate_from_routes_example :
    (parsed : List ParsedRoute) × (seen : List Frame) × (parse_routes 0 (spec_v4 ∷ []) ≡ ok parsed)
    × (load corpus_updates.bytes ≡ loaded seen)
    × AreRouteFrames 1600000000 (spec_v4 ∷ []) parsed seen
decode-generate_from_routes_example =
    decode-generate_from_routes 1600000000 describe details "0" 0 (spec_v4 ∷ []) corpus_updates
      (spec_v4-IsPlain, tt) updates_generated

decode-generate_table_dump_example :
    (parsed : List ParsedRoute) × (table : Frame) × (seen : List Frame) × (parse_routes 0
        (spec_v4 ∷ [])
      ≡ ok parsed)
    × (load corpus_v4.bytes ≡ loaded (table ∷ seen))
    × IsPeerFrame 1600000000 table
    × AreRibFrames 1600000000 (spec_v4 ∷ []) parsed seen
decode-generate_table_dump_example =
    decode-generate_table_dump 1600000000 describe details "0" 0 (spec_v4 ∷ []) corpus_v4
      (omega arith) (spec_v4-IsPlain, tt) spec_v4_generated

generate_from_routes-total_example :
    IsMade (generate_from_routes 1600000000 describe details "0" 0 (spec_v4 ∷ []) table_dump_v2)
    ⊎ IsRefused
        (IsReason table_dump_v2)
        0
        1
        (generate_from_routes 1600000000 describe details "0" 0 (spec_v4 ∷ []) table_dump_v2)
generate_from_routes-total_example =
    generate_from_routes-total 1600000000 describe details "0" 0 (spec_v4 ∷ []) (parsed_v4 ∷ [])
      table_dump_v2 (refl, tt) list_v4_parsed
