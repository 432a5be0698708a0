-- ===== src/Tests/Flow.antt =====
-- Flow specifications, hex digits and the notation of prefixes and communities.
use mrtgen.Base.{
  ℕ, ◌+◌, ◌*◌, ◌≤◌, ◌<◌, ◌≡◌, ◌⊎◌, refl, ◌++◌, [], ◌∷◌, List, Bytes, All, Bool, ◌↔◌, true, false,
  some, length, arith,
}
use mrtgen.Outcome.{ok, err, no_component, nlri_too_long}
use mrtgen.FlowSpec.Numeric.{NumericMatch, value, push_operators, validate_numeric_max, all_pairs}
use mrtgen.FlowSpec.Numeric.Reading.{read_operators, read_operators-push_operators}
use mrtgen.FlowSpec.Numeric.Limits.{IsWithin, validate_numeric_max_sound}
use mrtgen.FlowSpec.Encode.{frame_nlri}
use mrtgen.FlowSpec.Encode.Framing.{read_framed, read_framed-frame_nlri, frame_nlri_domain}
use mrtgen.FlowSpec.Hex.{parse_hex}
use mrtgen.Routes.Communities.{all_hexdigits, hex_bytes, parse_std_community, parse_large_community}
use mrtgen.Routes.Prefix.{parse_prefix, prefix_has_host_bits}
use mrtgen.Routes.Prefix.Hosts.{IsHostFree}
use mrtgen.Routes.Prefix.Exact.{prefix_has_host_bits_lem}
use mrtgen.Routes.Prefix.Printed.{prefix_text, parse_prefix-prefix_text}
use mrtgen.Routes.Communities.Printed.{
  pair_text, triple_text, parse_std_community-pair_text, parse_large_community-triple_text,
}
use mrtgen.Routes.Hex.{hex, parse_hex-hex}

-- `>= 1024` and `<= 70000`
read_operators-push_operators_example :
    read_operators (push_operators ((3, 1024) ∷ (0x45, 70000) ∷ []) [] ++ (9 ∷ []))
    ≡ some ((3, 1024) ∷ (0x45, 70000) ∷ [], 9 ∷ [])
read_operators-push_operators_example =
    read_operators-push_operators (3, 1024) ((0x45, 70000) ∷ []) (9 ∷ [])
      ((omega arith, refl, omega arith), ((omega arith, refl, omega arith), tt))

abbrev two_ports : List NumericMatch
two_ports = value 80 ∷ value 443 ∷ []

ports_accepted : validate_numeric_max two_ports "flowspec port" 65535 ≡ ok tt
unfolding validate_numeric_max mrtgen.FlowSpec.Numeric.numeric_pairs
ports_accepted = refl

validate_numeric_max_sound_example :
    (pairs : List (ℕ × ℕ)) × (all_pairs two_ports "flowspec port" ≡ ok pairs)
    × All (IsWithin 65535) pairs
validate_numeric_max_sound_example =
    validate_numeric_max_sound two_ports "flowspec port" 65535 ports_accepted

abbrev one_component : Bytes
one_component = 1 ∷ 8 ∷ 10 ∷ []

one_framed : frame_nlri one_component ≡ ok (3 ∷ 1 ∷ 8 ∷ 10 ∷ [])
unfolding frame_nlri
one_framed = refl

read_framed-frame_nlri_example :
    read_framed (3 ∷ 1 ∷ 8 ∷ 10 ∷ 7 ∷ []) ≡ some (one_component, 7 ∷ [])
read_framed-frame_nlri_example =
    read_framed-frame_nlri one_component (3 ∷ 1 ∷ 8 ∷ 10 ∷ []) (7 ∷ []) one_framed

frame_nlri_domain_example :
    ((length one_component ≡ 0) × (frame_nlri one_component ≡ err no_component))
    ⊎ ((4096 ≤ length one_component) × (frame_nlri one_component ≡ err nlri_too_long))
    ⊎ ((0 < length one_component)
        × (length one_component < 4096)
        × (out : Bytes) × (frame_nlri one_component ≡ ok out))
frame_nlri_domain_example = frame_nlri_domain one_component

parse_hex-hex_example :
    (parse_hex (hex (0xde ∷ 0xad ∷ [])) "raw" ≡ ok (0xde ∷ 0xad ∷ []))
    × (all_hexdigits (hex (0xde ∷ 0xad ∷ [])) ≡ true)
    × (hex_bytes (hex (0xde ∷ 0xad ∷ [])) ≡ ok (0xde ∷ 0xad ∷ []))
parse_hex-hex_example = parse_hex-hex "raw" (0xde ∷ 0xad ∷ []) (omega arith, (omega arith, tt))

parse_std_community-pair_text_example :
    parse_std_community (pair_text 65535 0) ≡ ok (65535 * 65536 + 0)
parse_std_community-pair_text_example =
    parse_std_community-pair_text 65535 0 (omega arith) (omega arith)

parse_large_community-triple_text_example :
    parse_large_community (triple_text 4200000001 0 72) ≡ ok (4200000001, 0, 72)
parse_large_community-triple_text_example =
    parse_large_community-triple_text 4200000001 0 72 (omega arith) (omega arith) (omega arith)

parse_prefix-prefix_text_example :
    parse_prefix (prefix_text 203 0 113 7 32)
    ≡ ok (record { v6 = false; addr = 203 ∷ 0 ∷ 113 ∷ 7 ∷ []; bits = 32 })
parse_prefix-prefix_text_example =
    parse_prefix-prefix_text 203 0 113 7 32 (omega arith) (omega arith) (omega arith) (omega arith)
      (omega arith)

-- 10.0.0.255/25 has host bits in the octet that the prefix ends in.
prefix_has_host_bits_lem_example :
    (r : Bool) × (prefix_has_host_bits (10 ∷ 0 ∷ 0 ∷ 255 ∷ []) 25 ≡ some r)
    × ((r ≡ false) ↔ IsHostFree 25 (10 ∷ 0 ∷ 0 ∷ 255 ∷ []))
prefix_has_host_bits_lem_example =
    prefix_has_host_bits_lem (10 ∷ 0 ∷ 0 ∷ 255 ∷ []) 25
      (omega arith, (omega arith, (omega arith, (omega arith, tt)))) (omega arith)
