-- ===== src/Tests/Files.antt =====
-- Records, files and abort-class tails.
use mrtgen.Base.{ℕ, ◌+◌, ◌≡◌, refl, ◌++◌, [], ◌∷◌, List, Bytes, none, some, length, arith, map, ◌<◌}
use mrtgen.Types
use mrtgen.Writer.{MrtRecord, new, new_et, encode, encoded_len}
use mrtgen.Writer.Framing.{
  IsHonest, read_record, frame_of, load, loaded, aborted, length-encode, read_record-encode,
}
use mrtgen.Manifest.{standard, valid, skip}
use mrtgen.Generator.{Builder, new_builder, push, emit_fatal, truncated_header}
use mrtgen.Generator.Layout.{IsDescribed, new_builder-IsDescribed, push-IsDescribed}
use mrtgen.Generator.Loading.{
  Builds, here, next, entry_header, frame_header, load-Builds, load-emit_fatal,
}

-- A plain record and one with microseconds.
abbrev plain : MrtRecord
plain = new 1600000000 Types.ospfv2 0 (1 ∷ 2 ∷ 3 ∷ [])

abbrev stamped : MrtRecord
stamped = new_et 1600000001 999999 Types.bgp4mp_et Types.bgp4mp_message (4 ∷ [])

plain-IsHonest : IsHonest plain
plain-IsHonest = record {
  timestamp_fits = omega arith;
  type_fits = omega arith;
  subtype_fits = omega arith;
  computed = refl;
  payload_fits = omega arith;
}

stamped-IsHonest : IsHonest stamped
unfolding mrtgen.Base.be32
stamped-IsHonest = record {
  timestamp_fits = omega arith;
  type_fits = omega arith;
  subtype_fits = omega arith;
  computed = refl;
  payload_fits = omega arith;
}

abbrev begun : Builder ℕ
begun = new_builder 1600000000 standard

abbrev built : Builder ℕ
built = push stamped "isis_raw" skip "second" 8 (push plain "ospfv2_raw" valid "first" 7 begun)

built-Builds : Builds begun (plain ∷ stamped ∷ []) built
built-Builds =
    next (next here plain "ospfv2_raw" valid "first" 7 plain-IsHonest) stamped "isis_raw" skip
      "second" 8 stamped-IsHonest

built-IsDescribed : IsDescribed built
built-IsDescribed =
    push-IsDescribed stamped "isis_raw" skip "second" 8
      (push plain "ospfv2_raw" valid "first" 7 begun)
      (push-IsDescribed plain "ospfv2_raw" valid "first" 7 begun
        (new_builder-IsDescribed 1600000000 standard))

load-Builds_example :
    (load built.bytes ≡ loaded (map frame_of (plain ∷ stamped ∷ [])))
    × (map entry_header built.entries ≡ map frame_header (map frame_of (plain ∷ stamped ∷ [])))
load-Builds_example = load-Builds 1600000000 standard (plain ∷ stamped ∷ []) built built-Builds

load-emit_fatal_example :
    (b : Builder ℕ) × (emit_fatal truncated_header 0 built ≡ some b)
    × (load b.bytes ≡ aborted (map frame_of (plain ∷ stamped ∷ [])))
load-emit_fatal_example =
    load-emit_fatal 1600000000 standard (plain ∷ stamped ∷ []) built truncated_header 0 built-Builds

push-IsDescribed_example : IsDescribed (push plain "ospfv2_raw" valid "third" 9 built)
push-IsDescribed_example =
    push-IsDescribed plain "ospfv2_raw" valid "third" 9 built built-IsDescribed

length-encode_example : length (encode stamped) ≡ encoded_len stamped
length-encode_example = length-encode stamped

read_record-encode_example :
    read_record (encode stamped ++ (7 ∷ [])) ≡ some (frame_of stamped, 7 ∷ [])
read_record-encode_example = read_record-encode stamped (7 ∷ []) stamped-IsHonest

cut_short : read_record (0 ∷ 0 ∷ []) ≡ none
unfolding read_record mrtgen.Wire.read_u32 mrtgen.Wire.read_u16
cut_short = refl
