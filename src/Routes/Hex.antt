-- ===== src/Routes/Hex.antt =====
-- `hex` of src/routes.rs, against the two parsers of hex digits.
use Prim.Native.String.{String}
use mrtgen.Base.{
  ℕ, ◌+◌, ◌*◌, ◌/◌, ◌%◌, ◌≡◌, refl, [], ◌∷◌, Bool, true, false, ◌&&◌, not, Option, none, some,
  arith, Bytes, All, IsU8, length, ltb, ◌==◌, if◌then◌else◌, all_below, all_below_sound,
}
use mrtgen.Text.{from_str_radix}
use mrtgen.FlowSpec.Hex.{parse_hex, hex_pairs, is_continuation, at_boundary}
use mrtgen.Routes.Communities.{hex_bytes, all_hexdigits, is_ascii_hexdigit}
use mrtgen.Outcome.{ok}

-- `{b:02x}`
abbrev hex_digit : ℕ → ℕ
hex_digit d = if ltb d 10 then b'0' + d else 87 + d

unfoldable pub hex : Bytes → Bytes
hex [] = []
hex (b ∷ bs) = hex_digit (b / 16) ∷ hex_digit (b % 16) ∷ hex bs

reads_back : ℕ → Option ℕ → Bool
reads_back b none = false
reads_back b (some v) = v == b

byte_ok : ℕ → Bool
byte_ok b =
    let hi = hex_digit (b / 16) in
    let lo = hex_digit (b % 16) in
    reads_back b (from_str_radix 16 256 (hi ∷ lo ∷ []))
    && (not (is_continuation hi) && (is_ascii_hexdigit hi && is_ascii_hexdigit lo))

byte_table : all_below 256 byte_ok ≡ true
unfolding all_below byte_ok reads_back from_str_radix mrtgen.Text.digits_value mrtgen.Text.to_digit
byte_table = refl

split_tests :
    (b : ℕ) (o : Option ℕ) (x y z : Bool)
    → (reads_back b o && (not x && (y && z))) ≡ true
    → (o ≡ some b) × (x ≡ false) × (y ≡ true) × (z ≡ true)
unfolding reads_back
split_tests b none x y z e = ground arith
split_tests b (some v) x y z e = ground arith

-- The two digits of a byte.
digits :
    (b : ℕ)
    → IsU8 b
    → (from_str_radix 16 256 (hex_digit (b / 16) ∷ hex_digit (b % 16) ∷ []) ≡ some b)
      × (is_continuation (hex_digit (b / 16)) ≡ false)
      × (is_ascii_hexdigit (hex_digit (b / 16)) ≡ true)
      × (is_ascii_hexdigit (hex_digit (b % 16)) ≡ true)
unfolding byte_ok
digits b h = split_tests b _ _ _ _ (all_below_sound 256 byte_ok b byte_table h)

hex-at_boundary : (bs : Bytes) → All IsU8 bs → at_boundary (hex bs) ≡ true
unfolding hex
hex-at_boundary [] h = refl
hex-at_boundary (b ∷ bs) (hb, hs) = let (value, start, first, second) = digits b hb in rw start

hex_pairs-hex : (what : String) (bs : Bytes) → All IsU8 bs → hex_pairs what (hex bs) ≡ ok bs
unfolding hex hex_pairs
hex_pairs-hex what [] h = refl
hex_pairs-hex what (b ∷ bs) (hb, hs) =
    let (value, start, first, second) = digits b hb in
    rw (value, start, hex-at_boundary bs hs, hex_pairs-hex what bs hs)

hex_bytes-hex : (bs : Bytes) → All IsU8 bs → hex_bytes (hex bs) ≡ ok bs
unfolding hex hex_bytes
hex_bytes-hex [] h = refl
hex_bytes-hex (b ∷ bs) (hb, hs) = rw ((digits b hb).0, hex_bytes-hex bs hs, hex_bytes, hex) refl

hex-all_hexdigits : (bs : Bytes) → All IsU8 bs → all_hexdigits (hex bs) ≡ true
unfolding hex all_hexdigits
hex-all_hexdigits [] h = refl
hex-all_hexdigits (b ∷ bs) (hb, hs) =
    let (value, start, first, second) = digits b hb in rw (first, second, hex-all_hexdigits bs hs)

length-hex : (bs : Bytes) → length (hex bs) ≡ length bs * 2
unfolding hex
length-hex [] = refl
length-hex (b ∷ bs) = omega (arith, length-hex bs)

-- The hex digits that the manifest shows for any bytes are read back to them by the flow
-- specification's parser, pass the digit test of the other parsers, and are read back by those.
pub parse_hex-hex :
    (what : String) (bs : Bytes)
    → All IsU8 bs
    → (parse_hex (hex bs) what ≡ ok bs)
      × (all_hexdigits (hex bs) ≡ true)
      × (hex_bytes (hex bs) ≡ ok bs)
unfolding parse_hex
parse_hex-hex what bs h =
    let even : length bs * 2 % 2 ≡ 0 = omega arith in
    (rw (length-hex bs, even) (hex_pairs-hex what bs h), hex-all_hexdigits bs h, hex_bytes-hex bs h)
