-- ===== src/FlowSpec/Hex.antt =====
-- `parse_hex` of src/flowspec.rs.
use Prim.Native.String.{String}
use mrtgen.Base.{
  ℕ, ◌%◌, [], ◌∷◌, Bool, true, ◌&&◌, not, Bytes, ltb, leb, ◌==◌, length, if◌then◌else◌,
}
use mrtgen.Text.{from_str_radix}
use mrtgen.Outcome.{odd_hex, invalid_hex, Outcome, ok, panic, ◌>>=◌, ◌>>◌, ok_or, refuse_if}

-- A continuation byte of UTF-8: no character starts there.
abbrev pub is_continuation : ℕ → Bool
is_continuation b = leb 128 b && ltb b 192

-- Whether a slice may end in front of these bytes.
abbrev pub at_boundary : Bytes → Bool
at_boundary [] = true
at_boundary (b ∷ bs) = not (is_continuation b)

-- The slices `&s[i..i + 2]` in order; one that cuts a character panics.
unfoldable pub hex_pairs : String → Bytes → Outcome Bytes
hex_pairs what [] = ok []
hex_pairs what (a ∷ []) = panic
hex_pairs what (a ∷ b ∷ rest) =
    let values = hex_pairs what rest in
    let value =
      ok_or (from_str_radix 16 256 (a ∷ b ∷ [])) (invalid_hex what)
      >>= (λ v. values >>= (λ vs. ok (v ∷ vs))) in
    if at_boundary (a ∷ []) && at_boundary rest then value else panic

unfoldable pub parse_hex : Bytes → String → Outcome Bytes
parse_hex s what = do refuse_if (not (length s % 2 == 0)) (odd_hex what); hex_pairs what s
