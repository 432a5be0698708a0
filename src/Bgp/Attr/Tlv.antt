-- ===== src/Bgp/Attr/Tlv.antt =====
-- Path attributes read back: RFC 4271 section 4.3, flags, code, a length of one or two bytes as the
-- Extended Length bit says, value.
use mrtgen.Base.{
  ℕ, ◌∷◌, [], none, ◌≤◌, Option-cases, ◌<◌, ◌≡◌, refl, ◌++◌, Bool, true, false, Option, some, arith,
  Bytes, IsU8, IsU16, as_u16, length, append_assoc, be16, ltb, ◌==◌, Bool-cases, inl, inr, bit_and,
  bit_or, all_below, all_below_sound, if◌then◌else◌, not, le-of-ltb-false,
}
use native.Mathlib.Nat.{mod-eq_of_lt}
use mrtgen.Wire.{
  ◌>>=◌, read_u8, read_u16, read_bytes, read_bytes_rest, read_bytes_short, read_u16-be16,
  read_bytes-append,
}
use mrtgen.Wire.{read_u8_rest, read_u16_rest}
use mrtgen.Bgp.Attr.{attribute, attribute_declared}

pub record PathAttr : Type 0 where
  pub flags : ℕ
  pub code : ℕ
  pub value : Bytes

-- The Extended Length bit.
abbrev pub is_extended : ℕ → Bool
is_extended flags = if bit_and flags 0x10 == 0 then false else true

unfoldable pub read_length : Bool → Bytes → Option (ℕ × Bytes)
read_length true bs = read_u16 bs
read_length false bs = read_u8 bs

unfoldable pub read_attr : Bytes → Option (PathAttr × Bytes)
read_attr bs = do
  (flags, bs₁) ← read_u8 bs
  (code, bs₂) ← read_u8 bs₁
  (len, bs₃) ← read_length (is_extended flags) bs₂
  (value, rest) ← read_bytes len bs₃
  some (record { flags = flags; code = code; value = value }, rest)

-- The flags byte that goes out: the Extended Length bit is set exactly for a value over 255 bytes.
abbrev emitted_flags : ℕ → Bytes → ℕ
emitted_flags flags value = if ltb 255 (length value) then bit_or flags 0x10 else bit_and flags 0xef

set_table : all_below 256 (λ f. is_extended (bit_or f 0x10)) ≡ true
unfolding all_below
set_table = refl

clear_table : all_below 256 (λ f. not (is_extended (bit_and f 0xef))) ≡ true
unfolding all_below
clear_table = refl

extended_set : (f : ℕ) → IsU8 f → is_extended (bit_or f 0x10) ≡ true
extended_set f h = all_below_sound 256 _ f set_table h

extended_clear : (f : ℕ) → IsU8 f → is_extended (bit_and f 0xef) ≡ false
extended_clear f h = not_true _ (all_below_sound 256 _ f clear_table h)
  where
    not_true : (b : Bool) → not b ≡ true → b ≡ false
    not_true b e = ground arith

abbrev pub attr_of : ℕ → ℕ → Bytes → PathAttr
attr_of flags code value = record { flags = emitted_flags flags value; code = code; value = value }

-- `attribute` is read back as one attribute with its value, at every length that two bytes hold:
-- the header's form and the Extended Length bit agree.
pub read_attr-attribute :
    (flags code : ℕ) (value rest : Bytes)
    → IsU8 flags
    → IsU16 (length value)
    → read_attr (attribute flags code value ++ rest) ≡ some (attr_of flags code value, rest)
unfolding read_attr attribute read_u8 read_length
read_attr-attribute flags code value rest hf hv = elim (Bool-cases (ltb 255 (length value))) [
  | inl long ↦ rw long (
      rw (extended_set flags hf) (
        rw (append_assoc (be16 (as_u16 (length value))) value rest) (
          rw (mod-eq_of_lt hv) (
            rw (read_u16-be16 (length value) (value ++ rest) hv)
              (rw (read_bytes-append value rest))))))
  | inr short ↦ rw short (
      rw (extended_clear flags hf)
        (rw (mod-eq_of_lt (short_fits short)) (rw (read_bytes-append value rest))))
]
  where
    short_fits : ltb 255 (length value) ≡ false → length value < 256
    short_fits e = omega (arith, le-of-ltb-false 255 (length value) e)

read_length_rest :
    (extended : Bool) (bs : Bytes) {n : ℕ} {rest : Bytes}
    → read_length extended bs ≡ some (n, rest)
    → length rest ≤ length bs
unfolding read_length
read_length_rest true bs e = omega (arith, read_u16_rest bs e)
read_length_rest false bs e = omega (arith, read_u8_rest bs e)

pub read_attr_rest :
    (bs : Bytes) {a : PathAttr} {rest : Bytes}
    → read_attr bs ≡ some (a, rest)
    → length rest < length bs
unfolding read_attr read_u8
read_attr_rest [] e = cc
read_attr_rest (f ∷ []) e = cc
read_attr_rest (f ∷ c ∷ bs) e = elim (Option-cases (read_length (is_extended f) bs)) [
  | inl short ↦ cc
  | inr ((n, bs₃), e₃) ↦ elim (Option-cases (read_bytes n bs₃)) [
    | inl short ↦ cc
    | inr ((v, left), e₄) ↦
        ground (arith, read_length_rest (is_extended f) bs e₃, read_bytes_rest n bs₃ e₄)
  ]
]

extended_test : (flags : ℕ) → is_extended flags ≡ true → (bit_and flags 0x10 == 0) ≡ false
extended_test flags e = ground arith

plain_test : (flags : ℕ) → is_extended flags ≡ false → (bit_and flags 0x10 == 0) ≡ true
plain_test flags e = ground arith

-- A TLV whose declared length runs past the end of the section cannot be read.
pub read_attr_overrun :
    (flags code declared : ℕ) (value : Bytes)
    → IsU16 declared
    → (is_extended flags ≡ false → IsU8 declared)
    → length value < declared
    → read_attr (attribute_declared flags code declared value) ≡ none
unfolding read_attr attribute_declared read_u8 read_length
read_attr_overrun flags code declared value hd hs h = elim (Bool-cases (is_extended flags)) [
  | inl long ↦
      rw (extended_test flags long)
        (rw long (rw (read_u16-be16 declared value hd) (rw (read_bytes_short declared value h))))
  | inr short ↦
      rw (plain_test flags short)
        (rw short (rw (mod-eq_of_lt (hs short)) (rw (read_bytes_short declared value h))))
]
