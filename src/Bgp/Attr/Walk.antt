-- ===== src/Bgp/Attr/Walk.antt =====
-- The walk over a whole attribute section.
use mrtgen.Bgp.Attr.Tlv.{
  PathAttr, read_attr, attr_of, read_attr-attribute, read_attr_rest, read_attr_overrun, is_extended,
}
use mrtgen.Base.{
  ℕ, zero, suc, ◌∷◌, [], List, none, ◌≤◌, Option-cases, ◌≢◌, ◌<◌, ◌≡◌, refl, ◌++◌, false, Option,
  some, arith, Bytes, IsU8, IsU16, All, map, length, append_assoc, inl, inr,
}
use mrtgen.Wire.{◌>>=◌, read_u8}
use mrtgen.Wire.Many.{flat}
use mrtgen.Bgp.Attr.{attribute, attribute_declared}

-- The walk over an attribute section. Each attribute takes two bytes at least.
walk : ℕ → Bytes → Option (List PathAttr)
walk fuel [] = some []
walk zero (b ∷ bs) = none
walk (suc fuel) (b ∷ bs) = do
  (attr, rest) ← read_attr (b ∷ bs)
  attrs ← walk fuel rest
  some (attr ∷ attrs)

unfoldable pub read_attrs : Bytes → Option (List PathAttr)
unfolding walk
read_attrs bs = walk (length bs) bs

walk_fuel : (m n : ℕ) (bs : Bytes) → length bs ≤ m → length bs ≤ n → walk m bs ≡ walk n bs
unfolding walk
walk_fuel m n [] h k = refl
walk_fuel zero n (b ∷ bs) h k = absurd (omega arith)
walk_fuel (suc m) zero (b ∷ bs) h k = absurd (omega arith)
walk_fuel (suc m) (suc n) (b ∷ bs) h k = elim (Option-cases (read_attr (b ∷ bs))) [
  | inl e ↦ rw (e, walk)
  | inr ((a, rest), e) ↦
      rw (e, walk)
        (rw (
          walk_fuel m n rest (omega (arith, read_attr_rest (b ∷ bs) e))
            (omega (arith, read_attr_rest (b ∷ bs) e))))
]

-- The walk takes the attribute in front and goes on with the section behind it.
read_attrs_step :
    (bs rest : Bytes) (a : PathAttr)
    → read_attr bs ≡ some (a, rest)
    → read_attrs bs ≡ (read_attrs rest >>= λ attrs. some (a ∷ attrs))
unfolding read_attrs walk
read_attrs_step [] rest a e = unfold read_attr read_u8 in cc
read_attrs_step (b ∷ bs) rest a e =
    rw (e, walk)
      (rw (
        walk_fuel (length bs) (length rest) rest (omega (arith, read_attr_rest (b ∷ bs) e))
          (omega arith)))

-- A section that starts with an encoded attribute.
pub read_attrs-attribute :
    (flags code : ℕ) (value more : Bytes)
    → IsU8 flags
    → IsU16 (length value)
    → read_attrs (attribute flags code value ++ more)
      ≡ (read_attrs more >>= λ attrs. some (attr_of flags code value ∷ attrs))
read_attrs-attribute flags code value more hf hv =
    read_attrs_step _ more _ (read_attr-attribute flags code value more hf hv)

read_attrs_broken : (bs : Bytes) → bs ≢ [] → read_attr bs ≡ none → read_attrs bs ≡ none
unfolding read_attrs
read_attrs_broken [] h e = absurd (h refl)
read_attrs_broken (b ∷ bs) h e = rw (e, walk)

attribute_declared-ne-nil :
    (flags code declared : ℕ) (value : Bytes) → attribute_declared flags code declared value ≢ []
unfolding attribute_declared
attribute_declared-ne-nil flags code declared value e = ground arith

-- A list of attributes to encode: flags, code, value.
abbrev pub RawAttr : Type 0
RawAttr = ℕ × ℕ × Bytes

abbrev pub encode_attr : RawAttr → Bytes
encode_attr (flags, code, value) = attribute flags code value

abbrev IsEncodable : RawAttr → Type 0
IsEncodable (flags, code, value) = IsU8 flags × IsU16 (length value)

abbrev pub decoded : RawAttr → PathAttr
decoded (flags, code, value) = attr_of flags code value

-- A section of any attributes whose flags fit a byte and whose values are below 65536 bytes is
-- walked to its end and gives back their flags as emitted, codes and values, in order.
pub read_attrs-flat :
    (attrs : List RawAttr)
    → All IsEncodable attrs
    → read_attrs (flat encode_attr attrs) ≡ some (map decoded attrs)
read_attrs-flat [] h = unfold read_attrs in refl
read_attrs-flat ((flags, code, value) ∷ attrs) h =
    rw (read_attrs-attribute flags code value (flat encode_attr attrs) h.0.0 h.0.1)
      (rw (read_attrs-flat attrs h.1))

-- After any attributes whose flags fit a byte and whose values are below 65536 bytes, an
-- attribute that declares more bytes than are left makes the walk of the section fail, where
-- the declared length fits its field.
pub read_attrs_overrun :
    (attrs : List RawAttr) (flags code declared : ℕ) (value : Bytes)
    → All IsEncodable attrs
    → IsU16 declared
    → (is_extended flags ≡ false → IsU8 declared)
    → length value < declared
    → read_attrs (flat encode_attr attrs ++ attribute_declared flags code declared value) ≡ none
read_attrs_overrun [] flags code declared value ha hd hs h =
    read_attrs_broken _ (λ e. attribute_declared-ne-nil flags code declared value e)
      (read_attr_overrun flags code declared value hd hs h)
read_attrs_overrun ((f, c, v) ∷ attrs) flags code declared value ha hd hs h =
    rw
      (append_assoc (attribute f c v) (flat encode_attr attrs)
        (attribute_declared flags code declared value))
      (rw (read_attrs-attribute f c v _ ha.0.0 ha.0.1)
        (rw (read_attrs_overrun attrs flags code declared value ha.1 hd hs h)))
