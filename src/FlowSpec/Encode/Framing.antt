-- ===== src/FlowSpec/Encode/Framing.antt =====
-- The NLRI length of RFC 8955 section 4.1 read back: one octet below 0xf0, else twelve bits in two.
use mrtgen.Base.{
  ℕ, ◌+◌, ◌*◌, ◌/◌, ◌%◌, ◌<◌, ◌≤◌, ◌≡◌, ◌⊎◌, inl, inr, refl, ◌++◌, ◌∷◌, Bool, true, false, Option,
  some, arith, Bytes, length, ltb, ◌==◌, bit_or, if◌then◌else◌, all_below, all_below_sound, as_u8,
  Bool-cases,
}
use mrtgen.Wire.{◌>>=◌, read_u8, read_bytes, read_bytes-append}
use mrtgen.Outcome.{ok, err, no_component, nlri_too_long}
use mrtgen.FlowSpec.Encode.{frame_nlri, long_length}

read_long : ℕ → Bytes → Option (Bytes × Bytes)
read_long a bs = do (b, bs₁) ← read_u8 bs; read_bytes (a % 16 * 256 + b) bs₁

unfoldable pub read_framed : Bytes → Option (Bytes × Bytes)
unfolding read_long
read_framed bs = do (a, bs₁) ← read_u8 bs; if ltb a 0xf0 then read_bytes a bs₁ else read_long a bs₁

high_ok : ℕ → Bool
high_ok k = bit_or 0xf0 k == 0xf0 + k

high_byte : (k : ℕ) → k < 16 → bit_or 0xf0 k ≡ 0xf0 + k
unfolding high_ok all_below
high_byte k h = ground (arith, all_below_sound 16 high_ok k refl h)

-- The two length forms, each read back.
read_short_form :
    (c rest : Bytes)
    → length c < 240
    → read_framed ((as_u8 (length c) ∷ c) ++ rest) ≡ some (c, rest)
unfolding read_framed read_u8
read_short_form c rest h =
    let e : length c % 256 ≡ length c = omega arith in
    let small : ltb (length c) 240 ≡ true = ground arith in rw (e, small) (read_bytes-append c rest)

read_long_form :
    (c rest : Bytes)
    → 240 ≤ length c
    → length c < 4096
    → read_framed ((long_length (length c) ++ c) ++ rest) ≡ some (c, rest)
unfolding read_framed read_u8 read_long
read_long_form c rest lo hi =
    let small : length c / 256 < 16 = omega arith in
    let back : (0xf0 + length c / 256) % 16 * 256 + length c % 256 ≡ length c = omega arith in
    let e : ltb (0xf0 + length c / 256) 0xf0 ≡ false = ground arith in
    let byte : length c / 256 % 256 ≡ length c / 256 = omega arith in
    rw (byte, high_byte (length c / 256) small) (rw (e, back) (read_bytes-append c rest))

framed-ok :
    (c out rest : Bytes)
    → ((length c == 0) ≡ false)
    → frame_nlri c ≡ ok out
    → read_framed (out ++ rest) ≡ some (c, rest)
unfolding frame_nlri
framed-ok c out rest e₀ h = elim (Bool-cases (ltb (length c) 240)) [
  | inl short ↦
      let e : (as_u8 (length c) ∷ c) ≡ out = cc in rw (← e) (read_short_form c rest (ground arith))
  | inr e₁ ↦ elim (Bool-cases (ltb (length c) 4096)) [
    | inl long ↦
        let e : long_length (length c) ++ c ≡ out = cc in
        rw (← e) (read_long_form c rest (ground arith) (ground arith))
    | inr e₂ ↦ cc
  ]
]

-- Where frame_nlri, the length framing at the end of encode_nlri, gives a result, that is read
-- back to the components, with what follows left.
pub read_framed-frame_nlri :
    (c out rest : Bytes) → frame_nlri c ≡ ok out → read_framed (out ++ rest) ≡ some (c, rest)
unfolding frame_nlri
read_framed-frame_nlri c out rest h = elim (Bool-cases (length c == 0)) [
  | inl empty ↦ cc
  | inr e₀ ↦ framed-ok c out rest e₀ h
]

-- frame_nlri gives a result for one to 4095 bytes of components, and refuses none and 4096 or
-- more, each with its own error; it never panics.
pub frame_nlri_domain :
    (c : Bytes)
    → ((length c ≡ 0) × (frame_nlri c ≡ err no_component))
      ⊎ ((4096 ≤ length c) × (frame_nlri c ≡ err nlri_too_long))
      ⊎ ((0 < length c) × (length c < 4096) × (out : Bytes) × (frame_nlri c ≡ ok out))
unfolding frame_nlri
frame_nlri_domain c = elim (Bool-cases (length c == 0)) [
  | inl empty ↦ inl (ground arith, rw empty refl)
  | inr e₀ ↦ elim (Bool-cases (ltb (length c) 240)) [
    | inl short ↦ inr (inr (ground arith, ground arith, as_u8 (length c) ∷ c, rw (e₀, short) refl))
    | inr e₁ ↦ elim (Bool-cases (ltb (length c) 4096)) [
      | inl long ↦
          inr
            (inr (ground arith, ground arith, long_length (length c) ++ c, rw (e₀, e₁, long) refl))
      | inr e₂ ↦ inr (inl (ground arith, rw (e₀, e₁, e₂) refl))
    ]
  ]
]
