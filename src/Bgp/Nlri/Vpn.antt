-- ===== src/Bgp/Nlri/Vpn.antt =====
-- VPN NLRI read back: RFC 4364 section 4.3.4, one label, the Route Distinguisher and the prefix, all
-- counted by the length octet.
use mrtgen.Base.{
  ℕ, ◌+◌, ◌-◌, ◌*◌, ◌/◌, ◌%◌, ◌<◌, ◌≤◌, ◌≡◌, ◌++◌, ◌∷◌, true, ◌&&◌, Option, some, arith, Bytes,
  length, take, append_assoc, be32, leb, ◌==◌, subst,
}
use mrtgen.Base.Bits.{bit_or-one_even}
use native.Mathlib.Nat.{mod-eq_of_lt}
use mrtgen.Wire.{◌>>=◌, ◌>>◌, read_u8, read_u16, read_bytes, read_bytes-append}
use mrtgen.Bgp.Nlri.{div_ceil8, stack_entry, nlri_vpn}
use mrtgen.Bgp.Nlri.Reading.{
  guard, pad, IsCanonical, octets_fit, read_octets, pad-take, slice_to_fits,
}

pub record VpnRoute : Type 0 where
  pub label : ℕ
  pub rd : Bytes
  pub bits : ℕ
  pub prefix : Bytes

-- The label entry must be the bottom of the stack.
unfoldable pub read_vpn : ℕ → Bytes → Option (VpnRoute × Bytes)
read_vpn width bs = do
  (len, bs₁) ← read_u8 bs
  guard (leb 88 len && leb len (88 + 8 * width))
  (high, bs₂) ← read_u16 bs₁
  (low, bs₃) ← read_u8 bs₂
  guard (low % 2 == 1)
  (rd, bs₄) ← read_bytes 8 bs₃
  (octets, rest) ← read_bytes (div_ceil8 (len - 88)) bs₄
  some (
    record { label = (high * 256 + low) / 16; rd = rd; bits = len - 88; prefix = pad width octets },
    rest,
  )

stack_entry_lem : (label : ℕ) → label < 1048576 → stack_entry label ≡ label * 16 + 1
unfolding stack_entry
stack_entry_lem label h = rw (mod-eq_of_lt (fits h)) (bit_or-one_even (label * 16) (omega arith))
  where
    fits : label < 1048576 → label * 16 < 4294967296
    fits k = omega arith

-- The length octet, the label with the bottom-of-stack bit, the Route Distinguisher, the prefix.
unfoldable pub encoded_vpn : ℕ → Bytes → Bytes → ℕ → Bytes
encoded_vpn label rd prefix bits =
    let entry = label * 16 + 1 in
    (88 + bits)
    ∷ entry / 65536 % 256
    ∷ entry / 256 % 256
    ∷ entry % 256
    ∷ (rd ++ take (div_ceil8 bits) prefix)

module _ (label : ℕ) (rd prefix : Bytes) (bits : ℕ) (small : label < 1048576)
    (rd_size : length rd ≡ 8) (width : length prefix ≤ 16) (fits : bits ≤ 8 * length prefix) where
  pub nlri_vpn_total : nlri_vpn label rd prefix bits ≡ some (encoded_vpn label rd prefix bits)
  unfolding nlri_vpn be32 encoded_vpn
  nlri_vpn_total =
      rw (slice_to_fits prefix (div_ceil8 bits) octets)
        (rw (stack_entry_lem label small) (rw (mod-eq_of_lt in_u8) (ground arith)))
    where
      octets : div_ceil8 bits ≤ length prefix
      octets = omega arith

      in_u8 : 24 + 64 + bits < 256
      in_u8 = omega arith

module _ (label : ℕ) (rd prefix : Bytes) (bits : ℕ) (small : label < 1048576)
    (rd_size : length rd ≡ 8) (width : length prefix ≤ 16) (fits : bits ≤ 8 * length prefix)
    (canonical : IsCanonical prefix bits) where
  pub read_vpn-encoded :
      (rest : Bytes)
      → read_vpn (length prefix) (encoded_vpn label rd prefix bits ++ rest)
        ≡ some (record { label = label; rd = rd; bits = bits; prefix = prefix }, rest)
  unfolding read_vpn read_u8 read_u16 encoded_vpn
  read_vpn-encoded rest = rw in_range (
      rw bottom (
        rw (append_assoc rd octets rest) (
          rw read_rd (
            rw (bits_back bits) (
              rw (read_octets prefix bits fits canonical rest) (
                rw
                  (pad-take (div_ceil8 bits) prefix (octets_fit prefix bits fits canonical)
                    canonical)
                  (rw label_back)))))))
    where
      octets : Bytes
      octets = take (div_ceil8 bits) prefix

      in_range : (leb 88 (88 + bits) && leb (88 + bits) (88 + 8 * length prefix)) ≡ true
      in_range = ground arith

      bottom : ((label * 16 + 1) % 256 % 2 == 1) ≡ true
      bottom = ground arith

      bits_back : (n : ℕ) → 88 + n - 88 ≡ n
      bits_back n = omega arith

      read_rd : read_bytes 8 (rd ++ (octets ++ rest)) ≡ some (rd, octets ++ rest)
      read_rd =
          subst (λ n. read_bytes n (rd ++ (octets ++ rest)) ≡ some (rd, octets ++ rest)) rd_size
            (read_bytes-append rd (octets ++ rest))

      label_back :
          (((label * 16 + 1) / 65536 % 256 * 256 + (label * 16 + 1) / 256 % 256) * 256
              + (label * 16 + 1) % 256)
            / 16
          ≡ label
      label_back = omega arith

  -- A VPN route of a 20-bit label, an 8-byte Route Distinguisher and an IPv4 or IPv6 prefix,
  -- with the length in range and no octet set behind the prefix's own, is encoded without a
  -- panic or a wrapped length octet, and is read back with what follows left.
  pub read_vpn-nlri_vpn :
      (rest : Bytes)
      → (nlri_vpn label rd prefix bits >>= λ nlri. read_vpn (length prefix) (nlri ++ rest))
        ≡ some (record { label = label; rd = rd; bits = bits; prefix = prefix }, rest)
  read_vpn-nlri_vpn rest =
      rw (nlri_vpn_total label rd prefix bits small rd_size width fits) (read_vpn-encoded rest)
