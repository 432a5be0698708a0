-- ===== src/Bgp/Nlri/Reading.antt =====
-- NLRI read back: RFC 4271 section 4.3 for a prefix, RFC 7911 for a Path Identifier and RFC 4364
-- section 4.3.4 for a VPN route. `width` is the address's size in bytes, 4 or 16.
use mrtgen.Base.{
  ℕ, zero, suc, ◌-◌, ◌*◌, ◌≤◌, ◌≡◌, refl, ◌++◌, ◌∷◌, [], Bool, true, false, Option, none, some,
  arith, Bytes, All, length, take, drop, replicate, length-take, leb, ap, subst, take-append-drop,
}
use mrtgen.Wire.{◌>>=◌, ◌>>◌, read_u8, read_bytes, read_bytes-append}
use mrtgen.Bgp.Nlri.{slice_to, div_ceil8, nlri_v4, nlri_v6}

abbrev pub guard : Bool → Option (Unit {0})
guard true = some tt
guard false = none

-- The octets behind the prefix are zero.
abbrev pub pad : ℕ → Bytes → Bytes
pad width octets = octets ++ replicate (width - length octets) 0

unfoldable pub read_prefix : ℕ → Bytes → Option (ℕ × Bytes × Bytes)
read_prefix width bs = do
  (bits, bs₁) ← read_u8 bs
  guard (leb bits (8 * width))
  (octets, rest) ← read_bytes (div_ceil8 bits) bs₁
  some (bits, pad width octets, rest)

-- No octet behind the prefix's own is set.
abbrev pub IsCanonical : Bytes → ℕ → Type 0
IsCanonical prefix bits = All (λ b. b ≡ 0) (drop (div_ceil8 bits) prefix)

zeros : (bs : Bytes) → All (λ b. b ≡ 0) bs → bs ≡ replicate (length bs) 0
zeros [] h = refl
zeros (b ∷ bs) h = rw (h.0) (ap (λ t. 0 ∷ t) (zeros bs h.1))

length-drop : (n : ℕ) (xs : Bytes) → length (drop n xs) ≡ length xs - n
length-drop zero xs = omega arith
length-drop (suc n) [] = omega arith
length-drop (suc n) (x ∷ xs) = omega (arith, length-drop n xs)

length_taken : (n : ℕ) (xs : Bytes) → n ≤ length xs → length (take n xs) ≡ n
length_taken n xs h = omega (arith, length-take n xs)

pub pad-take :
    (n : ℕ) (xs : Bytes)
    → n ≤ length xs
    → All (λ b. b ≡ 0) (drop n xs)
    → pad (length xs) (take n xs) ≡ xs
pad-take n xs h z =
    rw (length_taken n xs h)
      (rw (← length-drop n xs) (rw (← zeros (drop n xs) z) (take-append-drop n xs)))

pub slice_to_fits : (bs : Bytes) (n : ℕ) → n ≤ length bs → slice_to bs n ≡ some (take n bs)
unfolding slice_to
slice_to_fits bs n h = ground arith

-- The length octet and the octets that it covers.
abbrev pub encoded_prefix : Bytes → ℕ → Bytes
encoded_prefix prefix bits = bits ∷ take (div_ceil8 bits) prefix

module _ (prefix : Bytes) (bits : ℕ) (fits : bits ≤ 8 * length prefix)
    (canonical : IsCanonical prefix bits) where
  pub octets_fit : div_ceil8 bits ≤ length prefix
  octets_fit = omega arith

  pub read_octets :
      (rest : Bytes)
      → read_bytes (div_ceil8 bits) (take (div_ceil8 bits) prefix ++ rest)
        ≡ some (take (div_ceil8 bits) prefix, rest)
  read_octets rest =
      subst
        (λ n.
          read_bytes n (take (div_ceil8 bits) prefix ++ rest)
          ≡ some (take (div_ceil8 bits) prefix, rest))
        (length_taken _ prefix octets_fit) (read_bytes-append (take (div_ceil8 bits) prefix) rest)

  -- A canonical prefix of the right width does not panic, and is read back whole.
  pub nlri_v4_total : nlri_v4 prefix bits ≡ some (encoded_prefix prefix bits)
  unfolding nlri_v4
  nlri_v4_total = rw (slice_to_fits prefix (div_ceil8 bits) octets_fit)

  pub nlri_v6_total : nlri_v6 prefix bits ≡ some (encoded_prefix prefix bits)
  unfolding nlri_v6
  nlri_v6_total = rw (slice_to_fits prefix (div_ceil8 bits) octets_fit)

  pub read_prefix-encoded :
      (rest : Bytes)
      → read_prefix (length prefix) (encoded_prefix prefix bits ++ rest) ≡ some (bits, prefix, rest)
  unfolding read_prefix read_u8
  read_prefix-encoded rest =
      rw (in_width)
        (rw (read_octets rest) (rw (pad-take (div_ceil8 bits) prefix octets_fit canonical)))
    where
      in_width : leb bits (8 * length prefix) ≡ true
      in_width = ground arith

  -- Both prefix encoders are total on an address with the length in range and no octet set
  -- behind the prefix's own, and a reader of the address's width gets the length and the whole
  -- address back, with what follows left.
  pub read_prefix-nlri :
      (rest : Bytes)
      → ((nlri_v4 prefix bits >>= λ nlri. read_prefix (length prefix) (nlri ++ rest))
          ≡ some (bits, prefix, rest))
        × ((nlri_v6 prefix bits >>= λ nlri. read_prefix (length prefix) (nlri ++ rest))
            ≡ some (bits, prefix, rest))
  read_prefix-nlri rest =
      (rw nlri_v4_total (read_prefix-encoded rest), rw nlri_v6_total (read_prefix-encoded rest))
