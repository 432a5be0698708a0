-- ===== src/Routes/Prefix/Sound.antt =====
-- What `parse_prefix` and `prefix_has_host_bits` of src/routes.rs let through.
use mrtgen.Base.{
  ℕ, ◌+◌, ◌-◌, ◌*◌, ◌/◌, ◌%◌, ◌^◌, ◌≤◌, ◌≡◌, [], ◌∷◌, Bool, false, some, arith, Bytes, All, ltb,
  leb, bit_and, ◌==◌, if◌then◌else◌, length, drop, subst, Bool-cases, Option-cases, inl, inr,
}
use mrtgen.Text.{split_once, parse_u8}
use mrtgen.Text.Address.{parse_ipv4, parse_ipv6}
use mrtgen.Text.Address.Lengths.{length-parse_ipv4, length-parse_ipv6}
use mrtgen.Bgp.Nlri.{div_ceil8}
use mrtgen.Bgp.Nlri.Reading.{IsCanonical}
use mrtgen.Routes.Prefix.{
  Prefix, parse_address, parse_prefix, any_nonzero, index_at, slice_from, any_from, any_within,
  prefix_has_host_bits,
}
use mrtgen.Outcome.{
  expected_address_length, bad_prefix_length, prefix_too_long, ok, ok_or, refuse_if, >>=-ok,
  refuse_if-ok, ok-injective,
}

-- The octets of an address.
abbrev pub width_of : Bool → ℕ
width_of v6 = if v6 then 16 else 4

pub record IsPrefix (v6 : Bool) (addr : Bytes) (bits : ℕ) : Type 0 where
  pub sized : length addr ≡ width_of v6
  pub in_width : bits ≤ 8 * length addr

parse_address-IsPrefix :
    (addr : Bytes) (bits : ℕ) (p : Prefix)
    → parse_address addr bits ≡ ok p
    → IsPrefix p.v6 p.addr p.bits
parse_address-IsPrefix addr bits p h = elim (Option-cases (parse_ipv4 addr)) [
  | inr (v4, e) ↦
      let (u, fits, made) =
        >>=-ok (refuse_if (ltb 32 bits) prefix_too_long) _ (rw (e, parse_address) at h) in
      let small = refuse_if-ok (ltb 32 bits) prefix_too_long fits in
      let size = length-parse_ipv4 addr e in
      subst (λ (q : Prefix). IsPrefix q.v6 q.addr q.bits) (ok-injective made)
        (record { sized = size; in_width = ground arith })
  | inl absent ↦ elim (Option-cases (parse_ipv6 addr)) [
    | inl bad ↦ absurd (cc (rw bad at (rw (absent, parse_address) at h)))
    | inr (v6, e) ↦
        let (u, fits, made) =
          >>=-ok (refuse_if (ltb 128 bits) prefix_too_long) _
            (rw e at (rw (absent, parse_address) at h)) in
        let small = refuse_if-ok (ltb 128 bits) prefix_too_long fits in
        let size = length-parse_ipv6 addr e in
        subst (λ (q : Prefix). IsPrefix q.v6 q.addr q.bits) (ok-injective made)
          (record { sized = size; in_width = ground arith })
  ]
]

pub parse_prefix-IsPrefix :
    (s : Bytes) (p : Prefix) → parse_prefix s ≡ ok p → IsPrefix p.v6 p.addr p.bits
unfolding parse_prefix
parse_prefix-IsPrefix s p h =
    let ((addr, len), cut, h₁) = >>=-ok (ok_or (split_once b'/' s) expected_address_length) _ h in
    let (bits, e, h₂) = >>=-ok (ok_or (parse_u8 len) bad_prefix_length) _ h₁ in
    parse_address-IsPrefix addr bits p h₂

any_nonzero-false : (bs : Bytes) → any_nonzero bs ≡ false → All (λ b. b ≡ 0) bs
unfolding any_nonzero
any_nonzero-false [] h = tt
any_nonzero-false (b ∷ bs) h = elim (Bool-cases (b == 0)) [
  | inl zero_octet ↦ (ground arith, any_nonzero-false bs (rw zero_octet at h))
  | inr set ↦ absurd (cc (rw set at h))
]

any_from-false :
    (addr : Bytes) (i : ℕ) → any_from addr i ≡ some false → All (λ b. b ≡ 0) (drop i addr)
unfolding slice_from
any_from-false addr i h = elim (Bool-cases (leb i (length addr))) [
  | inl within ↦ any_nonzero-false (drop i addr) (cc (rw (within, any_from) at h))
  | inr out ↦ absurd (cc (rw (out, any_from) at h))
]

any_within-false :
    (addr : Bytes) (whole mask : ℕ)
    → any_within addr whole mask ≡ some false
    → any_from addr (whole + 1) ≡ some false
any_within-false addr whole mask h = elim (Option-cases (index_at addr whole)) [
  | inl out ↦ absurd (cc (rw (out, any_within) at h))
  | inr (octet, e) ↦ elim (Bool-cases (bit_and octet mask == 0)) [
    | inl clear ↦ rw clear at (rw (e, any_within) at h)
    | inr set ↦ absurd (cc (rw set at (rw (e, any_within) at h)))
  ]
]

-- The test finds every set octet behind the prefix's own.
pub prefix_has_host_bits-IsCanonical :
    (addr : Bytes) (bits : ℕ) → prefix_has_host_bits addr bits ≡ some false → IsCanonical addr bits
unfolding prefix_has_host_bits
prefix_has_host_bits-IsCanonical addr bits h = elim (Bool-cases (bits % 8 == 0)) [
  | inl even ↦
      let at_whole : bits / 8 ≡ div_ceil8 bits = ground arith in
      subst (λ (n : ℕ). All (λ b. b ≡ 0) (drop n addr)) at_whole
        (any_from-false addr (bits / 8) (rw even at h))
  | inr odd ↦
      let behind : bits / 8 + 1 ≡ div_ceil8 bits = ground arith in
      subst (λ (n : ℕ). All (λ b. b ≡ 0) (drop n addr)) behind
        (any_from-false addr (bits / 8 + 1)
          (any_within-false addr (bits / 8) (2 ^ (8 - bits % 8) - 1) (rw odd at h)))
]
