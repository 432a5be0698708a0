-- ===== src/Routes/Prefix/Exact.antt =====
-- `prefix_has_host_bits` of src/routes.rs answers for every prefix in range, and answers right.
use mrtgen.Base.{
  ℕ, suc, ◌+◌, ◌-◌, ◌*◌, ◌/◌, ◌%◌, ◌^◌, ◌≤◌, ◌<◌, ◌≡◌, ◌↔◌, refl, [], ◌∷◌, Bool, true, false, some,
  arith, Bytes, All, IsU8, bit_and, ◌==◌, leb, ltb, length, drop, subst, Bool-cases, inl, inr, sym,
  ◌∙◌,
}
use mrtgen.Base.Bits.{bit_and-mask}
use mrtgen.Bgp.Nlri.{div_ceil8}
use mrtgen.Routes.Prefix.{
  any_nonzero, index_at, slice_from, any_from, any_within, prefix_has_host_bits,
}
use mrtgen.Routes.Prefix.Hosts.{IsHostFree, prefix_has_host_bits-IsHostFree}

-- The octets behind a prefix without host bits.
free_octets :
    (bits : ℕ) (addr : Bytes)
    → All IsU8 addr
    → IsHostFree bits addr
    → All (λ b. b ≡ 0) (drop (div_ceil8 bits) addr)
free_octets bits [] small free = elim (Bool-cases (bits == 0)) [
  | inl e ↦ let none_left : bits ≡ 0 = ground arith in rw none_left tt
  | inr e ↦ let one : div_ceil8 bits ≡ suc (div_ceil8 bits - 1) = ground arith in rw one tt
]
free_octets bits (b ∷ bs) small free = elim (Bool-cases (bits == 0)) [
  | inl e ↦
      let none_left : bits ≡ 0 = ground arith in
      let (low, rest) = rw none_left at free in
      rw none_left (omega arith, free_octets 0 bs small.1 rest)
  | inr e ↦
      let ceiling : div_ceil8 bits ≡ suc (div_ceil8 (bits - 8)) = ground arith in
      rw ceiling (free_octets (bits - 8) bs small.1 free.1)
]

index_step : (b : ℕ) (bs : Bytes) (i k : ℕ) → i ≡ suc k → index_at (b ∷ bs) i ≡ index_at bs k
unfolding index_at
index_step b bs i k e = rw e refl

-- The octet that the prefix ends in stands in the address, and is clear if no host bit is set.
cut_octet :
    (bits : ℕ) (addr : Bytes)
    → bits < 8 * length addr
    → (b : ℕ) × (index_at addr (bits / 8) ≡ some b)
      × (IsHostFree bits addr → b % 2 ^ (8 - bits % 8) ≡ 0)
unfolding index_at
cut_octet bits [] within = absurd (omega arith)
cut_octet bits (b ∷ bs) within = elim (Bool-cases (ltb bits 8)) [
  | inl last ↦
      let first : bits / 8 ≡ 0 = ground arith in
      let here : bits % 8 ≡ bits = ground arith in (b, rw first refl, λ free. rw here (free.0))
  | inr past ↦
      let step : bits / 8 ≡ suc ((bits - 8) / 8) = ground arith in
      let rest : bits % 8 ≡ (bits - 8) % 8 = ground arith in
      let (c, found, clear) = cut_octet (bits - 8) bs (ground arith) in
      (
        c,
        index_step b bs (bits / 8) ((bits - 8) / 8) step ∙ found,
        λ free. subst (λ (n : ℕ). c % 2 ^ (8 - n) ≡ 0) (sym rest) (clear free.1),
      )
]

zeros-any_nonzero : (bs : Bytes) → All (λ b. b ≡ 0) bs → any_nonzero bs ≡ false
unfolding any_nonzero
zeros-any_nonzero [] h = refl
zeros-any_nonzero (b ∷ bs) h = rw h.0 (zeros-any_nonzero bs h.1)

any_from_within :
    (addr : Bytes) (i : ℕ) → i ≤ length addr → any_from addr i ≡ some (any_nonzero (drop i addr))
unfolding slice_from
any_from_within addr i h =
    let within : leb i (length addr) ≡ true = ground arith in rw (within, any_from)

-- What it answers, in either branch.
answer :
    (addr : Bytes) (bits : ℕ)
    → bits ≤ 8 * length addr
    → (r : Bool) × (prefix_has_host_bits addr bits ≡ some r)
      × (All IsU8 addr → IsHostFree bits addr → r ≡ false)
unfolding prefix_has_host_bits
answer addr bits within = elim (Bool-cases (bits % 8 == 0)) [
  | inl even ↦
      let at_whole : div_ceil8 bits ≡ bits / 8 = ground arith in
      (
        any_nonzero (drop (bits / 8) addr),
        rw even (any_from_within addr (bits / 8) (omega arith)),
        λ small free.
            zeros-any_nonzero (drop (bits / 8) addr)
              (rw at_whole at (free_octets bits addr small free)),
      )
  | inr odd ↦
      let behind : div_ceil8 bits ≡ bits / 8 + 1 = ground arith in
      let inside : bits < 8 * length addr = ground arith in
      let (b, found, clear) = cut_octet bits addr inside in
      let later = any_from_within addr (bits / 8 + 1) (omega arith) in
      let mask = bit_and-mask (8 - bits % 8) b (ground arith) in
      elim (Bool-cases (bit_and b (2 ^ (8 - bits % 8) - 1) == 0)) [
        | inl unset ↦ (
          any_nonzero (drop (bits / 8 + 1) addr),
          rw odd (rw (found, any_within) (rw unset later)),
          λ small free.
              zeros-any_nonzero (drop (bits / 8 + 1) addr)
                (rw behind at (free_octets bits addr small free)),
        )
        | inr set ↦ (
          true,
          rw odd (rw (found, any_within) (rw set)),
          λ small free.
              let none_set : bit_and b (2 ^ (8 - bits % 8) - 1) ≡ 0 = mask ∙ clear free in
              absurd (ground arith),
        )
      ]
]

-- For an address of octets and a length that it has, prefix_has_host_bits panics neither on an
-- index nor on a slice, and its answer is no exactly if no bit is set behind the length, in the
-- octet that the prefix ends in or a later one.
pub prefix_has_host_bits_lem :
    (addr : Bytes) (bits : ℕ)
    → All IsU8 addr
    → bits ≤ 8 * length addr
    → (r : Bool) × (prefix_has_host_bits addr bits ≡ some r) × ((r ≡ false) ↔ IsHostFree bits addr)
prefix_has_host_bits_lem addr bits small within =
    let (r, e, right) = answer addr bits within in
    (r, e, (λ no. prefix_has_host_bits-IsHostFree addr bits (rw no at e), λ free. right small free))
