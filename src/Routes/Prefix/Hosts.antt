-- ===== src/Routes/Prefix/Hosts.antt =====
-- The host bits of an address, which `prefix_has_host_bits` of src/routes.rs looks for.
use mrtgen.Base.{
  ℕ, suc, ◌-◌, ◌/◌, ◌%◌, ◌^◌, ◌≤◌, ◌≡◌, ◌≢◌, refl, [], ◌∷◌, false, some, arith, Bytes, All, bit_and,
  ◌==◌, ltb, Bool-cases, inl, inr, sym, ◌∙◌,
}
use mrtgen.Base.Bits.{bit_and-mask}
use mrtgen.Bgp.Nlri.{div_ceil8}
use mrtgen.Bgp.Nlri.Reading.{IsCanonical}
use mrtgen.Routes.Prefix.{any_within, index_at, prefix_has_host_bits}
use mrtgen.Routes.Prefix.Sound.{prefix_has_host_bits-IsCanonical}

-- No bit is set behind the first `bits`: an octet with `k` of them has its lowest `8 - k` bits clear.
abbrev pub IsHostFree : ℕ → Bytes → Type 0
IsHostFree bits [] = Unit {0}
IsHostFree bits (b ∷ bs) = (b % 2 ^ (8 - bits) ≡ 0) × IsHostFree (bits - 8) bs

-- The octet that the prefix ends in, if it ends in one.
abbrev IsCutClear : ℕ → Bytes → Type 0
IsCutClear bits addr =
    (b : ℕ) → index_at addr (bits / 8) ≡ some b → bits % 8 ≢ 0 → b % 2 ^ (8 - bits % 8) ≡ 0

any_within-clear :
    (addr : Bytes) (whole k b : ℕ)
    → k ≤ 7
    → any_within addr whole (2 ^ k - 1) ≡ some false
    → index_at addr whole ≡ some b
    → b % 2 ^ k ≡ 0
any_within-clear addr whole k b small h e = elim (Bool-cases (bit_and b (2 ^ k - 1) == 0)) [
  | inl clear ↦
      let none_set : bit_and b (2 ^ k - 1) ≡ 0 = ground arith in
      sym (bit_and-mask k b small) ∙ none_set
  | inr set ↦ absurd (cc (rw set at (rw (e, any_within) at h)))
]

prefix_has_host_bits-IsCutClear :
    (addr : Bytes) (bits : ℕ) → prefix_has_host_bits addr bits ≡ some false → IsCutClear bits addr
unfolding prefix_has_host_bits
prefix_has_host_bits-IsCutClear addr bits h b e cut =
    let odd : (bits % 8 == 0) ≡ false = ground arith in
    any_within-clear addr (bits / 8) (8 - bits % 8) b (omega arith) (rw odd at h) e

zeros-IsHostFree : (bs : Bytes) → All (λ b. b ≡ 0) bs → IsHostFree 0 bs
zeros-IsHostFree [] h = tt
zeros-IsHostFree (b ∷ bs) h = (rw h.0 refl, zeros-IsHostFree bs h.1)

cut-IsHostFree :
    (addr : Bytes) (bits : ℕ) → IsCanonical addr bits → IsCutClear bits addr → IsHostFree bits addr
unfolding index_at
cut-IsHostFree [] bits canonical clear = tt
cut-IsHostFree (b ∷ bs) bits canonical clear = elim (Bool-cases (bits == 0)) [
  | inl none_left ↦
      let at_end : bits ≡ 0 = ground arith in
      rw at_end (zeros-IsHostFree (b ∷ bs) (rw at_end at canonical))
  | inr some_left ↦ elim (Bool-cases (ltb bits 8)) [
    | inl within ↦
        let first : bits / 8 ≡ 0 = ground arith in
        let here : bits % 8 ≡ bits = ground arith in
        let behind : div_ceil8 bits ≡ 1 = ground arith in
        let spent : bits - 8 ≡ 0 = ground arith in
        let low : b % 2 ^ (8 - bits % 8) ≡ 0 =
          clear b (rw first refl) (λ even. absurd (ground arith)) in
        (rw here at low, rw spent (zeros-IsHostFree bs (rw behind at canonical)))
    | inr past ↦
        let whole : 8 - bits ≡ 0 = ground arith in
        let step : bits / 8 ≡ suc ((bits - 8) / 8) = ground arith in
        let rest : bits % 8 ≡ (bits - 8) % 8 = ground arith in
        let ceiling : div_ceil8 bits ≡ suc (div_ceil8 (bits - 8)) = ground arith in
        (
          rw whole (omega arith),
          cut-IsHostFree bs (bits - 8) (rw ceiling at canonical) (rw (step, rest) at clear),
        )
  ]
]

-- What the test lets through has no host bit set.
pub prefix_has_host_bits-IsHostFree :
    (addr : Bytes) (bits : ℕ) → prefix_has_host_bits addr bits ≡ some false → IsHostFree bits addr
prefix_has_host_bits-IsHostFree addr bits h =
    cut-IsHostFree addr bits (prefix_has_host_bits-IsCanonical addr bits h)
      (prefix_has_host_bits-IsCutClear addr bits h)
