-- ===== src/Text/Bounds.antt =====
-- What the numbers and addresses that the parsers accept satisfy: a number is below its type's limit, an
-- IPv4 address has four octets and an IPv6 address sixteen.
use mrtgen.Base.{
  ℕ, ◌+◌, ◌*◌, ◌<◌, ◌≡◌, [], ◌∷◌, some, arith, Bytes, ltb, ◌==◌, Bool-cases, Option-cases, inl, inr,
}
use mrtgen.Text.{to_digit, digits_value, from_str_radix}

digits_value_bound :
    (radix limit acc : ℕ) (s : Bytes) {v : ℕ}
    → acc < limit
    → digits_value radix limit acc s ≡ some v
    → v < limit
unfolding digits_value
digits_value_bound radix limit acc [] small h = ground arith
digits_value_bound radix limit acc (c ∷ s) small h = elim (Option-cases (to_digit radix c)) [
  | inl stop ↦ absurd (cc (rw (stop, digits_value) at h))
  | inr (d, e) ↦ elim (Bool-cases (ltb (acc * radix + d) limit)) [
    | inl fits ↦
        digits_value_bound radix limit (acc * radix + d) s (ground arith)
          (rw (fits) at (rw (e, digits_value) at h))
    | inr over ↦ absurd (cc (rw (over) at (rw (e, digits_value) at h)))
  ]
]

pub from_str_radix_bound :
    (radix limit : ℕ) (s : Bytes) {v : ℕ}
    → 0 < limit
    → from_str_radix radix limit s ≡ some v
    → v < limit
unfolding from_str_radix
from_str_radix_bound radix limit [] positive h = cc
from_str_radix_bound radix limit (c ∷ []) positive h = elim (Bool-cases (c == b'+')) [
  | inl plus ↦ cc (rw plus at h)
  | inr other ↦ digits_value_bound radix limit 0 (c ∷ []) positive (rw other at h)
]
from_str_radix_bound radix limit (c ∷ d ∷ s) positive h = elim (Bool-cases (c == b'+')) [
  | inl plus ↦ digits_value_bound radix limit 0 (d ∷ s) positive (rw plus at h)
  | inr other ↦ digits_value_bound radix limit 0 (c ∷ d ∷ s) positive (rw other at h)
]
