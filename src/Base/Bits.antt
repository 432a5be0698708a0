-- ===== src/Base/Bits.antt =====
-- `bit_or` with one low bit and `bit_and` with a mask of low bits, at a variable.
use Prim.Native.Nat.{
  ℕ, zero, suc, ◌+◌, ◌-◌, ◌^◌, ◌*◌, ◌/◌, ◌%◌, ◌≤◌, min, max, bit_and, bit_or, digits,
  bit_and-bitwise, bit_or-bitwise,
}
use mathlib.Core.Path.{◌≡◌, refl}
use native.Mathlib.Omega.{arith}

-- With no bit to set, the digits of a number make it up again.
digits-max_zero : (fuel n : ℕ) → n ≤ fuel → digits (λ d. d) max fuel n 0 ≡ n
digits-max_zero fuel zero fits = go fuel
  where
    go : (k : ℕ) → digits (λ d. d) max k 0 0 ≡ 0
    go zero = refl
    go (suc k) = refl
digits-max_zero zero (suc n) fits = absurd (omega arith)
digits-max_zero (suc fuel) (suc n) fits =
    let half = digits-max_zero fuel (suc n / 2) (omega arith) in omega (arith, half)

-- Setting the lowest bit of an even number adds one.
pub bit_or-one_even : (n : ℕ) → n % 2 ≡ 0 → bit_or n 1 ≡ n + 1
bit_or-one_even zero even = refl
bit_or-one_even (suc n) even =
    let rest = digits-max_zero n (suc n / 2) (omega arith) in
    omega (arith, bit_or-bitwise (suc n) 1, rest)

-- The `k` lowest digits of a number, and the mask that has just these.
unfoldable pub low_bits : ℕ → ℕ → ℕ
low_bits zero a = 0
low_bits (suc k) a = low_bits k (a / 2) * 2 + a % 2

unfoldable pub ones : ℕ → ℕ
ones zero = 0
ones (suc k) = ones k * 2 + 1

low_bits_zero : (k : ℕ) → low_bits k 0 ≡ 0
unfolding low_bits
low_bits_zero zero = refl
low_bits_zero (suc k) = omega (arith, low_bits_zero k)

digits-min-ones : (k fuel a : ℕ) → a ≤ fuel → digits (λ b. zero) min fuel a (ones k) ≡ low_bits k a
unfolding low_bits ones
digits-min-ones zero zero zero fits = refl
digits-min-ones zero (suc fuel) zero fits = refl
digits-min-ones (suc k) zero zero fits = omega (arith, low_bits_zero k)
digits-min-ones (suc k) (suc fuel) zero fits = omega (arith, low_bits_zero k)
digits-min-ones k zero (suc a) fits = absurd (omega arith)
digits-min-ones zero (suc fuel) (suc a) fits =
    omega (arith, digits-min-ones zero fuel (suc a / 2) (omega arith))
digits-min-ones (suc k) (suc fuel) (suc a) fits =
    let half : (ones k * 2 + 1) / 2 ≡ ones k = omega arith in
    let odd : (ones k * 2 + 1) % 2 ≡ 1 = omega arith in
    rw half (rw odd (omega (arith, digits-min-ones k fuel (suc a / 2) (omega arith))))

bit_and-ones : (k a : ℕ) → bit_and a (ones k) ≡ low_bits k a
bit_and-ones k a = omega (arith, bit_and-bitwise a (ones k), digits-min-ones k a a (omega arith))

-- The mask of an octet's host bits takes the remainder.
pub bit_and-mask : (k a : ℕ) → k ≤ 7 → bit_and a (2 ^ k - 1) ≡ a % 2 ^ k
unfolding low_bits ones
bit_and-mask zero a h = omega (arith, bit_and-ones 0 a)
bit_and-mask (suc zero) a h = omega (arith, bit_and-ones 1 a)
bit_and-mask (suc (suc zero)) a h = omega (arith, bit_and-ones 2 a)
bit_and-mask (suc (suc (suc zero))) a h = omega (arith, bit_and-ones 3 a)
bit_and-mask (suc (suc (suc (suc zero)))) a h = omega (arith, bit_and-ones 4 a)
bit_and-mask (suc (suc (suc (suc (suc zero))))) a h = omega (arith, bit_and-ones 5 a)
bit_and-mask (suc (suc (suc (suc (suc (suc zero)))))) a h = omega (arith, bit_and-ones 6 a)
bit_and-mask (suc (suc (suc (suc (suc (suc (suc zero))))))) a h = omega (arith, bit_and-ones 7 a)
bit_and-mask (suc (suc (suc (suc (suc (suc (suc (suc k)))))))) a h = absurd (omega arith)
