-- ===== src/Text/Address/Printed.antt =====
-- IPv4 addresses in dotted decimal, as the address parser reads them.
use mrtgen.Base.{
  ℕ, ◌+◌, ◌-◌, ◌*◌, ◌/◌, ◌%◌, ◌<◌, ◌≤◌, ◌≡◌, ◌++◌, [], ◌∷◌, true, false, ◌&&◌, none, some, arith,
  Bytes, IsU8, ltb, ◌==◌, ◌∙◌, refl, inl, inr, Bool-cases,
}
use mrtgen.Text.{to_digit}
use mrtgen.Text.Address.{
  read_digits, read_number, read_separator, read_given_char, read_ipv4_addr, whole, parse_ipv4,
}
use mrtgen.Text.Decimal.{decimal, digits_before_step, digits_before_end, to_digit_of}

octet_one : (n : ℕ) → n < 10 → decimal n ≡ (48 + n) ∷ []
octet_one n h = digits_before_end (n + 1) n [] (omega arith) h

octet_two : (n : ℕ) → 10 ≤ n → n < 100 → decimal n ≡ (48 + n / 10) ∷ (48 + n % 10) ∷ []
octet_two n low high =
    digits_before_step (n + 1) n [] (omega arith) low
    ∙ digits_before_end (n + 1 - 1) (n / 10) ((48 + n % 10) ∷ []) (omega arith) (omega arith)

octet_three :
    (n : ℕ)
    → 100 ≤ n
    → n < 256
    → decimal n ≡ (48 + n / 10 / 10) ∷ (48 + n / 10 % 10) ∷ (48 + n % 10) ∷ []
octet_three n low high =
    digits_before_step (n + 1) n [] (omega arith) (omega arith)
    ∙ (digits_before_step (n + 1 - 1) (n / 10) ((48 + n % 10) ∷ []) (omega arith) (omega arith)
        ∙ digits_before_end (n + 1 - 1 - 1) (n / 10 / 10) ((48 + n / 10 % 10) ∷ (48 + n % 10) ∷ [])
            (omega arith) (omega arith))

-- What stands behind a number: nothing, or no digit.
abbrev IsStop : Bytes → Type 0
IsStop [] = Unit {0}
IsStop (c ∷ s) = to_digit 10 c ≡ none

read_digits_stop :
    (value count : ℕ) (rest : Bytes)
    → IsStop rest
    → read_digits 10 value count rest ≡ (value, count, rest)
read_digits_stop value count [] h = refl
read_digits_stop value count (c ∷ s) h = rw (h, read_digits)

read_one :
    (value count d : ℕ) (s : Bytes)
    → d < 10
    → read_digits 10 value count ((48 + d) ∷ s) ≡ read_digits 10 (value * 10 + d) (count + 1) s
read_one value count d s h = rw (to_digit_of d h, read_digits)

-- A number of the given size, as its digits count it.
number_of_digits :
    (c : ℕ) (s rest : Bytes) (n size : ℕ)
    → read_digits 10 0 0 (c ∷ s) ≡ (n, size, rest)
    → n < 256
    → 0 < size
    → size ≤ 3
    → ((c == 48) && ltb 1 size) ≡ false
    → read_number 10 3 256 false (c ∷ s) ≡ some (n, rest)
unfolding read_number
number_of_digits c s rest n size e fits some_digit few plain =
    let short : ltb 3 size ≡ false = ground arith in
    let present : (size == 0) ≡ false = ground arith in
    let below : ltb n 256 ≡ true = ground arith in
    rw e (rw short (rw present (rw plain (rw below))))

read_number-one :
    (n : ℕ) (rest : Bytes)
    → n < 10
    → IsStop rest
    → read_number 10 3 256 false ((48 + n) ∷ rest) ≡ some (n, rest)
read_number-one n rest small stop =
    let value : 0 * 10 + n ≡ n = omega arith in
    number_of_digits (48 + n) rest rest n 1
      (rw value at (read_one 0 0 n rest small ∙ read_digits_stop (0 * 10 + n) 1 rest stop))
      (omega arith) (omega arith) (omega arith) (ground arith)

read_number-two :
    (a b : ℕ) (rest : Bytes)
    → 0 < a
    → a < 10
    → b < 10
    → IsStop rest
    → read_number 10 3 256 false ((48 + a) ∷ (48 + b) ∷ rest) ≡ some (a * 10 + b, rest)
read_number-two a b rest positive first second stop =
    let value : (0 * 10 + a) * 10 + b ≡ a * 10 + b = omega arith in
    number_of_digits (48 + a) ((48 + b) ∷ rest) rest (a * 10 + b) 2
      (rw value at (
        read_one 0 0 a ((48 + b) ∷ rest) first
        ∙ (read_one (0 * 10 + a) 1 b rest second
            ∙ read_digits_stop ((0 * 10 + a) * 10 + b) 2 rest stop)))
      (omega arith) (omega arith) (omega arith) (ground arith)

read_number-three :
    (a b c : ℕ) (rest : Bytes)
    → 0 < a
    → a < 10
    → b < 10
    → c < 10
    → (a * 10 + b) * 10 + c < 256
    → IsStop rest
    → read_number 10 3 256 false ((48 + a) ∷ (48 + b) ∷ (48 + c) ∷ rest)
      ≡ some ((a * 10 + b) * 10 + c, rest)
read_number-three a b c rest positive first second third fits stop =
    let value : ((0 * 10 + a) * 10 + b) * 10 + c ≡ (a * 10 + b) * 10 + c = omega arith in
    number_of_digits (48 + a) ((48 + b) ∷ (48 + c) ∷ rest) rest ((a * 10 + b) * 10 + c) 3
      (rw value at (
        read_one 0 0 a ((48 + b) ∷ (48 + c) ∷ rest) first
        ∙ (read_one (0 * 10 + a) 1 b ((48 + c) ∷ rest) second
            ∙ (read_one ((0 * 10 + a) * 10 + b) 2 c rest third
                ∙ read_digits_stop (((0 * 10 + a) * 10 + b) * 10 + c) 3 rest stop))))
      fits (omega arith) (omega arith) (ground arith)

-- An octet is read from its decimal text.
read_number-decimal :
    (n : ℕ) (rest : Bytes)
    → IsU8 n
    → IsStop rest
    → read_number 10 3 256 false (decimal n ++ rest) ≡ some (n, rest)
read_number-decimal n rest fits stop = elim (Bool-cases (ltb n 10)) [
  | inl one ↦ rw (octet_one n (ground arith)) (read_number-one n rest (ground arith) stop)
  | inr more ↦ elim (Bool-cases (ltb n 100)) [
    | inl two ↦
        let value : (n / 10) * 10 + n % 10 ≡ n = omega arith in
        let low : 10 ≤ n = ground arith in
        let high : n < 100 = ground arith in
        rw (octet_two n low high) (
          rw value at
            (read_number-two (n / 10) (n % 10) rest (omega arith) (omega arith) (omega arith) stop))
    | inr three ↦
        let value : (n / 10 / 10 * 10 + n / 10 % 10) * 10 + n % 10 ≡ n = omega arith in
        let low : 100 ≤ n = ground arith in
        rw (octet_three n low fits) (
          rw value at (
            read_number-three (n / 10 / 10) (n / 10 % 10) (n % 10) rest (omega arith) (omega arith)
              (omega arith) (omega arith) (omega arith) stop))
  ]
]

-- Dotted decimal.
abbrev pub ipv4_text : ℕ → ℕ → ℕ → ℕ → Bytes
ipv4_text a b c d =
    decimal a ++ (46 ∷ (decimal b ++ (46 ∷ (decimal c ++ (46 ∷ (decimal d ++ []))))))

-- Four octets come back from dotted decimal.
pub parse_ipv4-ipv4_text :
    (a b c d : ℕ)
    → IsU8 a
    → IsU8 b
    → IsU8 c
    → IsU8 d
    → parse_ipv4 (ipv4_text a b c d) ≡ some (a ∷ b ∷ c ∷ d ∷ [])
unfolding parse_ipv4 read_ipv4_addr read_separator read_given_char whole to_digit
parse_ipv4-ipv4_text a b c d ha hb hc hd =
    rw
      (read_number-decimal a (46 ∷ (decimal b ++ (46 ∷ (decimal c ++ (46 ∷ (decimal d ++ [])))))) ha
        refl)
      (rw (read_number-decimal b (46 ∷ (decimal c ++ (46 ∷ (decimal d ++ [])))) hb refl) (
        rw (read_number-decimal c (46 ∷ (decimal d ++ [])) hc refl)
          (rw (read_number-decimal d [] hd tt))))
