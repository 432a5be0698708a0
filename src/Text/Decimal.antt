-- ===== src/Text/Decimal.antt =====
-- Decimal texts, as they are printed, against the integer parsers and the separators.
use mrtgen.Base.{
  ℕ, zero, suc, ◌+◌, ◌-◌, ◌*◌, ◌/◌, ◌%◌, ◌<◌, ◌≤◌, ◌≡◌, ◌++◌, [], ◌∷◌, List, true, false, some,
  arith, Bytes, All, ltb, ◌==◌, if◌then◌else◌, Bool-cases, inl, inr, ◌∙◌, refl,
}
use mrtgen.Text.{to_digit, digits_value, from_str_radix, split_once, split}

-- The digits of `n` in front of `rest`; a number has less digits than it counts, so as many steps are enough.
unfoldable pub digits_before : ℕ → ℕ → Bytes → Bytes
digits_before zero n rest = rest
digits_before (suc fuel) n rest =
    let more = digits_before fuel (n / 10) ((48 + n % 10) ∷ rest) in
    if ltb n 10 then (48 + n) ∷ rest else more

-- `n` in decimal.
abbrev pub decimal : ℕ → Bytes
decimal n = digits_before (n + 1) n []

abbrev pub IsDigit : ℕ → Type 0
IsDigit c = (48 ≤ c) × (c ≤ 57)

pub to_digit_of : (d : ℕ) → d < 10 → to_digit 10 (48 + d) ≡ some d
unfolding to_digit
to_digit_of d h = ground arith

one_digit :
    (limit acc d : ℕ) (rest : Bytes)
    → d < 10
    → acc * 10 + d < limit
    → digits_value 10 limit acc ((48 + d) ∷ rest) ≡ digits_value 10 limit (acc * 10 + d) rest
unfolding digits_value
one_digit limit acc d rest small fits =
    let below : ltb (acc * 10 + d) limit ≡ true = ground arith in
    rw (to_digit_of d small, digits_value) (rw below)

digits_value-digits_before :
    (limit fuel n : ℕ) (rest : Bytes)
    → n < fuel
    → n < limit
    → digits_value 10 limit 0 (digits_before fuel n rest) ≡ digits_value 10 limit n rest
unfolding digits_before
digits_value-digits_before limit zero n rest enough fits = absurd (omega arith)
digits_value-digits_before limit (suc fuel) n rest enough fits = elim (Bool-cases (ltb n 10)) [
  | inl small ↦
      let whole : 0 * 10 + n ≡ n = omega arith in
      rw small (rw whole at (one_digit limit 0 n rest (ground arith) (omega arith)))
  | inr large ↦
      let whole : (n / 10) * 10 + n % 10 ≡ n = omega arith in
      let step = one_digit limit (n / 10) (n % 10) rest (omega arith) (omega arith) in
      let before =
        digits_value-digits_before limit fuel (n / 10) ((48 + n % 10) ∷ rest) (ground arith)
          (ground arith) in
      rw large (before ∙ (rw whole at step))
]

digits_before-All :
    (fuel n : ℕ) (rest : Bytes) → All IsDigit rest → All IsDigit (digits_before fuel n rest)
unfolding digits_before
digits_before-All zero n rest h = h
digits_before-All (suc fuel) n rest h = elim (Bool-cases (ltb n 10)) [
  | inl small ↦ rw small ((omega arith, ground arith), h)
  | inr large ↦
      rw large
        (digits_before-All fuel (n / 10) ((48 + n % 10) ∷ rest) ((omega arith, omega arith), h))
]

-- A decimal text has a first digit.
digits_before_front :
    (fuel n : ℕ) (rest : Bytes)
    → n < fuel
    → (c : ℕ) × (s : Bytes) × (digits_before fuel n rest ≡ c ∷ s) × IsDigit c
unfolding digits_before
digits_before_front zero n rest enough = absurd (omega arith)
digits_before_front (suc fuel) n rest enough = elim (Bool-cases (ltb n 10)) [
  | inl small ↦ (48 + n, rest, rw small, (omega arith, ground arith))
  | inr large ↦
      let (c, s, e, digit) =
        digits_before_front fuel (n / 10) ((48 + n % 10) ∷ rest) (ground arith) in
      (c, s, rw large e, digit)
]

pub decimal-All : (n : ℕ) → All IsDigit (decimal n)
decimal-All n = digits_before-All (n + 1) n [] tt

pub decimal_front : (n : ℕ) → (c : ℕ) × (s : Bytes) × (decimal n ≡ c ∷ s) × IsDigit c
decimal_front n = digits_before_front (n + 1) n [] (omega arith)

no_sign :
    (limit : ℕ) (text : Bytes) (c : ℕ) (s : Bytes)
    → text ≡ c ∷ s
    → IsDigit c
    → from_str_radix 10 limit text ≡ digits_value 10 limit 0 text
unfolding from_str_radix
no_sign limit text c s e digit = let plain : (c == 43) ≡ false = ground arith in rw e (rw plain)

-- A number below the limit of a type is read back from its decimal text.
pub from_str_radix-decimal :
    (limit n : ℕ) → n < limit → from_str_radix 10 limit (decimal n) ≡ some n
unfolding digits_value
from_str_radix-decimal limit n fits =
    let (c, s, e, digit) = decimal_front n in
    no_sign limit (decimal n) c s e digit
    ∙ digits_value-digits_before limit (n + 1) n [] (omega arith) fits

-- A separator that is no digit cuts behind the digits.
module _ (sep : ℕ) (high : 57 < sep) where
  other : (c : ℕ) → IsDigit c → (c == sep) ≡ false
  other c digit = ground arith

  pub split_once_digits :
      (front back : Bytes)
      → All IsDigit front
      → split_once sep (front ++ (sep ∷ back)) ≡ some (front, back)
  unfolding split_once
  split_once_digits [] back h = let same : (sep == sep) ≡ true = ground arith in rw same
  split_once_digits (c ∷ front) back h = rw (other c h.0) (rw (split_once_digits front back h.1))

  pub split_digits : (last : Bytes) → All IsDigit last → split sep last ≡ last ∷ []
  unfolding split
  split_digits [] h = refl
  split_digits (c ∷ last) h = rw (split_digits last h.1) (rw (other c h.0))

  split_part : (s : Bytes) → (part : Bytes) × (parts : List Bytes) × (split sep s ≡ part ∷ parts)
  unfolding split
  split_part [] = ([], [], refl)
  split_part (c ∷ s) =
      let (part, parts, e) = split_part s in
      elim (Bool-cases (c == sep)) [
        | inl cut ↦ ([], part ∷ parts, rw (e, cut))
        | inr inside ↦ (c ∷ part, parts, rw (e, inside))
      ]

  pub split_front :
      (front back : Bytes)
      → All IsDigit front
      → split sep (front ++ (sep ∷ back)) ≡ front ∷ split sep back
  unfolding split
  split_front [] back h =
      let (part, parts, e) = split_part back in
      let same : (sep == sep) ≡ true = ground arith in rw e (rw same)
  split_front (c ∷ front) back h = rw (split_front front back h.1) (rw (other c h.0))

-- The last digit behind the others.
pub digits_before_step :
    (fuel n : ℕ) (rest : Bytes)
    → n < fuel
    → 10 ≤ n
    → digits_before fuel n rest ≡ digits_before (fuel - 1) (n / 10) ((48 + n % 10) ∷ rest)
unfolding digits_before
digits_before_step zero n rest enough large = absurd (omega arith)
digits_before_step (suc fuel) n rest enough large =
    let more : ltb n 10 ≡ false = ground arith in
    let left : suc fuel - 1 ≡ fuel = omega arith in rw more (rw left)

pub digits_before_end :
    (fuel n : ℕ) (rest : Bytes) → n < fuel → n < 10 → digits_before fuel n rest ≡ (48 + n) ∷ rest
unfolding digits_before
digits_before_end zero n rest enough small = absurd (omega arith)
digits_before_end (suc fuel) n rest enough small =
    let last : ltb n 10 ≡ true = ground arith in rw last
