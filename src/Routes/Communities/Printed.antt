-- ===== src/Routes/Communities/Printed.antt =====
-- Communities in the notation of RFC 1997 and RFC 8092, decimal numbers between colons, as the parsers of
-- src/routes.rs read them.
use mrtgen.Base.{
  ℕ, ◌+◌, ◌*◌, ◌<◌, ◌≤◌, ◌≡◌, refl, ◌++◌, [], ◌∷◌, false, none, arith, Bytes, All, All-append,
  All-append, IsU16, IsU32, ◌==◌, ◌∙◌,
}
use mrtgen.Text.{codes, text_eq, to_ascii_lowercase, strip_prefix}
use mrtgen.Text.Decimal.{
  decimal, IsDigit, decimal-All, decimal_front, from_str_radix-decimal, split_once_digits,
  split_digits, split_front,
}
use mrtgen.Routes.Communities.{pair_community, parse_std_community, parse_large_community}
use mrtgen.Outcome.{ok}

-- Two numbers and a colon.
abbrev pub pair_text : ℕ → ℕ → Bytes
pair_text a b = decimal a ++ (58 ∷ decimal b)

abbrev pub triple_text : ℕ → ℕ → ℕ → Bytes
triple_text a b c = decimal a ++ (58 ∷ pair_text b c)

-- The decimal notation of a large community, three 32-bit numbers between colons, is read back
-- to the three numbers.
pub parse_large_community-triple_text :
    (a b c : ℕ)
    → IsU32 a
    → IsU32 b
    → IsU32 c
    → parse_large_community (triple_text a b c) ≡ ok (a, b, c)
unfolding parse_large_community
parse_large_community-triple_text a b c ha hb hc =
    rw (split_front 58 (omega arith) (decimal a) (pair_text b c) (decimal-All a)) (
      rw (split_front 58 (omega arith) (decimal b) (decimal c) (decimal-All b)) (
        rw (split_digits 58 (omega arith) (decimal c) (decimal-All c)) (
          rw (
            from_str_radix-decimal 4294967296 a ha,
            from_str_radix-decimal 4294967296 b hb,
            from_str_radix-decimal 4294967296 c hc,
          ))))

pair_community-pair_text :
    (a b : ℕ) → IsU16 a → IsU16 b → pair_community (pair_text a b) ≡ ok (a * 65536 + b)
pair_community-pair_text a b ha hb =
    rw (split_once_digits 58 (omega arith) (decimal a) (decimal b) (decimal-All a))
      (rw (from_str_radix-decimal 65536 a ha, from_str_radix-decimal 65536 b hb))

-- No name and no hex word is made of digits and colons.
abbrev IsNumeral : ℕ → Type 0
IsNumeral c = (48 ≤ c) × (c ≤ 58)

digits-IsNumeral : (s : Bytes) → All IsDigit s → All IsNumeral s
digits-IsNumeral [] h = tt
digits-IsNumeral (c ∷ s) h = ((omega arith, omega arith), digits-IsNumeral s h.1)

no_hex : (x : ℕ) (s : Bytes) → 58 < x → All IsNumeral s → strip_prefix (48 ∷ x ∷ []) s ≡ none
unfolding strip_prefix
no_hex x [] high h = refl
no_hex x (c ∷ []) high h = ground arith
no_hex x (c ∷ d ∷ s) high h =
    let different : (x == d) ≡ false = ground (arith, h.1.0) in rw different (ground arith)

no_name :
    (text : Bytes) (c : ℕ) (s : Bytes) (n : ℕ) (name : Bytes)
    → text ≡ c ∷ s
    → IsDigit c
    → 58 < n
    → text_eq (to_ascii_lowercase text) (n ∷ name) ≡ false
unfolding text_eq
no_name text c s n name e digit high = rw e (ground arith)

numerals_as_pair :
    (text : Bytes) (c : ℕ) (s : Bytes)
    → text ≡ c ∷ s
    → IsDigit c
    → All IsNumeral text
    → parse_std_community text ≡ pair_community text
unfolding parse_std_community
numerals_as_pair text c s e digit numerals =
    rw (no_name text c s 110 (codes "o-export") e digit (omega arith)) (
      rw (no_name text c s 110 (codes "o-advertise") e digit (omega arith)) (
        rw (no_name text c s 110 (codes "o-export-subconfed") e digit (omega arith)) (
          rw (no_hex 120 text (omega arith) numerals, no_hex 88 text (omega arith) numerals) refl)))

pair_text-All : (a b : ℕ) → All IsNumeral (pair_text a b)
pair_text-All a b =
    All-append IsNumeral (decimal a) (58 ∷ decimal b) (digits-IsNumeral (decimal a) (decimal-All a))
      ((omega arith, omega arith), digits-IsNumeral (decimal b) (decimal-All b))

pair_text_front :
    (a b c : ℕ) (s : Bytes) → decimal a ≡ c ∷ s → pair_text a b ≡ c ∷ (s ++ (58 ∷ decimal b))
pair_text_front a b c s e = rw e

-- The decimal notation of a community, two 16-bit numbers and a colon, is taken for no well-
-- known name and no hex word, and is read as the number with the first in its upper half.
pub parse_std_community-pair_text :
    (a b : ℕ) → IsU16 a → IsU16 b → parse_std_community (pair_text a b) ≡ ok (a * 65536 + b)
parse_std_community-pair_text a b ha hb =
    let (c, s, e, digit) = decimal_front a in
    numerals_as_pair (pair_text a b) c (s ++ (58 ∷ decimal b)) (pair_text_front a b c s e) digit
      (pair_text-All a b)
    ∙ pair_community-pair_text a b ha hb
