-- ===== src/Routes/Prefix/Printed.antt =====
-- An IPv4 prefix in its usual notation, as `parse_prefix` of src/routes.rs reads it.
use mrtgen.Base.{
  ℕ, ◌<◌, ◌≤◌, ◌≡◌, refl, ◌++◌, [], ◌∷◌, false, some, arith, Bytes, All, All-append, IsU8, ltb,
  ◌==◌,
}
use mrtgen.Text.{split_once}
use mrtgen.Text.Decimal.{decimal, IsDigit, decimal-All, from_str_radix-decimal}
use mrtgen.Text.Address.Printed.{ipv4_text, parse_ipv4-ipv4_text}
use mrtgen.Routes.Prefix.{parse_address, parse_prefix}
use mrtgen.Outcome.{ok}

-- No slash.
abbrev IsBefore : ℕ → Type 0
IsBefore c = (c == 47) ≡ false

split_once_slash :
    (front back : Bytes)
    → All IsBefore front
    → split_once 47 (front ++ (47 ∷ back)) ≡ some (front, back)
unfolding split_once
split_once_slash [] back h = refl
split_once_slash (c ∷ front) back h = rw h.0 (rw (split_once_slash front back h.1))

digits-IsBefore : (s : Bytes) → All IsDigit s → All IsBefore s
digits-IsBefore [] h = tt
digits-IsBefore (c ∷ s) h = (ground (arith, h.0), digits-IsBefore s h.1)

dotted-IsBefore : (n : ℕ) (rest : Bytes) → All IsBefore rest → All IsBefore (decimal n ++ rest)
dotted-IsBefore n rest h =
    All-append IsBefore (decimal n) rest (digits-IsBefore (decimal n) (decimal-All n)) h

abbrev pub prefix_text : ℕ → ℕ → ℕ → ℕ → ℕ → Bytes
prefix_text a b c d bits = ipv4_text a b c d ++ (47 ∷ decimal bits)

-- An IPv4 prefix in its usual notation, four octets in dotted decimal, a slash and a length of
-- 32 at most, is read by parse_prefix as an IPv4 prefix of those octets and that length.
pub parse_prefix-prefix_text :
    (a b c d bits : ℕ)
    → IsU8 a
    → IsU8 b
    → IsU8 c
    → IsU8 d
    → bits ≤ 32
    → parse_prefix (prefix_text a b c d bits)
      ≡ ok (record { v6 = false; addr = a ∷ b ∷ c ∷ d ∷ []; bits = bits })
unfolding parse_prefix
parse_prefix-prefix_text a b c d bits ha hb hc hd small =
    let dotted : All IsBefore (ipv4_text a b c d) =
      dotted-IsBefore a _
        (refl, dotted-IsBefore b _ (refl, dotted-IsBefore c _ (refl, dotted-IsBefore d [] tt))) in
    let in_octet : bits < 256 = omega arith in
    let within : ltb 32 bits ≡ false = ground arith in
    rw (split_once_slash (ipv4_text a b c d) (decimal bits) dotted) (
      rw (from_str_radix-decimal 256 bits in_octet)
        (rw (parse_ipv4-ipv4_text a b c d ha hb hc hd, parse_address) (rw within)))
