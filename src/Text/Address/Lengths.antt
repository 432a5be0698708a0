-- ===== src/Text/Address/Lengths.antt =====
-- The octets that the address parsers give: four of an IPv4 address, sixteen of an IPv6 address.
use mrtgen.Base.{
  ℕ, zero, suc, ◌+◌, ◌-◌, ◌*◌, ◌<◌, ◌≤◌, ◌≡◌, refl, ◌++◌, [], ◌∷◌, List, true, false, Option, none,
  some, arith, Bytes, ltb, ◌==◌, if◌then◌else◌, be16, length, length-append, length-replicate,
  replicate, lt→ltb, Bool-cases, Option-cases, inl, inr,
}
use mrtgen.Wire.{◌>>=◌, >>=-some}
use mrtgen.Text.Address.{
  whole, read_ipv4_addr, parse_ipv4, group_octets, ipv4_groups, read_groups, read_number,
  read_separator, after_colons, read_ipv6_addr, parse_ipv6, read_given_char,
}

whole-some : {A : Type 0} (o : Option (A × Bytes)) {a : A} → whole o ≡ some a → o ≡ some (a, [])
unfolding whole
whole-some none h = cc
whole-some (some (a, [])) h = cc
whole-some (some (a, c ∷ s)) h = cc

length-read_ipv4_addr :
    (s : Bytes) {ip rest : Bytes} → read_ipv4_addr s ≡ some (ip, rest) → length ip ≡ 4
unfolding read_ipv4_addr
length-read_ipv4_addr s h =
    let octet = read_number 10 3 256 false in
    let ((a, s₁), e₁, h₁) = >>=-some (read_separator b'.' 0 octet s) _ h in
    let ((b, s₂), e₂, h₂) = >>=-some (read_separator b'.' 1 octet s₁) _ h₁ in
    let ((c, s₃), e₃, h₃) = >>=-some (read_separator b'.' 2 octet s₂) _ h₂ in
    let ((d, s₄), e₄, h₄) = >>=-some (read_separator b'.' 3 octet s₃) _ h₃ in ground arith

pub length-parse_ipv4 : (s : Bytes) {ip : Bytes} → parse_ipv4 s ≡ some ip → length ip ≡ 4
unfolding parse_ipv4
length-parse_ipv4 s h = length-read_ipv4_addr s (whole-some (read_ipv4_addr s) h)

length-group_octets : (gs : List ℕ) → length (group_octets gs) ≡ 2 * length gs
unfolding group_octets be16
length-group_octets [] = refl
length-group_octets (g ∷ gs) = omega (arith, length-group_octets gs)

length-ipv4_groups : (bs : Bytes) → length bs ≡ 4 → length (ipv4_groups bs) ≡ 2
unfolding ipv4_groups
length-ipv4_groups (a ∷ b ∷ c ∷ d ∷ bs) h = refl
length-ipv4_groups [] h = absurd (omega arith)
length-ipv4_groups (a ∷ []) h = absurd (omega arith)
length-ipv4_groups (a ∷ b ∷ []) h = absurd (omega arith)
length-ipv4_groups (a ∷ b ∷ c ∷ []) h = absurd (omega arith)

-- The embedded address is read only where two slots are left.
abbrev embedded : ℕ → ℕ → Bytes → Option (Bytes × Bytes)
embedded slots i s = if ltb 0 slots then read_separator b':' i read_ipv4_addr s else none

embedded_fits :
    (slots i : ℕ) (s : Bytes) {ip rest : Bytes}
    → embedded slots i s ≡ some (ip, rest)
    → (0 < slots) × (length ip ≡ 4)
unfolding read_separator
embedded_fits zero i s h = cc
embedded_fits (suc slots) zero s h =
    (omega arith, length-read_ipv4_addr s (rw (lt→ltb 0 (suc slots) (omega arith)) at h))
embedded_fits (suc slots) (suc i) s h =
    let (s', e, found) =
      >>=-some (read_given_char b':' s) read_ipv4_addr
        (rw (lt→ltb 0 (suc slots) (omega arith)) at h) in
    (omega arith, length-read_ipv4_addr s' found)

length-read_groups : (slots i : ℕ) (s : Bytes) → length ((read_groups slots i s).0) ≤ slots
unfolding read_groups
length-read_groups zero i s = omega arith
length-read_groups (suc slots) i s = elim (Option-cases (embedded slots i s)) [
  | inr ((ip, rest), e) ↦
      let fits = embedded_fits slots i s e in
      rw (e, read_groups) (omega (arith, length-ipv4_groups ip fits.1, fits.0))
  | inl absent ↦ elim (Option-cases (read_separator b':' i (read_number 16 4 65536 true) s)) [
    | inl stop ↦ rw (absent, read_groups) (rw stop (omega arith))
    | inr ((g, rest), e) ↦
        rw (absent, read_groups) (rw e (omega (arith, length-read_groups slots (i + 1) rest)))
  ]
]

length-after_colons :
    (head : List ℕ) (s : Bytes) {ip rest : Bytes}
    → length head < 8
    → after_colons head s ≡ some (ip, rest)
    → length ip ≡ 16
unfolding after_colons
length-after_colons head s small h =
    let tail = (read_groups (8 - (length head + 1)) 0 s).0 in
    let fits : length tail ≤ 8 - (length head + 1) =
      length-read_groups (8 - (length head + 1)) 0 s in
    let zeros = replicate (8 - length head - length tail) 0 in
    let size : length (group_octets (head ++ (zeros ++ tail))) ≡ 16 = omega (
      arith,
      length-group_octets (head ++ (zeros ++ tail)),
      length-append head (zeros ++ tail),
      length-append zeros tail,
      length-replicate (8 - length head - length tail) (zero),
    ) in
    ground (arith, size)

length-read_ipv6_addr :
    (s : Bytes) {ip rest : Bytes} → read_ipv6_addr s ≡ some (ip, rest) → length ip ≡ 16
unfolding read_ipv6_addr
length-read_ipv6_addr s h =
    let (head, head_ipv4, s₁) = read_groups 8 0 s in
    let fits : length head ≤ 8 = length-read_groups 8 0 s in
    elim (Bool-cases (length head == 8)) [
      | inl full ↦ let same = rw full at h in ground (arith, length-group_octets head)
      | inr short ↦ elim (Bool-cases head_ipv4) [
        | inl embeds ↦ absurd (cc (rw embeds at (rw short at h)))
        | inr plain ↦
            let (rest, e, found) =
              >>=-some (read_given_char b':' s₁ >>= read_given_char b':') (after_colons head)
                (rw plain at (rw short at h)) in
            length-after_colons head rest (ground arith) found
      ]
    ]

pub length-parse_ipv6 : (s : Bytes) {ip : Bytes} → parse_ipv6 s ≡ some ip → length ip ≡ 16
unfolding parse_ipv6
length-parse_ipv6 s h = length-read_ipv6_addr s (whole-some (read_ipv6_addr s) h)
