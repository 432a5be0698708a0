-- ===== src/Routes/Communities/Sizes.antt =====
-- What the community parsers of src/routes.rs accept has the size that its encoder takes.
use mrtgen.Base.{
  ℕ, ◌-◌, ◌*◌, ◌≡◌, refl, [], ◌∷◌, Option, none, some, arith, Bytes, leb, ◌==◌, length,
  length-append, be16, be32, IsU16, IsU32, unwrap_or, Bool-cases, Option-cases, inl, inr,
}
use mrtgen.Text.{
  codes, text_eq, to_ascii_lowercase, split_once, rsplit_once, strip_prefix, from_str_radix,
  parse_u16, parse_u32,
}
use mrtgen.Text.Address.{parse_ipv6}
use mrtgen.Text.Address.Lengths.{length-parse_ipv6}
use mrtgen.Text.Bounds.{from_str_radix_bound}
use mrtgen.Bgp.Attr.Meanings.Lists.{HasLength}
use mrtgen.Routes.Communities.{
  hex_word, pair_community, parse_std_community, all_hexdigits, hex_bytes, raw_community, typed,
  as_specific, parse_ext_community, ipv6_specific, parse_ipv6_ext_community,
}
use mrtgen.Outcome.{
  Error, bad_community, bad_ext_community, bad_ipv6_ext_community, ok, ok_or, ok_or-ok, >>=-ok,
}

parse_u16_bound : (s : Bytes) (e : Error) {v : ℕ} → ok_or (parse_u16 s) e ≡ ok v → IsU16 v
parse_u16_bound s e h = from_str_radix_bound 10 65536 s (omega arith) (ok_or-ok (parse_u16 s) e h)

pub parse_u32_bound : (s : Bytes) (e : Error) {v : ℕ} → ok_or (parse_u32 s) e ≡ ok v → IsU32 v
parse_u32_bound s e h =
    from_str_radix_bound 10 4294967296 s (omega arith) (ok_or-ok (parse_u32 s) e h)

pair_community-IsU32 : (s : Bytes) {v : ℕ} → pair_community s ≡ ok v → IsU32 v
pair_community-IsU32 s h =
    let ((a, b), cut, h₁) = >>=-ok (ok_or (split_once b':' s) bad_community) _ h in
    let (a', e₁, h₂) = >>=-ok (ok_or (parse_u16 a) bad_community) _ h₁ in
    let (b', e₂, h₃) = >>=-ok (ok_or (parse_u16 b) bad_community) _ h₂ in
    ground (arith, parse_u16_bound a bad_community e₁, parse_u16_bound b bad_community e₂)

hex_community-IsU32 :
    (s : Bytes) (o : Option Bytes) {v : ℕ}
    → elim o [
      | some hex ↦ ok_or (from_str_radix 16 4294967296 hex) bad_community
      | none ↦ pair_community s
    ]
      ≡ ok v
    → IsU32 v
hex_community-IsU32 s none h = pair_community-IsU32 s h
hex_community-IsU32 s (some hex) h =
    from_str_radix_bound 16 4294967296 hex (omega arith)
      (ok_or-ok (from_str_radix 16 4294967296 hex) bad_community h)

pub parse_std_community-IsU32 : (s : Bytes) (v : ℕ) → parse_std_community s ≡ ok v → IsU32 v
unfolding parse_std_community
parse_std_community-IsU32 s v h =
    let name = to_ascii_lowercase s in
    elim (Bool-cases (text_eq name (codes "no-export"))) [
      | inl e ↦ ground (arith, rw e at h)
      | inr e ↦ elim (Bool-cases (text_eq name (codes "no-advertise"))) [
        | inl e' ↦ ground (arith, rw e' at (rw e at h))
        | inr e' ↦ elim (Bool-cases (text_eq name (codes "no-export-subconfed"))) [
          | inl e'' ↦ ground (arith, rw e'' at (rw e' at (rw e at h)))
          | inr e'' ↦ hex_community-IsU32 s (hex_word s) (rw e'' at (rw e' at (rw e at h)))
        ]
      ]
    ]

length-hex_bytes :
    (hex : Bytes) (vs : Bytes) (n : ℕ) → hex_bytes hex ≡ ok vs → length hex ≡ n * 2 → length vs ≡ n
unfolding hex_bytes
length-hex_bytes [] vs n h size = ground arith
length-hex_bytes (a ∷ []) vs n h size = absurd (omega arith)
length-hex_bytes (a ∷ b ∷ rest) vs n h size =
    elim (Option-cases (from_str_radix 16 256 (a ∷ b ∷ []))) [
      | inl bad ↦ absurd (cc (rw (bad, hex_bytes) at h))
      | inr (v, e) ↦
          let (vs', found, made) = >>=-ok (hex_bytes rest) _ (rw (e, hex_bytes) at h) in
          ground (arith, length-hex_bytes rest vs' (n - 1) found)
    ]

raw_community-HasLength :
    (n : ℕ) (e : Error) (s : Bytes) {vs : Bytes} → raw_community n e s ≡ ok vs → HasLength n vs
unfolding raw_community
raw_community-HasLength n e s {vs} h =
    let hex = unwrap_or (strip_prefix (codes "0x") s) s in
    elim (Bool-cases (length hex == n * 2)) [
      | inr off ↦ absurd (cc (rw off at h))
      | inl size ↦ elim (Bool-cases (all_hexdigits hex)) [
        | inr off ↦ absurd (cc (rw off at (rw size at h)))
        | inl digits ↦ length-hex_bytes hex vs n (rw digits at (rw size at h)) (ground arith)
      ]
    ]

pub length-be16 : (v : ℕ) → length (be16 v) ≡ 2
unfolding be16
length-be16 v = refl

pub length-be32 : (v : ℕ) → length (be32 v) ≡ 4
unfolding be32
length-be32 v = refl

as_specific-HasLength :
    (subtype : ℕ) (s : Bytes) {vs : Bytes} → as_specific subtype s ≡ ok vs → HasLength 8 vs
unfolding as_specific be16 be32
as_specific-HasLength subtype s h =
    let ((admin, value), cut, h₁) = >>=-ok (ok_or (split_once b':' s) bad_ext_community) _ h in
    let (a, e₁, h₂) = >>=-ok (ok_or (parse_u32 admin) bad_ext_community) _ h₁ in
    elim (Bool-cases (leb a 65535)) [
      | inl short ↦
          let (v, e₂, h₃) = >>=-ok (ok_or (parse_u32 value) bad_ext_community) _ (rw short at h₂) in
          ground arith
      | inr long ↦
          let (v, e₂, h₃) = >>=-ok (ok_or (parse_u16 value) bad_ext_community) _ (rw long at h₂) in
          ground arith
    ]

ext_of-HasLength :
    (lower : Bytes) (o : Option (ℕ × Bytes)) {vs : Bytes}
    → elim o [
      | some (subtype, rest) ↦ as_specific subtype rest
      | none ↦ raw_community 8 bad_ext_community lower
    ]
      ≡ ok vs
    → HasLength 8 vs
ext_of-HasLength lower none h = raw_community-HasLength 8 bad_ext_community lower h
ext_of-HasLength lower (some (subtype, rest)) h = as_specific-HasLength subtype rest h

pub parse_ext_community-HasLength : (s vs : Bytes) → parse_ext_community s ≡ ok vs → HasLength 8 vs
unfolding parse_ext_community
parse_ext_community-HasLength s vs h =
    ext_of-HasLength (to_ascii_lowercase s) (typed (to_ascii_lowercase s)) h

ipv6_specific-HasLength :
    (subtype : ℕ) (s : Bytes) {vs : Bytes} → ipv6_specific subtype s ≡ ok vs → HasLength 20 vs
unfolding ipv6_specific
ipv6_specific-HasLength subtype s h =
    let ((addr, local), cut, h₁) = >>=-ok (ok_or (rsplit_once b':' s) bad_ipv6_ext_community) _ h in
    let (ip, e₁, h₂) = >>=-ok (ok_or (parse_ipv6 addr) bad_ipv6_ext_community) _ h₁ in
    let (l, e₂, h₃) = >>=-ok (ok_or (parse_u16 local) bad_ipv6_ext_community) _ h₂ in
    ground (
      arith,
      length-append ip (be16 l),
      length-parse_ipv6 addr (ok_or-ok (parse_ipv6 addr) bad_ipv6_ext_community e₁),
      length-be16 l,
    )

ipv6_ext_of-HasLength :
    (lower : Bytes) (o : Option (ℕ × Bytes)) {vs : Bytes}
    → elim o [
      | some (subtype, rest) ↦ ipv6_specific subtype rest
      | none ↦ raw_community 20 bad_ipv6_ext_community lower
    ]
      ≡ ok vs
    → HasLength 20 vs
ipv6_ext_of-HasLength lower none h = raw_community-HasLength 20 bad_ipv6_ext_community lower h
ipv6_ext_of-HasLength lower (some (subtype, rest)) h = ipv6_specific-HasLength subtype rest h

pub parse_ipv6_ext_community-HasLength :
    (s vs : Bytes) → parse_ipv6_ext_community s ≡ ok vs → HasLength 20 vs
unfolding parse_ipv6_ext_community
parse_ipv6_ext_community-HasLength s vs h =
    ipv6_ext_of-HasLength (to_ascii_lowercase s) (typed (to_ascii_lowercase s)) h
