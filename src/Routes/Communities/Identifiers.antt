-- ===== src/Routes/Communities/Identifiers.antt =====
-- The Route Distinguishers, redirect targets, aggregators, router ids and large communities that
-- src/routes.rs accepts, as their encoders take them.
use Prim.Native.String.{String}
use mrtgen.Base.{
  ℕ, ◌≡◌, refl, ◌++◌, [], ◌∷◌, List, Option, arith, Bytes, leb, if◌then◌else◌, length,
  length-append, subst, be16, be32, as_u16, as_u32, IsU32, Bool-cases, Option-cases, inl, inr,
}
use mrtgen.Text.{split_once, split, parse_u16, parse_u32, parse_u64}
use mrtgen.Text.Address.{parse_ipv4}
use mrtgen.Text.Address.Lengths.{length-parse_ipv4}
use mrtgen.Bgp.Nlri.{rd_type0, rd_type1, rd_type2}
use mrtgen.Bgp.Attr.{LargeCommunity}
use mrtgen.Bgp.Attr.Meanings.Lists.{HasLength, IsLarge}
use mrtgen.Routes.Communities.{
  assigned, parse_rd, parse_aggregator, parse_router_id, three_parts, parse_large_community,
  redirect_community,
}
use mrtgen.Outcome.{
  Error, bad_rd, bad_aggregator, bad_large_community, bad_redirect, bad_router_id, Outcome, ok, err,
  ok_or, ok_or-ok, ok-injective, >>=-ok,
}
use mrtgen.Routes.Communities.Sizes.{parse_u32_bound, length-be16}

assigned-HasLength :
    (k : ℕ) (number : Option ℕ) (e : Error) (encode : ℕ → Bytes) {vs : Bytes}
    → ((n : ℕ) → HasLength k (encode n))
    → assigned number e encode ≡ ok vs
    → HasLength k vs
assigned-HasLength k number e encode sized h =
    let (n, found, made) = >>=-ok (ok_or number e) _ h in ground (arith, sized n)

-- The administrator of an AS number picks the form by its size.
by_size-HasLength :
    (a : ℕ) (short long : Outcome Bytes) (e : Error) {vs : Bytes}
    → (short ≡ ok vs → HasLength 8 vs)
    → (long ≡ ok vs → HasLength 8 vs)
    → (if leb a 65535 then short else if leb a 4294967295 then long else err e) ≡ ok vs
    → HasLength 8 vs
by_size-HasLength a short long e hs hl h = elim (Bool-cases (leb a 65535)) [
  | inl small ↦ hs (rw small at h)
  | inr wide ↦ elim (Bool-cases (leb a 4294967295)) [
    | inl fits ↦ hl (rw fits at (rw wide at h))
    | inr over ↦ absurd (cc (rw over at (rw wide at h)))
  ]
]

length-rd_type1 : (ip : Bytes) (n : ℕ) → length ip ≡ 4 → HasLength 8 (rd_type1 ip n)
unfolding rd_type1 be16
length-rd_type1 ip n h = omega (arith, length-append ip (be16 n))

length-rd_type0 : (a n : ℕ) → HasLength 8 (rd_type0 a n)
unfolding rd_type0 be16 be32
length-rd_type0 a n = refl

length-rd_type2 : (a n : ℕ) → HasLength 8 (rd_type2 a n)
unfolding rd_type2 be16 be32
length-rd_type2 a n = refl

pub parse_rd-HasLength : (s vs : Bytes) → parse_rd s ≡ ok vs → HasLength 8 vs
unfolding parse_rd
parse_rd-HasLength s vs h =
    let ((admin, number), cut, h₁) = >>=-ok (ok_or (split_once b':' s) bad_rd) _ h in
    elim (Option-cases (parse_ipv4 admin)) [
      | inr (ip, e) ↦
          assigned-HasLength 8 (parse_u16 number) bad_rd (rd_type1 ip)
            (λ n. length-rd_type1 ip n (length-parse_ipv4 admin e)) (rw e at h₁)
      | inl absent ↦
          let (a, e₂, h₂) = >>=-ok (ok_or (parse_u64 admin) bad_rd) _ (rw absent at h₁) in
          by_size-HasLength a (assigned (parse_u32 number) bad_rd (rd_type0 (as_u16 a)))
            (assigned (parse_u16 number) bad_rd (rd_type2 (as_u32 a))) bad_rd
            (assigned-HasLength 8 (parse_u32 number) bad_rd (rd_type0 (as_u16 a))
              (length-rd_type0 (as_u16 a)))
            (assigned-HasLength 8 (parse_u16 number) bad_rd (rd_type2 (as_u32 a))
              (length-rd_type2 (as_u32 a)))
            h₂
    ]

abbrev redirect_v4 : Bytes → ℕ → Bytes
redirect_v4 ip n = (0x81 ∷ 0x08 ∷ []) ++ (ip ++ be16 n)

abbrev redirect_short : ℕ → ℕ → Bytes
redirect_short a n = (0x80 ∷ 0x08 ∷ []) ++ (be16 a ++ be32 n)

abbrev redirect_long : ℕ → ℕ → Bytes
redirect_long a n = (0x82 ∷ 0x08 ∷ []) ++ (be32 a ++ be16 n)

length-redirect_v4 : (ip : Bytes) (n : ℕ) → length ip ≡ 4 → HasLength 8 (redirect_v4 ip n)
length-redirect_v4 ip n h = omega (arith, length-append ip (be16 n), length-be16 n)

length-redirect_short : (a n : ℕ) → HasLength 8 (redirect_short a n)
unfolding be16 be32
length-redirect_short a n = refl

length-redirect_long : (a n : ℕ) → HasLength 8 (redirect_long a n)
unfolding be16 be32
length-redirect_long a n = refl

pub redirect_community-HasLength :
    (s : Bytes) {vs : Bytes} → redirect_community s ≡ ok vs → HasLength 8 vs
unfolding redirect_community
redirect_community-HasLength s h =
    let ((admin, number), cut, h₁) = >>=-ok (ok_or (split_once b':' s) bad_redirect) _ h in
    elim (Option-cases (parse_ipv4 admin)) [
      | inr (ip, e) ↦
          assigned-HasLength 8 (parse_u16 number) bad_redirect (redirect_v4 ip)
            (λ n. length-redirect_v4 ip n (length-parse_ipv4 admin e)) (rw e at h₁)
      | inl absent ↦
          let (a, e₂, h₂) = >>=-ok (ok_or (parse_u64 admin) bad_redirect) _ (rw absent at h₁) in
          by_size-HasLength a (assigned (parse_u32 number) bad_redirect (redirect_short (as_u16 a)))
            (assigned (parse_u16 number) bad_redirect (redirect_long (as_u32 a))) bad_redirect
            (assigned-HasLength 8 (parse_u32 number) bad_redirect (redirect_short (as_u16 a))
              (length-redirect_short (as_u16 a)))
            (assigned-HasLength 8 (parse_u16 number) bad_redirect (redirect_long (as_u32 a))
              (length-redirect_long (as_u32 a)))
            h₂
    ]

-- An AS number and an address of four octets.
abbrev pub IsAggregator : ℕ × Bytes → Type 0
IsAggregator (asn, ip) = IsU32 asn × HasLength 4 ip

pub parse_aggregator-IsAggregator :
    (s : Bytes) (v : ℕ × Bytes) → parse_aggregator s ≡ ok v → IsAggregator v
unfolding parse_aggregator
parse_aggregator-IsAggregator s v h =
    let ((asn, ip), cut, h₁) = >>=-ok (ok_or (split_once b':' s) bad_aggregator) _ h in
    let (a, e₁, h₂) = >>=-ok (ok_or (parse_u32 asn) bad_aggregator) _ h₁ in
    let (i, e₂, made) = >>=-ok (ok_or (parse_ipv4 ip) bad_aggregator) _ h₂ in
    subst IsAggregator (ok-injective made) (
      parse_u32_bound asn bad_aggregator e₁,
      length-parse_ipv4 ip (ok_or-ok (parse_ipv4 ip) bad_aggregator e₂),
    )

pub parse_router_id-HasLength :
    (what : String) (s vs : Bytes) → parse_router_id s what ≡ ok vs → HasLength 4 vs
unfolding parse_router_id
parse_router_id-HasLength what s vs h =
    length-parse_ipv4 s (ok_or-ok (parse_ipv4 s) (bad_router_id what) h)

three_parts-IsLarge :
    (parts : List Bytes) (v : LargeCommunity) → three_parts parts ≡ ok v → IsLarge v
three_parts-IsLarge [] v h = cc
three_parts-IsLarge (a ∷ []) v h = cc
three_parts-IsLarge (a ∷ b ∷ []) v h = cc
three_parts-IsLarge (a ∷ b ∷ c ∷ d ∷ rest) v h = cc
three_parts-IsLarge (a ∷ b ∷ c ∷ []) v h =
    let (a', e₁, h₁) = >>=-ok (ok_or (parse_u32 a) bad_large_community) _ h in
    let (b', e₂, h₂) = >>=-ok (ok_or (parse_u32 b) bad_large_community) _ h₁ in
    let (c', e₃, made) = >>=-ok (ok_or (parse_u32 c) bad_large_community) _ h₂ in
    subst IsLarge (ok-injective made) (
      parse_u32_bound a bad_large_community e₁,
      parse_u32_bound b bad_large_community e₂,
      parse_u32_bound c bad_large_community e₃,
    )

pub parse_large_community-IsLarge :
    (s : Bytes) (v : LargeCommunity) → parse_large_community s ≡ ok v → IsLarge v
unfolding parse_large_community
parse_large_community-IsLarge s v h = three_parts-IsLarge (split b':' s) v h
