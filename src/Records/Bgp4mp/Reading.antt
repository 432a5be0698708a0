-- ===== src/Records/Bgp4mp/Reading.antt =====
-- BGP4MP bodies read back: RFC 6396 section 4.4.
use mrtgen.Base.{
  ℕ, ◌≡◌, ◌⊎◌, inl, inr, refl, ◌++◌, Bool, true, false, ◌||◌, Option, none, some, arith, Bytes,
  IsU16, IsU32, as_u16, length, ◌∙◌, append_assoc, be16, be32, ◌==◌, if◌then◌else◌,
}
use native.Mathlib.Nat.{mod-eq_of_lt}
use mrtgen.Wire.{
  ◌>>=◌, read_u16, read_u32, read_bytes, read_u16-be16, read_u32-be32, read_bytes_exact,
}
use mrtgen.Records.Bgp4mp.{Session, bgp4mp_prelude, message_as4, bgp4mp_message}

abbrev read_as : Bool → Bytes → Option (ℕ × Bytes)
read_as true bs = read_u32 bs
read_as false bs = read_u16 bs

abbrev address_size : ℕ → ℕ
address_size afi = if afi == 2 then 16 else 4

unfoldable pub read_session : Bool → Bytes → Option (Session × Bytes)
read_session as4 bs = do
  (peer_as, bs₁) ← read_as as4 bs
  (local_as, bs₂) ← read_as as4 bs₁
  (ifindex, bs₃) ← read_u16 bs₂
  (afi, bs₄) ← read_u16 bs₃
  (peer_ip, bs₅) ← read_bytes (address_size afi) bs₄
  (local_ip, rest) ← read_bytes (address_size afi) bs₅
  some (
    record {
      peer_as = peer_as;
      local_as = local_as;
      ifindex = ifindex;
      peer_ip = peer_ip;
      local_ip = local_ip;
    },
    rest,
  )

-- The AS numbers fit the size that the subtype gives them.
abbrev IsAs : Bool → ℕ → Type 0
IsAs true v = IsU32 v
IsAs false v = IsU16 v

pub record IsSession (as4 : Bool) (s : Session) : Type 0 where
  pub peer_fits : IsAs as4 s.peer_as
  pub local_fits : IsAs as4 s.local_as
  pub ifindex_fits : IsU16 s.ifindex
  pub peer_size : (length s.peer_ip ≡ 4) ⊎ (length s.peer_ip ≡ 16)
  pub same_size : length s.local_ip ≡ length s.peer_ip

abbrev as_bytes : Bool → ℕ → Bytes
as_bytes true v = be32 v
as_bytes false v = be16 (as_u16 v)

read_as-bytes :
    (as4 : Bool) (v : ℕ) (rest : Bytes)
    → IsAs as4 v
    → read_as as4 (as_bytes as4 v ++ rest) ≡ some (v, rest)
read_as-bytes true v rest h = read_u32-be32 v rest h
read_as-bytes false v rest h = rw (mod-eq_of_lt h) (read_u16-be16 v rest h)

abbrev session_afi : Session → ℕ
session_afi s = if length s.peer_ip == 16 then 2 else 1

prelude_layout :
    (s : Session) (as4 : Bool)
    → bgp4mp_prelude s as4
      ≡ as_bytes as4 s.peer_as
        ++ (as_bytes as4 s.local_as
            ++ (be16 s.ifindex ++ (be16 (session_afi s) ++ (s.peer_ip ++ s.local_ip))))
unfolding bgp4mp_prelude
prelude_layout s true = simp append_assoc
prelude_layout s false = simp append_assoc

afi_fits : (s : Session) → IsU16 (session_afi s)
afi_fits s = ground arith

afi_size :
    (s : Session)
    → (length s.peer_ip ≡ 4) ⊎ (length s.peer_ip ≡ 16)
    → length s.peer_ip ≡ address_size (session_afi s)
afi_size s (inl e) = rw e
afi_size s (inr e) = rw e

-- The common part of a body, with what follows it.
read_session-prelude :
    (s : Session) (as4 : Bool) (rest : Bytes)
    → IsSession as4 s
    → read_session as4 (bgp4mp_prelude s as4 ++ rest) ≡ some (s, rest)
unfolding read_session
read_session-prelude s as4 rest h =
    let size = afi_size s h.peer_size in
    rw (prelude_layout s as4) (
      simp append_assoc (
        rw (read_as-bytes as4 s.peer_as _ h.peer_fits) (
          rw (read_as-bytes as4 s.local_as _ h.local_fits) (
            rw (read_u16-be16 s.ifindex _ h.ifindex_fits) (
              rw (read_u16-be16 (session_afi s) _ (afi_fits s)) (
                rw (read_bytes_exact (address_size (session_afi s)) s.peer_ip _ size) (
                  rw (
                    read_bytes_exact (address_size (session_afi s)) s.local_ip rest
                      (h.same_size ∙ size)))))))))

-- Whether a subtype's AS numbers have four bytes, by RFC 6396 section 4.4 and RFC 8050 section 3.
abbrev pub is_as4_subtype : ℕ → Bool
is_as4_subtype n = n == 4 || (n == 5 || (n == 7 || (n == 9 || n == 11)))

subtype_as4 : (n : ℕ) → message_as4 n ≡ is_as4_subtype n
unfolding message_as4
subtype_as4 n = ground arith

-- A message record gives back the session and the BGP message, with AS numbers of the size that
-- its subtype stands for, and keeps the microseconds and an honest length, if the session's
-- fields fit and both addresses have the same 4 or 16 bytes.
pub read_session-bgp4mp_message :
    (timestamp mrt_type subtype : ℕ) (us : Option ℕ) (s : Session) (message : Bytes)
    → IsSession (is_as4_subtype subtype) s
    → let r = bgp4mp_message timestamp mrt_type us subtype s message in
      (read_session (is_as4_subtype subtype) r.body ≡ some (s, message))
      × (r.microsecond ≡ us)
      × (r.declared_length ≡ none)
unfolding bgp4mp_message
read_session-bgp4mp_message timestamp mrt_type subtype none s message h = (
  rw (subtype_as4 subtype) (read_session-prelude s (is_as4_subtype subtype) message h),
  refl,
  refl,
)
read_session-bgp4mp_message timestamp mrt_type subtype (some us) s message h = (
  rw (subtype_as4 subtype) (read_session-prelude s (is_as4_subtype subtype) message h),
  refl,
  refl,
)
