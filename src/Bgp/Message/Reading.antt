-- ===== src/Bgp/Message/Reading.antt =====
-- BGP messages read back: the header of RFC 4271 section 4.1 with its checks, and the three parts of
-- an UPDATE (section 4.3).
use mrtgen.Base.{
  ℕ, ◌+◌, ◌-◌, ◌≤◌, ◌≡◌, ◌++◌, ◌∷◌, [], Bool, true, false, ◌&&◌, Option, none, some, arith, Bytes,
  IsU16, as_u16, length, length-append, append_assoc, be16, leb, ◌==◌,
}
use native.Mathlib.Nat.{mod-eq_of_lt}
use mrtgen.Types
use mrtgen.Wire.{◌>>=◌, ◌>>◌, read_u8, read_u16, read_bytes, read_u16-be16, read_bytes-append}
use mrtgen.Bgp.Message.{bgp_message_raw, bgp_message, update_payload, bgp_update}

abbrev all_ones : Bytes → Bool
all_ones [] = true
all_ones (b ∷ bs) = b == 0xff && all_ones bs

abbrev guard : Bool → Option (Unit {0})
guard true = some tt
guard false = none

-- The marker is all ones and the length lies in 19 to 4096; else the message is refused.
unfoldable pub read_message : Bytes → Option (ℕ × Bytes × Bytes)
read_message bs = do
  (marker, bs₁) ← read_bytes 16 bs
  guard (all_ones marker)
  (len, bs₂) ← read_u16 bs₁
  guard (leb 19 len && leb len 4096)
  (msg_type, bs₃) ← read_u8 bs₂
  (payload, rest) ← read_bytes (len - 19) bs₃
  some (msg_type, payload, rest)

-- Withdrawn routes, path attributes, NLRI.
unfoldable pub read_update : Bytes → Option (Bytes × Bytes × Bytes)
read_update bs = do
  (withdrawn_len, bs₁) ← read_u16 bs
  (withdrawn, bs₂) ← read_bytes withdrawn_len bs₁
  (attrs_len, bs₃) ← read_u16 bs₂
  (attrs, nlri) ← read_bytes attrs_len bs₃
  some (withdrawn, attrs, nlri)

length-bgp_message :
    (msg_type : ℕ) (payload : Bytes) → length (bgp_message msg_type payload) ≡ 19 + length payload
unfolding bgp_message bgp_message_raw be16
length-bgp_message msg_type payload = omega arith

-- A message within the size limit is read back with its type and payload, whatever follows it.
read_message-bgp_message :
    (msg_type : ℕ) (payload rest : Bytes)
    → length (bgp_message msg_type payload) ≤ 4096
    → read_message (bgp_message msg_type payload ++ rest) ≡ some (msg_type, payload, rest)
unfolding bgp_message bgp_message_raw read_message read_bytes read_u8
read_message-bgp_message msg_type payload rest h =
    let n = length payload in
    let fits : 19 + n ≤ 4096 = omega (arith, length-bgp_message msg_type payload) in
    simp append_assoc (
      rw (mod-eq_of_lt (below n fits)) (
        rw (read_u16-be16 (19 + n) _ (below n fits))
          (rw (in_range n fits) (rw (payload_size n) (rw (read_bytes-append payload rest))))))
  where
    below : (n : ℕ) → 19 + n ≤ 4096 → IsU16 (19 + n)
    below n h = omega arith

    in_range : (n : ℕ) → 19 + n ≤ 4096 → (leb 19 (19 + n) && leb (19 + n) 4096) ≡ true
    in_range n h = ground arith

    payload_size : (n : ℕ) → 19 + n - 19 ≡ n
    payload_size n = omega arith

length-update_payload :
    (withdrawn attrs nlri : Bytes)
    → length (update_payload withdrawn attrs nlri)
      ≡ 4 + length withdrawn + length attrs + length nlri
unfolding update_payload be16
length-update_payload withdrawn attrs nlri = simp append_assoc (
    omega (
      arith,
      length-append withdrawn (be16 (as_u16 (length attrs)) ++ (attrs ++ nlri)),
      length-append attrs nlri,
    ))

read_update-update_payload :
    (withdrawn attrs nlri : Bytes)
    → IsU16 (length withdrawn)
    → IsU16 (length attrs)
    → read_update (update_payload withdrawn attrs nlri) ≡ some (withdrawn, attrs, nlri)
unfolding update_payload read_update
read_update-update_payload withdrawn attrs nlri hw ha = simp append_assoc (
    rw (mod-eq_of_lt hw) (
      rw (mod-eq_of_lt ha) (
        rw (read_u16-be16 (length withdrawn) _ hw) (
          rw (read_bytes-append withdrawn _)
            (rw (read_u16-be16 (length attrs) _ ha) (rw (read_bytes-append attrs nlri)))))))

pub length-bgp_update :
    (withdrawn attrs nlri : Bytes)
    → length (bgp_update withdrawn attrs nlri) ≡ 23 + length withdrawn + length attrs + length nlri
unfolding bgp_update
length-bgp_update withdrawn attrs nlri = omega (
  arith,
  length-bgp_message Types.bgp_update (update_payload withdrawn attrs nlri),
  length-update_payload withdrawn attrs nlri,
)

-- An UPDATE of at most 4096 bytes is read back as one message of its type with the bytes behind
-- it left, and its payload splits into exactly the withdrawn routes, the attributes and the
-- NLRI.
pub read_message-bgp_update :
    (withdrawn attrs nlri rest : Bytes)
    → length (bgp_update withdrawn attrs nlri) ≤ 4096
    → (read_message (bgp_update withdrawn attrs nlri ++ rest)
        ≡ some (Types.bgp_update, update_payload withdrawn attrs nlri, rest))
      × (read_update (update_payload withdrawn attrs nlri) ≡ some (withdrawn, attrs, nlri))
unfolding bgp_update
read_message-bgp_update withdrawn attrs nlri rest h =
    let size : 23 + length withdrawn + length attrs + length nlri ≤ 4096 = omega (
      arith,
      length-bgp_message Types.bgp_update (update_payload withdrawn attrs nlri),
      length-update_payload withdrawn attrs nlri,
    ) in
    (
      read_message-bgp_message Types.bgp_update (update_payload withdrawn attrs nlri) rest h,
      read_update-update_payload withdrawn attrs nlri (omega arith) (omega arith),
    )
