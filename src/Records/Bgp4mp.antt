-- ===== src/Records/Bgp4mp.antt =====
-- BGP4MP and BGP4MP_ET records of src/records.rs. `debug_assert_eq!` on the two addresses' sizes has
-- no effect in a release build and is not modelled.
pub mod Reading
use mrtgen.Base.{
  ℕ, Bool, true, false, ◌||◌, Option, none, some, Bytes, as_u16, length, ◌==◌, if◌then◌else◌,
}
use mrtgen.Types
use mrtgen.Writer
use mrtgen.Writer.{MrtRecord}
use mrtgen.Writer.Buf.{Buf, new, ◌▷◌, u16, u32, bytes, into_vec}

-- The two ends of the session that a record describes.
pub record Session : Type 0 where
  pub peer_as : ℕ
  pub local_as : ℕ
  pub ifindex : ℕ
  pub peer_ip : Bytes
  pub local_ip : Bytes

unfoldable pub bgp4mp_prelude : Session → Bool → Buf
bgp4mp_prelude s as4 =
    let afi = if length s.peer_ip == 16 then Types.bgp_afi_ipv6 else Types.bgp_afi_ipv4 in
    let b =
      if as4
      then new ▷ u32 s.peer_as ▷ u32 s.local_as
      else new ▷ u16 (as_u16 s.peer_as) ▷ u16 (as_u16 s.local_as) in
    b ▷ u16 s.ifindex ▷ u16 afi ▷ bytes s.peer_ip ▷ bytes s.local_ip

-- `matches!(subtype, ..)`
unfoldable pub message_as4 : ℕ → Bool
message_as4 subtype =
    subtype == Types.bgp4mp_message_as4
    || (subtype == Types.bgp4mp_message_as4_local
        || (subtype == Types.bgp4mp_message_as4_addpath
            || (subtype == Types.bgp4mp_message_as4_local_addpath
                || subtype == Types.bgp4mp_state_change_as4)))

-- A record of the plain or of the extended-timestamp form.
abbrev pub stamp : ℕ → ℕ → Option ℕ → ℕ → Bytes → MrtRecord
stamp timestamp mrt_type (some us) subtype body = Writer.new_et timestamp us mrt_type subtype body
stamp timestamp mrt_type none subtype body = Writer.new timestamp mrt_type subtype body

unfoldable pub bgp4mp_message : ℕ → ℕ → Option ℕ → ℕ → Session → Bytes → MrtRecord
bgp4mp_message timestamp mrt_type microsecond subtype s message =
    let b = bgp4mp_prelude s (message_as4 subtype) ▷ bytes message in
    stamp timestamp mrt_type microsecond subtype (into_vec b)

unfoldable pub bgp4mp_state_change : ℕ → ℕ → Session → ℕ → ℕ → MrtRecord
bgp4mp_state_change timestamp subtype s old_state new_state =
    let as4 = subtype == Types.bgp4mp_state_change_as4 in
    let b = bgp4mp_prelude s as4 ▷ u16 old_state ▷ u16 new_state in
    Writer.new timestamp Types.bgp4mp subtype (into_vec b)
