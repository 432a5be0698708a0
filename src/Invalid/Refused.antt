-- ===== src/Invalid/Refused.antt =====
-- The malformed messages of src/invalid.rs, as a reader of the protocol sees them: the session can be read
-- and the message is refused.
use mrtgen.Base.{
  ℕ, ◌+◌, length-replicate, ◌<◌, ◌≡◌, ◌≢◌, refl, [], none, some, arith, Bytes, IsU16, replicate,
  append-nil, inl, inr, leb, ◌&&◌, false, Bool-cases, ◌≤◌, ◌-◌, length, append_assoc,
}
use mrtgen.Types
use mrtgen.Wire.{read_u16-be16, read_bytes_short, read_bytes, read_u8}
use mrtgen.Writer.{MrtRecord}
use mrtgen.Bgp.Attr.{attribute_declared}
use mrtgen.Bgp.Attr.Walk.{read_attrs, read_attrs_overrun}
use mrtgen.Bgp.Message.{bgp_message_raw, bgp_update, update_payload}
use mrtgen.Bgp.Message.Reading.{
  read_message, read_update, read_message-bgp_update, length-bgp_update,
}
use mrtgen.Records.Bgp4mp.Reading.{read_session, IsSession, read_session-bgp4mp_message}
use mrtgen.Invalid.Messages.{
  message_session, in_message, bgp4mp_bad_bgp_length, bgp4mp_bad_marker, bgp4mp_attr_overrun,
}

-- The session of a record is read, and the message behind it is refused.
abbrev IsRefused : MrtRecord → Type 0
IsRefused r =
    (message : Bytes) × (read_session false r.body ≡ some (message_session, message))
    × (read_message message ≡ none)

message_session-IsSession : IsSession false message_session
message_session-IsSession = record {
  peer_fits = omega arith;
  local_fits = omega arith;
  ifindex_fits = omega arith;
  peer_size = inl refl;
  same_size = refl;
}

in_message-IsRefused :
    (timestamp : ℕ) (message : Bytes)
    → read_message message ≡ none
    → IsRefused (in_message timestamp message)
unfolding in_message
in_message-IsRefused timestamp message h = (
  message,
  (read_session-bgp4mp_message timestamp Types.bgp4mp Types.bgp4mp_message none message_session
      message message_session-IsSession).0,
  h,
)

read_message_wrong_length :
    (declared msg_type : ℕ)
    → IsU16 declared
    → declared ≢ 19
    → read_message (bgp_message_raw (replicate 16 0xff) declared msg_type []) ≡ none
unfolding bgp_message_raw read_message read_bytes read_u8
read_message_wrong_length declared msg_type h wrong = simp append_assoc (
    rw (read_u16-be16 declared _ h) (elim (Bool-cases (leb 19 declared && leb declared 4096)) [
      | inl e ↦ rw e (rw (read_bytes_short (declared - 19) [] (ground arith)))
      | inr e ↦ rw e refl
    ]))

-- In the record with a wrong BGP length the session is read and the BGP message is refused, for
-- every declared length that fits 16 bits and is not the true one, 19.
bgp4mp_bad_bgp_length-IsRefused :
    (timestamp declared : ℕ)
    → IsU16 declared
    → declared ≢ 19
    → IsRefused (bgp4mp_bad_bgp_length timestamp declared)
unfolding bgp4mp_bad_bgp_length
bgp4mp_bad_bgp_length-IsRefused timestamp declared h wrong =
    in_message-IsRefused timestamp _
      (read_message_wrong_length declared Types.bgp_keepalive h wrong)

bgp4mp_bad_marker-IsRefused : (timestamp : ℕ) → IsRefused (bgp4mp_bad_marker timestamp)
unfolding bgp4mp_bad_marker bgp_message_raw read_message read_bytes
bgp4mp_bad_marker-IsRefused timestamp = in_message-IsRefused timestamp _ refl

length-overrun :
    (declared actual : ℕ)
    → length (
        attribute_declared Types.flag_optional Types.attr_multi_exit_disc declared
          (replicate actual 0x55))
      ≡ 3 + actual
unfolding attribute_declared
length-overrun declared actual = omega (arith, length-replicate {A = ℕ} actual 0x55)

-- In the record whose attribute declares more bytes than follow, if the declared length is
-- below 256, the session, the message and the frame of the UPDATE are read, and only the walk
-- of its attributes fails.
pub bgp4mp_attr_overrun-refused :
    (timestamp declared actual : ℕ)
    → declared < 256
    → actual < declared
    → (message : Bytes) × (payload : Bytes) × (attrs : Bytes) × (read_session false
          (bgp4mp_attr_overrun timestamp declared actual).body
        ≡ some (message_session, message))
      × (read_message message ≡ some (Types.bgp_update, payload, []))
      × (read_update payload ≡ some ([], attrs, []))
      × (read_attrs attrs ≡ none)
unfolding bgp4mp_attr_overrun in_message
bgp4mp_attr_overrun-refused timestamp declared actual small few =
    let value = replicate actual 0x55 in
    let attrs = attribute_declared Types.flag_optional Types.attr_multi_exit_disc declared value in
    let size = length-overrun declared actual in
    let count = length-replicate {A = ℕ} actual 0x55 in
    let whole : length (bgp_update [] attrs []) ≤ 4096 =
      omega (arith, length-bgp_update [] attrs [], size) in
    let (outer, inner) = read_message-bgp_update [] attrs [] [] whole in
    (
      bgp_update [] attrs [],
      update_payload [] attrs [],
      attrs,
      (read_session-bgp4mp_message timestamp Types.bgp4mp Types.bgp4mp_message none message_session
          (bgp_update [] attrs []) message_session-IsSession).0,
      rw (append-nil (bgp_update [] attrs [])) at outer,
      inner,
      read_attrs_overrun [] Types.flag_optional Types.attr_multi_exit_disc declared value tt
          (omega arith) (λ e. omega arith) (omega arith),
    )
