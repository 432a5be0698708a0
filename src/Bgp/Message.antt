-- ===== src/Bgp/Message.antt =====
-- The message encoders of src/bgp.rs.
pub mod Reading
use mrtgen.Base.{ℕ, ◌+◌, [], Bytes, as_u16, length, replicate}
use mrtgen.Types
use mrtgen.Writer.Buf.{new, ◌▷◌, u8, u16, bytes, into_vec}

unfoldable pub bgp_message_raw : Bytes → ℕ → ℕ → Bytes → Bytes
bgp_message_raw marker len msg_type payload =
    into_vec (new ▷ bytes marker ▷ u16 len ▷ u8 msg_type ▷ bytes payload)

unfoldable pub bgp_message : ℕ → Bytes → Bytes
bgp_message msg_type payload =
    bgp_message_raw (replicate 16 0xff) (as_u16 (19 + length payload)) msg_type payload

unfoldable pub update_payload : Bytes → Bytes → Bytes → Bytes
update_payload withdrawn attrs nlri = into_vec (
    new
    ▷ u16 (as_u16 (length withdrawn))
    ▷ bytes withdrawn
    ▷ u16 (as_u16 (length attrs))
    ▷ bytes attrs
    ▷ bytes nlri)

unfoldable pub bgp_update : Bytes → Bytes → Bytes → Bytes
bgp_update withdrawn attrs nlri = bgp_message Types.bgp_update (update_payload withdrawn attrs nlri)

unfoldable pub bgp_update_declared_attr_len : Bytes → ℕ → Bytes → Bytes → Bytes
bgp_update_declared_attr_len withdrawn declared_attr_len attrs nlri = bgp_message Types.bgp_update (
    into_vec (
      new
      ▷ u16 (as_u16 (length withdrawn))
      ▷ bytes withdrawn
      ▷ u16 declared_attr_len
      ▷ bytes attrs
      ▷ bytes nlri))

unfoldable pub bgp_open : ℕ → ℕ → Bytes → Bytes
bgp_open asn hold_time bgp_id =
    bgp_message Types.bgp_open
      (into_vec (new ▷ u8 4 ▷ u16 asn ▷ u16 hold_time ▷ bytes bgp_id ▷ u8 0))

unfoldable pub bgp_keepalive : Bytes
bgp_keepalive = bgp_message Types.bgp_keepalive []

unfoldable pub bgp_notification : ℕ → ℕ → Bytes → Bytes
bgp_notification code subcode contents =
    bgp_message Types.bgp_notification (into_vec (new ▷ u8 code ▷ u8 subcode ▷ bytes contents))
