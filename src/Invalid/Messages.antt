-- ===== src/Invalid/Messages.antt =====
-- The malformed BGP4MP records of src/invalid.rs, other than those of the attribute errors. `none` is a
-- panic of the NLRI encoder.
use mrtgen.Base.{ℕ, [], ◌∷◌, ◌++◌, Option, none, some, Bytes, replicate, ◌==◌, if◌then◌else◌}
use mrtgen.Types
use mrtgen.Wire.{◌>>=◌}
use mrtgen.Writer.{MrtRecord, new}
use mrtgen.Bgp.Attr.{attr_origin, attribute_declared}
use mrtgen.Bgp.Nlri.{nlri_v4, slice_to}
use mrtgen.Bgp.Message.{bgp_message_raw, bgp_update, bgp_keepalive}
use mrtgen.Records.Bgp4mp.{Session, bgp4mp_message}

unfoldable pub unknown_mrt_type : ℕ → ℕ → MrtRecord
unknown_mrt_type timestamp mrt_type = new timestamp mrt_type 0 (0xDE ∷ 0xAD ∷ 0xBE ∷ 0xEF ∷ [])

unfoldable pub unknown_subtype : ℕ → ℕ → ℕ → MrtRecord
unknown_subtype timestamp mrt_type subtype =
    new timestamp mrt_type subtype (0xCA ∷ 0xFE ∷ 0xBA ∷ 0xBE ∷ [])

-- The session of every malformed message.
abbrev pub message_session : Session
message_session = record {
  peer_as = 64500;
  local_as = 64501;
  ifindex = 1;
  peer_ip = 192 ∷ 0 ∷ 2 ∷ 1 ∷ [];
  local_ip = 192 ∷ 0 ∷ 2 ∷ 2 ∷ [];
}

-- The last line of each `bgp4mp_` function.
unfoldable pub in_message : ℕ → Bytes → MrtRecord
in_message timestamp message =
    bgp4mp_message timestamp Types.bgp4mp none Types.bgp4mp_message message_session message

unfoldable pub nlri24 : Option Bytes
nlri24 = nlri_v4 (198 ∷ 51 ∷ 100 ∷ 0 ∷ []) 24

unfoldable pub bgp4mp_wrong_attr_size : ℕ → ℕ → ℕ → ℕ → Option MrtRecord
bgp4mp_wrong_attr_size timestamp attr_flags attr_code declared_len = do
  let value = replicate declared_len 0xAB
  let attrs =
      (if attr_code == Types.attr_origin then [] else attr_origin 0)
      ++ attribute_declared attr_flags attr_code declared_len value
  nlri ← nlri24
  some (in_message timestamp (bgp_update [] attrs nlri))

unfoldable pub bgp4mp_duplicate_origin_bad_len : ℕ → Option MrtRecord
bgp4mp_duplicate_origin_bad_len timestamp = do
  let attrs =
      attr_origin 0
      ++ attribute_declared Types.flag_transitive Types.attr_origin 4 (replicate 4 0xAB)
  nlri ← nlri24
  some (in_message timestamp (bgp_update [] attrs nlri))

unfoldable pub bgp4mp_attr_overrun : ℕ → ℕ → ℕ → MrtRecord
bgp4mp_attr_overrun timestamp declared_len actual_len =
    let value = replicate actual_len 0x55 in
    let attrs =
      attribute_declared Types.flag_optional Types.attr_multi_exit_disc declared_len value in
    in_message timestamp (bgp_update [] attrs [])

-- `marker[7] = 0x00` in sixteen bytes of ones
abbrev bad_marker : Bytes
bad_marker = replicate 7 0xff ++ (0 ∷ replicate 8 0xff)

unfoldable pub bgp4mp_bad_marker : ℕ → MrtRecord
bgp4mp_bad_marker timestamp =
    in_message timestamp (bgp_message_raw bad_marker 19 Types.bgp_keepalive [])

unfoldable pub bgp4mp_bad_bgp_length : ℕ → ℕ → MrtRecord
bgp4mp_bad_bgp_length timestamp declared =
    in_message timestamp (bgp_message_raw (replicate 16 0xff) declared Types.bgp_keepalive [])

unfoldable pub bgp4mp_truncated_bgp : ℕ → Option MrtRecord
bgp4mp_truncated_bgp timestamp = do cut ← slice_to bgp_keepalive 10; some (in_message timestamp cut)

unfoldable pub bgp4mp_empty_body : ℕ → MrtRecord
bgp4mp_empty_body timestamp = new timestamp Types.bgp4mp Types.bgp4mp_message []

unfoldable pub bgp4mp_et_short : ℕ → MrtRecord
bgp4mp_et_short timestamp = new timestamp Types.bgp4mp_et Types.bgp4mp_message (0 ∷ 0 ∷ [])
