-- ===== src/Invalid.antt =====
-- src/invalid.rs: the abort-class tails here, the malformed records in the child modules.
pub mod Tails
pub mod Messages
pub mod Tables
pub mod Attrs
pub mod Refused
pub mod RefusedTables
use mrtgen.Base.{ℕ, [], Option, none, some, ltb, if◌then◌else◌, Bytes, replicate, take}
use mrtgen.Types
use mrtgen.Writer.{new, encode}

unfoldable pub tail_length_overruns_eof : ℕ → ℕ → ℕ → Bytes
tail_length_overruns_eof timestamp declared actual =
    let r = new timestamp Types.bgp4mp Types.bgp4mp_message (replicate actual 0) in
    encode (record r { declared_length = some declared })

-- `none` is the panic of `assert!(keep < 12)`.
unfoldable pub tail_truncated_header : ℕ → ℕ → Option Bytes
tail_truncated_header timestamp keep =
    if ltb keep 12
    then some (take keep (encode (new timestamp Types.bgp4mp Types.bgp4mp_message [])))
    else none
