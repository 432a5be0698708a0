-- ===== src/Tests/Damage.antt =====
-- The malformed records.
use mrtgen.Base.{◌≡◌, [], some, none, false, Bytes, arith}
use mrtgen.Types
use mrtgen.Bgp.Attr.Walk.{read_attrs}
use mrtgen.Bgp.Message.Reading.{read_message, read_update}
use mrtgen.Records.Bgp4mp.Reading.{read_session}
use mrtgen.Invalid.Messages.{message_session, bgp4mp_attr_overrun}
use mrtgen.Invalid.Refused.{bgp4mp_attr_overrun-refused}

bgp4mp_attr_overrun-refused_example :
    (message : Bytes) × (payload : Bytes) × (attrs : Bytes) × (read_session false
        (bgp4mp_attr_overrun 1600000000 100 4).body
      ≡ some (message_session, message))
    × (read_message message ≡ some (Types.bgp_update, payload, []))
    × (read_update payload ≡ some ([], attrs, []))
    × (read_attrs attrs ≡ none)
bgp4mp_attr_overrun-refused_example =
    bgp4mp_attr_overrun-refused 1600000000 100 4 (omega arith) (omega arith)
