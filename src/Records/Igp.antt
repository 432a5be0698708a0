-- ===== src/Records/Igp.antt =====
-- OSPF and IS-IS records of src/records.rs.
use mrtgen.Base.{ℕ, Option, none, some, Bytes, is_some, if◌then◌else◌}
use mrtgen.Types
use mrtgen.Writer
use mrtgen.Writer.{MrtRecord}
use mrtgen.Writer.Buf.{new, ◌▷◌, u16, bytes, into_vec}
use mrtgen.Records.Bgp4mp.{stamp}

unfoldable pub ospfv2 : ℕ → Bytes → Bytes → Bytes → MrtRecord
ospfv2 timestamp remote local ospf_pdu =
    Writer.new timestamp Types.ospfv2 0
      (into_vec (new ▷ bytes remote ▷ bytes local ▷ bytes ospf_pdu))

unfoldable pub ospfv3 : ℕ → Option ℕ → Bytes → Bytes → Bytes → MrtRecord
ospfv3 timestamp microsecond remote local ospf_pdu =
    let ty = if is_some microsecond then Types.ospfv3_et else Types.ospfv3 in
    let body =
      into_vec (new ▷ u16 Types.bgp_afi_ipv6 ▷ bytes remote ▷ bytes local ▷ bytes ospf_pdu) in
    stamp timestamp ty microsecond 0 body

unfoldable pub isis : ℕ → Option ℕ → Bytes → MrtRecord
isis timestamp (some us) pdu = Writer.new_et timestamp us Types.isis_et 0 pdu
isis timestamp none pdu = Writer.new timestamp Types.isis 0 pdu
