-- ===== src/Records/TableDump.antt =====
-- TABLE_DUMP and TABLE_DUMP_V2 records of src/records.rs.
pub mod Peers
pub mod Rib
pub mod Generic
use mrtgen.Base.{
  ℕ, [], ◌∷◌, List, Bool, true, false, Option, none, some, Bytes, as_u16, length, bit_or, ◌==◌,
  unwrap_or, if◌then◌else◌,
}
use mrtgen.Types
use mrtgen.Writer
use mrtgen.Writer.{MrtRecord}
use mrtgen.Writer.Buf.{Buf, new, ◌▷◌, u8, u16, u32, bytes, into_vec, each}

pub record Peer : Type 0 where
  pub bgp_id : Bytes
  -- 4 or 16 bytes
  pub ip : Bytes
  pub asn : ℕ
  pub as4 : Bool

-- `t |= 0x02` under one test, `t |= 0x01` under the other
unfoldable pub peer_type : Peer → ℕ
peer_type p =
    let t : ℕ = if p.as4 then bit_or 0 0x02 else 0 in if length p.ip == 16 then bit_or t 0x01 else t

unfoldable pub encode_peer : Peer → Buf → Buf
encode_peer p b =
    let b' = b ▷ u8 (peer_type p) ▷ bytes p.bgp_id ▷ bytes p.ip in
    if p.as4 then b' ▷ u32 p.asn else b' ▷ u16 (as_u16 p.asn)

unfoldable pub peer_index_table : ℕ → Bytes → Bytes → List Peer → MrtRecord
peer_index_table timestamp collector_id view_name peers =
    let b =
      new
      ▷ bytes collector_id
      ▷ u16 (as_u16 (length view_name))
      ▷ bytes view_name
      ▷ u16 (as_u16 (length peers)) in
    Writer.new timestamp Types.table_dump_v2 Types.peer_index_table
      (into_vec (each encode_peer peers b))

pub record RibEntry : Type 0 where
  pub peer_index : ℕ
  pub originated_time : ℕ
  -- of the `_ADDPATH` subtypes
  pub path_id : Option ℕ
  -- concatenated path attributes
  pub attributes : Bytes
  pub declared_attr_len : Option ℕ

abbrev pub new_entry : ℕ → ℕ → Bytes → RibEntry
new_entry peer_index originated_time attributes = record {
  peer_index = peer_index;
  originated_time = originated_time;
  path_id = none;
  attributes = attributes;
  declared_attr_len = none;
}

-- `if let Some(id) = path_id { b.u32(id); }`
abbrev pub push_path_id : Option ℕ → Buf → Buf
push_path_id none b = b
push_path_id (some id) b = b ▷ u32 id

unfoldable pub encode_entry : RibEntry → Buf → Buf
encode_entry e b =
    b
    ▷ u16 e.peer_index
    ▷ u32 e.originated_time
    ▷ push_path_id e.path_id
    ▷ u16 (unwrap_or e.declared_attr_len (as_u16 (length e.attributes)))
    ▷ bytes e.attributes

unfoldable pub rib_afi_safi : ℕ → ℕ → ℕ → Bytes → List RibEntry → MrtRecord
rib_afi_safi timestamp subtype sequence nlri_prefix entries =
    let b = new ▷ u32 sequence ▷ bytes nlri_prefix ▷ u16 (as_u16 (length entries)) in
    Writer.new timestamp Types.table_dump_v2 subtype (into_vec (each encode_entry entries b))

unfoldable pub rib_generic : ℕ → ℕ → ℕ → ℕ → ℕ → Bytes → List RibEntry → MrtRecord
rib_generic timestamp subtype sequence afi safi nlri entries =
    let b = new ▷ u32 sequence ▷ u16 afi ▷ u8 safi ▷ bytes nlri ▷ u16 (as_u16 (length entries)) in
    Writer.new timestamp Types.table_dump_v2 subtype (into_vec (each encode_entry entries b))

-- The fields of a legacy TABLE_DUMP record, in the order of the arguments of `table_dump`.
pub record TableDump : Type 0 where
  pub view : ℕ
  pub sequence : ℕ
  pub prefix : Bytes
  pub prefix_len : ℕ
  pub originated : ℕ
  pub peer_ip : Bytes
  pub peer_as : ℕ
  pub attributes : Bytes

-- The status byte is 1.
unfoldable pub table_dump : ℕ → ℕ → TableDump → MrtRecord
table_dump timestamp subtype t = Writer.new timestamp Types.table_dump subtype (
    into_vec (
      new
      ▷ u16 t.view
      ▷ u16 t.sequence
      ▷ bytes t.prefix
      ▷ u8 t.prefix_len
      ▷ u8 1
      ▷ u32 t.originated
      ▷ bytes t.peer_ip
      ▷ u16 t.peer_as
      ▷ u16 (as_u16 (length t.attributes))
      ▷ bytes t.attributes))
