-- ===== src/Records.antt =====
-- src/records.rs: the builders of well-formed records.
pub mod TableDump
pub mod Bgp4mp
pub mod Igp
pub mod Attrs
