-- ===== src/Bgp.antt =====
-- src/bgp.rs: path attributes, NLRI and messages of BGP.
pub mod Attr
pub mod Nlri
pub mod Message
