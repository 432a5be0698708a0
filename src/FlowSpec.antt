-- ===== src/FlowSpec.antt =====
-- src/flowspec.rs: flow specification NLRI. A `String` of the input is the list of its UTF-8 bytes.
pub mod Hex
pub mod Numeric
pub mod Bitmask
pub mod Encode
