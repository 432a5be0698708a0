-- ===== src/Routes.antt =====
-- src/routes.rs: the route-list mode.
pub mod Prefix
pub mod Communities
pub mod Spec
pub mod Parse
pub mod Attrs
pub mod Rib
pub mod Announced
pub mod Update
pub mod Generate
pub mod Hex
