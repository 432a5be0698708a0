-- ===== src/Tests.antt =====
-- Runs on concrete inputs: one for each theorem with conditions, and the cases of src/routes.rs's own
-- tests.
mod Files
mod Attributes
mod Tables
mod Flow
mod Routing
mod Decoding
mod Corpus
mod Commands
mod Damage
