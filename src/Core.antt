-- ===== src/Core.antt =====
-- crates/latte-core: the protocol types and the pure state model.
pub mod Protocol
pub mod Turn
pub mod Profile
pub mod Session
