-- ===== src/Headless.antt =====
-- crates/latte-headless: the session runtime's own logic.
pub mod Policy
pub mod Request
pub mod Frames
pub mod Message
pub mod Fixtures
pub mod History
pub mod Elision
pub mod Compaction
