-- ===== src/Engine.antt =====
-- crates/latte-engine: the durable ledger, and the policy on effects.
pub mod Ledger
pub mod Conversation
pub mod Cursor
pub mod Policy
pub mod Workspace
pub mod Tools
