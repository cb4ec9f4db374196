-- ===== src/Tui.antt =====
-- crates/latte-tui: the command catalog of the terminal interface.
pub mod Command
