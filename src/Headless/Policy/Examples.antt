-- ===== src/Headless/Policy/Examples.antt =====
-- The budget of the default profile of crates/latte-core/src/profile.rs in the session runtime.
