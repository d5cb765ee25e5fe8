-- ===== src/Store.antt =====
-- internal/store: the ClickHouse client.
pub mod Escape
pub mod Statements
pub mod Retry
pub mod Writer
pub mod Windows
