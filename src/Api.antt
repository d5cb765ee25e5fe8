-- ===== src/Api.antt =====
-- internal/api: the HTTP handlers' own logic.
pub mod Issues
pub mod Cache
pub mod Page
