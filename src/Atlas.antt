-- ===== src/Atlas.antt =====
-- The client of the RIPE Atlas stream, internal/atlas/stream.go.
pub mod Stream
pub mod Subscription
pub mod Probes
