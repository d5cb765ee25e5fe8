-- ===== src/Pipeline.antt =====
-- internal/pipeline: what stands between the stream and the sinks.
pub mod Meter
pub mod Tee
