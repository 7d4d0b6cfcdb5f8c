-- ===== src/Metrics.antt =====
-- What the engine measures of itself: rust/streaming-engine/src/metrics.
pub mod Latency
pub mod Memory
mod Tests
