-- ===== src/Tracking.antt =====
-- rust/streaming-engine/src/tracking/receiver.rs: the UDP packets that carry the headset's pose and the
-- controllers' state.
pub mod Parse
pub mod Receiver
pub mod Source
mod Tests
