-- ===== src/Adaptive.antt =====
-- The bitrate control: what decides the encoder's target, and the controller that keeps it.
pub mod Arbitration
pub mod Controller
pub mod Rises
pub mod Burst
pub mod Bandwidth
pub mod Gcc
pub mod FecControl
mod Tests
