-- ===== src/Rtp.antt =====
-- rust/streaming-engine/src/transport/rtp.rs: the packet headers, the packetizer and the
-- depacketizer of the path without error correction.
pub mod Header
pub mod HeaderLaws
pub mod Packetizer
pub mod Buffers
pub mod Wire
pub mod Depacketizer
pub mod Sending
pub mod Collecting
pub mod RoundTrip
mod Tests
