-- ===== src/Pipeline.antt =====
-- rust/streaming-engine/src/pipeline.rs: a frame to error-corrected packets, and back.
pub mod Layout
pub mod Encode
pub mod Sliced
pub mod Reassemble
pub mod Group
pub mod Collect
pub mod Delivery
pub mod Wire
pub mod Padding
pub mod LayoutLaws
pub mod CodeWord
pub mod RoundTrip
pub mod DecodePackets
mod Tests
