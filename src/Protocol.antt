-- ===== src/Protocol.antt =====
-- rust/common/src/protocol.rs: the messages and header fields that the computer and the headset share.
pub mod Flags
pub mod FlagsLaws
pub mod Hello
pub mod FramePose
pub mod ViewConfig
pub mod Feedback
mod Tests
