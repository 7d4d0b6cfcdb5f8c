-- ===== src/Engine.antt =====
-- engine.rs: the session's control connection, the adaptive state of the frame loop, and the loop that
-- accepts sessions and holds them.
mod Tests
pub mod Inbox
pub mod Haptic
pub mod FaceData
pub mod Control
pub mod Settings
pub mod Serve
pub mod Adaptive
pub mod Sessions
pub mod Sender
pub mod Frames
