-- ===== src/Control.antt =====
-- The control channel: PIN pairing, the reconnect counters, message framing and the handshake.
pub mod Pairing
pub mod Reconnect
pub mod Framing
pub mod StreamConfig
pub mod Handshake
pub mod Listen
mod Tests
