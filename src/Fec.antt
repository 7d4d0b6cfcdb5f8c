-- ===== src/Fec.antt =====
-- rust/streaming-engine/src/transport/fec.rs: Reed-Solomon coding of one frame or slice. The codec
-- itself is the crate reed_solomon_erasure, a parameter.
pub mod Codec
pub mod Encoder
pub mod Masks
pub mod Cache
pub mod CodeWord
pub mod Copies
mod Tests
