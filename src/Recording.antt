-- ===== src/Recording.antt =====
-- The recordings of rust/streaming-engine/src/recording. A file is the bytes handed to it; what a write
-- meets is an argument: all is written, or so many bytes and then an error.
pub mod Annexb
pub mod Wav
mod Tests
use focus_vision_pcvr.Prelude.{ℕ, Option, none, some, List, take, ◌++◌}

-- How a write ends: whole, or after so many bytes.
abbrev pub Written : Type 0
Written = Option ℕ

-- `write_all`: the file afterwards.
abbrev pub write_all : Written → List ℕ → List ℕ → List ℕ
write_all none bytes file = file ++ bytes
write_all (some n) bytes file = file ++ take n bytes
