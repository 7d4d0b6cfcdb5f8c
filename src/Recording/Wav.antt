-- ===== src/Recording/Wav.antt =====
-- `AudioRecorder` of recording/audio.rs: samples of 16 bits in a WAV file, whose sizes are written again
-- every second. The conversion of a float is a parameter, and what the disk does.
pub mod Sizes
pub mod Runs
use focus_vision_pcvr.Prelude.{
  ℕ, zero, suc, ◌+◌, ◌-◌, ◌*◌, ◌%◌, ◌^◌, min, Bool, true, false, not, ◌&&◌, ◌||◌, Option, none,
  some, is_none, List, [], ◌∷◌, ◌++◌, length, take, drop, ltb, leb, if◌then◌else◌,
}
use focus_vision_pcvr.Prelude.Words.{to_le_bytes}
use focus_vision_pcvr.Prelude.Chunks.{chunks}
use focus_vision_pcvr.Recording.{Written, write_all}

abbrev pub max_data_bytes : ℕ
max_data_bytes = 2 ^ 32 - 1 - 36

pub record AudioRecorder : Type 0 where
  pub file : List ℕ
  pub has_writer : Bool
  pub sample_rate : ℕ
  pub channels : ℕ
  pub data_bytes : ℕ
  pub patched_bytes : ℕ
  pub max_data : ℕ
  pub poisoned : Bool

-- "RIFF", a size, "WAVE", "fmt ", 16 bytes, of which PCM, the channels, the rate, the bytes per
-- second, the bytes per frame and 16 bits; "data" and a size.
unfoldable pub header : ℕ → ℕ → ℕ → ℕ → List ℕ
header sample_rate channels riff_size data_size =
    0x52
    ∷ 0x49
    ∷ 0x46
    ∷ 0x46
    ∷ (to_le_bytes 4 riff_size
        ++ (0x57
            ∷ 0x41
            ∷ 0x56
            ∷ 0x45
            ∷ 0x66
            ∷ 0x6d
            ∷ 0x74
            ∷ 0x20
            ∷ (to_le_bytes 4 16
                ++ (to_le_bytes 2 1
                    ++ (to_le_bytes 2 channels
                        ++ (to_le_bytes 4 sample_rate
                            ++ (to_le_bytes 4 (sample_rate * channels * 2 % 2 ^ 32)
                                ++ (to_le_bytes 2 (channels * 2 % 2 ^ 16)
                                    ++ (to_le_bytes 2 16
                                        ++ (0x64
                                            ∷ 0x61
                                            ∷ 0x74
                                            ∷ 0x61
                                            ∷ to_le_bytes 4 data_size))))))))))

-- The sizes of a new file are zero; a header that cannot be written is no recording.
unfoldable pub create : Written → ℕ → ℕ → Option AudioRecorder
unfolding header
create written sample_rate channels =
    if is_none written
    then some (record {
      file = header sample_rate channels 0 0;
      has_writer = true;
      sample_rate = sample_rate;
      channels = channels;
      data_bytes = 0;
      patched_bytes = 0;
      max_data = max_data_bytes;
      poisoned = false;
    })
    else none

-- What the disk does: with the next block, by the bytes of data that are there, and with the eight
-- bytes of the two sizes, by the bytes that are there and those that the sizes last counted. No two
-- writes of a recording that has met no error agree in these.
pub record Disk : Type 0 where
  pub block : ℕ → Written
  pub sizes : ℕ → ℕ → Written

-- Bytes written over those at a position.
unfoldable pub overwrite : ℕ → List ℕ → List ℕ → List ℕ
overwrite at_byte bytes file = take at_byte file ++ (bytes ++ drop (at_byte + length bytes) file)

unfoldable pub write_sizes : Written → ℕ → ℕ → List ℕ → List ℕ
unfolding overwrite
write_sizes none riff_size data_size file =
    overwrite 40 (to_le_bytes 4 data_size) (overwrite 4 (to_le_bytes 4 riff_size) file)
write_sizes (some n) riff_size data_size file =
    overwrite 40 (take (n - 4) (to_le_bytes 4 data_size))
      (overwrite 4 (take n (to_le_bytes 4 riff_size)) file)

module _ (to_i16 : ℕ → ℕ) where
  unfoldable pub pcm : List ℕ → List ℕ
  pcm [] = []
  pcm (s ∷ samples) = to_le_bytes 2 (to_i16 s) ++ pcm samples

-- `saturating_mul`
unfoldable pub second_of : AudioRecorder → ℕ
second_of r = min (min (r.sample_rate * r.channels) (2 ^ 32 - 1) * 2) (2 ^ 32 - 1)

module _ (disk : Disk) where
  unfoldable pub patch_sizes : AudioRecorder → AudioRecorder
  unfolding write_sizes
  patch_sizes r =
      if r.has_writer
      then (let written = disk.sizes r.data_bytes r.patched_bytes in
          let file = write_sizes written ((36 + r.data_bytes) % 2 ^ 32) r.data_bytes r.file in
          if is_none written
          then record r { file = file; patched_bytes = r.data_bytes }
          else record r { file = file; poisoned = true })
      else r

  unfoldable pub close : AudioRecorder → AudioRecorder
  unfolding patch_sizes
  close r = if r.has_writer then (record (patch_sizes r) { has_writer = false }) else r

  unfoldable pub patch_if_due : AudioRecorder × Bool → AudioRecorder
  unfolding patch_sizes second_of
  patch_if_due (r, false) = r
  patch_if_due (r, true) =
      if leb (second_of r) (r.data_bytes - r.patched_bytes) then patch_sizes r else r

  module _ (to_i16 : ℕ → ℕ) where
    unfoldable pub write_block : List ℕ → AudioRecorder → AudioRecorder
    write_block bytes r =
        let written = disk.block r.data_bytes in
        if is_none written
        then record r {
          file = write_all written bytes r.file;
          data_bytes = (r.data_bytes + length bytes) % 2 ^ 32;
        }
        else record r { file = write_all written bytes r.file; poisoned = true }

    -- The blocks, and whether the loop came to its end: a full file is closed, an error stops it.
    unfoldable pub write_blocks : List (List ℕ) → AudioRecorder → AudioRecorder × Bool
    unfolding write_block close pcm
    write_blocks [] r = (r, true)
    write_blocks (block ∷ blocks) r =
        let bytes = pcm to_i16 block in
        let r' = write_block bytes r in
        let rest = write_blocks blocks r' in
        if ltb (r.max_data - r.data_bytes) (length bytes)
        then (close r, false)
        else (if r'.poisoned then (r', false) else rest)

    unfoldable pub write_pcm_f32 : List ℕ → AudioRecorder → AudioRecorder
    unfolding write_blocks patch_if_due
    write_pcm_f32 [] r = r
    write_pcm_f32 (s ∷ samples) r =
        if r.poisoned || not r.has_writer
        then r
        else patch_if_due (write_blocks (chunks 1024 (s ∷ samples)) r)
