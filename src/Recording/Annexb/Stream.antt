-- ===== src/Recording/Annexb/Stream.antt =====
-- A recording with room on the disk.
use focus_vision_pcvr.Prelude.{
  ℕ, ◌+◌, ◌%◌, ◌^◌, ◌<◌, ◌≡◌, refl, ap, sym, ◌∙◌, true, false, none, List, [], ◌∷◌, ◌++◌,
  append_assoc, append-nil, arith, length, length-append, concat, map, Bool-cases, inl, inr,
  if◌then◌else◌,
}
use focus_vision_pcvr.Recording.Annexb.{
  Recorder, start_code, starts_with_annexb, count_unit, write_unit, write_nal,
}

-- A unit behind a start code, its own or a new one; an empty one is no unit.
abbrev pub coded : List ℕ → List ℕ
coded [] = []
coded (b ∷ nal) = if starts_with_annexb (b ∷ nal) then b ∷ nal else start_code ++ (b ∷ nal)

unfoldable pub write_nals : List (List ℕ) → Recorder → Recorder
unfolding write_nal
write_nals [] r = r
write_nals (nal ∷ nals) r = write_nals nals (write_nal none none nal r)

-- The recorder with these bytes more.
abbrev extended : List ℕ → ℕ → Recorder → Recorder
extended bytes nals r = record {
  file = r.file ++ bytes;
  has_writer = true;
  bytes_written = (r.bytes_written + length bytes) % 2 ^ 64;
  nal_count = (r.nal_count + nals) % 2 ^ 64;
  poisoned = false;
}

abbrev pub IsRecording : Recorder → Type 0
IsRecording r =
    (r.has_writer ≡ true)
    × (r.poisoned ≡ false)
    × (r.bytes_written < 2 ^ 64)
    × (r.nal_count < 2 ^ 64)

abbrev pub units_in : List (List ℕ) → ℕ
units_in [] = 0
units_in ([] ∷ nals) = units_in nals
units_in ((b ∷ nal) ∷ nals) = 1 + units_in nals

write_nal-coded :
    (b : ℕ) (nal : List ℕ) (r : Recorder)
    → IsRecording r
    → write_nal none none (b ∷ nal) r ≡ extended (coded (b ∷ nal)) 1 r
unfolding write_nal write_unit count_unit
write_nal-coded b nal r h = elim (Bool-cases (starts_with_annexb (b ∷ nal))) [
  | inl own ↦ rw (h.1, h.0, own) refl
  | inr new ↦
      rw (h.1, h.0, new)
        (let size : length (start_code ++ (b ∷ nal)) ≡ length (b ∷ nal) + 4 = omega arith in
          rw (size, append_assoc r.file start_code (b ∷ nal)) refl)
]

extended-extended :
    (a b : List ℕ) (m n : ℕ) (r : Recorder)
    → extended b n (extended a m r) ≡ extended (a ++ b) (m + n) r
extended-extended a b m n r =
    let sizes : ((r.bytes_written + length a) % 2 ^ 64 + length b) % 2 ^ 64
        ≡ (r.bytes_written + length (a ++ b)) % 2 ^ 64 =
      omega (arith, length-append a b) in
    let counts : ((r.nal_count + m) % 2 ^ 64 + n) % 2 ^ 64 ≡ (r.nal_count + (m + n)) % 2 ^ 64 =
      omega arith in
    rw (sizes, counts, append_assoc r.file a b) refl

extended-none : (r : Recorder) → IsRecording r → extended [] 0 r ≡ r
extended-none r h =
    let size : (r.bytes_written + 0) % 2 ^ 64 ≡ r.bytes_written = omega (arith, h) in
    let count : (r.nal_count + 0) % 2 ^ 64 ≡ r.nal_count = omega (arith, h) in
    rw (append-nil r.file, size, count, ← h.0, ← h.1) refl

extended-IsRecording :
    (bytes : List ℕ) (nals : ℕ) (r : Recorder) → IsRecording (extended bytes nals r)
extended-IsRecording bytes nals r = (refl, refl, omega arith, omega arith)

-- While the recorder is open and no write fails, what is recorded of a sequence of NAL units is the
-- Annex-B stream of them: behind what was in the file stand the non-empty units in their order, each
-- behind a start code, its own if it has one; the recorder stays open, and its counts of
-- bytes and units, modulo 2^64, are those of the stream.
pub write_nals-stream :
    (nals : List (List ℕ)) (r : Recorder)
    → IsRecording r
    → write_nals nals r ≡ record {
      file = r.file ++ concat (map coded nals);
      has_writer = true;
      bytes_written = (r.bytes_written + length (concat (map coded nals))) % 2 ^ 64;
      nal_count = (r.nal_count + units_in nals) % 2 ^ 64;
      poisoned = false;
    }
unfolding write_nals write_nal
write_nals-stream [] r h = sym (extended-none r h)
write_nals-stream ([] ∷ nals) r h = write_nals-stream nals r h
write_nals-stream ((b ∷ nal) ∷ nals) r h =
    ap (write_nals nals) (write_nal-coded b nal r h)
    ∙ (write_nals-stream nals (extended (coded (b ∷ nal)) 1 r)
          (extended-IsRecording (coded (b ∷ nal)) 1 r)
        ∙ extended-extended (coded (b ∷ nal)) (concat (map coded nals)) 1 (units_in nals) r)
