-- ===== src/Recording/Tests.antt =====
-- The recordings' theorem at concrete inputs.
use focus_vision_pcvr.Prelude.{
  ◌≡◌, refl, true, false, none, some, List, [], ◌∷◌, ◌++◌, ◌+◌, ◌-◌, ◌%◌, ◌^◌, arith, length,
  concat, map,
}
use focus_vision_pcvr.Recording.Annexb.{fresh}
use focus_vision_pcvr.Recording.Annexb.Stream.{coded, units_in, write_nals, write_nals-stream}
use focus_vision_pcvr.Recording.Wav.{AudioRecorder, header, create, Disk}
use focus_vision_pcvr.Recording.Wav.Runs.{
  IsKept, Request, samples, shut, record_all, record_all-IsKept,
}

-- A unit without a start code, an empty one, and one with a start code of its own.
write_nals-stream_example :
    write_nals ((7 ∷ 8 ∷ []) ∷ [] ∷ (0 ∷ 0 ∷ 1 ∷ 9 ∷ []) ∷ []) fresh ≡ record {
      file = [] ++ concat (map coded ((7 ∷ 8 ∷ []) ∷ [] ∷ (0 ∷ 0 ∷ 1 ∷ 9 ∷ []) ∷ []));
      has_writer = true;
      bytes_written =
          (0 + length (concat (map coded ((7 ∷ 8 ∷ []) ∷ [] ∷ (0 ∷ 0 ∷ 1 ∷ 9 ∷ []) ∷ []))))
          % 2 ^ 64;
      nal_count = (0 + units_in ((7 ∷ 8 ∷ []) ∷ [] ∷ (0 ∷ 0 ∷ 1 ∷ 9 ∷ []) ∷ [])) % 2 ^ 64;
      poisoned = false;
    }
unfolding fresh
write_nals-stream_example =
    write_nals-stream ((7 ∷ 8 ∷ []) ∷ [] ∷ (0 ∷ 0 ∷ 1 ∷ 9 ∷ []) ∷ []) fresh
      (refl, refl, omega arith, omega arith)

-- A disk that takes everything.
abbrev good_disk : Disk
good_disk = record { block = λ n. none; sizes = λ n patched. none }

abbrev created : AudioRecorder
created = record {
  file = header 48000 2 0 0;
  has_writer = true;
  sample_rate = 48000;
  channels = 2;
  data_bytes = 0;
  patched_bytes = 0;
  max_data = 2 ^ 32 - 1 - 36;
  poisoned = false;
}

created_so : create none 48000 2 ≡ some created
unfolding create
created_so = refl

abbrev requests : List Request
requests = samples (1 ∷ 2 ∷ 3 ∷ 4 ∷ []) ∷ samples [] ∷ samples (5 ∷ 6 ∷ []) ∷ shut ∷ []

record_all-IsKept_example : IsKept (record_all good_disk (λ s. s) requests created)
record_all-IsKept_example =
    record_all-IsKept good_disk (λ s. s) requests none 48000 2 created created_so
