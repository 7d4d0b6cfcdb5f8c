-- ===== src/Recording/Annexb.antt =====
-- `Recorder` of recording/mod.rs: a stream of NAL units, each behind a start code.
pub mod Stream
use focus_vision_pcvr.Prelude.{
  ℕ, zero, suc, ◌+◌, ◌%◌, ◌^◌, Bool, true, false, not, ◌&&◌, ◌||◌, Option, none, some, is_none,
  is_some, List, [], ◌∷◌, ◌++◌, length, get_or, leb, ◌==◌, if◌then◌else◌,
}
use focus_vision_pcvr.Recording.{Written, write_all}

abbrev pub start_code : List ℕ
start_code = 0 ∷ 0 ∷ 0 ∷ 1 ∷ []

-- `file` is what is on disk once the buffer is flushed; the recorder is open while it has its writer.
pub record Recorder : Type 0 where
  pub file : List ℕ
  pub has_writer : Bool
  pub bytes_written : ℕ
  pub nal_count : ℕ
  pub poisoned : Bool

unfoldable pub fresh : Recorder
fresh = record { file = []; has_writer = true; bytes_written = 0; nal_count = 0; poisoned = false }

-- Three zeros at most, of which the code has two or three, and a one.
unfoldable pub starts_with_annexb : List ℕ → Bool
starts_with_annexb buf =
    (leb 4 (length buf)
      && (get_or buf 0 0 == 0)
      && (get_or buf 1 0 == 0)
      && (get_or buf 2 0 == 0)
      && (get_or buf 3 0 == 1))
    || (leb 3 (length buf)
        && (get_or buf 0 0 == 0)
        && (get_or buf 1 0 == 0)
        && (get_or buf 2 0 == 1))

-- `n` bytes of one more unit are written, or an error stops the recording.
unfoldable pub count_unit : Bool → ℕ → Recorder → Recorder
count_unit written n r =
    if written
    then record r {
      bytes_written = (r.bytes_written + n) % 2 ^ 64;
      nal_count = (r.nal_count + 1) % 2 ^ 64;
    }
    else record r { poisoned = true }

-- The unit, behind a start code where it has none; a failed write of the code skips the unit.
unfoldable pub write_unit : Written → Written → List ℕ → Recorder → Recorder
unfolding count_unit starts_with_annexb
write_unit code_written unit_written nal r =
    if starts_with_annexb nal
    then count_unit (is_none unit_written) (length nal)
        (record r { file = write_all unit_written nal r.file })
    else (let coded = write_all code_written start_code r.file in
        if is_none code_written
        then count_unit (is_none unit_written) (length nal + 4)
            (record r { file = write_all unit_written nal coded })
        else count_unit false 0 (record r { file = coded }))

unfoldable pub write_nal : Written → Written → List ℕ → Recorder → Recorder
unfolding write_unit
write_nal code_written unit_written [] r = r
write_nal code_written unit_written (b ∷ nal) r =
    if r.poisoned || not r.has_writer then r else write_unit code_written unit_written (b ∷ nal) r

unfoldable pub close : Recorder → Recorder
close r = record r { has_writer = false }

unfoldable pub is_open : Recorder → Bool
is_open r = r.has_writer && not r.poisoned
