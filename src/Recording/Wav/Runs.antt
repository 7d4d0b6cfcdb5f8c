-- ===== src/Recording/Wav/Runs.antt =====
-- A whole recording.
use focus_vision_pcvr.Prelude.{
  ℕ, ◌+◌, ◌-◌, ◌<◌, ◌≡◌, ◌⊎◌, inl, inr, refl, sym, subst, max, if_either, Bool, true, false, not,
  ◌||◌, Option, none, some, List, [], ◌∷◌, arith, append-nil, leb, not_leb→lt,
}
use focus_vision_pcvr.Prelude.Chunks.{chunks}
use focus_vision_pcvr.Recording.{Written}
use focus_vision_pcvr.Recording.Wav.{
  AudioRecorder, header, create, Disk, patch_sizes, close, second_of, patch_if_due, write_pcm_f32,
}
use focus_vision_pcvr.Recording.Wav.Sizes.{
  AreWritten, blocks-AreWritten, patch-open, close_shut, close-IsSound, IsIntact, IsSound, patched,
  patched-IsSound,
}

-- Intact, and less than a second behind while it is open.
pub record IsCurrent (r : AudioRecorder) : Type 0 where
  pub intact : IsIntact r
  pub fresh : r.has_writer ≡ true → r.data_bytes < r.patched_bytes + max (second_of r) 1

-- What a recording is between two operations.
abbrev pub IsKept : AudioRecorder → Type 0
IsKept r = (r.poisoned ≡ true) ⊎ IsCurrent r

closed-IsKept : (r : AudioRecorder) → r.has_writer ≡ false → IsSound r → IsKept r
closed-IsKept r shut (inl bad) = inl bad
closed-IsKept r shut (inr h) =
    inr (record { intact = h; fresh = λ e. absurd (ground (arith, e, shut)) })

patched-IsKept : (written : Written) (r : AudioRecorder) → IsIntact r → IsKept (patched written r)
unfolding patched
patched-IsKept (some n) r h = inl refl
patched-IsKept none r h = elim (patched-IsSound none r h) [
  | inl bad ↦ inl bad
  | inr intact ↦ inr (record { intact = intact; fresh = λ e. omega arith })
]

patched_poisoned :
    (written : Written) (r : AudioRecorder)
    → r.poisoned ≡ true
    → (patched written r).poisoned ≡ true
unfolding patched
patched_poisoned none r bad = bad
patched_poisoned (some n) r bad = refl

module _ (disk : Disk) where
  due-IsKept : (t : AudioRecorder × Bool) → AreWritten disk t → IsKept (patch_if_due disk t)
  unfolding patch_if_due
  due-IsKept (r, false) (inl bad) = inl bad.0
  due-IsKept (r, true) (inl bad) = absurd (ground (arith, bad.1))
  due-IsKept (r, false) (inr (h, shut)) = closed-IsKept r shut (inr h)
  due-IsKept (r, true) (inr (h, is_open)) =
      if_either IsKept (leb (second_of r) (r.data_bytes - r.patched_bytes)) (patch_sizes disk r) r
        (λ due.
          subst IsKept (sym (patch-open disk r is_open))
            (patched-IsKept (disk.sizes r.data_bytes r.patched_bytes) r h))
        (λ early. inr (record {
          intact = h;
          fresh =
              λ e. omega (arith, not_leb→lt (second_of r) (r.data_bytes - r.patched_bytes) early);
        }))

  write-IsKept :
      (to_i16 : ℕ → ℕ) (samples : List ℕ) (r : AudioRecorder)
      → IsKept r
      → IsKept (write_pcm_f32 disk to_i16 samples r)
  unfolding write_pcm_f32
  write-IsKept to_i16 [] r h = h
  write-IsKept to_i16 (s ∷ samples) r (inl bad) =
      if_either IsKept (r.poisoned || not r.has_writer) r _ (λ e. inl bad)
        (λ e. absurd (ground (arith, e, bad)))
  write-IsKept to_i16 (s ∷ samples) r (inr h) =
      if_either IsKept (r.poisoned || not r.has_writer) r _ (λ e. inr h)
        (λ e. due-IsKept _ (
          blocks-AreWritten disk to_i16 (chunks 1024 (s ∷ samples)) r h.intact (ground (arith, e))))

  close_poisoned : (r : AudioRecorder) → r.poisoned ≡ true → (close disk r).poisoned ≡ true
  unfolding close
  close_poisoned r bad =
      if_either {A = AudioRecorder} (λ q. q.poisoned ≡ true) r.has_writer _ r
        (λ e.
          subst (λ q. q.poisoned ≡ true) (sym (patch-open disk r e))
            (patched_poisoned (disk.sizes r.data_bytes r.patched_bytes) r bad))
        (λ e. bad)

  close-IsKept : (r : AudioRecorder) → IsKept r → IsKept (close disk r)
  close-IsKept r (inl bad) = inl (close_poisoned r bad)
  close-IsKept r (inr h) =
      closed-IsKept (close disk r) (close_shut disk r) (close-IsSound disk r h.intact)

abbrev IsKeptSome : Option AudioRecorder → Type 0
IsKeptSome none = Unit
IsKeptSome (some r) = IsKept r

created-IsKept :
    (written : Written) (sample_rate channels : ℕ) (r : AudioRecorder)
    → create written sample_rate channels ≡ some r
    → IsKept r
unfolding create
created-IsKept (some n) sample_rate channels r e = absurd (ground (arith, e))
created-IsKept none sample_rate channels r e = subst IsKeptSome e (
    inr (record {
      intact = record {
        body = [];
        riff = 0;
        layout = sym (append-nil (header sample_rate channels 0 0));
        size = refl;
        sizes = inr (refl, refl);
        behind = omega arith;
        fits = (omega arith, refl);
        closed = λ shut. absurd (ground (arith, shut));
      };
      fresh = λ is_open. omega arith;
    }))

-- What is asked of a recording.
pub data Request : Type 0 where
  samples : List ℕ → Request
  shut : Request

unfoldable pub record_all : Disk → (ℕ → ℕ) → List Request → AudioRecorder → AudioRecorder
record_all disk to_i16 [] r = r
record_all disk to_i16 (samples xs ∷ requests) r =
    record_all disk to_i16 requests (write_pcm_f32 disk to_i16 xs r)
record_all disk to_i16 (shut ∷ requests) r = record_all disk to_i16 requests (close disk r)

record_from :
    (disk : Disk) (to_i16 : ℕ → ℕ) (requests : List Request) (r : AudioRecorder)
    → IsKept r
    → IsKept (record_all disk to_i16 requests r)
unfolding record_all
record_from disk to_i16 [] r h = h
record_from disk to_i16 (samples xs ∷ requests) r h =
    record_from disk to_i16 requests (write_pcm_f32 disk to_i16 xs r)
      (write-IsKept disk to_i16 xs r h)
record_from disk to_i16 (shut ∷ requests) r h =
    record_from disk to_i16 requests (close disk r) (close-IsKept disk r h)

-- From a recording that could be created, whatever samples are written to it and whenever it is closed,
-- however the conversion gives them and whatever the disk does: unless a write has failed, the file
-- is the WAV header and the data, whose length it counts and which stays within the format's 32 bits;
-- the header's sizes are less than a second behind the data while the recording is open, and exact
-- once it is closed.
pub record_all-IsKept :
    (disk : Disk) (to_i16 : ℕ → ℕ) (requests : List Request) (written : Written)
    (sample_rate channels : ℕ) (r : AudioRecorder)
    → create written sample_rate channels ≡ some r
    → IsKept (record_all disk to_i16 requests r)
record_all-IsKept disk to_i16 requests written sample_rate channels r created =
    record_from disk to_i16 requests r (created-IsKept written sample_rate channels r created)
