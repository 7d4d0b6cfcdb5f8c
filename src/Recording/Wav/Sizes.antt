-- ===== src/Recording/Wav/Sizes.antt =====
-- The file is a WAV file at every moment.
use focus_vision_pcvr.Prelude.{
  ℕ, ◌+◌, ◌-◌, ◌%◌, ◌^◌, ◌≤◌, ◌≡◌, ◌⊎◌, inl, inr, refl, sym, subst, ◌∙◌, if_true, if_either, Bool,
  true, false, none, some, is_none, List, [], ◌∷◌, ◌++◌, arith, append_assoc, length, length-append,
  ltb, not_ltb→le, if◌then◌else◌,
}
use focus_vision_pcvr.Recording.{Written, write_all}
use focus_vision_pcvr.Recording.Wav.{
  max_data_bytes, AudioRecorder, header, Disk, overwrite, write_sizes, patch_sizes, close, pcm,
  write_block, write_blocks,
}

-- The header and the data, nothing else; the sizes are those of the last patch, or still zero; and a
-- closed file's are those of the data. No size is beyond 32 bits.
pub record IsIntact (r : AudioRecorder) : Type 0 where
  pub body : List ℕ
  pub riff : ℕ
  pub layout : r.file ≡ header r.sample_rate r.channels riff r.patched_bytes ++ body
  pub size : length body ≡ r.data_bytes
  pub sizes : (riff ≡ 36 + r.patched_bytes) ⊎ ((riff ≡ 0) × (r.patched_bytes ≡ 0))
  pub behind : r.patched_bytes ≤ r.data_bytes
  pub fits : (r.data_bytes ≤ r.max_data) × (r.max_data ≡ max_data_bytes)
  pub closed : r.has_writer ≡ false → (r.patched_bytes ≡ r.data_bytes) × (riff ≡ 36 + r.data_bytes)

-- What an operation gives: a recording that has met an error, or an intact one.
abbrev pub IsSound : AudioRecorder → Type 0
IsSound r = (r.poisoned ≡ true) ⊎ IsIntact r

overwrite-sizes :
    (sample_rate channels riff data_size riff' data_size' : ℕ) (body : List ℕ)
    → write_sizes none riff' data_size' (header sample_rate channels riff data_size ++ body)
      ≡ header sample_rate channels riff' data_size' ++ body
unfolding write_sizes overwrite header
overwrite-sizes sample_rate channels riff data_size riff' data_size' body = refl

-- The sizes are written whole.
unfoldable pub patched : Written → AudioRecorder → AudioRecorder
patched written r =
    let file = write_sizes written ((36 + r.data_bytes) % 2 ^ 32) r.data_bytes r.file in
    if is_none written
    then record r { file = file; patched_bytes = r.data_bytes }
    else record r { file = file; poisoned = true }

pub patched-IsSound :
    (written : Written) (r : AudioRecorder) → IsIntact r → IsSound (patched written r)
unfolding patched
patched-IsSound (some n) r h = inl refl
patched-IsSound none r h =
    let whole : (36 + r.data_bytes) % 2 ^ 32 ≡ 36 + r.data_bytes = omega (arith, h.fits) in
    inr (record {
      body = h.body;
      riff = 36 + r.data_bytes;
      layout =
          rw (whole, h.layout)
            (overwrite-sizes r.sample_rate r.channels h.riff r.patched_bytes (36 + r.data_bytes)
              r.data_bytes h.body);
      size = h.size;
      sizes = inl refl;
      behind = omega arith;
      fits = h.fits;
      closed = λ e. (refl, refl);
    })

module _ (disk : Disk) where
  patch-IsSound : (r : AudioRecorder) → IsIntact r → IsSound (patch_sizes disk r)
  unfolding patch_sizes patched
  patch-IsSound r h =
      if_either IsSound r.has_writer (patched (disk.sizes r.data_bytes r.patched_bytes) r) r
        (λ e. patched-IsSound (disk.sizes r.data_bytes r.patched_bytes) r h) (λ e. inr h)

  pub patch-open :
      (r : AudioRecorder)
      → r.has_writer ≡ true
      → patch_sizes disk r ≡ patched (disk.sizes r.data_bytes r.patched_bytes) r
  unfolding patch_sizes patched
  patch-open r e = if_true r.has_writer _ r e

  shut-IsSound :
      (written : Written) (r : AudioRecorder)
      → IsIntact r
      → IsSound (record (patched written r) { has_writer = false })
  unfolding patched
  shut-IsSound (some n) r h = inl refl
  shut-IsSound none r h =
      let whole : (36 + r.data_bytes) % 2 ^ 32 ≡ 36 + r.data_bytes = omega (arith, h.fits) in
      inr (record {
        body = h.body;
        riff = 36 + r.data_bytes;
        layout =
            rw (whole, h.layout)
              (overwrite-sizes r.sample_rate r.channels h.riff r.patched_bytes (36 + r.data_bytes)
                r.data_bytes h.body);
        size = h.size;
        sizes = inl refl;
        behind = omega arith;
        fits = h.fits;
        closed = λ e. (refl, refl);
      })

  pub close-IsSound : (r : AudioRecorder) → IsIntact r → IsSound (close disk r)
  unfolding close
  close-IsSound r h =
      if_either IsSound r.has_writer (record (patch_sizes disk r) { has_writer = false }) r
        (λ e.
          subst (λ p. IsSound (record p { has_writer = false })) (sym (patch-open r e))
            (shut-IsSound (disk.sizes r.data_bytes r.patched_bytes) r h))
        (λ e. inr h)

  module _ (to_i16 : ℕ → ℕ) where
    block_written :
        (written : Written) (bytes : List ℕ) (r : AudioRecorder)
        → IsIntact r
        → r.has_writer ≡ true
        → length bytes ≤ r.max_data - r.data_bytes
        → IsSound (
            if is_none written
            then (record r {
              file = write_all written bytes r.file;
              data_bytes = (r.data_bytes + length bytes) % 2 ^ 32;
            })
            else (record r { file = write_all written bytes r.file; poisoned = true }))
    block_written (some n) bytes r h is_open room = inl refl
    block_written none bytes r h is_open room =
        let whole : (r.data_bytes + length bytes) % 2 ^ 32 ≡ r.data_bytes + length bytes =
          omega (arith, h.fits, room) in
        inr (record {
          body = h.body ++ bytes;
          riff = h.riff;
          layout =
              rw (h.layout) (
                append_assoc (header r.sample_rate r.channels h.riff r.patched_bytes) h.body bytes);
          size = omega (arith, length-append h.body bytes, h.size, whole);
          sizes = h.sizes;
          behind = omega (arith, h.behind, whole);
          fits = (omega (arith, h.fits, room, whole), h.fits.1);
          closed = λ e. absurd (ground (arith, e, is_open));
        })

    write_block-IsSound :
        (bytes : List ℕ) (r : AudioRecorder)
        → IsIntact r
        → r.has_writer ≡ true
        → length bytes ≤ r.max_data - r.data_bytes
        → IsSound (write_block disk to_i16 bytes r)
    unfolding write_block
    write_block-IsSound bytes r h is_open room =
        block_written (disk.block r.data_bytes) bytes r h is_open room

    writer_kept :
        (bytes : List ℕ) (r : AudioRecorder)
        → (write_block disk to_i16 bytes r).has_writer ≡ r.has_writer
    unfolding write_block
    writer_kept bytes r =
        if_either {A = AudioRecorder} (λ q. q.has_writer ≡ r.has_writer)
          (is_none (disk.block r.data_bytes)) _ _ (λ e. refl) (λ e. refl)

  pub close_shut : (r : AudioRecorder) → (close disk r).has_writer ≡ false
  unfolding close
  close_shut r =
      if_either {A = AudioRecorder} (λ q. q.has_writer ≡ false) r.has_writer _ r (λ e. refl)
        (λ e. e)

  -- What the loop over the blocks leaves.
  abbrev pub AreWritten : AudioRecorder × Bool → Type 0
  AreWritten (r, done) =
      ((r.poisoned ≡ true) × (done ≡ false)) ⊎ (IsIntact r × (r.has_writer ≡ done))

  shut-AreWritten : (r : AudioRecorder) → IsIntact r → AreWritten (close disk r, false)
  shut-AreWritten r h = elim (close-IsSound r h) [
    | inl bad ↦ inl (bad, refl)
    | inr intact ↦ inr (intact, close_shut r)
  ]

  module _ (to_i16 : ℕ → ℕ) where
    pub blocks-AreWritten :
        (blocks : List (List ℕ)) (r : AudioRecorder)
        → IsIntact r
        → r.has_writer ≡ true
        → AreWritten (write_blocks disk to_i16 blocks r)
    unfolding write_blocks
    blocks-AreWritten [] r h is_open = inr (h, is_open)
    blocks-AreWritten (block ∷ blocks) r h is_open =
        let bytes = pcm to_i16 block in
        let r' = write_block disk to_i16 bytes r in
        if_either AreWritten (ltb (r.max_data - r.data_bytes) (length bytes)) _ _
          (λ full. shut-AreWritten r h)
          (λ room.
            if_either AreWritten r'.poisoned _ _ (λ bad. inl (bad, refl))
              (λ good.
                elim (write_block-IsSound to_i16 bytes r h is_open
                  (not_ltb→le (r.max_data - r.data_bytes) (length bytes) room)) [
                    | inl bad ↦ absurd (ground (arith, good, bad))
                    | inr intact ↦
                        blocks-AreWritten blocks r' intact (writer_kept to_i16 bytes r ∙ is_open)
                  ]))
