-- ===== src/Slice/Laws.antt =====
-- The slices of a frame: nothing is lost, and they are as even as they can be.
use focus_vision_pcvr.Prelude.{
  ℕ, zero, suc, ◌+◌, ◌-◌, ◌*◌, ◌/◌, ◌%◌, ◌≤◌, ◌<◌, min, ◌≡◌, refl, sym, ap, ◌∙◌, List, [], arith,
  length, take, drop, concat, get_or, ltb, le→leb, length-take, length-drop, take-append-drop,
  drop-drop, drop_all, append-nil, if◌then◌else◌, ◌||◌, ◌==◌, ==_ne, Bool-cases, inl, inr,
}
use native.Mathlib.Nat.{div-add-mod}
use focus_vision_pcvr.Slice.{slice_at, slice_size, split_loop, split}

module _ (bytes : List ℕ) (base rem : ℕ) where
  -- How many bytes `n` rounds from round `i` on take.
  total_size : ℕ → ℕ → ℕ
  total_size zero i = 0
  total_size (suc n) i = slice_size base rem i + total_size n (i + 1)

  slice_at_inside :
      (offset size : ℕ)
      → offset + size ≤ length bytes
      → slice_at bytes offset size ≡ take size (drop offset bytes)
  unfolding slice_at
  slice_at_inside offset size h =
      let e : offset + size - offset ≡ size = omega arith in rw (le→leb _ _ h, e)

  concat-split_loop :
      (n i offset : ℕ)
      → offset + total_size n i ≡ length bytes
      → concat (split_loop bytes base rem n i offset) ≡ drop offset bytes
  unfolding split_loop total_size
  concat-split_loop zero i offset h = sym (drop_all offset bytes (omega arith))
  concat-split_loop (suc n) i offset h = rw (
    slice_at_inside offset (slice_size base rem i) (omega arith),
    concat-split_loop n (i + 1) (offset + slice_size base rem i) (omega arith),
    ← drop-drop (slice_size base rem i) offset bytes,
    take-append-drop (slice_size base rem i) (drop offset bytes),
  )

  length-split_loop : (n i offset : ℕ) → length (split_loop bytes base rem n i offset) ≡ n
  unfolding split_loop
  length-split_loop zero i offset = refl
  length-split_loop (suc n) i offset =
      ap suc (length-split_loop n (i + 1) (offset + slice_size base rem i))

  -- The slice of each round has the size of that round.
  split_loop_sizes :
      (n i offset j : ℕ)
      → offset + total_size n i ≡ length bytes
      → j < n
      → length (get_or (split_loop bytes base rem n i offset) j []) ≡ slice_size base rem (i + j)
  unfolding split_loop total_size
  split_loop_sizes zero i offset j h lt = absurd (omega arith)
  split_loop_sizes (suc n) i offset zero h lt =
      let same : i + zero ≡ i = omega arith in
      rw (slice_at_inside offset (slice_size base rem i) (omega arith), same)
        (omega (
          arith,
          length-take (slice_size base rem i) (drop offset bytes),
          length-drop offset bytes,
        ))
  split_loop_sizes (suc n) i offset (suc j) h lt =
      let same : i + suc j ≡ i + 1 + j = omega arith in
      rw same
        (split_loop_sizes n (i + 1) (offset + slice_size base rem i) j (omega arith) (omega arith))

total_size_lem :
    (bytes : List ℕ) (base rem n i : ℕ) → total_size bytes base rem n i ≡ n * base + min n (rem - i)
unfolding total_size slice_size
total_size_lem bytes base rem zero i = omega arith
total_size_lem bytes base rem (suc n) i = ground (arith, total_size_lem bytes base rem n (i + 1))

total_size_all :
    (bytes : List ℕ) (count : ℕ)
    → 0 < count
    → 0 + total_size bytes (length bytes / count) (length bytes % count) count 0 ≡ length bytes
total_size_all bytes count h = grind (
  arith,
  total_size_lem bytes (length bytes / count) (length bytes % count) count 0,
  div-add-mod (length bytes) count,
)

slice_size_lem :
    (base rem i : ℕ) → slice_size base rem (0 + i) ≡ base + (if ltb i rem then 1 else 0)
unfolding slice_size
slice_size_lem base rem i = let same : 0 + i ≡ i = omega arith in rw same (ground arith)

-- Whatever the count, the slices put together are the frame.
pub concat-split : (bytes : List ℕ) (count : ℕ) → concat (split bytes count) ≡ bytes
unfolding split
concat-split bytes count = elim (Bool-cases (count == 0 || length bytes == 0)) [
  | inl whole ↦ rw whole (append-nil bytes)
  | inr cut ↦ rw cut (
      concat-split_loop bytes (length bytes / count) (length bytes % count) count 0 0
        (total_size_all bytes count (ground arith)))
]

-- A frame that holds something is cut into `count` slices, above 0, whose sizes differ by one at most:
-- slice `i` has `length / count` bytes, and the first `length % count` slices have one more.
pub split_sizes :
    (bytes : List ℕ) (count i : ℕ)
    → 0 < count
    → 0 < length bytes
    → i < count
    → (length (split bytes count) ≡ count)
      × (length (get_or (split bytes count) i [])
          ≡ length bytes / count + (if ltb i (length bytes % count) then 1 else 0))
unfolding split
split_sizes bytes count i hc hb h =
    let base = length bytes / count in
    let rem = length bytes % count in
    rw (==_ne count 0 (omega arith), ==_ne (length bytes) 0 (omega arith))
      (
        length-split_loop bytes base rem count 0 0,
        split_loop_sizes bytes base rem count 0 0 i (total_size_all bytes count hc) h
            ∙ slice_size_lem base rem i,
      )
