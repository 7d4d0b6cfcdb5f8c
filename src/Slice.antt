-- ===== src/Slice.antt =====
-- rust/streaming-engine/src/transport/slice.rs: a frame cut into slices at byte boundaries.
pub mod Laws
mod Tests
use focus_vision_pcvr.Prelude.{
  ℕ, zero, suc, ◌+◌, ◌-◌, ◌/◌, ◌%◌, Bool, ◌||◌, List, [], ◌∷◌, length, take, drop, ltb, leb, ◌==◌,
  if◌then◌else◌,
}

-- `&data[from..to]`, for `from ≤ to ≤ data.len()`.
abbrev pub range_of : List ℕ → ℕ → ℕ → List ℕ
range_of bytes from to = take (to - from) (drop from bytes)

-- The slice of one round, at `offset`.
unfoldable pub slice_at : List ℕ → ℕ → ℕ → List ℕ
slice_at bytes offset size =
    if leb (offset + size) (length bytes)
    then range_of bytes offset (offset + size)
    else (if ltb offset (length bytes) then range_of bytes offset (length bytes) else [])

unfoldable pub slice_size : ℕ → ℕ → ℕ → ℕ
slice_size base_size remainder i = if ltb i remainder then base_size + 1 else base_size

-- The loop, with `n` rounds left; `i` is the round and `offset` where it starts.
unfoldable pub split_loop : List ℕ → ℕ → ℕ → ℕ → ℕ → ℕ → List (List ℕ)
split_loop bytes base_size remainder zero i offset = []
split_loop bytes base_size remainder (suc n) i offset =
    slice_at bytes offset (slice_size base_size remainder i)
    ∷ split_loop bytes base_size remainder n (i + 1) (offset + slice_size base_size remainder i)

unfoldable pub split : List ℕ → ℕ → List (List ℕ)
unfolding split_loop slice_at slice_size
split bytes count =
    if count == 0 || length bytes == 0
    then bytes ∷ []
    else split_loop bytes (length bytes / count) (length bytes % count) count 0 0
