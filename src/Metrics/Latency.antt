-- ===== src/Metrics/Latency.antt =====
-- metrics/latency.rs: the timestamps of a frame and the averages over the last ones. An instant is a
-- number of nanoseconds, and the clock reading is an argument.
pub mod Recent
use focus_vision_pcvr.Prelude.{
  ℕ, zero, suc, ◌+◌, ◌-◌, ◌/◌, ◌%◌, ◌^◌, Option, none, some, List, [], ◌∷◌, ◌++◌, length, drop, leb,
  ltb, ◌==◌, if◌then◌else◌,
}

pub record FrameTimestamps : Type 0 where
  pub frame_index : ℕ
  pub t_present : ℕ
  pub t_encode_start : Option ℕ
  pub t_encode_end : Option ℕ
  pub t_send : Option ℕ

unfoldable pub new : ℕ → ℕ → FrameTimestamps
new now frame_index = record {
  frame_index = frame_index;
  t_present = now;
  t_encode_start = none;
  t_encode_end = none;
  t_send = none;
}

-- A time before the clock's first instant is taken as now.
unfoldable pub encoded : ℕ → ℕ → ℕ → FrameTimestamps
encoded now frame_index encode =
    let start : ℕ = if ltb now encode then now else now - encode in
    record {
      frame_index = frame_index;
      t_present = start;
      t_encode_start = some start;
      t_encode_end = some now;
      t_send = none;
    }

unfoldable pub mark_encode_start : ℕ → FrameTimestamps → FrameTimestamps
mark_encode_start now ts = record ts { t_encode_start = some now }

unfoldable pub mark_encode_end : ℕ → FrameTimestamps → FrameTimestamps
mark_encode_end now ts = record ts { t_encode_end = some now }

unfoldable pub mark_send : ℕ → FrameTimestamps → FrameTimestamps
mark_send now ts = record ts { t_send = some now }

-- `later.duration_since(earlier).as_micros() as u64`
unfoldable pub micros_between : ℕ → ℕ → ℕ
micros_between earlier later = (later - earlier) / 1000 % 2 ^ 64

abbrev since : ℕ → Option ℕ → Option ℕ
since earlier none = none
since earlier (some later) = some (micros_between earlier later)

unfoldable pub pc_latency_us : FrameTimestamps → Option ℕ
unfolding micros_between
pc_latency_us ts = since ts.t_present ts.t_send

abbrev between : Option ℕ → Option ℕ → Option ℕ
between none e = none
between (some s) e = since s e

unfoldable pub encode_latency_us : FrameTimestamps → Option ℕ
unfolding micros_between
encode_latency_us ts = between ts.t_encode_start ts.t_encode_end

pub record LatencyTracker : Type 0 where
  pub history : List FrameTimestamps
  pub max_history : ℕ

unfoldable pub tracker : ℕ → LatencyTracker
tracker max_history = record { history = []; max_history = max_history }

-- The oldest goes when the history is full.
unfoldable pub record_frame : FrameTimestamps → LatencyTracker → LatencyTracker
record_frame ts t =
    let kept : List FrameTimestamps =
      if leb t.max_history (length t.history) then drop 1 t.history else t.history in
    record t { history = kept ++ (ts ∷ []) }

-- Sum and number of the measurements there are.
abbrev add_measured : Option ℕ → ℕ × ℕ → ℕ × ℕ
add_measured none (sum, count) = (sum, count)
add_measured (some v) (sum, count) = ((sum + v) % 2 ^ 64, (count + 1) % 2 ^ 64)

unfoldable pub totals : (FrameTimestamps → Option ℕ) → List FrameTimestamps → ℕ × ℕ → ℕ × ℕ
totals measure [] so_far = so_far
totals measure (ts ∷ rest) so_far = totals measure rest (add_measured (measure ts) so_far)

unfoldable pub average : ℕ × ℕ → Option ℕ
average (sum, count) = if count == 0 then none else some (sum / count)

unfoldable pub avg_pc_latency_us : LatencyTracker → Option ℕ
unfolding average totals pc_latency_us
avg_pc_latency_us t = average (totals pc_latency_us t.history (0, 0))

unfoldable pub avg_encode_latency_us : LatencyTracker → Option ℕ
unfolding average totals encode_latency_us
avg_encode_latency_us t = average (totals encode_latency_us t.history (0, 0))

unfoldable pub frame_count : LatencyTracker → ℕ
frame_count t = length t.history
