-- ===== src/Metrics/Memory.antt =====
-- `MemoryMonitor` of metrics/memory.rs. An instant is a number of microseconds; the reading of the
-- process's memory is an argument.
use focus_vision_pcvr.Prelude.{ℕ, ◌-◌, ◌*◌, Option, none, some, leb, ltb, ◌==◌, if◌then◌else◌}

-- An hour.
abbrev pub window : ℕ
window = 3600 * 1_000_000

pub record MemoryMonitor : Type 0 where
  pub growth_threshold_mb : ℕ
  pub baseline : Option (ℕ × ℕ)

unfoldable pub new : ℕ → MemoryMonitor
new growth_threshold_mb = record { growth_threshold_mb = growth_threshold_mb; baseline = none }

-- The growth since the baseline, if the hour is over and it reached the threshold.
unfoldable pub observe_from : ℕ × ℕ → ℕ → ℕ → MemoryMonitor → MemoryMonitor × Option ℕ
observe_from (baseline_mb, since) rss_mb now m =
    let growth = rss_mb - baseline_mb in
    if ltb (now - since) window then (m, none) else (
      record m { baseline = some (rss_mb, now) },
      if leb m.growth_threshold_mb growth then some growth else none,
    )

abbrev observe_since : Option (ℕ × ℕ) → ℕ → ℕ → MemoryMonitor → MemoryMonitor × Option ℕ
observe_since none rss_mb now m = (record m { baseline = some (rss_mb, now) }, none)
observe_since (some since) rss_mb now m = observe_from since rss_mb now m

unfoldable pub observe : ℕ → ℕ → MemoryMonitor → MemoryMonitor × Option ℕ
unfolding observe_from
observe rss_mb now m = observe_since m.baseline rss_mb now m

-- A tick of `run`: a memory that could not be read is 0, and is passed over.
unfoldable pub tick : ℕ → ℕ → MemoryMonitor → MemoryMonitor × Option ℕ
unfolding observe
tick rss_mb now m = if rss_mb == 0 then (m, none) else observe rss_mb now m
