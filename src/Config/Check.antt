-- ===== src/Config/Check.antt =====
-- The checks of `AppConfig::validate` in config.rs, a section of the settings at a time: each gives the
-- corrected section and the fields that it complained of, in order. Messages are left out.
use focus_vision_pcvr.Prelude.{
  ℕ, ◌+◌, ◌-◌, ◌^◌, Bool, true, false, not, ◌&&◌, ◌||◌, Option, none, some, List, [], ◌∷◌, ◌++◌,
  ltb, ◌==◌, if◌then◌else◌,
}
use focus_vision_pcvr.Prelude.F32.{lt, le, is_nan, is_finite}
use focus_vision_pcvr.Config.{
  NetworkConfig, gcc, loss, default_tcp_port, default_udp_port, f0_05, f0_40, f1,
}

-- The field that an error names.
pub data Field : Type 0 where
  tcp_port : Field
  udp_port : Field
  fec_redundancy_min : Field
  fec_redundancy_max : Field
  fec_redundancy : Field
  congestion_control : Field
  slice_count : Field
  bitrate_mbps : Field
  framerate : Field
  resolution_scale : Field
  resolution_per_eye : Field
  ipd : Field
  vsync_to_photons : Field
  bitrate_pixel_factor : Field
  smoothing : Field
  timeout_seconds : Field
  sleep_bitrate_mbps : Field
  motion_threshold : Field
  frame_size_ms : Field
  sample_rate : Field
  channels : Field
  bitrate_kbps : Field
  max_attempts : Field
  lockout_seconds : Field
  memory_poll_interval_seconds : Field
  growth_threshold_mb : Field
  synthetic_source : Field
  fovea_radius : Field
  mid_radius : Field
  mid_qp_offset : Field
  peripheral_qp_offset : Field
  warn_celsius : Field
  limit_celsius : Field
  emergency_celsius : Field
  thermal_poll_interval_seconds : Field
  recovery_seconds : Field

abbrev pub Checked : Type 0 → Type 0
Checked A = A × List Field

-- A value that is replaced, with an error, where a test says that it is bad.
abbrev pub replace_if : {A : Type 0} → Bool → A → Field → A → Checked A
replace_if bad default field value = if bad then (default, field ∷ []) else (value, [])

unfoldable pub validate_range : ℕ → ℕ → ℕ → Field → ℕ → Checked ℕ
validate_range lo hi default field value =
    replace_if (ltb value lo || ltb hi value) default field value

unfoldable pub validate_f32_range : ℕ → ℕ → ℕ → Field → ℕ → Checked ℕ
validate_f32_range lo hi default field value =
    replace_if (not (is_finite value) || lt value lo || lt hi value) default field value

-- A range without its lower end.
unfoldable pub validate_above_zero : ℕ → ℕ → Field → ℕ → Checked ℕ
validate_above_zero hi default field value =
    replace_if (le value 0 || lt hi value || is_nan value) default field value

-- The largest UDP port: the streams use the three above it.
abbrev pub max_udp : ℕ
max_udp = 2 ^ 16 - 1 - 3

unfoldable pub check_low : ℕ → Field → ℕ → Checked ℕ
check_low default field port = replace_if (ltb port 1024) default field port

unfoldable pub check_high : ℕ → Checked ℕ
check_high port = replace_if (ltb max_udp port) default_udp_port udp_port port

-- A UDP port that is the TCP port moves next to it.
unfoldable pub check_apart : ℕ → ℕ → Checked ℕ
check_apart tcp udp =
    replace_if (tcp == udp) (if ltb tcp max_udp then tcp + 1 else tcp - 1) udp_port udp

unfoldable pub check_ports : ℕ → ℕ → Checked (ℕ × ℕ)
unfolding check_low check_high check_apart
check_ports tcp udp =
    let tcp_checked = check_low default_tcp_port tcp_port tcp in
    let udp_low = check_low default_udp_port udp_port udp in
    let udp_high = check_high udp_low.0 in
    let udp_apart = check_apart tcp_checked.0 udp_high.0 in
    ((tcp_checked.0, udp_apart.0), tcp_checked.1 ++ (udp_low.1 ++ (udp_high.1 ++ udp_apart.1)))

-- The minimum, the maximum and the initial value of the redundancy.
pub record FecBounds : Type 0 where
  pub low : ℕ
  pub high : ℕ
  pub initial : ℕ

unfoldable pub check_fec_min : ℕ → Checked ℕ
check_fec_min low = replace_if (lt low 0 || lt f1 low || is_nan low) f0_05 fec_redundancy_min low

unfoldable pub check_fec_max : ℕ → ℕ → Checked ℕ
check_fec_max low high =
    replace_if (lt high low || lt f1 high || is_nan high) f0_40 fec_redundancy_max high

-- `f32::clamp`, which panics where the bounds are not in order.
unfoldable pub clamp : ℕ → ℕ → ℕ → Option ℕ
clamp x lo hi =
    if le lo hi then some (if lt x lo then lo else (if lt hi x then hi else x)) else none

abbrev pub with_error : Option ℕ → Option (Checked ℕ)
with_error none = none
with_error (some x) = some (x, fec_redundancy ∷ [])

unfoldable pub check_fec_initial : ℕ → ℕ → ℕ → Option (Checked ℕ)
unfolding clamp
check_fec_initial low high initial =
    if is_nan initial || lt initial low || lt high initial
    then with_error (clamp initial low high)
    else some (initial, [])

abbrev pub with_bounds : Checked ℕ → Checked ℕ → Option (Checked ℕ) → Option (Checked FecBounds)
with_bounds low high none = none
with_bounds low high (some initial) =
    some
      (record { low = low.0; high = high.0; initial = initial.0 }, low.1 ++ (high.1 ++ initial.1))

-- `none` is a panic.
unfoldable pub check_fec : FecBounds → Option (Checked FecBounds)
unfolding check_fec_min check_fec_max check_fec_initial
check_fec b =
    let low = check_fec_min b.low in
    let high = check_fec_max low.0 b.high in
    with_bounds low high (check_fec_initial low.0 high.0 b.initial)

-- Two strings are the same.
unfoldable pub same : List ℕ → List ℕ → Bool
same [] [] = true
same [] (y ∷ ys) = false
same (x ∷ xs) [] = false
same (x ∷ xs) (y ∷ ys) = x == y && same xs ys

unfoldable pub check_congestion_control : List ℕ → Checked (List ℕ)
unfolding same
check_congestion_control mode =
    replace_if (not (same mode gcc) && not (same mode loss)) gcc congestion_control mode

abbrev pub with_network :
    NetworkConfig
    → Checked (ℕ × ℕ)
    → Option (Checked FecBounds)
    → Checked (List ℕ)
    → Checked ℕ
    → Option (Checked NetworkConfig)
with_network n ports none mode slices = none
with_network n ports (some fec) mode slices = some (
  record n {
    tcp_port = ports.0.0;
    udp_port = ports.0.1;
    fec_redundancy = fec.0.initial;
    fec_redundancy_min = fec.0.low;
    fec_redundancy_max = fec.0.high;
    congestion_control = mode.0;
    slice_count = slices.0;
  },
  ports.1 ++ (fec.1 ++ (mode.1 ++ slices.1)),
)

abbrev pub fec_bounds : NetworkConfig → FecBounds
fec_bounds n = record {
  low = n.fec_redundancy_min;
  high = n.fec_redundancy_max;
  initial = n.fec_redundancy;
}

unfoldable pub check_network : NetworkConfig → Option (Checked NetworkConfig)
unfolding check_ports check_fec check_congestion_control validate_range
check_network n =
    with_network n (check_ports n.tcp_port n.udp_port) (check_fec (fec_bounds n))
      (check_congestion_control n.congestion_control)
      (validate_range 2 15 4 slice_count n.slice_count)
