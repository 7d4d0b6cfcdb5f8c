-- ===== src/Config/Valid.antt =====
-- What holds of settings that have been validated: the whole.
use focus_vision_pcvr.Prelude.{
  ℕ, ◌^◌, ◌<◌, ◌≡◌, refl, subst, true, not, ◌&&◌, ◌||◌, Option, none, some, List, arith, leb,
  if_either,
}
use focus_vision_pcvr.Prelude.F32.{le, lt, is_nan}
use focus_vision_pcvr.Prelude.F32.Order.{IsBetween, le-number}
use focus_vision_pcvr.Thermal.{ThermalConfig}
use focus_vision_pcvr.Config.{
  AppConfig, NetworkConfig, gcc, loss, off, silence, sine, wav, f0_50, f1, f0_002, f0_15, f0_6,
  default_ipd, default_vsync_to_photons,
}
use focus_vision_pcvr.Config.Check.{
  Field, fovea_radius, synthetic_source, Checked, replace_if, FecBounds, same,
  check_congestion_control, check_fec, fec_bounds, check_network, with_network,
}
use focus_vision_pcvr.Config.Validate.{
  check_video, check_sleep, check_audio, check_source, check_pairing, check_memory, check_display,
  check_face_tracking, check_foveated, check_thermal_ranges, order_warn, order_emergency,
  check_thermal, drop_pixel_factor, check_rest, after_network, validate, min_ipd, max_ipd, f0_1,
  f0_99,
}
use focus_vision_pcvr.Config.Ports.{
  IsIn, range-IsIn, ArePorts, check_ports-ArePorts, IsSize, check_size-IsSize,
}
use focus_vision_pcvr.Config.Floats.{
  f32_range-IsBetween, IsPositive, above_zero-IsPositive, IsFec, AllFec, check_fec-AllFec, IsMiddle,
  mid-IsMiddle,
}

-- The limit is below the emergency. The warning need not be below the limit.
pub record IsThermal (t : ThermalConfig) : Type 0 where
  pub warn_in : IsIn 50 100 t.warn_celsius
  pub limit_in : IsIn 50 105 t.limit_celsius
  pub emergency_in : IsIn 50 110 t.emergency_celsius
  pub ordered : t.limit_celsius < t.emergency_celsius
  pub poll_in : IsIn 1 600 t.poll_interval_seconds
  pub recovery_in : IsIn 1 600 t.recovery_seconds

record IsRanged (t : ThermalConfig) : Type 0 where
  warn_in : IsIn 50 100 t.warn_celsius
  limit_in : IsIn 50 105 t.limit_celsius
  emergency_in : IsIn 50 110 t.emergency_celsius
  poll_in : IsIn 1 600 t.poll_interval_seconds
  recovery_in : IsIn 1 600 t.recovery_seconds

ranges-IsRanged : (t : ThermalConfig) → IsRanged (check_thermal_ranges t).0
unfolding check_thermal_ranges
ranges-IsRanged t = record {
  warn_in = range-IsIn 50 100 75 _ t.warn_celsius (omega arith);
  limit_in = range-IsIn 50 105 85 _ t.limit_celsius (omega arith);
  emergency_in = range-IsIn 50 110 90 _ t.emergency_celsius (omega arith);
  poll_in = range-IsIn 1 600 5 _ t.poll_interval_seconds (omega arith);
  recovery_in = range-IsIn 1 600 30 _ t.recovery_seconds (omega arith);
}

warn-IsRanged : (t : ThermalConfig) → IsRanged t → IsRanged (order_warn t).0
unfolding order_warn
warn-IsRanged t h =
    if_either {A = Checked ThermalConfig} (λ q. IsRanged q.0) (leb t.limit_celsius t.warn_celsius) _
      _
      (λ e. record {
        warn_in = omega arith;
        limit_in = omega arith;
        emergency_in = h.emergency_in;
        poll_in = h.poll_in;
        recovery_in = h.recovery_in;
      })
      (λ e. h)

emergency-IsThermal : (t : ThermalConfig) → IsRanged t → IsThermal (order_emergency t).0
unfolding order_emergency
emergency-IsThermal t h =
    if_either {A = Checked ThermalConfig} (λ q. IsThermal q.0)
      (leb t.emergency_celsius t.limit_celsius) _ _
      (λ e. record {
        warn_in = h.warn_in;
        limit_in = omega arith;
        emergency_in = omega arith;
        ordered = omega arith;
        poll_in = h.poll_in;
        recovery_in = h.recovery_in;
      })
      (λ e. record {
        warn_in = h.warn_in;
        limit_in = h.limit_in;
        emergency_in = h.emergency_in;
        ordered = ground (arith, e);
        poll_in = h.poll_in;
        recovery_in = h.recovery_in;
      })

check_thermal-IsThermal : (t : ThermalConfig) → IsThermal (check_thermal t).0
unfolding check_thermal
check_thermal-IsThermal t =
    emergency-IsThermal (order_warn (check_thermal_ranges t).0).0
      (warn-IsRanged (check_thermal_ranges t).0 (ranges-IsRanged t))

abbrev IsOneOf : List ℕ → List ℕ → List ℕ → Type 0
IsOneOf x y s = (same s x || same s y) ≡ true

abbrev IsKnown : List ℕ → Type 0
IsKnown s = (same s off || same s silence || same s sine || same s wav) ≡ true

pub record IsNetwork (n : NetworkConfig) : Type 0 where
  pub ports : ArePorts n.tcp_port n.udp_port
  pub slices : IsIn 2 15 n.slice_count
  pub redundancies : IsFec (fec_bounds n)
  pub mode : IsOneOf gcc loss n.congestion_control

pub record IsValid (c : AppConfig) : Type 0 where
  pub network : IsNetwork c.network
  pub bitrate : IsIn 10 200 c.video.bitrate_mbps
  pub scale : IsBetween f0_50 f1 c.video.resolution_scale
  pub framerate : IsIn 30 120 c.video.framerate
  pub width : IsSize c.video.width_per_eye
  pub height : IsSize c.video.height_per_eye
  pub no_factor : c.video.bitrate_pixel_factor ≡ none
  pub distance : IsBetween min_ipd max_ipd c.display.ipd
  pub photons : IsBetween 0 f0_1 c.display.seconds_from_vsync_to_photons
  pub smooth : IsBetween 0 f0_99 c.face_tracking.smoothing
  pub timeout : IsIn 30 3600 c.sleep_mode.timeout_seconds
  pub sleep_bitrate : IsIn 1 200 c.sleep_mode.sleep_bitrate_mbps
  pub motion : IsPositive f0_1 c.sleep_mode.motion_threshold
  pub audio_bitrate : IsIn 32 512 c.audio.bitrate_kbps
  pub fixed_audio :
      (c.audio.frame_size_ms ≡ none) × (c.audio.sample_rate ≡ none) × (c.audio.channels ≡ none)
  pub source : IsKnown c.audio.synthetic_source
  pub attempts : IsIn 1 10 c.pairing.max_attempts
  pub lockout : IsIn 300 3600 c.pairing.lockout_seconds
  pub memory_poll : IsIn 10 3600 c.memory_monitor.poll_interval_seconds
  pub memory_growth : IsIn 1 100_000 c.memory_monitor.growth_threshold_mb
  pub fovea : IsPositive f0_50 c.foveated.fovea_radius
  pub mid : IsMiddle c.foveated.fovea_radius c.foveated.mid_radius
  pub mid_offset : IsIn 0 51 c.foveated.mid_qp_offset
  pub peripheral_offset : IsIn 0 51 c.foveated.peripheral_qp_offset
  pub thermal : IsThermal c.thermal

source-IsKnown :
    (source : List ℕ)
    → IsKnown
        (replace_if
          (not (same source off || same source silence || same source sine || same source wav))
          off
          synthetic_source
          source).0
unfolding same
source-IsKnown source =
    if_either {A = Checked (List ℕ)} (λ q. IsKnown q.0)
      (not (same source off || same source silence || same source sine || same source wav)) _ _
      (λ e. refl) (λ e. ground (arith, e))

mode-IsOneOf : (mode : List ℕ) → IsOneOf gcc loss (check_congestion_control mode).0
unfolding check_congestion_control same
mode-IsOneOf mode =
    if_either {A = Checked (List ℕ)} (λ q. IsOneOf gcc loss q.0)
      (not (same mode gcc) && not (same mode loss)) _ _ (λ e. refl) (λ e. ground (arith, e))

rest-IsValid :
    (c : AppConfig) (n : Checked NetworkConfig) → IsNetwork n.0 → IsValid (check_rest c n).0
unfolding check_video check_sleep check_audio check_source check_pairing check_memory
    drop_pixel_factor check_display check_face_tracking check_foveated le lt is_nan
rest-IsValid c n h =
    let fovea =
      above_zero-IsPositive f0_50 f0_15 fovea_radius c.foveated.fovea_radius (refl, refl) in
    record {
      network = h;
      bitrate = range-IsIn 10 200 80 _ c.video.bitrate_mbps (omega arith);
      scale = f32_range-IsBetween f0_50 f1 f1 _ c.video.resolution_scale (refl, refl);
      framerate = range-IsIn 30 120 90 _ c.video.framerate (omega arith);
      width = check_size-IsSize 1832 c.video.width_per_eye (omega arith);
      height = check_size-IsSize 1920 c.video.height_per_eye (omega arith);
      no_factor = refl;
      distance = f32_range-IsBetween min_ipd max_ipd default_ipd _ c.display.ipd (refl, refl);
      photons =
          f32_range-IsBetween 0 f0_1 default_vsync_to_photons _
            c.display.seconds_from_vsync_to_photons (refl, refl);
      smooth = f32_range-IsBetween 0 f0_99 f0_6 _ c.face_tracking.smoothing (refl, refl);
      timeout = range-IsIn 30 3600 300 _ c.sleep_mode.timeout_seconds (omega arith);
      sleep_bitrate = range-IsIn 1 200 8 _ c.sleep_mode.sleep_bitrate_mbps (omega arith);
      motion = above_zero-IsPositive f0_1 f0_002 _ c.sleep_mode.motion_threshold (refl, refl);
      audio_bitrate = range-IsIn 32 512 128 _ c.audio.bitrate_kbps (omega arith);
      fixed_audio = (refl, refl, refl);
      source = source-IsKnown c.audio.synthetic_source;
      attempts = range-IsIn 1 10 5 _ c.pairing.max_attempts (omega arith);
      lockout = range-IsIn 300 3600 300 _ c.pairing.lockout_seconds (omega arith);
      memory_poll = range-IsIn 10 3600 60 _ c.memory_monitor.poll_interval_seconds (omega arith);
      memory_growth = range-IsIn 1 100_000 50 _ c.memory_monitor.growth_threshold_mb (omega arith);
      fovea = fovea;
      mid = mid-IsMiddle _ c.foveated.mid_radius (le-number _ f0_50 fovea.1).0;
      mid_offset = range-IsIn 0 51 5 _ c.foveated.mid_qp_offset (omega arith);
      peripheral_offset = range-IsIn 0 51 10 _ c.foveated.peripheral_qp_offset (omega arith);
      thermal = check_thermal-IsThermal c.thermal;
    }

abbrev AllNetwork : Option (Checked NetworkConfig) → Type 0
AllNetwork none = Unit
AllNetwork (some (n, errors)) = IsNetwork n

with_network-AllNetwork :
    (n : NetworkConfig) (ports : Checked (ℕ × ℕ)) (fec : Option (Checked FecBounds))
    (mode : Checked (List ℕ)) (slices : Checked ℕ)
    → ArePorts ports.0.0 ports.0.1
    → IsIn 2 15 slices.0
    → AllFec fec
    → IsOneOf gcc loss mode.0
    → AllNetwork (with_network n ports fec mode slices)
with_network-AllNetwork n ports none mode slices p s f m = tt
with_network-AllNetwork n ports (some (b, errors)) mode slices p s f m = record {
  ports = p;
  slices = s;
  redundancies = record {
    floor = f.floor;
    ordered = f.ordered;
    roof = f.roof;
    between = f.between;
  };
  mode = m;
}

abbrev AllValid : Option (Checked AppConfig) → Type 0
AllValid none = Unit
AllValid (some (c, errors)) = IsValid c

after-AllValid :
    (c : AppConfig) (o : Option (Checked NetworkConfig))
    → AllNetwork o
    → AllValid (after_network c o)
after-AllValid c none h = tt
after-AllValid c (some (n, errors)) h = rest-IsValid c (n, errors) h

validate-AllValid :
    (c : AppConfig)
    → c.network.tcp_port < 2 ^ 16
    → c.network.udp_port < 2 ^ 16
    → AllValid (validate c)
unfolding validate check_network
validate-AllValid c t u = after-AllValid c _ (
    with_network-AllNetwork c.network _ (check_fec (fec_bounds c.network)) _ _
      (check_ports-ArePorts c.network.tcp_port c.network.udp_port t u)
      (range-IsIn 2 15 4 _ c.network.slice_count (omega arith))
      (check_fec-AllFec (fec_bounds c.network)) (mode-IsOneOf c.network.congestion_control))

-- Whatever the settings say, with ports of 16 bits: where validating returns, the numbers and modes of
-- what it returns are in their ranges. The ports are no system ports, leave room for the streams' ports
-- and differ; the bitrates, rates, sizes, counts, offsets and intervals are in their ranges, and the
-- sizes even; the scale, the distances, the smoothing, the motion threshold and the fovea's radius are
-- numbers in their ranges; the congestion control and the audio source are known; what is not a setting
-- is unset. The bounds of the redundancy are numbers in order, from 0 to 1, and the redundancy is between
-- them or not a number; the middle's radius is above the fovea's and at most 1, or the default; the
-- thermal limit is below the emergency, and not always above the warning.
pub validate-IsValid :
    (c d : AppConfig) (errors : List Field)
    → c.network.tcp_port < 2 ^ 16
    → c.network.udp_port < 2 ^ 16
    → validate c ≡ some (d, errors)
    → IsValid d
validate-IsValid c d errors t u e = subst AllValid e (validate-AllValid c t u)
