-- ===== src/Config/Validate.antt =====
-- The rest of `AppConfig::validate` in config.rs: the sections that cannot panic, and the whole.
use focus_vision_pcvr.Prelude.{
  ℕ, ◌-◌, ◌%◌, not, ◌||◌, Option, none, some, is_some, List, [], ◌∷◌, ◌++◌, leb, ◌==◌,
  if◌then◌else◌,
}
use focus_vision_pcvr.Prelude.F32.{lt, le, is_nan}
use focus_vision_pcvr.Thermal.{ThermalConfig}
use focus_vision_pcvr.Config.{
  NetworkConfig, VideoConfig, AudioConfig, PairingConfig, DisplayConfig, FoveatedConfig,
  FaceTrackingConfig, SleepModeConfig, MemoryMonitorConfig, AppConfig, off, silence, sine, wav,
  f0_50, f1, f0_002, f0_15, f0_35, f0_6, default_ipd, default_vsync_to_photons,
}
use focus_vision_pcvr.Config.Check.{
  Field, bitrate_mbps, framerate, resolution_scale, resolution_per_eye, ipd, vsync_to_photons,
  bitrate_pixel_factor, smoothing, timeout_seconds, sleep_bitrate_mbps, motion_threshold,
  frame_size_ms, sample_rate, channels, bitrate_kbps, max_attempts, lockout_seconds,
  memory_poll_interval_seconds, growth_threshold_mb, synthetic_source, fovea_radius, mid_radius,
  mid_qp_offset, peripheral_qp_offset, warn_celsius, limit_celsius, emergency_celsius,
  thermal_poll_interval_seconds, recovery_seconds, Checked, replace_if, validate_range,
  validate_f32_range, validate_above_zero, same, check_network,
}

-- 0.04, 0.09, 0.1 and 0.99
abbrev pub min_ipd : ℕ
min_ipd = 0x3d23_d70a

abbrev pub max_ipd : ℕ
max_ipd = 0x3db8_51ec

abbrev pub f0_1 : ℕ
f0_1 = 0x3dcc_cccd

abbrev pub f0_99 : ℕ
f0_99 = 0x3f7d_70a4

-- An odd size is rounded down.
unfoldable pub check_even : ℕ → Checked ℕ
check_even size = replace_if (size % 2 == 1) (size - 1) resolution_per_eye size

unfoldable pub check_size : ℕ → ℕ → Checked ℕ
unfolding validate_range check_even
check_size default size =
    let ranged = validate_range 320 4096 default resolution_per_eye size in
    let even = check_even ranged.0 in (even.0, ranged.1 ++ even.1)

unfoldable pub check_video : VideoConfig → Checked VideoConfig
unfolding validate_range validate_f32_range check_size
check_video v =
    let bitrate = validate_range 10 200 80 bitrate_mbps v.bitrate_mbps in
    let rate = validate_range 30 120 90 framerate v.framerate in
    let scale = validate_f32_range f0_50 f1 f1 resolution_scale v.resolution_scale in
    let width = check_size 1832 v.width_per_eye in
    let height = check_size 1920 v.height_per_eye in
    (
      record v {
        bitrate_mbps = bitrate.0;
        framerate = rate.0;
        resolution_scale = scale.0;
        width_per_eye = width.0;
        height_per_eye = height.0;
      },
      bitrate.1 ++ (rate.1 ++ (scale.1 ++ (width.1 ++ height.1))),
    )

unfoldable pub check_display : DisplayConfig → Checked DisplayConfig
unfolding validate_f32_range
check_display d =
    let distance = validate_f32_range min_ipd max_ipd default_ipd ipd d.ipd in
    let photons =
      validate_f32_range 0 f0_1 default_vsync_to_photons vsync_to_photons
        d.seconds_from_vsync_to_photons in
    (
      record d { ipd = distance.0; seconds_from_vsync_to_photons = photons.0 },
      distance.1 ++ photons.1,
    )

-- The factor is taken out, with an error where it was set.
unfoldable pub drop_pixel_factor : VideoConfig → Checked VideoConfig
drop_pixel_factor v = (
  record v { bitrate_pixel_factor = none },
  if is_some v.bitrate_pixel_factor then bitrate_pixel_factor ∷ [] else [],
)

unfoldable pub check_face_tracking : FaceTrackingConfig → Checked FaceTrackingConfig
unfolding validate_f32_range
check_face_tracking f =
    let smooth = validate_f32_range 0 f0_99 f0_6 smoothing f.smoothing in
    (record f { smoothing = smooth.0 }, smooth.1)

unfoldable pub check_sleep : SleepModeConfig → Checked SleepModeConfig
unfolding validate_range validate_above_zero
check_sleep s =
    let timeout = validate_range 30 3600 300 timeout_seconds s.timeout_seconds in
    let bitrate = validate_range 1 200 8 sleep_bitrate_mbps s.sleep_bitrate_mbps in
    let motion = validate_above_zero f0_1 f0_002 motion_threshold s.motion_threshold in
    (
      record s {
        timeout_seconds = timeout.0;
        sleep_bitrate_mbps = bitrate.0;
        motion_threshold = motion.0;
      },
      timeout.1 ++ (bitrate.1 ++ motion.1),
    )

-- What is always the same is taken out, with an error where it asked for something else.
abbrev pub check_fixed : Field → ℕ → Option ℕ → List Field
check_fixed field fixed none = []
check_fixed field fixed (some v) = if v == fixed then [] else field ∷ []

unfoldable pub check_audio : AudioConfig → Checked AudioConfig
unfolding validate_range
check_audio a =
    let bitrate = validate_range 32 512 128 bitrate_kbps a.bitrate_kbps in
    (
      record a {
        frame_size_ms = none;
        sample_rate = none;
        channels = none;
        bitrate_kbps = bitrate.0;
      },
      check_fixed frame_size_ms 10 a.frame_size_ms
          ++ (check_fixed sample_rate 48_000 a.sample_rate
              ++ (check_fixed channels 2 a.channels ++ bitrate.1)),
    )

unfoldable pub check_pairing : PairingConfig → Checked PairingConfig
unfolding validate_range
check_pairing p =
    let attempts = validate_range 1 10 5 max_attempts p.max_attempts in
    let lockout = validate_range 300 3600 300 lockout_seconds p.lockout_seconds in
    (record { max_attempts = attempts.0; lockout_seconds = lockout.0 }, attempts.1 ++ lockout.1)

unfoldable pub check_memory : MemoryMonitorConfig → Checked MemoryMonitorConfig
unfolding validate_range
check_memory m =
    let poll = validate_range 10 3600 60 memory_poll_interval_seconds m.poll_interval_seconds in
    let growth = validate_range 1 100_000 50 growth_threshold_mb m.growth_threshold_mb in
    (
      record m { poll_interval_seconds = poll.0; growth_threshold_mb = growth.0 },
      poll.1 ++ growth.1,
    )

unfoldable pub check_source : AudioConfig → Checked AudioConfig
unfolding same
check_source a =
    let known =
      same a.synthetic_source off
      || same a.synthetic_source silence
      || same a.synthetic_source sine
      || same a.synthetic_source wav in
    let source = replace_if (not known) off synthetic_source a.synthetic_source in
    (record a { synthetic_source = source.0 }, source.1)

unfoldable pub check_foveated : FoveatedConfig → Checked FoveatedConfig
unfolding validate_range validate_above_zero
check_foveated f =
    let fovea = validate_above_zero f0_50 f0_15 fovea_radius f.fovea_radius in
    let mid =
      replace_if (le f.mid_radius fovea.0 || lt f1 f.mid_radius || is_nan f.mid_radius) f0_35
        mid_radius f.mid_radius in
    let mid_offset = validate_range 0 51 5 mid_qp_offset f.mid_qp_offset in
    let peripheral = validate_range 0 51 10 peripheral_qp_offset f.peripheral_qp_offset in
    (
      record f {
        fovea_radius = fovea.0;
        mid_radius = mid.0;
        mid_qp_offset = mid_offset.0;
        peripheral_qp_offset = peripheral.0;
      },
      fovea.1 ++ (mid.1 ++ (mid_offset.1 ++ peripheral.1)),
    )

unfoldable pub check_thermal_ranges : ThermalConfig → Checked ThermalConfig
unfolding validate_range
check_thermal_ranges t =
    let warn = validate_range 50 100 75 warn_celsius t.warn_celsius in
    let limit = validate_range 50 105 85 limit_celsius t.limit_celsius in
    let emergency = validate_range 50 110 90 emergency_celsius t.emergency_celsius in
    let poll = validate_range 1 600 5 thermal_poll_interval_seconds t.poll_interval_seconds in
    let recovery = validate_range 1 600 30 recovery_seconds t.recovery_seconds in
    (
      record t {
        warn_celsius = warn.0;
        limit_celsius = limit.0;
        emergency_celsius = emergency.0;
        poll_interval_seconds = poll.0;
        recovery_seconds = recovery.0;
      },
      warn.1 ++ (limit.1 ++ (emergency.1 ++ (poll.1 ++ recovery.1))),
    )

-- The warning is to be below the limit, and then the limit below the emergency.
unfoldable pub order_warn : ThermalConfig → Checked ThermalConfig
order_warn t =
    if leb t.limit_celsius t.warn_celsius
    then (record t { warn_celsius = 75; limit_celsius = 85 }, limit_celsius ∷ [])
    else (t, [])

unfoldable pub order_emergency : ThermalConfig → Checked ThermalConfig
order_emergency t =
    if leb t.emergency_celsius t.limit_celsius
    then (record t { limit_celsius = 85; emergency_celsius = 90 }, emergency_celsius ∷ [])
    else (t, [])

unfoldable pub check_thermal : ThermalConfig → Checked ThermalConfig
unfolding check_thermal_ranges order_warn order_emergency
check_thermal t =
    let ranged = check_thermal_ranges t in
    let warned = order_warn ranged.0 in
    let ordered = order_emergency warned.0 in (ordered.0, ranged.1 ++ (warned.1 ++ ordered.1))

-- The sections behind the network's, in the order of the code.
abbrev pub check_rest : AppConfig → Checked NetworkConfig → Checked AppConfig
check_rest c network =
    let video = check_video c.video in
    let display = check_display c.display in
    let factor = drop_pixel_factor video.0 in
    let face = check_face_tracking c.face_tracking in
    let sleep = check_sleep c.sleep_mode in
    let audio = check_audio c.audio in
    let pairing = check_pairing c.pairing in
    let memory = check_memory c.memory_monitor in
    let source = check_source audio.0 in
    let foveated = check_foveated c.foveated in
    let thermal = check_thermal c.thermal in
    (
      record c {
        network = network.0;
        video = factor.0;
        display = display.0;
        face_tracking = face.0;
        sleep_mode = sleep.0;
        audio = source.0;
        pairing = pairing.0;
        memory_monitor = memory.0;
        foveated = foveated.0;
        thermal = thermal.0;
      },
      network.1
          ++ (video.1
              ++ (display.1
                  ++ (factor.1
                      ++ (face.1
                          ++ (sleep.1
                              ++ (audio.1
                                  ++ (pairing.1
                                      ++ (memory.1
                                          ++ (source.1 ++ (foveated.1 ++ thermal.1)))))))))),
    )

abbrev pub after_network : AppConfig → Option (Checked NetworkConfig) → Option (Checked AppConfig)
after_network c none = none
after_network c (some network) = some (check_rest c network)

-- The settings as they are corrected, with the fields complained of; `none` is a panic.
unfoldable pub validate : AppConfig → Option (Checked AppConfig)
unfolding check_network
validate c = after_network c (check_network c.network)
