-- ===== src/Config.antt =====
-- The settings of rust/streaming-engine/src/config.rs and their defaults. A float is its bit pattern, a
-- string its bytes, and a signed offset the pattern of its 32 bits.
pub mod Check
pub mod Validate
pub mod Ports
pub mod Fec
pub mod Floats
pub mod Valid
mod Tests
use focus_vision_pcvr.Prelude.{ℕ, Bool, true, false, Option, none, some, List, [], ◌∷◌}
use focus_vision_pcvr.Control.StreamConfig.{VideoCodec, h264, h265}
use focus_vision_pcvr.Thermal.{ThermalConfig}

pub record NetworkConfig : Type 0 where
  pub tcp_port : ℕ
  pub udp_port : ℕ
  pub fec_redundancy : ℕ
  pub fec_redundancy_min : ℕ
  pub fec_redundancy_max : ℕ
  pub adaptive_fec_enabled : Bool
  pub congestion_control : List ℕ
  pub slice_fec_enabled : Bool
  pub slice_count : ℕ

pub record VideoConfig : Type 0 where
  pub codec : VideoCodec
  pub bitrate_mbps : ℕ
  pub width_per_eye : ℕ
  pub height_per_eye : ℕ
  pub framerate : ℕ
  pub full_range : Bool
  pub resolution_scale : ℕ
  pub bitrate_pixel_factor : Option ℕ

pub record AudioConfig : Type 0 where
  pub enabled : Bool
  pub bitrate_kbps : ℕ
  pub frame_size_ms : Option ℕ
  pub sample_rate : Option ℕ
  pub channels : Option ℕ
  pub synthetic_source : List ℕ
  pub synthetic_wav_path : List ℕ

pub record PairingConfig : Type 0 where
  pub max_attempts : ℕ
  pub lockout_seconds : ℕ

pub record DisplayConfig : Type 0 where
  pub ipd : ℕ
  pub seconds_from_vsync_to_photons : ℕ

pub data FoveatedPreset : Type 0 where
  subtle : FoveatedPreset
  balanced : FoveatedPreset
  aggressive : FoveatedPreset
  custom : FoveatedPreset

pub record FoveatedConfig : Type 0 where
  pub enabled : Bool
  pub fovea_radius : ℕ
  pub mid_radius : ℕ
  pub mid_qp_offset : ℕ
  pub peripheral_qp_offset : ℕ
  pub preset : FoveatedPreset

pub record FaceTrackingConfig : Type 0 where
  pub enabled : Bool
  pub smoothing : ℕ
  pub osc_port : ℕ
  pub active_profile : List ℕ

pub record SleepModeConfig : Type 0 where
  pub enabled : Bool
  pub timeout_seconds : ℕ
  pub motion_threshold : ℕ
  pub sleep_bitrate_mbps : ℕ

pub record MemoryMonitorConfig : Type 0 where
  pub enabled : Bool
  pub poll_interval_seconds : ℕ
  pub growth_threshold_mb : ℕ

pub record RecordingConfig : Type 0 where
  pub enabled : Bool
  pub output_dir : List ℕ
  pub retention_days : ℕ

pub record AppConfig : Type 0 where
  pub network : NetworkConfig
  pub video : VideoConfig
  pub audio : AudioConfig
  pub pairing : PairingConfig
  pub display : DisplayConfig
  pub foveated : FoveatedConfig
  pub face_tracking : FaceTrackingConfig
  pub sleep_mode : SleepModeConfig
  pub memory_monitor : MemoryMonitorConfig
  pub recording : RecordingConfig
  pub thermal : ThermalConfig

-- "gcc", "loss", and the sources of synthetic audio.
abbrev pub gcc : List ℕ
gcc = 0x67 ∷ 0x63 ∷ 0x63 ∷ []

abbrev pub loss : List ℕ
loss = 0x6c ∷ 0x6f ∷ 0x73 ∷ 0x73 ∷ []

abbrev pub off : List ℕ
off = 0x6f ∷ 0x66 ∷ 0x66 ∷ []

abbrev pub silence : List ℕ
silence = 0x73 ∷ 0x69 ∷ 0x6c ∷ 0x65 ∷ 0x6e ∷ 0x63 ∷ 0x65 ∷ []

abbrev pub sine : List ℕ
sine = 0x73 ∷ 0x69 ∷ 0x6e ∷ 0x65 ∷ []

abbrev pub wav : List ℕ
wav = 0x77 ∷ 0x61 ∷ 0x76 ∷ []

abbrev pub default_tcp_port : ℕ
default_tcp_port = 9944

abbrev pub default_udp_port : ℕ
default_udp_port = 9945

abbrev pub f0_05 : ℕ
f0_05 = 0x3d4c_cccd

abbrev pub f0_40 : ℕ
f0_40 = 0x3ecc_cccd

abbrev pub f0_50 : ℕ
f0_50 = 0x3f00_0000

abbrev pub f1 : ℕ
f1 = 0x3f80_0000

abbrev pub f0_002 : ℕ
f0_002 = 0x3b03_126f

abbrev pub f0_15 : ℕ
f0_15 = 0x3e19_999a

abbrev pub f0_35 : ℕ
f0_35 = 0x3eb3_3333

abbrev pub f0_6 : ℕ
f0_6 = 0x3f19_999a

abbrev pub default_ipd : ℕ
default_ipd = 0x3d81_0625

abbrev pub default_vsync_to_photons : ℕ
default_vsync_to_photons = 0x3c34_3958

-- 0.2
abbrev pub default_fec_redundancy : ℕ
default_fec_redundancy = 0x3e4c_cccd

unfoldable pub default_network : NetworkConfig
default_network = record {
  tcp_port = default_tcp_port;
  udp_port = default_udp_port;
  fec_redundancy = default_fec_redundancy;
  fec_redundancy_min = f0_05;
  fec_redundancy_max = f0_40;
  adaptive_fec_enabled = true;
  congestion_control = gcc;
  slice_fec_enabled = true;
  slice_count = 4;
}

unfoldable pub default_video : VideoConfig
default_video = record {
  codec = h265;
  bitrate_mbps = 80;
  width_per_eye = 1832;
  height_per_eye = 1920;
  framerate = 90;
  full_range = true;
  resolution_scale = f1;
  bitrate_pixel_factor = none;
}

unfoldable pub default_audio : AudioConfig
default_audio = record {
  enabled = true;
  bitrate_kbps = 128;
  frame_size_ms = none;
  sample_rate = none;
  channels = none;
  synthetic_source = off;
  synthetic_wav_path = [];
}

unfoldable pub default_foveated : FoveatedConfig
default_foveated = record {
  enabled = false;
  fovea_radius = f0_15;
  mid_radius = f0_35;
  mid_qp_offset = 5;
  peripheral_qp_offset = 15;
  preset = balanced;
}

unfoldable pub default_thermal : ThermalConfig
default_thermal = record {
  enabled = false;
  poll_interval_seconds = 5;
  warn_celsius = 75;
  limit_celsius = 85;
  emergency_celsius = 90;
  recovery_seconds = 30;
}

unfoldable pub default_config : AppConfig
unfolding default_network default_video default_audio default_foveated default_thermal
default_config = record {
  network = default_network;
  video = default_video;
  audio = default_audio;
  pairing = record { max_attempts = 5; lockout_seconds = 300 };
  display = record { ipd = default_ipd; seconds_from_vsync_to_photons = default_vsync_to_photons };
  foveated = default_foveated;
  face_tracking = record { enabled = true; smoothing = f0_6; osc_port = 9000; active_profile = [] };
  sleep_mode = record {
    enabled = true;
    timeout_seconds = 300;
    motion_threshold = f0_002;
    sleep_bitrate_mbps = 8;
  };
  memory_monitor = record { enabled = true; poll_interval_seconds = 60; growth_threshold_mb = 50 };
  recording = record { enabled = false; output_dir = []; retention_days = 30 };
  thermal = default_thermal;
}

-- The offsets of a preset, for the middle and the periphery.
unfoldable pub qp_offsets : FoveatedPreset → Option (ℕ × ℕ)
qp_offsets subtle = some (3, 8)
qp_offsets balanced = some (5, 15)
qp_offsets aggressive = some (8, 25)
qp_offsets custom = none

abbrev or_manual : Option (ℕ × ℕ) → FoveatedConfig → ℕ × ℕ
or_manual none c = (c.mid_qp_offset, c.peripheral_qp_offset)
or_manual (some offsets) c = offsets

unfoldable pub effective_qp_offsets : FoveatedConfig → ℕ × ℕ
unfolding qp_offsets
effective_qp_offsets c = or_manual (qp_offsets c.preset) c
