-- ===== src/Config/Tests.antt =====
-- The theorems on the settings at concrete inputs.
use focus_vision_pcvr.Prelude.{◌<◌, ◌^◌, ◌≡◌, ◌↔◌, refl, none, some, [], ◌∷◌, arith}
use focus_vision_pcvr.Prelude.F32.{lt, le, is_nan, is_finite}
use focus_vision_pcvr.Config.{AppConfig, default_config, default_network, f0_50, f0_6}
use focus_vision_pcvr.Config.Check.{udp_port, fec_bounds}
use focus_vision_pcvr.Config.Validate.{
  check_video, check_display, drop_pixel_factor, check_face_tracking, check_sleep, check_audio,
  check_pairing, check_memory, check_source, check_foveated, check_thermal, validate,
}
use focus_vision_pcvr.Config.Valid.{IsValid, validate-IsValid}
use focus_vision_pcvr.Config.Fec.{IsGap, validate-panics}

-- The UDP port is the TCP port.
abbrev clashing : AppConfig
clashing = record default_config { network = record default_network { udp_port = 9944 } }

validated : validate clashing ≡ some (default_config, udp_port ∷ [])
unfolding validate default_config check_video check_display drop_pixel_factor check_face_tracking
    check_sleep check_audio check_pairing check_memory check_source check_foveated check_thermal
    is_nan is_finite lt le
validated = refl

small_tcp : clashing.network.tcp_port < 2 ^ 16
unfolding default_network
small_tcp = omega arith

small_udp : clashing.network.udp_port < 2 ^ 16
small_udp = omega arith

validate-IsValid_example : IsValid default_config
validate-IsValid_example =
    validate-IsValid clashing default_config (udp_port ∷ []) small_tcp small_udp validated

-- A minimum of 0.6 above a maximum of 0.5.
abbrev gap : AppConfig
gap = record default_config {
  network = record default_network { fec_redundancy_min = f0_6; fec_redundancy_max = f0_50 };
}

validate-panics_example : (validate gap ≡ none) ↔ IsGap (fec_bounds gap.network)
validate-panics_example = validate-panics gap
