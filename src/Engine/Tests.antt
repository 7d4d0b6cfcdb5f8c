-- ===== src/Engine/Tests.antt =====
-- The engine's theorems at concrete inputs.
use focus_vision_pcvr.Prelude.{ℕ, ◌≡◌, refl, true, false, none, some, List, [], ◌∷◌, arith}
use focus_vision_pcvr.Prelude.F64
use focus_vision_pcvr.Prelude.F32
use focus_vision_pcvr.Prelude.F32.Order.{le-number}
use focus_vision_pcvr.Adaptive.FecControl.Within.{IsNumeric}
use focus_vision_pcvr.Adaptive.FecControl
use focus_vision_pcvr.Fec.Codec.{FloatOps}
use focus_vision_pcvr.Pipeline.Sliced
use focus_vision_pcvr.Control.Framing.{Message, send_message, send_all}
use focus_vision_pcvr.Engine.Control.{
  Channel, open_at, HmdStats, heartbeat, bitrate_setting, connection_lost, client_requested,
}
use focus_vision_pcvr.Engine.Serve.{Wake, read, silence, sleeping, run}
use focus_vision_pcvr.Engine.Serve.Delivery.{deliver, run-deliver}
use focus_vision_pcvr.Engine.Serve.Rates.{IsPaced}
use focus_vision_pcvr.Engine.Serve.Rates.Runs.{channel_of, run-IsPaced}
use focus_vision_pcvr.Engine.Adaptive.{Settings, Floats, Driving, with_fec, fec_of, notify}
use focus_vision_pcvr.Engine.Adaptive
use focus_vision_pcvr.Engine.Adaptive.InStep.{IsDriven, start}
use focus_vision_pcvr.Engine.Adaptive.Runs.{Input, event, frame, drive, disturbed, drive-IsDriven}
use focus_vision_pcvr.Engine.Sessions
use focus_vision_pcvr.Engine.Sessions.{
  Connection, authenticated, failed, shut_down, session_cancelled, no_udp, reconnected, expired,
  Datagram, Round, new,
}
use focus_vision_pcvr.Engine.Sessions.Orderly.{IsOrderly}
use focus_vision_pcvr.Engine.Sessions.Rounds.{run-IsOrderly}
use focus_vision_pcvr.Engine.Sessions.Lasting.{run_lasts}

-- A request for a keyframe and a bitrate of 50 Mbps, and their bytes as they were read.
abbrev two_messages : List Message
two_messages =
    record { msg_type = 0x30; payload = [] }
    ∷ record { msg_type = 0x55; payload = 1 ∷ 50 ∷ 0 ∷ 0 ∷ 0 ∷ [] }
    ∷ []

-- Reads that cut across them, at different instants, with a sleep notice in between.
abbrev cut_reads : List (ℕ × Wake)
cut_reads =
    (5_000_000, read (0 ∷ 0x30 ∷ 6 ∷ 0 ∷ []))
    ∷ (5_100_000, sleeping true)
    ∷ (5_200_000, read (0 ∷ 0 ∷ 0x55 ∷ 1 ∷ 50 ∷ 0 ∷ []))
    ∷ (6_400_000, read (0 ∷ 0 ∷ []))
    ∷ []

abbrev fresh : Channel
fresh = record {
  last_config_update = 3_000_000;
  last_idr_time = 4_000_000;
  idr_suppressed = 0;
  recording_enabled = false;
  audio_recording_enabled = false;
  pc_encode_latency_us = 0;
  pc_total_latency_us = 0;
  calls = [];
}

run-deliver_example : run cut_reads (1 ∷ 0 ∷ 0 ∷ []) fresh ≡ deliver cut_reads 3 two_messages fresh
unfolding send_all send_message
run-deliver_example =
    run-deliver cut_reads two_messages (1 ∷ 0 ∷ 0 ∷ []) [] fresh (omega arith, (omega arith, tt))
      refl

-- A request for a keyframe, then two more, of which the first comes too early.
abbrev wakes : List (ℕ × Wake)
wakes =
    (5_000_000, read (1 ∷ 0 ∷ 0 ∷ 0 ∷ 0x30 ∷ []))
    ∷ (5_200_000, read (1 ∷ 0 ∷ 0 ∷ 0 ∷ 0x30 ∷ []))
    ∷ (5_500_000, read (1 ∷ 0 ∷ 0 ∷ 0 ∷ 0x30 ∷ []))
    ∷ (5_600_000, sleeping true)
    ∷ (9_000_000, silence)
    ∷ []

run-IsPaced_example : IsPaced (channel_of (run wakes [] (open_at 5_000_000 false false)))
run-IsPaced_example = run-IsPaced wakes 5_000_000 false false

abbrev plain_double : F64.Arithmetic
plain_double = record {
  of_nat = λ n. n;
  of_i32 = λ n. n;
  add = λ x y. x;
  sub = λ x y. x;
  mul = λ x y. x;
  div = λ x y. x;
}

abbrev plain_single : FecControl.Arithmetic
plain_single = record { add = λ x y. x; sub = λ x y. x; differs = λ x y. true }

abbrev plain_codec : FloatOps
plain_codec = record { mul_ceil = λ n r. n; differs = λ x y. true }

abbrev plain : Floats
plain = record {
  double = plain_double;
  single = plain_single;
  codec = plain_codec;
  times = λ bps m. bps;
}

abbrev settings : Settings
settings = record {
  adaptive_fec_enabled = true;
  fec_redundancy_min = 0x3d4c_cccd;
  fec_redundancy_max = 0x3ecc_cccd;
  fec_redundancy = 0x3e4c_cccd;
  bitrate_mbps = 80;
  gcc = true;
  sleep_enabled = true;
  motion_threshold = 0x3b03_126f;
  timeout_seconds = 300;
  sleep_bitrate_mbps = 8;
}

abbrev stats : HmdStats
stats = record { packets_received = 990; packets_lost = 10; avg_decode_us = 4000; fps = 90 }

-- A frame with a tick, a setting, a frame with a thermal ceiling, and a setting again.
abbrev inputs : List Input
inputs =
    event 100 (heartbeat stats)
    ∷ frame 1_000_000 true none none
    ∷ event 1_100_000 (bitrate_setting 50)
    ∷ frame 2_000_000 true (some 0x3f00_0000) (some (record { x = 0; y = 0; z = 0 }))
    ∷ event 2_100_000 (bitrate_setting 60)
    ∷ []

plain-IsNumeric : IsNumeric plain_single
plain-IsNumeric = record {
  difference = λ x y hx hy. (le-number 0 x hx.0).1;
  sum = λ x y hx hy. (le-number 0 x hx.0).1;
}

abbrev frames : Sliced.FrameFecEncoder
frames = Sliced.new 0x3e4c_cccd true 4

abbrev started : Driving
started = notify (record {
  adaptive = with_fec 0 settings (
      some (record {
        current_redundancy = 0x3e4c_cccd;
        min_redundancy = 0x3d4c_cccd;
        max_redundancy = 0x3ecc_cccd;
        max_change_per_step = FecControl.step;
        boost_active = false;
        last_adjustment = 0;
        adjustment_interval = 1_000_000;
      }));
  encoder_bps = 8_000_000;
  fec_encoder = frames;
})

starts : start 0 settings 8_000_000 frames ≡ some started
unfolding start Adaptive.new fec_of FecControl.new FecControl.clamp FecControl.limit F32.le F32.lt
    F32.is_nan
starts = refl

settings_number : F32.is_nan settings.fec_redundancy ≡ false
unfolding F32.is_nan
settings_number = refl

drive-IsDriven_example :
    IsDriven
      (disturbed plain (λ p q. 0) inputs false started)
      (drive plain (λ p q. 0) inputs started)
drive-IsDriven_example =
    drive-IsDriven plain (λ p q. 0) plain-IsNumeric inputs 0 settings 8_000_000 frames started
      settings_number starts

abbrev headset : Connection
headset = record { server = 1; peer = 7; frame_pose = true }

-- A failed accept; a session of a headset that is lost and comes back; and one that it leaves.
abbrev rounds : List Round
rounds =
    record {
      cancelled = false;
      backoff_cancelled = false;
      idle = [];
      listened = failed;
      during = [];
      ending = no_udp;
      held = expired;
    }
    ∷ record {
      cancelled = false;
      backoff_cancelled = false;
      idle = record { at_us = 5; source = 9; bytes = 2 ∷ 0 ∷ [] } ∷ [];
      listened = authenticated headset;
      during = record { at_us = 6; source = 9; bytes = 2 ∷ 0 ∷ [] } ∷ [];
      ending = session_cancelled (some connection_lost);
      held = reconnected headset;
    }
    ∷ record {
      cancelled = false;
      backoff_cancelled = false;
      idle = [];
      listened = failed;
      during = [];
      ending = session_cancelled (some client_requested);
      held = expired;
    }
    ∷ []

run-IsOrderly_example : IsOrderly (Sessions.run (λ a. a) rounds new).0
run-IsOrderly_example = run-IsOrderly (λ a. a) rounds

run_lasts_example : (Sessions.run (λ a. a) rounds new).1 ≡ true
run_lasts_example =
    run_lasts (λ a. a) rounds new
      (
        record {
          not_cancelled = refl;
          backoff_ends = refl;
          listening = refl;
          streaming = refl;
          holding = refl;
        },
        (
          record {
            not_cancelled = refl;
            backoff_ends = refl;
            listening = refl;
            streaming = refl;
            holding = refl;
          },
          (
            record {
              not_cancelled = refl;
              backoff_ends = refl;
              listening = refl;
              streaming = refl;
              holding = refl;
            },
            tt,
          ),
        ),
      )
