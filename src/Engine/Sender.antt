-- ===== src/Engine/Sender.antt =====
-- `VideoSender` of engine.rs: a frame, behind its pose, to the packets handed to the socket; the log of
-- when each was sent; and the frame's latency. The clock's readings, whether the tracker's lock is
-- free, and the order in which the map's entries come out newest first are arguments. The frame rate
-- is not zero, which the check of the settings ensures.
pub mod Received
mod Tests
use focus_vision_pcvr.Prelude.{
  ℕ, ◌+◌, ◌*◌, ◌/◌, ◌%◌, ◌^◌, Bool, true, false, Option, List, [], ◌∷◌, ◌++◌, length, take, get_or,
  ltb, leb, ◌==◌, if◌then◌else◌,
}
use focus_vision_pcvr.Protocol.FramePose.{Orientation}
use focus_vision_pcvr.Protocol.FramePose
use focus_vision_pcvr.Rtp.Packetizer.{RtpPacket, RtpPacketizer}
use focus_vision_pcvr.Rtp.Packetizer
use focus_vision_pcvr.Fec.Codec.{ReedSolomon, FloatOps}
use focus_vision_pcvr.Pipeline.Sliced.{FrameFecEncoder}
use focus_vision_pcvr.Pipeline.Sliced
use focus_vision_pcvr.Metrics.Latency.{FrameTimestamps, LatencyTracker, mark_send, record_frame}

pub record EncodedFrame : Type 0 where
  pub frame_index : ℕ
  pub nal_data : List ℕ
  pub is_idr : Bool
  pub timestamps : FrameTimestamps
  pub render_orientation : Option Orientation

-- A map from sequence number to sending time, each number once.
abbrev pub SentPacketLog : Type 0
SentPacketLog = List (ℕ × ℕ)

pub record VideoSender : Type 0 where
  pub packetizer : RtpPacketizer
  pub fec_encoder : FrameFecEncoder
  pub sent_packet_log : SentPacketLog
  pub frame_count : ℕ
  pub latency_skip_count : ℕ
  pub frame_pose : Bool

unfoldable pub new : ℕ → Bool → ℕ → Bool → VideoSender
unfolding Sliced.new Packetizer.new
new fec_redundancy slice_fec_enabled slice_count frame_pose = record {
  packetizer = Packetizer.new 0x4656_5000;
  fec_encoder = Sliced.new fec_redundancy slice_fec_enabled slice_count;
  sent_packet_log = [];
  frame_count = 0;
  latency_skip_count = 0;
  frame_pose = frame_pose;
}

unfoldable pub insert : ℕ → ℕ → SentPacketLog → SentPacketLog
insert seq sent [] = (seq, sent) ∷ []
insert seq sent ((seq', sent') ∷ log) =
    let rest = insert seq sent log in
    if seq == seq' then (seq, sent) ∷ log else (seq', sent') ∷ rest

unfoldable pub record_send_timestamps : ℕ → List RtpPacket → SentPacketLog → SentPacketLog
unfolding insert
record_send_timestamps send_us [] log = log
record_send_timestamps send_us (packet ∷ packets) log = record_send_timestamps send_us packets (
    if leb 4 (length packet)
    then insert (get_or packet 2 0 * 256 + get_or packet 3 0) send_us log
    else log)

-- Batch `i` is sent at `send_us i`.
unfoldable pub record_batches : (ℕ → ℕ) → ℕ → List (List RtpPacket) → SentPacketLog → SentPacketLog
unfolding record_send_timestamps
record_batches send_us i [] log = log
record_batches send_us i (packets ∷ batches) log =
    record_batches send_us (i + 1) batches (record_send_timestamps (send_us i) packets log)

-- Every 300 frames the newest 2500 of more than 5000 entries stay.
unfoldable pub prune_sent_packet_log_if_due :
    (SentPacketLog → SentPacketLog) → ℕ → SentPacketLog → SentPacketLog
prune_sent_packet_log_if_due newest_first frame_count log =
    if frame_count % 300 == 0
    then (if ltb 5000 (length log) then take 2500 (newest_first log) else log)
    else log

unfoldable pub timestamp_90khz : ℕ → ℕ → ℕ
timestamp_90khz frame_count framerate = frame_count * 90_000 % 2 ^ 64 / framerate % 2 ^ 32

unfoldable pub payload_of : Bool → EncodedFrame → List ℕ
unfolding FramePose.encode
payload_of frame_pose frame =
    if frame_pose
    then FramePose.encode frame.render_orientation ++ frame.nal_data
    else frame.nal_data

-- What a frame gives: the batches handed to the socket, the sender and the tracker.
abbrev pub Sent : Type 0
Sent = List (List RtpPacket) × VideoSender × LatencyTracker

module _ (fl : FloatOps) (rs : ReedSolomon) (newest_first : SentPacketLog → SentPacketLog) where
  -- `free`: whether the tracker's lock is.
  unfoldable pub send_frame :
      (ℕ → ℕ) → ℕ → Bool → ℕ → EncodedFrame → VideoSender → LatencyTracker → Sent
  unfolding payload_of timestamp_90khz record_batches prune_sent_packet_log_if_due
  send_frame send_us now free framerate frame s tracker =
      let (batches, fec_encoder, packetizer) =
        Sliced.encode fl rs s.fec_encoder (payload_of s.frame_pose frame) frame.frame_index
          (timestamp_90khz s.frame_count framerate) frame.is_idr s.packetizer in
      let skipped : ℕ = if free then 0 else 1 in
      (
        batches,
        record {
          packetizer = packetizer;
          fec_encoder = fec_encoder;
          sent_packet_log =
              prune_sent_packet_log_if_due newest_first s.frame_count
                (record_batches send_us 0 batches s.sent_packet_log);
          frame_count = (s.frame_count + 1) % 2 ^ 64;
          latency_skip_count = (s.latency_skip_count + skipped) % 2 ^ 64;
          frame_pose = s.frame_pose;
        },
        if free then record_frame (mark_send now frame.timestamps) tracker else tracker,
      )
