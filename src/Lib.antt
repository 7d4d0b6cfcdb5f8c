-- ===== src/Lib.antt =====
-- Focus Vision PCVR: the video transport, the control channel and the bitrate control of the streaming
-- engine that sends SteamVR's frames to a headset.
--
-- The program. The engine takes encoded frames from the driver. FrameFecEncoder chooses for each frame
-- how it is split into Reed-Solomon code words (bulk, cut into slices, or unprotected), pads it to
-- shards, adds parity and sends each shard as a packet with an RTP and an FVP header. The receiver
-- reads the headers, collects the shards by frame and by slice, and hands a frame over when enough
-- of them have come. On the control channel a headset connects, proves a PIN, is told the stream's
-- configuration and starts it; wrong PINs lock pairing out, and counters decide how long to wait
-- after a failed accept. While the stream runs, loss and delay reports move the bitrate between its
-- bounds. The engine ties these together: its loop accepts a headset, streams to it, and holds its
-- place after a lost connection; the control connection's messages reach the state that decides on
-- bitrate and redundancy.
--
-- Files, with the code that they model:
-- - Prelude and its children: Boolean tests, lists, options, results, machine words as little-endian
--   bytes, bit masks, chunks of a list, and floats as IEEE bit patterns (comparisons only).
-- - Protocol.Flags, Protocol.Hello, Protocol.FramePose, Protocol.ViewConfig, Protocol.Feedback:
--   rust/common/src/protocol.rs. FlagsLaws and the theorems in each file are the round trips.
-- - Rtp.Header, Rtp.Packetizer, Rtp.Depacketizer: rust/streaming-engine/src/transport/rtp.rs and the
--   sizes of rust/common/src/constants.rs; Rtp.HeaderLaws, Rtp.Buffers, Rtp.Wire, Rtp.Sending,
--   Rtp.Collecting and Rtp.RoundTrip follow a frame through them.
-- - Slice: rust/streaming-engine/src/transport/slice.rs, SliceSplitter::split.
-- - Fec.Encoder: rust/streaming-engine/src/transport/fec.rs, FecEncoder and FecDecoder. The crate
--   reed_solomon_erasure is the parameter ReedSolomon of Fec.Codec, with what is relied on of it as
--   named hypotheses (AcceptsCounts, IsErasureCode), and the two float operations are the parameter
--   FloatOps; Fec.Copies gives concrete ones.
-- - Pipeline.Layout, Pipeline.Encode, Pipeline.Sliced, Pipeline.Reassemble:
--   rust/streaming-engine/src/pipeline.rs, the sender (choose_fec_layout, FrameFecEncoder) and the
--   receiver (FecFrameReassembler); Pipeline.DecodePackets: decode_packets_to_frame; the other files of
--   Pipeline are their lemmas.
-- - Control.Pairing: rust/streaming-engine/src/control/pairing.rs, PairingState and the record on disk.
-- - Control.Reconnect: rust/streaming-engine/src/control/reconnect.rs.
-- - Control.Framing, Control.StreamConfig, Control.Handshake:
--   rust/streaming-engine/src/control/tcp_server.rs, read_message_generic and send_message_generic,
--   encode_stream_config (with compute_encoded_dims of config.rs), handle_handshake_generic;
--   Control.Listen: listen_and_accept of the same file.
-- - Adaptive.Arbitration, Adaptive.Controller:
--   rust/streaming-engine/src/adaptive/bitrate_controller.rs; Adaptive.Burst:
--   rust/streaming-engine/src/adaptive/burst_detector.rs; Adaptive.FecControl: AdaptiveFecController of
--   rust/streaming-engine/src/transport/fec.rs.
-- - Adaptive.Bandwidth, Adaptive.Gcc: bandwidth_estimator.rs and gcc_estimator.rs of
--   rust/streaming-engine/src/adaptive.
-- - Thermal: rust/streaming-engine/src/thermal.rs.
-- - Recording.Annexb, Recording.Wav: rust/streaming-engine/src/recording/mod.rs and audio.rs; Wav.Sizes
--   and Wav.Runs follow a WAV file through its writes, Annexb.Stream a stream of NAL units.
-- - Config, Config.Check, Config.Validate: rust/streaming-engine/src/config.rs, the settings, their
--   defaults and AppConfig::validate; Config.Ports, Config.Floats, Config.Valid and
--   Config.Fec are about the result.
-- - Engine: rust/streaming-engine/src/engine.rs. Engine.Inbox is take_control_message; Engine.Control,
--   Engine.Settings and Engine.Serve are handle_tcp_control with its handlers, Engine.Haptic the events
--   to the headset, Engine.FaceData parse_face_data of face_tracking/osc_bridge.rs. Serve.Delivery
--   is about reads cut anywhere, Serve.Rates about the limits in rate. Engine.Adaptive is AdaptiveState,
--   over the modules of Adaptive, and Adaptive.Frame under it the frame branch of run_session. Engine.Sessions is StreamingLoop, over Control.Reconnect and
--   Tracking.Receiver.
--   Engine.Sender is VideoSender, from a frame to its packets; Engine.Frames is what the driver asks for
--   between frames, and the sleep check.
-- - Metrics.Latency, Metrics.Memory: latency.rs and memory.rs of rust/streaming-engine/src/metrics.
-- - Tracking: rust/streaming-engine/src/tracking/receiver.rs.
-- - Sleep: rust/streaming-engine/src/sleep_mode.rs.
--
-- State is a record, and an operation that changes it returns the new one. Bytes and words are
-- natural numbers with the wrap-around written out. An Instant is a number of microseconds (in
-- Metrics.Latency of nanoseconds) and an argument of the operation that reads the clock; random
-- numbers are arguments too. A float is its bit pattern: comparisons are computed, and a product or
-- sum is a parameter.
--
-- Bounds and fuel: `chunks` runs on the length of its list, which is enough as each round takes at
-- least one element; the search for a slice count has 15 rounds at most, the search for the largest
-- code word 255. The loops over the inbox run on one more than its length, and each round that goes
-- on takes at least four bytes: Inbox.Laws and Serve.Segments show that more makes no difference.
-- Nothing else recurs but on its argument.
--
-- Not modelled: the engine's tasks, sockets, locks and TLS, the status file, the driver and the
-- client, file names and the purging of old files, the layers of the settings file, audio capture,
-- the telemetry but for latencies and memory, the companion application and the simulator. Buffer
-- capacities, full channels but for the driver's and log lines are left out, a write to a socket or
-- to the pairing file succeeds, and a read that runs into a time limit is one that finds too few
-- bytes. Sums and differences of machine words wrap around as in a release build.
pub mod Prelude
pub mod Protocol
pub mod Rtp
pub mod Slice
pub mod Fec
pub mod Pipeline
pub mod Control
pub mod Adaptive
pub mod Sleep
pub mod Tracking
pub mod Thermal
pub mod Metrics
pub mod Recording
pub mod Config
pub mod Engine
