-- ===== src/Rtp/Packetizer.antt =====
-- `RtpPacketizer` of rtp.rs. A vector of buffers is a list with its last element first; the capacity
-- of a buffer is not modelled, only what it holds.
use focus_vision_pcvr.Prelude.{
  ℕ, ◌+◌, ◌-◌, ◌%◌, ◌^◌, Bool, List, [], ◌∷◌, ◌++◌, length, ltb, ◌==◌, if◌then◌else◌,
}
use focus_vision_pcvr.Prelude.Chunks.{chunks}
use focus_vision_pcvr.Rtp.Header.{write_rtp_header, write_fvp_header, max_payload, rtp_pt_h265}

-- The bytes of one datagram.
abbrev pub RtpPacket : Type 0
RtpPacket = List ℕ

pub record RtpPacketizer : Type 0 where
  pub ssrc : ℕ
  pub sequence : ℕ
  pub buf_pool : List (List ℕ)

unfoldable pub new : ℕ → RtpPacketizer
new ssrc = record { ssrc = ssrc; sequence = 0; buf_pool = [] }

unfoldable pub take_from : RtpPacketizer → List (List ℕ) → List ℕ × RtpPacketizer
take_from p [] = ([], p)
take_from p (buf ∷ rest) = ([], record p { buf_pool = rest })

-- A buffer of the pool is cleared before it is handed out; without one, a new one is made.
unfoldable pub take_buf : RtpPacketizer → List ℕ × RtpPacketizer
unfolding take_from
take_buf p = take_from p p.buf_pool

unfoldable pub recycle : RtpPacketizer → List RtpPacket → RtpPacketizer
recycle p [] = p
recycle p (pkt ∷ packets) = recycle (record p { buf_pool = pkt ∷ p.buf_pool }) packets

unfoldable pub next_sequence : RtpPacketizer → ℕ × RtpPacketizer
next_sequence p = (p.sequence, record p { sequence = (p.sequence + 1) % 2 ^ 16 })

-- One round of the loop over the chunks: packet `i` of `total_chunks`.
unfoldable pub packetize_one :
    RtpPacketizer → ℕ → ℕ → ℕ → Bool → ℕ → List ℕ → RtpPacket × RtpPacketizer
unfolding take_buf next_sequence
packetize_one p frame_index timestamp total_chunks is_keyframe i chunk =
    let (seq, p₁) = next_sequence p in
    let (buf, p₂) = take_buf p₁ in
    let headed = write_rtp_header buf rtp_pt_h265 (i == total_chunks - 1) seq timestamp p₂.ssrc in
    let flags : ℕ = if is_keyframe then 1 else 0 in
    (
      write_fvp_header headed frame_index (i % 2 ^ 16) (total_chunks % 2 ^ 16) flags
            (total_chunks % 2 ^ 16)
          ++ chunk,
      p₂,
    )

unfoldable pub packetize_loop :
    RtpPacketizer → ℕ → ℕ → ℕ → Bool → ℕ → List (List ℕ) → List RtpPacket × RtpPacketizer
packetize_loop p frame_index timestamp total_chunks is_keyframe i [] = ([], p)
packetize_loop p frame_index timestamp total_chunks is_keyframe i (chunk ∷ rest) =
    let (packet, p') = packetize_one p frame_index timestamp total_chunks is_keyframe i chunk in
    let (packets, p'') =
      packetize_loop p' frame_index timestamp total_chunks is_keyframe (i + 1) rest in
    (packet ∷ packets, p'')

-- A frame that is empty, or has too many chunks for the header's fields, gives no packet.
unfoldable pub packetize : RtpPacketizer → List ℕ → ℕ → ℕ → Bool → List RtpPacket × RtpPacketizer
unfolding packetize_loop packetize_one
packetize p frame_data frame_index timestamp is_keyframe =
    if length frame_data == 0
    then ([], p)
    else (let pieces = chunks max_payload frame_data in
        let total_chunks = length pieces in
        if ltb (2 ^ 16 - 1) total_chunks
        then ([], p)
        else packetize_loop p frame_index timestamp total_chunks is_keyframe 0 pieces)
