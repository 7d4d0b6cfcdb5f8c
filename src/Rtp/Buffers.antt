-- ===== src/Rtp/Buffers.antt =====
-- What the pool of buffers hands out: whatever was recycled into it, a buffer arrives empty.
use focus_vision_pcvr.Prelude.{ℕ, ◌≡◌, refl, List, [], ◌∷◌}
use focus_vision_pcvr.Rtp.Packetizer.{RtpPacketizer, take_from, take_buf}

take_from_lem :
    (p : RtpPacketizer) (pool : List (List ℕ))
    → ((take_from p pool).0 ≡ [])
      × ((take_from p pool).1.sequence ≡ p.sequence)
      × ((take_from p pool).1.ssrc ≡ p.ssrc)
unfolding take_from
take_from_lem p [] = (refl, refl, refl)
take_from_lem p (buf ∷ pool) = (refl, refl, refl)

pub take_buf_lem :
    (p : RtpPacketizer)
    → ((take_buf p).0 ≡ [])
      × ((take_buf p).1.sequence ≡ p.sequence)
      × ((take_buf p).1.ssrc ≡ p.ssrc)
unfolding take_buf
take_buf_lem p = take_from_lem p p.buf_pool
