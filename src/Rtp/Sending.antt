-- ===== src/Rtp/Sending.antt =====
-- The packets of `packetize`, as the receiver reads them.
use focus_vision_pcvr.Prelude.{
  ℕ, ◌+◌, ◌-◌, ◌%◌, ◌^◌, ◌≤◌, ◌<◌, ◌≡◌, refl, Bool, true, false, List, [], ◌∷◌, arith, length, ◌==◌,
  if◌then◌else◌,
}
use native.Mathlib.Nat.{mod-eq_of_lt}
use focus_vision_pcvr.Rtp.Header.{rtp_pt_h265, is_keyframe}
use focus_vision_pcvr.Rtp.HeaderLaws.{packet}
use focus_vision_pcvr.Rtp.Packetizer.{RtpPacketizer, packetize_one, packetize_loop}
use focus_vision_pcvr.Rtp.Buffers.{take_buf_lem}
use focus_vision_pcvr.Rtp.Wire.{wire, shard_header}

abbrev pub keyframe_flag : Bool → ℕ
keyframe_flag k = if k then 1 else 0

module _ (total fi ts : ℕ) (k : Bool) where
  pub packetize_one-wire :
      (p : RtpPacketizer) (i : ℕ) (chunk : List ℕ)
      → total < 2 ^ 16
      → i < 2 ^ 16
      → ((packetize_one p fi ts total k i chunk).0
          ≡ packet rtp_pt_h265
              (i == total - 1)
              p.sequence
              ts
              p.ssrc
              (shard_header total total fi ts (keyframe_flag k) p.ssrc i)
              chunk)
        × ((packetize_one p fi ts total k i chunk).1.sequence ≡ (p.sequence + 1) % 2 ^ 16)
        × ((packetize_one p fi ts total k i chunk).1.ssrc ≡ p.ssrc)
  unfolding packetize_one
  packetize_one-wire p i chunk ht hi =
      let taken = take_buf_lem (record p { sequence = (p.sequence + 1) % 2 ^ 16 }) in
      rw (taken.0, taken.1, taken.2, mod-eq_of_lt ht, mod-eq_of_lt hi) (refl, refl, refl)

  pub packetize_loop-wire :
      (pieces : List (List ℕ)) (p : RtpPacketizer) (i : ℕ)
      → total < 2 ^ 16
      → i + length pieces ≤ total
      → (packetize_loop p fi ts total k i pieces).0
        ≡ wire total total fi ts (keyframe_flag k) p.ssrc p.sequence i pieces
  unfolding packetize_loop
  packetize_loop-wire [] p i ht h = refl
  packetize_loop-wire (chunk ∷ rest) p i ht h =
      let one = packetize_one-wire p i chunk ht (omega arith) in
      rw (
        one.0,
        packetize_loop-wire rest (packetize_one p fi ts total k i chunk).1 (i + 1) ht (omega arith),
        one.1,
        one.2,
      )

pub is_keyframe-flag :
    (total d fi ts ssrc i : ℕ) (k : Bool)
    → is_keyframe (shard_header total d fi ts (keyframe_flag k) ssrc i) ≡ k
unfolding is_keyframe
is_keyframe-flag total d fi ts ssrc i true = refl
is_keyframe-flag total d fi ts ssrc i false = refl

pub flag-small : (k : Bool) → keyframe_flag k < 256 ^ 2
flag-small true = omega arith
flag-small false = omega arith
