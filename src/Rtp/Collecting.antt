-- ===== src/Rtp/Collecting.antt =====
-- The depacketizer over the packets of one frame, in order.
use focus_vision_pcvr.Prelude.{
  ℕ, suc, ◌+◌, ◌-◌, ◌%◌, ◌^◌, ◌≤◌, ◌<◌, ◌≡◌, refl, sym, ap, subst, Bool, true, false, Option, none,
  some, List, [], ◌∷◌, ◌++◌, map, append_assoc, arith, length, length-append, set, replicate,
  concat, all_some, count_some, present, ◌==◌, ==_ne, ==_refl,
}
use focus_vision_pcvr.Rtp.Header.{FvpHeader, IsHeader, rtp_pt_h265, is_valid}
use focus_vision_pcvr.Rtp.HeaderLaws.{packet, read-packet, payload-packet, marker-packet}
use focus_vision_pcvr.Rtp.Wire.{wire, shard_header}
use focus_vision_pcvr.Rtp.Depacketizer.{
  RtpDepacketizer, begin_frame, store, finish, feed, feed_all, is_current,
}
use focus_vision_pcvr.Rtp.Sending.{keyframe_flag, is_keyframe-flag, flag-small}

-- The places of a frame whose first pieces have come.
abbrev filled : List (List ℕ) → ℕ → List (Option (List ℕ))
filled done lacking = map some done ++ replicate lacking none

set-filled :
    (done : List (List ℕ)) (lacking : ℕ) (c : List ℕ)
    → set (filled done (suc lacking)) (length done) (some c) ≡ filled (done ++ (c ∷ [])) lacking
set-filled [] lacking c = refl
set-filled (x ∷ done) lacking c = ap (◌∷◌ (some x)) (set-filled done lacking c)

all_some-filled :
    (done : List (List ℕ)) (lacking : ℕ) → all_some (filled done (suc lacking)) ≡ false
all_some-filled [] lacking = refl
all_some-filled (x ∷ done) lacking = all_some-filled done lacking

all_filled :
    (done : List (List ℕ))
    → (count_some (filled done 0) ≡ length done) × (present (filled done 0) ≡ done)
all_filled [] = (refl, refl)
all_filled (x ∷ done) = (ap suc (all_filled done).0, ap (◌∷◌ x) (all_filled done).1)

module _ (total fi ts ssrc : ℕ) (k : Bool) where
  abbrev header : ℕ → FvpHeader
  header i = shard_header total total fi ts (keyframe_flag k) ssrc i

  -- The depacketizer that has the first pieces of the frame.
  abbrev holding : List (List ℕ) → ℕ → RtpDepacketizer
  holding done lacking = record {
    current_frame_index = some fi;
    shards = filled done lacking;
    expected_count = total;
  }

  header-is_valid : (i : ℕ) → total ≤ 4096 → i < total → is_valid (header i) ≡ true
  unfolding is_valid
  header-is_valid i small hi = ground arith

  header-IsHeader : (i : ℕ) → total ≤ 4096 → i < total → fi < 2 ^ 32 → IsHeader (header i)
  header-IsHeader i small hi hfi = record {
    frame_index = hfi;
    shard_index = omega arith;
    shard_count = omega arith;
    flags = flag-small k;
    data_shard_count = omega arith;
  }

  -- A packet of the frame, once it is read.
  feed-packet :
      (d : RtpDepacketizer) (m : Bool) (seq i : ℕ) (c : List ℕ)
      → total ≤ 4096
      → i < total
      → fi < 2 ^ 32
      → feed d (packet rtp_pt_h265 m seq ts ssrc (header i) c)
        ≡ finish (store (begin_frame d (header i)) i c) m (header i)
  unfolding feed
  feed-packet d m seq i c small hi hfi =
      rw
        (
          read-packet rtp_pt_h265 m seq ts ssrc (header i) c (header-IsHeader i small hi hfi),
          header-is_valid i small hi,
          payload-packet rtp_pt_h265 m seq ts ssrc (header i) c,
          marker-packet m seq ts ssrc (header i) c,
        )
        refl

  feed-holding_more :
      (done : List (List ℕ)) (lacking seq : ℕ) (c : List ℕ)
      → total ≤ 4096
      → fi < 2 ^ 32
      → length done + suc (suc lacking) ≡ total
      → feed
          (holding done (suc (suc lacking)))
          (packet rtp_pt_h265 (length done == total - 1) seq ts ssrc (header (length done)) c)
        ≡ (holding (done ++ (c ∷ [])) (suc lacking), none)
  unfolding begin_frame store finish
  feed-holding_more done lacking seq c small hfi h =
      rw
        (
          feed-packet (holding done (suc (suc lacking))) (length done == total - 1) seq
              (length done) c small (omega arith) hfi,
          ==_refl fi,
          set-filled done (suc lacking) c,
          all_some-filled (done ++ (c ∷ [])) lacking,
          ==_ne (length done) (total - 1) (λ e. omega (arith, e, h)),
        )
        refl

  feed-holding_last :
      (done : List (List ℕ)) (seq : ℕ) (c : List ℕ)
      → total ≤ 4096
      → fi < 2 ^ 32
      → length done + 1 ≡ total
      → (feed
          (holding done 1)
          (packet rtp_pt_h265 (length done == total - 1) seq ts ssrc (header (length done)) c)).1
        ≡ some
            (record { frame_index = fi; is_keyframe = k; frame_data = concat (done ++ (c ∷ [])) })
  unfolding begin_frame store finish
  feed-holding_last done seq c small hfi h =
      let last : length done ≡ total - 1 = omega (arith, h) in
      let full = all_filled (done ++ (c ∷ [])) in
      let counted : count_some (filled (done ++ (c ∷ [])) 0) ≡ total =
        omega (arith, full.0, length-append done (c ∷ []), h) in
      rw
        (
          feed-packet (holding done 1) (length done == total - 1) seq (length done) c small
              (omega arith) hfi,
          ==_refl fi,
          set-filled done 0 c,
          last,
          ==_refl (total - 1),
          counted,
          ==_refl total,
          is_keyframe-flag total total fi ts ssrc (total - 1) k,
          full.1,
        )
        refl

  feed_all-holding :
      (done : List (List ℕ)) (c : List ℕ) (rest : List (List ℕ)) (seq : ℕ)
      → total ≤ 4096
      → fi < 2 ^ 32
      → length done + suc (length rest) ≡ total
      → (feed_all
          (holding done (suc (length rest)))
          (wire total total fi ts (keyframe_flag k) ssrc seq (length done) (c ∷ rest))).1
        ≡ record { frame_index = fi; is_keyframe = k; frame_data = concat (done ++ (c ∷ rest)) }
          ∷ []
  unfolding feed_all
  feed_all-holding done c [] seq small hfi h =
      rw (feed-holding_last done seq c small hfi (omega (arith, h))) refl
  feed_all-holding done c (c' ∷ rest) seq small hfi h =
      let longer : length (done ++ (c ∷ [])) ≡ length done + 1 = length-append done (c ∷ []) in
      rw
        (
          feed-holding_more done (length rest) seq c small hfi h,
          sym longer,
          feed_all-holding (done ++ (c ∷ [])) c' rest ((seq + 1) % 2 ^ 16) small hfi
              (omega (arith, length-append done (c ∷ []), h)),
          append_assoc done (c ∷ []) (c' ∷ rest),
        )
        refl

  feed_all-empty :
      (c : List ℕ) (rest : List (List ℕ)) (seq : ℕ)
      → total ≤ 4096
      → fi < 2 ^ 32
      → suc (length rest) ≡ total
      → (feed_all
          (holding [] total)
          (wire total total fi ts (keyframe_flag k) ssrc seq 0 (c ∷ rest))).1
        ≡ record { frame_index = fi; is_keyframe = k; frame_data = concat (c ∷ rest) } ∷ []
  feed_all-empty c rest seq small hfi h =
      subst
        (λ n.
          (feed_all (holding [] n)
            (wire total total fi ts (keyframe_flag k) ssrc seq 0 (c ∷ rest))).1
          ≡ record { frame_index = fi; is_keyframe = k; frame_data = concat (c ∷ rest) } ∷ [])
        h (feed_all-holding [] c rest seq small hfi (omega (arith, h)))

  -- Whatever the depacketizer held, the first packet of another frame starts that frame.
  feed-first :
      (d : RtpDepacketizer) (m : Bool) (seq : ℕ) (c : List ℕ)
      → total ≤ 4096
      → 0 < total
      → fi < 2 ^ 32
      → is_current d.current_frame_index fi ≡ false
      → feed d (packet rtp_pt_h265 m seq ts ssrc (header 0) c)
        ≡ feed (holding [] total) (packet rtp_pt_h265 m seq ts ssrc (header 0) c)
  unfolding begin_frame
  feed-first d m seq c small pos hfi other =
      rw
        (
          feed-packet d m seq 0 c small pos hfi,
          feed-packet (holding [] total) m seq 0 c small pos hfi,
          other,
          ==_refl fi,
        )
        refl

  pub feed_all-wire :
      (d : RtpDepacketizer) (pieces : List (List ℕ)) (seq : ℕ)
      → total ≤ 4096
      → 0 < total
      → fi < 2 ^ 32
      → length pieces ≡ total
      → is_current d.current_frame_index fi ≡ false
      → (feed_all d (wire total total fi ts (keyframe_flag k) ssrc seq 0 pieces)).1
        ≡ record { frame_index = fi; is_keyframe = k; frame_data = concat pieces } ∷ []
  unfolding feed_all
  feed_all-wire d [] seq small pos hfi h other = absurd (omega (arith, h))
  feed_all-wire d (c ∷ rest) seq small pos hfi h other =
      rw (feed-first d (0 == total - 1) seq c small pos hfi other)
        (feed_all-empty c rest seq small hfi h)
