-- ===== src/Pipeline/Delivery.antt =====
-- The receiver over any sequence of packets of one unsliced frame.
use focus_vision_pcvr.Prelude.{
  ℕ, zero, suc, ◌+◌, ◌≤◌, ◌<◌, ◌≡◌, refl, ◌∙◌, Bool, true, false, none, some, List, [], ◌∷◌, arith,
  length, length-set, length-replicate, replicate, map, drop, set, get_or, All, if◌then◌else◌, leb,
  ==_ne, Bool-cases, inl, inr,
}
use focus_vision_pcvr.Rtp.Header.{read_fvp_header, is_valid, packet_header_len}
use focus_vision_pcvr.Rtp.Packetizer.{RtpPacket}
use focus_vision_pcvr.Fec.Codec.{Shard, ReedSolomon, count_true, Recovers}
use focus_vision_pcvr.Fec.Masks.{count_true-set, count_true_none, set_taken}
use focus_vision_pcvr.Pipeline.Reassemble.{
  PendingFrame, Reassembler, feed_frame, feed_header, feed, feed_all, frame_for, fresh_frame,
  no_shards,
}
use focus_vision_pcvr.Pipeline.Group.{no_marks, accept-no_shards, accept-group_with}
use focus_vision_pcvr.Pipeline.Collect.{
  bulk_header, slice_count-encode_simple, is_keyframe-bulk_header, IsOther, IsSent, frame_with,
  delivered_with, whole_frame, feed_frame-frame_with,
}

-- Which shards have come, after the packets of these indices too.
unfoldable pub mark : List Bool → List ℕ → List Bool
mark mask [] = mask
mark mask (i ∷ is) = mark (set mask i true) is

pub length-mark : (mask : List Bool) (is : List ℕ) → length (mark mask is) ≡ length mask
unfolding mark
length-mark mask [] = refl
length-mark mask (i ∷ is) = length-mark (set mask i true) is ∙ length-set mask i true

count_true-le-set : (mask : List Bool) (i : ℕ) → count_true mask ≤ count_true (set mask i true)
count_true-le-set [] i = omega arith
count_true-le-set (true ∷ mask) zero = omega arith
count_true-le-set (false ∷ mask) zero = omega arith
count_true-le-set (true ∷ mask) (suc i) = omega (arith, count_true-le-set mask i)
count_true-le-set (false ∷ mask) (suc i) = count_true-le-set mask i

count_true-le-mark : (mask : List Bool) (is : List ℕ) → count_true mask ≤ count_true (mark mask is)
unfolding mark
count_true-le-mark mask [] = omega arith
count_true-le-mark mask (i ∷ is) =
    omega (arith, count_true-le-set mask i, count_true-le-mark (set mask i true) is)

get_or-replicate : (i n : ℕ) → get_or (replicate n false) i false ≡ false
get_or-replicate zero zero = refl
get_or-replicate zero (suc n) = refl
get_or-replicate (suc i) zero = refl
get_or-replicate (suc i) (suc n) = get_or-replicate i n

module _ (rs : ReedSolomon) (fi : ℕ) (k : Bool) (cw : List Shard) (d p n : ℕ) where
  header-is_valid :
      (i : ℕ) → IsSent cw d p n → i < length cw → is_valid (bulk_header fi k (length cw) d i) ≡ true
  unfolding is_valid
  header-is_valid i v hi = ground (arith, v.total)

  -- A packet of the frame, once the header is read.
  feed_header-bulk :
      (r : Reassembler) (i : ℕ)
      → IsSent cw d p n
      → i < length cw
      → feed_header rs r (bulk_header fi k (length cw) d i) (get_or cw i []) ≡ (
          let (f, out) =
            feed_frame rs
              (frame_for r (bulk_header fi k (length cw) d i) 0)
              (bulk_header fi k (length cw) d i)
              0
              0
              (get_or cw i []) in
          (some f, out))
  unfolding feed_header
  feed_header-bulk r i v hi =
      rw (slice_count-encode_simple k, header-is_valid i v hi, v.even i hi, ==_ne n 0 (omega arith))

  frame_for_same :
      (f : PendingFrame) (i : ℕ)
      → f.frame_index ≡ fi
      → frame_for (some f) (bulk_header fi k (length cw) d i) 0 ≡ f
  unfolding frame_for
  frame_for_same f i e = ground arith

  frame_for_other :
      (r : Reassembler) (i : ℕ)
      → IsOther fi r
      → frame_for r (bulk_header fi k (length cw) d i) 0 ≡ record {
        frame_index = fi;
        is_keyframe = k;
        slice_count = 0;
        groups = no_shards ∷ [];
        delivered = false;
      }
  unfolding frame_for fresh_frame
  frame_for_other none i other = rw (is_keyframe-bulk_header fi k (length cw) d i)
  frame_for_other (some f) i other =
      rw (==_ne f.frame_index fi other, is_keyframe-bulk_header fi k (length cw) d i)

  -- The first packet of a frame finds the state that has none of its shards.
  feed_header_first :
      (r : Reassembler) (i : ℕ)
      → IsSent cw d p n
      → IsOther fi r
      → i < length cw
      → feed_header rs r (bulk_header fi k (length cw) d i) (get_or cw i [])
        ≡ feed_header rs
            (some (frame_with fi k cw d n (no_marks cw d n)))
            (bulk_header fi k (length cw) d i)
            (get_or cw i [])
  unfolding feed_frame
  feed_header_first r i v other hi = rw (
    feed_header-bulk r i v hi,
    feed_header-bulk (some (frame_with fi k cw d n (no_marks cw d n))) i v hi,
    frame_for_other r i other,
    frame_for_same (frame_with fi k cw d n (no_marks cw d n)) i refl,
    accept-no_shards cw d n i hi (v.even i hi),
    accept-group_with cw d n (no_marks cw d n) i (length-replicate (length cw) false) hi
        (v.even i hi),
    get_or-replicate i (length cw),
  )

  feed-delivered :
      (f : PendingFrame) (i : ℕ)
      → IsSent cw d p n
      → i < length cw
      → f.frame_index ≡ fi
      → f.delivered ≡ true
      → feed_header rs (some f) (bulk_header fi k (length cw) d i) (get_or cw i []) ≡ (some f, none)
  unfolding feed_frame
  feed-delivered f i v hi e done = rw (feed_header-bulk (some f) i v hi, frame_for_same f i e, done)

  -- Packet `i` of the frame, as the receiver reads it.
  abbrev pub ArePackets : (ℕ → RtpPacket) → Type 0
  ArePackets pk =
      (i : ℕ)
      → i < length cw
      → (read_fvp_header (pk i) ≡ some (bulk_header fi k (length cw) d i))
        × (drop packet_header_len (pk i) ≡ get_or cw i [])

  module _ (pk : ℕ → RtpPacket) (reads : ArePackets pk) (v : IsSent cw d p n) where
    feed-packet :
        (r : Reassembler) (i : ℕ)
        → i < length cw
        → feed rs r (pk i) ≡ feed_header rs r (bulk_header fi k (length cw) d i) (get_or cw i [])
    unfolding feed
    feed-packet r i hi = rw ((reads i hi).0, (reads i hi).1)

    feed_all-delivered :
        (is : List ℕ) (f : PendingFrame)
        → All (λ i. i < length cw) is
        → f.frame_index ≡ fi
        → f.delivered ≡ true
        → (feed_all rs (some f) (map pk is)).1 ≡ []
    unfolding feed_all
    feed_all-delivered [] f hs e done = refl
    feed_all-delivered (i ∷ is) f hs e done =
        rw (feed-packet (some f) i hs.0, feed-delivered f i v hs.0 e done)
          (feed_all-delivered is f hs.1 e done)

    module _ (made : rs.new d p ≡ true) (recovers : Recovers rs d p cw) where
      feed-collecting :
          (mask : List Bool) (i : ℕ)
          → length mask ≡ length cw
          → i < length cw
          → feed rs (some (frame_with fi k cw d n mask)) (pk i) ≡ (
              if get_or mask i false
              then (some (frame_with fi k cw d n mask), none)
              else (if leb d (count_true mask + 1)
                  then (
                    some (delivered_with fi k cw d n (set mask i true)),
                    some (whole_frame fi k cw d n),
                  )
                  else (some (frame_with fi k cw d n (set mask i true)), none)))
      feed-collecting mask i hm hi = ground (
        arith,
        feed-packet (some (frame_with fi k cw d n mask)) i hi,
        feed_header-bulk (some (frame_with fi k cw d n mask)) i v hi,
        frame_for_same (frame_with fi k cw d n mask) i refl,
        feed_frame-frame_with rs fi k cw d p n mask i v hm made recovers hi,
      )

      -- From a state that still lacks some: the frame comes out once, as soon as `d` of its packets
      -- are there.
      feed_all-collecting :
          (is : List ℕ) (mask : List Bool)
          → All (λ i. i < length cw) is
          → length mask ≡ length cw
          → count_true mask < d
          → (feed_all rs (some (frame_with fi k cw d n mask)) (map pk is)).1
            ≡ (if leb d (count_true (mark mask is)) then whole_frame fi k cw d n ∷ [] else [])
      unfolding feed_all mark
      feed_all-collecting [] mask hs hm lack = ground arith
      feed_all-collecting (i ∷ is) mask hs hm lack = elim (Bool-cases (get_or mask i false)) [
        | inl there ↦
            rw (feed-collecting mask i hm hs.0, there, set_taken mask i there)
              (feed_all-collecting is mask hs.1 hm lack)
        | inr new ↦ elim (Bool-cases (leb d (count_true mask + 1))) [
          | inl last ↦
              rw
                (
                  feed-collecting mask i hm hs.0,
                  new,
                  last,
                  feed_all-delivered is (delivered_with fi k cw d n (set mask i true)) hs.1 refl
                      refl,
                )
                (ground (arith, count_true-le-mark (set mask i true) is, count_true-set mask i))
          | inr more ↦
              rw (feed-collecting mask i hm hs.0, new, more)
                (feed_all-collecting is (set mask i true) hs.1 (length-set mask i true ∙ hm)
                  (ground (arith, count_true-set mask i)))
        ]
      ]

      -- From a state of another frame, over packets in any order and with repetitions.
      pub feed_all-other :
          (is : List ℕ) (r : Reassembler)
          → All (λ i. i < length cw) is
          → IsOther fi r
          → (feed_all rs r (map pk is)).1 ≡ (
              if leb d (count_true (mark (no_marks cw d n) is))
              then whole_frame fi k cw d n ∷ []
              else [])
      unfolding feed_all mark
      feed_all-other [] r hs other = ground (arith, count_true_none (length cw), v.data_shards)
      feed_all-other (i ∷ is) r hs other =
          rw (feed-packet r i hs.0, feed_header_first r i v other hs.0, ← feed-packet _ i hs.0)
            (feed_all-collecting (i ∷ is) (no_marks cw d n) hs (length-replicate (length cw) false)
              (ground (arith, count_true_none (length cw), v.data_shards)))
