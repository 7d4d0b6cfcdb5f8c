-- ===== src/Pipeline/Collect.antt =====
-- The receiver while the packets of one unsliced frame come in: what it does with each of them.
use focus_vision_pcvr.Prelude.{
  ℕ, ◌+◌, ◌≤◌, ◌<◌, ◌≡◌, ◌≢◌, refl, ◌∙◌, Bool, true, false, none, some, List, [], ◌∷◌, arith,
  length, length-set, append-nil, take, set, get_or, concat, if◌then◌else◌, leb, Bool-cases, inl,
  inr,
}
use focus_vision_pcvr.Protocol.Flags
use focus_vision_pcvr.Rtp.Header.{FvpHeader, is_keyframe}
use focus_vision_pcvr.Rtp.Depacketizer.{ReassembledFrame}
use focus_vision_pcvr.Fec.Codec.{Shard, ReedSolomon, count_true, Recovers}
use focus_vision_pcvr.Fec.Masks.{count_true-set}
use focus_vision_pcvr.Pipeline.Reassemble.{
  PendingFrame, Reassembler, reconstruct, complete, feed_frame,
}
use focus_vision_pcvr.Pipeline.Group.{group_with, accept-group_with, data_shards_of-group_with}

-- The header of packet `i` of the frame, whose code word has `total` shards and `d` data shards.
abbrev pub bulk_header : ℕ → Bool → ℕ → ℕ → ℕ → FvpHeader
bulk_header frame_index keyframe total d i = record {
  frame_index = frame_index;
  shard_index = i;
  shard_count = total;
  flags = Flags.encode_simple keyframe;
  data_shard_count = d;
}

pub slice_count-encode_simple : (k : Bool) → Flags.slice_count (Flags.encode_simple k) ≡ 0
unfolding Flags.slice_count Flags.encode_simple
slice_count-encode_simple true = refl
slice_count-encode_simple false = refl

pub is_keyframe-bulk_header :
    (fi : ℕ) (k : Bool) (total d i : ℕ) → is_keyframe (bulk_header fi k total d i) ≡ k
unfolding is_keyframe Flags.encode_simple
is_keyframe-bulk_header fi true total d i = refl
is_keyframe-bulk_header fi false total d i = refl

-- The frame of another index, or none at all, is being collected.
abbrev pub IsOther : ℕ → Reassembler → Type 0
IsOther fi none = Unit {0}
IsOther fi (some f) = f.frame_index ≢ fi

-- A code word as a packet sequence can carry it.
pub record IsSent (cw : List Shard) (d p n : ℕ) : Type 0 where
  pub data_shards : 0 < d
  pub parity_shards : 0 < p
  pub total : length cw ≡ d + p
  pub small : length cw ≤ 4096
  pub filled : 0 < n
  pub even : (i : ℕ) → i < length cw → length (get_or cw i []) ≡ n

module _ (fi : ℕ) (k : Bool) (cw : List Shard) (d n : ℕ) where
  -- The frame with the shards of the mask, before it is complete.
  abbrev pub frame_with : List Bool → PendingFrame
  frame_with mask = record {
    frame_index = fi;
    is_keyframe = k;
    slice_count = 0;
    groups = group_with cw d n mask ∷ [];
    delivered = false;
  }

  abbrev pub delivered_with : List Bool → PendingFrame
  delivered_with mask = record {
    frame_index = fi;
    is_keyframe = k;
    slice_count = 0;
    groups = (record (group_with cw d n mask) { shards = [] }) ∷ [];
    delivered = true;
  }

  abbrev pub whole_frame : ReassembledFrame
  whole_frame = record { frame_index = fi; is_keyframe = k; frame_data = concat (take d cw) }

module _ (rs : ReedSolomon) (fi : ℕ) (k : Bool) (cw : List Shard) (d p n : ℕ) where
  complete-group_with :
      (mask : List Bool)
      → IsSent cw d p n
      → length mask ≡ length cw
      → rs.new d p ≡ true
      → Recovers rs d p cw
      → complete rs (group_with cw d n mask) false ≡ (
          if leb d (count_true mask)
          then (record (group_with cw d n mask) {
            shards = [];
            decoded = some (concat (take d cw));
          })
          else group_with cw d n mask)
  unfolding complete reconstruct
  complete-group_with mask v hm made recovers = elim (Bool-cases (leb d (count_true mask))) [
    | inl e ↦ rw (
      e,
      data_shards_of-group_with rs cw d p n mask hm v.total v.parity_shards made recovers
          (ground arith),
    )
    | inr e ↦ rw e
  ]

  -- One packet while the frame is collected: a shard that is there already changes nothing, and the
  -- one that makes them `d` delivers the frame.
  pub feed_frame-frame_with :
      (mask : List Bool) (i : ℕ)
      → IsSent cw d p n
      → length mask ≡ length cw
      → rs.new d p ≡ true
      → Recovers rs d p cw
      → i < length cw
      → feed_frame rs
          (frame_with fi k cw d n mask)
          (bulk_header fi k (length cw) d i)
          0
          0
          (get_or cw i [])
        ≡ (if get_or mask i false
            then (frame_with fi k cw d n mask, none)
            else (if leb d (count_true mask + 1)
                then (delivered_with fi k cw d n (set mask i true), some (whole_frame fi k cw d n))
                else (frame_with fi k cw d n (set mask i true), none)))
  unfolding feed_frame
  feed_frame-frame_with mask i v hm made recovers hi = ground (
    arith,
    accept-group_with cw d n mask i hm hi (v.even i hi),
    complete-group_with (set mask i true) v (length-set mask i true ∙ hm) made recovers,
    count_true-set mask i (omega arith),
    append-nil (concat (take d cw)),
  )
