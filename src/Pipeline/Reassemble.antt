-- ===== src/Pipeline/Reassemble.antt =====
-- The receiving half of pipeline.rs: `ShardGroup`, `PendingFrame` and `FecFrameReassembler`.
use focus_vision_pcvr.Prelude.{
  ℕ, ◌+◌, ◌-◌, max, Bool, true, false, not, ◌&&◌, ◌||◌, Option, none, some, List, [], ◌∷◌, ◌++◌,
  length, take, drop, set, get_or, replicate, concat, is_some, all_some, present, Result, ok, err,
  ltb, leb, ◌==◌, if◌then◌else◌,
}
use focus_vision_pcvr.Prelude.Words.{le_at}
use focus_vision_pcvr.Protocol.Flags
use focus_vision_pcvr.Rtp.Header.{
  FvpHeader, read_fvp_header, is_valid, is_keyframe, packet_header_len,
}
use focus_vision_pcvr.Rtp.Packetizer.{RtpPacket}
use focus_vision_pcvr.Rtp.Depacketizer.{ReassembledFrame}
use focus_vision_pcvr.Fec.Codec.{Shard, ReedSolomon}
use focus_vision_pcvr.Fec.Encoder.{FecError, decode}

pub record ShardGroup : Type 0 where
  pub shard_count : ℕ
  pub data_shard_count : ℕ
  pub shard_len : ℕ
  pub shards : List (Option Shard)
  pub received : ℕ
  pub decoded : Option (List ℕ)
  pub failed : Bool

-- `ShardGroup::default()`
abbrev pub no_shards : ShardGroup
no_shards = record {
  shard_count = 0;
  data_shard_count = 0;
  shard_len = 0;
  shards = [];
  received = 0;
  decoded = none;
  failed = false;
}

-- The first packet of a group fixes its counts.
unfoldable pub set_counts : ShardGroup → ℕ → ℕ → List ℕ → ShardGroup
set_counts g shard_count data_count payload =
    if g.shard_count == 0
    then (record g {
      shard_count = shard_count;
      data_shard_count = data_count;
      shard_len = length payload;
      shards = replicate shard_count none;
    })
    else g

-- The packet agrees with the counts that the group has.
unfoldable pub fits : ShardGroup → ℕ → ℕ → List ℕ → Bool
fits g shard_count data_count payload =
    g.shard_count == 0
    || (g.shard_count == shard_count
        && g.data_shard_count == data_count
        && g.shard_len == length payload)

-- `none` for a packet that does not fit the group, or an index that is there already.
unfoldable pub accept : ShardGroup → ℕ → ℕ → ℕ → List ℕ → Option ShardGroup
unfolding set_counts fits
accept g shard_index shard_count data_count payload =
    if not (fits g shard_count data_count payload)
    then none
    else (let g' = set_counts g shard_count data_count payload in
        if is_some (get_or g'.shards shard_index none)
        then none
        else some (record g' {
          shards = set g'.shards shard_index (some payload);
          received = g'.received + 1;
        }))

abbrev pub or_none : Result FecError (List Shard) → Option (List Shard)
or_none (ok shards) = some shards
or_none (err e) = none

-- The data behind its length prefix, cut to that length.
unfoldable pub strip_prefix : List ℕ → Option (List ℕ)
strip_prefix bytes =
    if ltb (length bytes) 4
    then none
    else (if ltb (length bytes - 4) (le_at 4 0 bytes)
        then none
        else some (drop 4 (take (4 + le_at 4 0 bytes) bytes)))

abbrev pub joined : Bool → Option (List Shard) → Option (List ℕ)
joined has_len_prefix none = none
joined has_len_prefix (some data_shards) =
    if has_len_prefix then strip_prefix (concat data_shards) else some (concat data_shards)

-- `PendingFrame`
pub record PendingFrame : Type 0 where
  pub frame_index : ℕ
  pub is_keyframe : Bool
  pub slice_count : ℕ
  pub groups : List ShardGroup
  pub delivered : Bool

-- `FecFrameReassembler`: the frame that is being collected.
abbrev pub Reassembler : Type 0
Reassembler = Option PendingFrame

unfoldable pub fresh_frame : FvpHeader → ℕ → PendingFrame
fresh_frame h slice_count = record {
  frame_index = h.frame_index;
  is_keyframe = is_keyframe h;
  slice_count = slice_count;
  groups = replicate (max slice_count 1) no_shards;
  delivered = false;
}

-- A new frame index abandons the frame before it.
unfoldable pub frame_for : Reassembler → FvpHeader → ℕ → PendingFrame
unfolding fresh_frame
frame_for none h slice_count = fresh_frame h slice_count
frame_for (some f) h slice_count =
    if f.frame_index == h.frame_index then f else fresh_frame h slice_count

abbrev pub all_decoded : List ShardGroup → Bool
all_decoded [] = true
all_decoded (g ∷ gs) = is_some g.decoded && all_decoded gs

-- `g.decoded.take().unwrap_or_default()`, of every group.
abbrev pub or_empty : Option (List ℕ) → List ℕ
or_empty none = []
or_empty (some bytes) = bytes

abbrev pub decoded_data : List ShardGroup → List ℕ
decoded_data [] = []
decoded_data (g ∷ gs) = or_empty g.decoded ++ decoded_data gs

abbrev pub take_decoded : List ShardGroup → List ShardGroup
take_decoded [] = []
take_decoded (g ∷ gs) = (record g { decoded = none }) ∷ take_decoded gs

-- The frame is handed over once every group has its data.
unfoldable pub deliver : PendingFrame → PendingFrame × Option ReassembledFrame
deliver f =
    if all_decoded f.groups
    then (
      record f { delivered = true; groups = take_decoded f.groups },
      some (record {
        frame_index = f.frame_index;
        is_keyframe = f.is_keyframe;
        frame_data = decoded_data f.groups;
      }),
    )
    else (f, none)

module _ (rs : ReedSolomon) where
  -- The data shards: as they arrived, or reconstructed from the parity.
  unfoldable pub data_shards_of : ShardGroup → Option (List Shard)
  data_shards_of g =
      if all_some (take g.data_shard_count g.shards)
      then some (present (take g.data_shard_count g.shards))
      else or_none (decode rs g.shards g.data_shard_count)

  unfoldable pub reconstruct : ShardGroup → Bool → Option (List ℕ)
  unfolding data_shards_of strip_prefix
  reconstruct g has_len_prefix = joined has_len_prefix (data_shards_of g)

  -- What the group becomes by its data, or by the lack of it. Its shards are not read again, so they
  -- are dropped here also where the codec fails and the code leaves them.
  abbrev pub settle : ShardGroup → Option (List ℕ) → ShardGroup
  settle g none = record g { failed = true; shards = [] }
  settle g (some bytes) = record g { decoded = some bytes; shards = [] }

  unfoldable pub complete : ShardGroup → Bool → ShardGroup
  complete g has_len_prefix =
      if leb g.data_shard_count g.received then settle g (reconstruct g has_len_prefix) else g

  -- One packet for the frame: its group takes the shard, and the frame is delivered if that was the
  -- last that it needed.
  abbrev pub with_group :
      PendingFrame → ℕ → Bool → Option ShardGroup → PendingFrame × Option ReassembledFrame
  with_group f i has_len_prefix none = (f, none)
  with_group f i has_len_prefix (some g) =
      let g' = complete g has_len_prefix in
      let f' = record f { groups = set f.groups i g' } in
      if g'.failed then (f', none) else deliver f'

  unfoldable pub feed_frame :
      PendingFrame → FvpHeader → ℕ → ℕ → List ℕ → PendingFrame × Option ReassembledFrame
  unfolding complete accept deliver
  feed_frame f h slice_count i payload =
      if f.delivered || not (f.slice_count == slice_count)
      then (f, none)
      else (let g = get_or f.groups i no_shards in
          if is_some g.decoded || g.failed
          then (f, none)
          else with_group f i (ltb 0 slice_count)
              (accept g h.shard_index h.shard_count h.data_shard_count payload))

  unfoldable pub feed_header :
      Reassembler → FvpHeader → List ℕ → Reassembler × Option ReassembledFrame
  unfolding frame_for
  feed_header r h payload =
      let slice_count = Flags.slice_count h.flags in
      let slice_index = Flags.slice_index h.flags in
      if not (is_valid h)
        || length payload == 0
        || (ltb 0 slice_count && leb slice_count slice_index)
      then (r, none)
      else (let i : ℕ = if slice_count == 0 then 0 else slice_index in
          let (f, out) = feed_frame (frame_for r h slice_count) h slice_count i payload in
          (some f, out))

  abbrev with_header :
      Reassembler → RtpPacket → Option FvpHeader → Reassembler × Option ReassembledFrame
  with_header r packet none = (r, none)
  with_header r packet (some h) = feed_header r h (drop packet_header_len packet)

  unfoldable pub feed : Reassembler → RtpPacket → Reassembler × Option ReassembledFrame
  feed r packet = with_header r packet (read_fvp_header packet)

  -- The frames that a sequence of packets gives.
  unfoldable pub feed_all : Reassembler → List RtpPacket → Reassembler × List ReassembledFrame
  feed_all r [] = (r, [])
  feed_all r (packet ∷ packets) =
      let (r', out) = feed r packet in
      let (r'', outs) = feed_all r' packets in (r'', present (out ∷ []) ++ outs)
