-- ===== src/Fec/Tests.antt =====
-- The encoder's theorems at concrete inputs, for the codec that copies one shard.
use focus_vision_pcvr.Prelude.{◌+◌, ◌≤◌, ◌<◌, ◌≡◌, ◌⊎◌, refl, none, some, List, [], ◌∷◌, arith}
use focus_vision_pcvr.Fec.Copies.{copies, fifth}
use focus_vision_pcvr.Fec.Encoder
use focus_vision_pcvr.Fec.Encoder.{FecEncoder, max_data_shards, parity_for}
use focus_vision_pcvr.Fec.Cache.{Use, frame, redundancy, use_all, encode-use_all}
use focus_vision_pcvr.Fec.CodeWord.{max_data_shards_largest}

abbrev fifth_encoder : FecEncoder
fifth_encoder = Encoder.new 0x3e4c_cccd

-- Two frames of one shard, the second by the codec that the first left, before one of two shards and one
-- of one shard again.
abbrev uses : List Use
uses =
    frame ((7 ∷ []) ∷ [])
    ∷ frame ((8 ∷ []) ∷ [])
    ∷ redundancy 0x3e80_0000
    ∷ frame ((7 ∷ []) ∷ (8 ∷ []) ∷ [])
    ∷ frame ((9 ∷ []) ∷ [])
    ∷ []

-- The codec is there as the next frame comes.
cached_after : (use_all fifth copies uses fifth_encoder).cached_rs ≡ some (1, 1)
unfolding use_all Encoder.encode Encoder.new parity_for Encoder.set_redundancy Encoder.prepare
cached_after = refl

encode-use_all_example :
    (Encoder.encode fifth copies (use_all fifth copies uses fifth_encoder) ((7 ∷ []) ∷ [])).1
    ≡ (Encoder.encode fifth copies
        (record (use_all fifth copies uses fifth_encoder) { cached_rs = none })
        ((7 ∷ []) ∷ [])).1
encode-use_all_example = encode-use_all fifth copies uses 0x3e4c_cccd ((7 ∷ []) ∷ [])

max_data_shards_largest_example :
    ((max_data_shards fifth fifth_encoder ≡ 0)
      ⊎ (max_data_shards fifth fifth_encoder
            + parity_for fifth fifth_encoder (max_data_shards fifth fifth_encoder)
          ≤ 256))
    × (max_data_shards fifth fifth_encoder < 256)
    × ((240 ≤ max_data_shards fifth fifth_encoder)
        ⊎ (256 < 240 + parity_for fifth fifth_encoder 240))
max_data_shards_largest_example = max_data_shards_largest fifth fifth_encoder 240 (omega arith)
