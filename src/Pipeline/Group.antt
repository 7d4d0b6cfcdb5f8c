-- ===== src/Pipeline/Group.antt =====
-- A shard group of the receiver while the shards of one code word come in.
use focus_vision_pcvr.Prelude.{
  ℕ, ◌+◌, ◌-◌, ◌≤◌, ◌<◌, ◌≡◌, ap, Bool, true, false, none, some, List, [], arith, length, take, set,
  get_or, replicate, all_some, if◌then◌else◌, Bool-cases, inl, inr, ok,
}
use focus_vision_pcvr.Fec.Codec.{Shard, ReedSolomon, arrived, count_true, Recovers}
use focus_vision_pcvr.Fec.Encoder.{decode}
use focus_vision_pcvr.Fec.Masks.{
  get_or-arrived, set-arrived, count_true-set, arrived-none, count_true_none, length-arrived,
  present-take-arrived, present-take-map,
}
use focus_vision_pcvr.Pipeline.Reassemble.{ShardGroup, no_shards, accept, data_shards_of}

module _ (cw : List Shard) (d n : ℕ) where
  -- The group that holds the shards of the mask.
  abbrev pub group_with : List Bool → ShardGroup
  group_with mask = record {
    shard_count = length cw;
    data_shard_count = d;
    shard_len = n;
    shards = arrived mask cw;
    received = count_true mask;
    decoded = none;
    failed = false;
  }

  abbrev pub no_marks : List Bool
  no_marks = replicate (length cw) false

  -- The shard `i` of the code word is taken unless it is there already.
  pub accept-group_with :
      (mask : List Bool) (i : ℕ)
      → length mask ≡ length cw
      → i < length cw
      → length (get_or cw i []) ≡ n
      → accept (group_with mask) i (length cw) d (get_or cw i [])
        ≡ (if get_or mask i false then none else some (group_with (set mask i true)))
  unfolding accept
  accept-group_with mask i hm hi hn =
      ground (arith, get_or-arrived mask cw i hm, set-arrived mask cw i, count_true-set mask i)

  -- The first shard of a group finds it empty.
  pub accept-no_shards :
      (i : ℕ)
      → i < length cw
      → length (get_or cw i []) ≡ n
      → accept no_shards i (length cw) d (get_or cw i [])
        ≡ accept (group_with no_marks) i (length cw) d (get_or cw i [])
  unfolding accept
  accept-no_shards i hi hn = ground (arith, arrived-none cw, count_true_none (length cw))

module _ (rs : ReedSolomon) (cw : List Shard) (d p n : ℕ) (mask : List Bool) where
  -- With `d` shards there, the decoder gives back the data shards.
  pub decode-arrived :
      length mask ≡ length cw
      → length cw ≡ d + p
      → 0 < p
      → rs.new d p ≡ true
      → Recovers rs d p cw
      → d ≤ count_true mask
      → decode rs (arrived mask cw) d ≡ ok (take d cw)
  unfolding decode
  decode-arrived hm hc hp made recovers enough =
      let e : length (arrived mask cw) - d ≡ p = omega (arith, length-arrived mask cw hm) in
      ground (
        arith,
        e,
        length-arrived mask cw hm,
        recovers mask (omega arith) enough,
        present-take-map d cw,
      )

  pub data_shards_of-group_with :
      length mask ≡ length cw
      → length cw ≡ d + p
      → 0 < p
      → rs.new d p ≡ true
      → Recovers rs d p cw
      → d ≤ count_true mask
      → data_shards_of rs (group_with cw d n mask) ≡ some (take d cw)
  unfolding data_shards_of
  data_shards_of-group_with hm hc hp made recovers enough =
      elim (Bool-cases (all_some (take d (arrived mask cw)))) [
        | inl e ↦ rw e (ap some (present-take-arrived d mask cw hm e))
        | inr e ↦ rw (e, decode-arrived hm hc hp made recovers enough)
      ]
