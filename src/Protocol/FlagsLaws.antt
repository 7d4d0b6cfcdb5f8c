-- ===== src/Protocol/FlagsLaws.antt =====
-- The fields of the flags do not disturb one another.
use focus_vision_pcvr.Prelude.{
  ℕ, ◌^◌, ◌%◌, ◌<◌, ◌≡◌, refl, Bool, true, false, ◌&&◌, arith, ltb, ◌==◌, if◌then◌else◌,
}
use focus_vision_pcvr.Prelude.Bits.{holds_below, holds_below-lt, low_nibble, low_two_bits}
use focus_vision_pcvr.Protocol.Flags.{
  encode, encode_simple, encode_compat, is_keyframe, slice_index, slice_count, stream_id,
}

-- Equal truth values.
abbrev same : Bool → Bool → Bool
same true b = b
same false true = false
same false false = true

-- The decoders give back the fields, for every value that the fields can hold.
fields_back : Bool → ℕ → ℕ → ℕ → Bool
fields_back k i c s =
    same k (is_keyframe (encode k i c s))
    && slice_index (encode k i c s) == i
    && slice_count (encode k i c s) == c
    && stream_id (encode k i c s) == s
    && ltb (encode k i c s) (2 ^ 16)

fields_table : Bool → Bool
unfolding holds_below fields_back encode is_keyframe slice_index slice_count stream_id
fields_table k =
    holds_below 16 (λ i. holds_below 16 (λ c. holds_below 4 (λ s. fields_back k i c s)))

fields_table_holds : (k : Bool) → fields_table k ≡ true
unfolding fields_table
fields_table_holds true = refl
fields_table_holds false = refl

fields_back_holds : (k : Bool) (i c s : ℕ) → i < 16 → c < 16 → s < 4 → fields_back k i c s ≡ true
unfolding fields_table
fields_back_holds k i c s hi hc hs =
    holds_below-lt 4 (λ s. fields_back k i c s) s hs
      (holds_below-lt 16 (λ c. holds_below 4 (λ s. fields_back k i c s)) c hc
        (holds_below-lt 16 (λ i. holds_below 16 (λ c. holds_below 4 (λ s. fields_back k i c s))) i
          hi (fields_table_holds k)))

-- Bits above the fields are masked off.
pub encode_masked :
    (k : Bool) (i c s : ℕ)
    → i < 256
    → c < 256
    → s < 256
    → encode k i c s ≡ encode k (i % 16) (c % 16) (s % 4)
unfolding encode
encode_masked k i c s hi hc hs =
    rw
      (
        low_nibble i hi,
        low_nibble c hc,
        low_two_bits s hs,
        low_nibble (i % 16) (omega arith),
        low_nibble (c % 16) (omega arith),
        low_two_bits (s % 4) (omega arith),
      )
      (let ei : i % 16 % 16 ≡ i % 16 = omega arith in
        let ec : c % 16 % 16 ≡ c % 16 = omega arith in
        let es : s % 4 % 4 ≡ s % 4 = omega arith in rw (ei, ec, es))

same-eq : (a b : Bool) → same a b ≡ true → b ≡ a
same-eq true b h = h
same-eq false true h = cc
same-eq false false h = refl

fields-encode_small :
    (k : Bool) (i c s : ℕ)
    → i < 16
    → c < 16
    → s < 4
    → (is_keyframe (encode k i c s) ≡ k)
      × (slice_index (encode k i c s) ≡ i)
      × (slice_count (encode k i c s) ≡ c)
      × (stream_id (encode k i c s) ≡ s)
      × (encode k i c s < 2 ^ 16)
unfolding fields_back
fields-encode_small k i c s hi hc hs =
    ground (arith, fields_back_holds k i c s hi hc hs, same-eq k (is_keyframe (encode k i c s)))

-- The decoders give back what `encode` was given, each index reduced to the width of its field, and
-- the flags fit 16 bits.
pub fields-encode :
    (k : Bool) (i c s : ℕ)
    → i < 256
    → c < 256
    → s < 256
    → (is_keyframe (encode k i c s) ≡ k)
      × (slice_index (encode k i c s) ≡ i % 16)
      × (slice_count (encode k i c s) ≡ c % 16)
      × (stream_id (encode k i c s) ≡ s % 4)
      × (encode k i c s < 2 ^ 16)
fields-encode k i c s hi hc hs =
    rw (encode_masked k i c s hi hc hs)
      (fields-encode_small k (i % 16) (c % 16) (s % 4) (omega arith) (omega arith) (omega arith))

fields-encode_simple :
    (k : Bool)
    → (is_keyframe (encode_simple k) ≡ k)
      × (slice_index (encode_simple k) ≡ 0)
      × (slice_count (encode_simple k) ≡ 0)
      × (stream_id (encode_simple k) ≡ 0)
unfolding encode_simple is_keyframe slice_index slice_count stream_id
fields-encode_simple true = (refl, refl, refl, refl)
fields-encode_simple false = (refl, refl, refl, refl)

encode_compat_lem :
    (v : ℕ) (k : Bool) (i c s : ℕ)
    → encode_compat v k i c s ≡ (if ltb v 3 then encode_simple k else encode k i c s)
unfolding encode_compat
encode_compat_lem v k i c s = ground arith

-- A peer before version 3 is sent the keyframe bit alone; a later one all fields.
fields-encode_compat :
    (version : ℕ) (k : Bool) (i c s : ℕ)
    → i < 256
    → c < 256
    → s < 256
    → (is_keyframe (encode_compat version k i c s) ≡ k)
      × (slice_index (encode_compat version k i c s) ≡ (if ltb version 3 then 0 else i % 16))
      × (slice_count (encode_compat version k i c s) ≡ (if ltb version 3 then 0 else c % 16))
      × (stream_id (encode_compat version k i c s) ≡ (if ltb version 3 then 0 else s % 4))
fields-encode_compat version k i c s hi hc hs = ground (
  arith,
  fields-encode k i c s hi hc hs,
  fields-encode_simple k,
  encode_compat_lem version k i c s,
)
