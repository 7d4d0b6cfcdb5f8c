-- ===== src/Pipeline/LayoutLaws.antt =====
-- What `choose_fec_layout` promises of the layout that it picks.
use focus_vision_pcvr.Prelude.{
  ℕ, zero, suc, ◌+◌, ◌-◌, ◌≤◌, ◌<◌, ◌≡◌, refl, Bool, true, false, ◌&&◌, arith, min, max, leb,
  if◌then◌else◌, ◌≢◌, not, Bool-cases, inl, inr, leb→le, subst,
}
use native.Mathlib.Decide.{ℕ_discrete}
use focus_vision_pcvr.Pipeline.Layout.{
  FecLayout, bulk, sliced, unprotected, div_ceil, slice_data_shards, find_slice_count,
  choose_fec_layout, min_slice_size,
}

-- The first count that the search tries.
abbrev pub first_count : ℕ → Bool → ℕ → ℕ
first_count frame_len enabled slice_count =
    if enabled && leb min_slice_size frame_len then min (max slice_count 1) 15 else 1

-- One code word holds the largest slice when the frame is cut in `n`.
abbrev pub SliceFits : ℕ → ℕ → ℕ → Type 0
SliceFits frame_len m n = slice_data_shards (div_ceil frame_len n) ≤ m

-- What the layout means: it fits, and no smaller count of slices from `from` on does.
abbrev pub IsChosen : ℕ → ℕ → ℕ → FecLayout → Type 0
IsChosen frame_len m from bulk = div_ceil frame_len 1200 ≤ m
IsChosen frame_len m from (sliced n) =
    (from ≤ n)
    × (n ≤ 15)
    × SliceFits frame_len m n
    × ((j : ℕ) → from ≤ j → j < n → ¬ SliceFits frame_len m j)
IsChosen frame_len m from unprotected = (j : ℕ) → from ≤ j → j ≤ 15 → ¬ SliceFits frame_len m j

-- A count that does not fit can be added in front of the search.
IsChosen-step :
    (frame_len m n : ℕ) (layout : FecLayout)
    → ¬ SliceFits frame_len m n
    → IsChosen frame_len m (n + 1) layout
    → IsChosen frame_len m n layout
IsChosen-step frame_len m n bulk no_fit h = h
IsChosen-step frame_len m n (sliced c) no_fit h = (
  omega (arith, h.0),
  h.1,
  h.2,
  λ j lo hi. elim (ℕ_discrete j n) [ yes e ↦ rw e no_fit | no ne ↦ h.3 j (omega arith) hi ],
)
IsChosen-step frame_len m n unprotected no_fit h =
    λ j lo hi. elim (ℕ_discrete j n) [ yes e ↦ rw e no_fit | no ne ↦ h j (omega arith) hi ]

find_slice_count-IsChosen :
    (frame_len m rounds n : ℕ)
    → rounds + n ≡ 16
    → IsChosen frame_len m n (find_slice_count frame_len m rounds n)
      × (find_slice_count frame_len m rounds n ≢ bulk)
unfolding find_slice_count
find_slice_count-IsChosen frame_len m zero n h = (λ j lo hi. absurd (omega arith), λ e. cc)
find_slice_count-IsChosen frame_len m (suc rounds) n h =
    elim (Bool-cases (leb (slice_data_shards (div_ceil frame_len n)) m)) [
      | inl e ↦
          rw e ((omega arith, omega arith, leb→le _ m e, λ j lo hi. absurd (omega arith)), λ p. cc)
      | inr e ↦
          let rest = find_slice_count-IsChosen frame_len m rounds (n + 1) (omega arith) in
          rw e (
            IsChosen-step frame_len m n (find_slice_count frame_len m rounds (n + 1))
                (ground (arith, e)) rest.0,
            rest.1,
          )
    ]

-- The choice, for either answer to whether the frame is to be sliced.
chosen : ℕ → ℕ → Bool → ℕ → FecLayout
chosen frame_len m slice from =
    if not slice && leb (div_ceil frame_len 1200) m
    then bulk
    else find_slice_count frame_len m (16 - from) from

chosen-IsChosen :
    (frame_len m : ℕ) (slice : Bool) (from : ℕ)
    → from ≤ 15
    → IsChosen frame_len m from (chosen frame_len m slice from)
      × (slice ≡ true → chosen frame_len m slice from ≢ bulk)
unfolding chosen
chosen-IsChosen frame_len m true from h =
    let found = find_slice_count-IsChosen frame_len m (16 - from) from (omega arith) in
    (found.0, λ _. found.1)
chosen-IsChosen frame_len m false from h =
    let found = find_slice_count-IsChosen frame_len m (16 - from) from (omega arith) in
    elim (Bool-cases (leb (div_ceil frame_len 1200) m)) [
      | inl e ↦ rw e (leb→le _ m e, λ p. cc)
      | inr e ↦ rw e (found.0, λ p. cc)
    ]

first_count-le :
    (frame_len : ℕ) (enabled : Bool) (slice_count : ℕ)
    → first_count frame_len enabled slice_count ≤ 15
first_count-le frame_len enabled slice_count = ground arith

abbrev pub is_bulk : FecLayout → Bool
is_bulk bulk = true
is_bulk (sliced n) = false
is_bulk unprotected = false

not_bulk : (layout : FecLayout) → layout ≢ bulk → is_bulk layout ≡ false
not_bulk bulk h = absurd (h refl)
not_bulk (sliced n) h = refl
not_bulk unprotected h = refl

chosen-is_bulk :
    (frame_len m : ℕ) (slice : Bool) (from : ℕ)
    → from ≤ 15
    → is_bulk (chosen frame_len m slice from) ≡ (not slice && leb (div_ceil frame_len 1200) m)
unfolding chosen
chosen-is_bulk frame_len m slice from h =
    let found = find_slice_count-IsChosen frame_len m (16 - from) from (omega arith) in
    elim (Bool-cases (not slice && leb (div_ceil frame_len 1200) m)) [
      | inl e ↦ rw e refl
      | inr e ↦ rw e (not_bulk (find_slice_count frame_len m (16 - from) from) found.1)
    ]

-- The layout that is chosen fits: in bulk the frame is within the data shards of one code word; cut
-- into `n` slices, each slice is, with its length prefix, and no smaller count from the first one
-- tried would do; unprotected, no count of slices from the first one tried up to 15 does. It is
-- bulk exactly when the frame fits in one code word and is not to be sliced, which it is where slicing
-- is enabled and it has at least 16384 bytes.
pub choose_fec_layout-IsChosen :
    (frame_len : ℕ) (enabled : Bool) (slice_count m : ℕ)
    → IsChosen frame_len m
        (first_count frame_len enabled slice_count)
        (choose_fec_layout frame_len enabled slice_count m)
      × (is_bulk (choose_fec_layout frame_len enabled slice_count m)
          ≡ (not (enabled && leb 16384 frame_len) && leb (div_ceil frame_len 1200) m))
unfolding choose_fec_layout chosen
choose_fec_layout-IsChosen frame_len enabled slice_count m =
    let slice = enabled && leb min_slice_size frame_len in
    let from = first_count frame_len enabled slice_count in
    let small = first_count-le frame_len enabled slice_count in
    ((chosen-IsChosen frame_len m slice from small).0, chosen-is_bulk frame_len m slice from small)

pub choose-bulk :
    (frame_len : ℕ) (enabled : Bool) (slice_count m : ℕ)
    → choose_fec_layout frame_len enabled slice_count m ≡ bulk
    → div_ceil frame_len 1200 ≤ m
choose-bulk frame_len enabled slice_count m e =
    subst (IsChosen frame_len m (first_count frame_len enabled slice_count)) e
      (choose_fec_layout-IsChosen frame_len enabled slice_count m).0
