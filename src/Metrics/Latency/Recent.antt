-- ===== src/Metrics/Latency/Recent.antt =====
-- Which frames the tracker keeps.
use focus_vision_pcvr.Prelude.{
  ℕ, suc, ◌+◌, ◌-◌, ◌≤◌, ◌≡◌, sym, ap, ◌∙◌, max, List, [], ◌∷◌, ◌++◌, arith, length, length-append,
  length-drop, drop, drop-drop, drop-nil, drop_all, drop-append_le, append_assoc, append-nil, leb,
  leb-cases, if◌then◌else◌, inl, inr,
}
use focus_vision_pcvr.Metrics.Latency.{FrameTimestamps, LatencyTracker, tracker, record_frame}

-- The last `max n 1` of what was seen.
abbrev pub recent : ℕ → List FrameTimestamps → List FrameTimestamps
recent n seen = drop (length seen - max n 1) seen

drop_one :
    (n : ℕ) (seen : List FrameTimestamps)
    → n ≤ length (recent n seen)
    → drop 1 (recent n seen) ≡ drop (suc (length seen) - max n 1) seen
drop_one n seen full =
    drop-drop 1 (length seen - max n 1) seen ∙ (elim (leb-cases (max n 1) (length seen)) [
      | inl long ↦
          (let same : length seen - max n 1 + 1 ≡ suc (length seen) - max n 1 =
              omega (arith, long.1) in
            ap (λ k. drop k seen) same)
      | inr short ↦
          (let empty : length seen ≡ 0 =
              omega (arith, short.1, full, length-drop (length seen - max n 1) seen) in
            drop_all (length seen - max n 1 + 1) seen (omega (arith, empty))
            ∙ sym (drop_all (suc (length seen) - max n 1) seen (omega (arith, empty))))
    ])

-- Before one more is added there is room for it.
make_room :
    (n : ℕ) (seen : List FrameTimestamps)
    → (if leb n (length (recent n seen)) then drop 1 (recent n seen) else recent n seen)
      ≡ drop (suc (length seen) - max n 1) seen
make_room n seen = elim (leb-cases n (length (recent n seen))) [
  | inl full ↦ rw full.0 (drop_one n seen full.1)
  | inr room ↦ rw room.0 (
      let same : length seen - max n 1 ≡ suc (length seen) - max n 1 =
        omega (arith, length-drop (length seen - max n 1) seen, room.1) in
      ap (λ k. drop k seen) same)
]

unfoldable pub record_all : List FrameTimestamps → LatencyTracker → LatencyTracker
unfolding record_frame
record_all [] t = t
record_all (ts ∷ frames) t = record_all frames (record_frame ts t)

record_frame-recent :
    (n : ℕ) (ts : FrameTimestamps) (seen : List FrameTimestamps)
    → record_frame ts (record { history = recent n seen; max_history = n })
      ≡ record { history = recent n (seen ++ (ts ∷ [])); max_history = n }
unfolding record_frame
record_frame-recent n ts seen =
    let grown : length (seen ++ (ts ∷ [])) ≡ suc (length seen) =
      omega (arith, length-append seen (ts ∷ [])) in
    let whole : (if leb n (length (recent n seen)) then drop 1 (recent n seen) else recent n seen)
          ++ (ts ∷ [])
        ≡ recent n (seen ++ (ts ∷ [])) =
      ap (λ h. h ++ (ts ∷ [])) (make_room n seen)
      ∙ (sym (drop-append_le (suc (length seen) - max n 1) seen (ts ∷ []) (omega arith))
          ∙ ap (λ l. drop (l - max n 1) (seen ++ (ts ∷ []))) (sym grown)) in
    ap (λ h. record { history = h; max_history = n }) whole

record_more :
    (n : ℕ) (frames seen : List FrameTimestamps)
    → (record_all frames (record { history = recent n seen; max_history = n })).history
      ≡ recent n (seen ++ frames)
unfolding record_all
record_more n [] seen = ap (recent n) (sym (append-nil seen))
record_more n (ts ∷ frames) seen =
    ap (λ t. (record_all frames t).history) (record_frame-recent n ts seen)
    ∙ (record_more n frames (seen ++ (ts ∷ []))
        ∙ ap (recent n) (append_assoc seen (ts ∷ []) frames))

-- Of the frames recorded from the start, the tracker keeps the last ones in their order, as many as
-- its bound says, but never none: the last frame is kept even where the bound is zero.
pub record_all-recent :
    (n : ℕ) (frames : List FrameTimestamps)
    → (record_all frames (tracker n)).history ≡ recent n frames
unfolding tracker
record_all-recent n frames =
    ap (λ h. (record_all frames (record { history = h; max_history = n })).history)
      (sym (drop-nil {A = FrameTimestamps} (0 - max n 1)))
    ∙ record_more n frames []
