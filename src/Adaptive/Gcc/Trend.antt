-- ===== src/Adaptive/Gcc/Trend.antt =====
-- What holds of the estimator after any feedback.
use focus_vision_pcvr.Prelude.{
  ℕ, ◌≤◌, ◌≡◌, refl, List, [], ◌∷◌, ◌++◌, arith, length, length-append, length-drop, ltb-cases, inl,
  inr,
}
use focus_vision_pcvr.Prelude.F64.{Arithmetic}
use focus_vision_pcvr.Protocol.Feedback.{TransportFeedbackEntry}
use focus_vision_pcvr.Adaptive.Gcc.{
  GccEstimator, new, push_sample, take_gradient, windows, adapt_threshold, set_trend,
  process_feedback,
}

pub record IsTracked (g : GccEstimator) : Type 0 where
  pub limit : g.max_samples ≡ 60
  pub samples : length g.delay_samples ≤ 60

pub new-IsTracked : (now bps : ℕ) → IsTracked (new now bps)
unfolding new
new-IsTracked now bps = record { limit = refl; samples = omega arith }

length-push_sample :
    (n x : ℕ) (samples : List ℕ) → length samples ≤ n → length (push_sample n x samples) ≤ n
unfolding push_sample
length-push_sample n x samples h =
    let pushed = length-append samples (x ∷ []) in
    elim (ltb-cases n (length (samples ++ (x ∷ [])))) [
      | inl full ↦ rw (full.0) (omega (arith, h, pushed, length-drop 1 (samples ++ (x ∷ []))))
      | inr room ↦ rw (room.0) (omega (arith, room.1))
    ]

take_gradient-IsTracked :
    (fl : Arithmetic) (x : ℕ) (g : GccEstimator) → IsTracked g → IsTracked (take_gradient fl x g)
unfolding take_gradient
take_gradient-IsTracked fl x g h =
    let within =
      length-push_sample g.max_samples x g.delay_samples (omega (arith, h.limit, h.samples)) in
    record { limit = h.limit; samples = omega (arith, h.limit, within) }

windows-IsTracked :
    (fl : Arithmetic) (first : TransportFeedbackEntry) (entries : List TransportFeedbackEntry)
    (g : GccEstimator)
    → IsTracked g
    → IsTracked (windows fl first entries g)
unfolding windows
windows-IsTracked fl first [] g h = record { limit = h.limit; samples = h.samples }
windows-IsTracked fl first (second ∷ entries) g h =
    windows-IsTracked fl second entries _ (take_gradient-IsTracked fl _ g h)

pub process_feedback-IsTracked :
    (fl : Arithmetic) (entries : List TransportFeedbackEntry) (g : GccEstimator)
    → IsTracked g
    → IsTracked (process_feedback fl entries g)
unfolding process_feedback set_trend adapt_threshold
process_feedback-IsTracked fl [] g h = h
process_feedback-IsTracked fl (first ∷ []) g h = h
process_feedback-IsTracked fl (first ∷ (second ∷ entries)) g h =
    let w = windows-IsTracked fl first (second ∷ entries) g h in
    record { limit = w.limit; samples = w.samples }
