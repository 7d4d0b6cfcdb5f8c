-- ===== src/Adaptive/Burst/Classify.antt =====
-- What the detector's incremental state amounts to: the run of lossy samples that the last one
-- belongs to.
use focus_vision_pcvr.Prelude.{
  ℕ, ◌-◌, ◌≤◌, ◌≡◌, inl, inr, refl, true, false, Option, none, some, List, [], ◌∷◌, ◌∙◌, sym, subst,
  le→not_ltb, arith, ltb, if◌then◌else◌, Bool-cases,
}
use focus_vision_pcvr.Prelude.F64.{ge}
use focus_vision_pcvr.Adaptive.Arbitration.{LossPattern, normal, burst, sustained, f0_05}
use focus_vision_pcvr.Adaptive.Burst.{BurstDetector, new, lossy, clear, record_loss}

pub record Sample : Type 0 where
  pub at_time : ℕ
  pub loss_rate : ℕ

-- The samples of a session, the latest first.
unfoldable pub record_all : List Sample → BurstDetector
record_all [] = new
record_all (s ∷ earlier) = record_loss s.at_time s.loss_rate (record_all earlier)

abbrev pub start_or : Option ℕ → ℕ → ℕ
start_or none t = t
start_or (some t') t = t'

-- When the unbroken run of samples with at least 5 % loss began that the latest sample ends.
unfoldable pub run_start : List Sample → Option ℕ
run_start [] = none
run_start (s ∷ earlier) =
    let before = run_start earlier in
    if ge s.loss_rate f0_05 then some (start_or before s.at_time) else none

abbrev pub pattern_of : Option ℕ → ℕ → LossPattern
pattern_of none t = normal
pattern_of (some start) t = if ltb 500_000 (t - start) then sustained else burst

unfoldable pub classify : List Sample → LossPattern
unfolding run_start
classify [] = normal
classify (s ∷ earlier) = pattern_of (run_start (s ∷ earlier)) s.at_time

-- Each sample comes no earlier than the one before it.
abbrev pub IsOrdered : List Sample → Type 0
IsOrdered [] = Unit
IsOrdered (s ∷ []) = Unit
IsOrdered (s ∷ (s' ∷ earlier)) = (s'.at_time ≤ s.at_time) × IsOrdered (s' ∷ earlier)

-- The detector's state after a sample at `t`, told from the run alone.
abbrev pub Tells : Option ℕ → ℕ → BurstDetector → Type 0
Tells start t d =
    (d.pattern ≡ pattern_of start t)
    × (d.burst_start ≡ start)
    × (d.sustained_threshold ≡ 500_000)
    × (d.loss_rate_threshold ≡ f0_05)

abbrev pub next_start : ℕ → ℕ → Option ℕ → Option ℕ
next_start loss_rate now start = if ge loss_rate f0_05 then some (start_or start now) else none

lossy-Tells :
    (start : Option ℕ) (t now : ℕ) (d : BurstDetector)
    → t ≤ now
    → Tells start t d
    → Tells (some (start_or start now)) now (lossy now start d)
unfolding lossy
lossy-Tells none t now d h told =
    (rw (le→not_ltb 500_000 (now - now) (omega arith)) refl, refl, told.2, told.3)
lossy-Tells (some start) t now d h told =
    elim (Bool-cases (ltb d.sustained_threshold (now - start))) [
      | inl e ↦
          let long : ltb 500_000 (now - start) ≡ true =
            subst (λ n. ltb n (now - start) ≡ true) told.2 e in
          rw (e, long) (refl, told.1, told.2, told.3)
      | inr e ↦
          let short : ltb 500_000 (now - start) ≡ false =
            subst (λ n. ltb n (now - start) ≡ false) told.2 e in
          let still : ltb 500_000 (t - start) ≡ false = ground (arith, short) in
          rw (e, short) (told.0 ∙ rw still refl, told.1, told.2, told.3)
    ]

clear-Tells :
    (start : Option ℕ) (t now : ℕ) (d : BurstDetector)
    → Tells start t d
    → Tells none now (clear start d)
unfolding clear
clear-Tells none t now d told = told
clear-Tells (some start) t now d told = (refl, refl, told.2, told.3)

record_loss-Tells :
    (start : Option ℕ) (t now loss_rate : ℕ) (d : BurstDetector)
    → t ≤ now
    → Tells start t d
    → Tells (next_start loss_rate now start) now (record_loss now loss_rate d)
unfolding record_loss
record_loss-Tells start t now loss_rate d h told =
    elim (Bool-cases (ge loss_rate d.loss_rate_threshold)) [
      | inl e ↦
          let bad : ge loss_rate f0_05 ≡ true = subst (λ n. ge loss_rate n ≡ true) told.3 e in
          rw (e, bad)
            (subst (λ b. Tells (some (start_or start now)) now (lossy now b d)) (sym told.1)
              (lossy-Tells start t now d h told))
      | inr e ↦
          let good : ge loss_rate f0_05 ≡ false = subst (λ n. ge loss_rate n ≡ false) told.3 e in
          rw (e, good)
            (subst (λ b. Tells none now (clear b d)) (sym told.1) (clear-Tells start t now d told))
    ]

record_all-Tells :
    (s : Sample) (earlier : List Sample)
    → IsOrdered (s ∷ earlier)
    → Tells (run_start (s ∷ earlier)) s.at_time (record_all (s ∷ earlier))
unfolding record_all run_start new
record_all-Tells s [] h =
    record_loss-Tells none s.at_time s.at_time s.loss_rate new (omega arith)
      (refl, refl, refl, refl)
record_all-Tells s (s' ∷ earlier) h =
    record_loss-Tells (run_start (s' ∷ earlier)) s'.at_time s.at_time s.loss_rate
      (record_all (s' ∷ earlier)) h.0 (record_all-Tells s' earlier h.1)

-- The detector's pattern is a function of the samples: with samples in time order it is normal where
-- the latest is below 5 % loss, and otherwise sustained where the unbroken run of lossy samples
-- that it ends has lasted more than 500 ms, a burst where it has not.
pub record_all-classify :
    (samples : List Sample) → IsOrdered samples → (record_all samples).pattern ≡ classify samples
unfolding classify record_all new
record_all-classify [] h = refl
record_all-classify (s ∷ earlier) h = (record_all-Tells s earlier h).0
