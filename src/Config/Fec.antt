-- ===== src/Config/Fec.antt =====
-- When validating the redundancies panics.
use focus_vision_pcvr.Prelude.{
  ℕ, ◌≡◌, ◌⊎◌, ◌↔◌, refl, sym, ap, ◌∙◌, Bool, true, false, ◌||◌, Option, none, some, List, arith,
  Bool-cases, inl, inr, if_either, if_true, if_false,
}
use focus_vision_pcvr.Prelude.F32.{lt, le, is_nan}
use focus_vision_pcvr.Config.{AppConfig, NetworkConfig, f0_40, f1}
use focus_vision_pcvr.Config.Check.{
  Checked, FecBounds, check_fec_min, check_fec_max, clamp, check_fec_initial, check_fec, with_error,
  with_bounds, check_network, with_network, fec_bounds, check_ports, check_congestion_control,
}
use focus_vision_pcvr.Config.Validate.{validate, after_network}

-- `f32::clamp` is called on a value that is not between the bounds.
abbrev pub is_outside : ℕ → ℕ → ℕ → Bool
is_outside low high initial = is_nan initial || lt initial low || lt high initial

abbrev pub is_bad_max : ℕ → ℕ → Bool
is_bad_max low high = lt high low || lt f1 high || is_nan high

-- The minimum is above 0.40, the maximum is replaced by 0.40, and the initial value is not between them.
pub record IsGap (b : FecBounds) : Type 0 where
  pub bad_max : is_bad_max (check_fec_min b.low).0 b.high ≡ true
  pub high_min : lt f0_40 (check_fec_min b.low).0 ≡ true
  pub outside : is_outside (check_fec_min b.low).0 f0_40 b.initial ≡ true

min_number : (low : ℕ) → is_nan (check_fec_min low).0 ≡ false
unfolding check_fec_min is_nan
min_number low =
    if_either {A = Checked ℕ} (λ q. is_nan q.0 ≡ false) (lt low 0 || lt f1 low || is_nan low) _ _
      (λ e. refl) (λ e. ground (arith, e))

clamp-none :
    (x lo hi : ℕ)
    → is_nan lo ≡ false
    → is_nan hi ≡ false
    → (clamp x lo hi ≡ none) ↔ (lt hi lo ≡ true)
unfolding clamp le
clamp-none x lo hi n m = elim (Bool-cases (lt hi lo)) [
  | inl above ↦ (λ e. above, λ e. ground (arith, n, m, above))
  | inr below ↦
      (λ e. absurd (ground (arith, e, n, m, below)), λ e. absurd (ground (arith, e, below)))
]

with_error-none : (o : Option ℕ) → with_error o ≡ none → o ≡ none
with_error-none none e = refl
with_error-none (some x) e = absurd (ground (arith, e))

initial_none :
    (low high initial : ℕ)
    → is_nan low ≡ false
    → is_nan high ≡ false
    → (check_fec_initial low high initial ≡ none)
      ↔ ((is_outside low high initial ≡ true) × (lt high low ≡ true))
unfolding check_fec_initial
initial_none low high initial n m =
    let c = clamp-none initial low high n m in
    elim (Bool-cases (is_outside low high initial)) [
      | inl out ↦ (
        λ e. (out, c.0 (with_error-none (clamp initial low high) (sym (if_true _ _ _ out) ∙ e))),
        λ h. if_true _ _ _ out ∙ ap with_error (c.1 h.1),
      )
      | inr inside ↦ (
        λ e. absurd (ground (arith, sym (if_false _ _ _ inside) ∙ e)),
        λ h. absurd (ground (arith, h.0, inside)),
      )
    ]

with_bounds-none :
    (low high : Checked ℕ) (o : Option (Checked ℕ)) → (with_bounds low high o ≡ none) ↔ (o ≡ none)
with_bounds-none low high none = (λ e. refl, λ e. refl)
with_bounds-none low high (some x) =
    (λ e. absurd (ground (arith, e)), λ e. absurd (ground (arith, e)))

-- The maximum as it is corrected: 0.40, or a number that is not below the minimum.
max_cases :
    (low high : ℕ)
    → ((is_bad_max low high ≡ true) × ((check_fec_max low high).0 ≡ f0_40))
      ⊎ ((is_bad_max low high ≡ false) × ((check_fec_max low high).0 ≡ high))
unfolding check_fec_max
max_cases low high = elim (Bool-cases (is_bad_max low high)) [
  | inl bad ↦ inl (bad, ap {A = Checked ℕ} (λ q. q.0) (if_true _ _ _ bad))
  | inr good ↦ inr (good, ap {A = Checked ℕ} (λ q. q.0) (if_false _ _ _ good))
]

f0_40_number : is_nan f0_40 ≡ false
unfolding is_nan
f0_40_number = refl

fec_none_at :
    (low : ℕ) (high initial : ℕ)
    → is_nan low ≡ false
    → (check_fec_initial low (check_fec_max low high).0 initial ≡ none) ↔ (
        (is_bad_max low high ≡ true)
        × ((lt f0_40 low ≡ true) × (is_outside low f0_40 initial ≡ true)))
fec_none_at low high initial n = elim (max_cases low high) [
  | inl bad ↦
      let i = initial_none low f0_40 initial n f0_40_number in
      (
        λ e.
            let both = i.0 (sym (ap (λ h. check_fec_initial low h initial) bad.1) ∙ e) in
            (bad.0, (both.1, both.0)),
        λ h. ap (λ m. check_fec_initial low m initial) bad.1 ∙ i.1 (h.1.1, h.1.0),
      )
  | inr good ↦
      let number : is_nan high ≡ false = ground (arith, good.0) in
      let i = initial_none low high initial n number in
      (
        λ e.
            let both = i.0 (sym (ap (λ h. check_fec_initial low h initial) good.1) ∙ e) in
            absurd (ground (arith, both.1, good.0)),
        λ h. absurd (ground (arith, h.0, good.0)),
      )
]

check_fec-none : (b : FecBounds) → (check_fec b ≡ none) ↔ IsGap b
unfolding check_fec
check_fec-none b =
    let low = check_fec_min b.low in
    let high = check_fec_max low.0 b.high in
    let w = with_bounds-none low high (check_fec_initial low.0 high.0 b.initial) in
    let f = fec_none_at low.0 b.high b.initial (min_number b.low) in
    (
      λ e.
          let all = f.0 (w.0 e) in
          record { bad_max = all.0; high_min = all.1.0; outside = all.1.1 },
      λ h. w.1 (f.1 (h.bad_max, (h.high_min, h.outside))),
    )

network_none :
    (n : NetworkConfig) (ports : Checked (ℕ × ℕ)) (o : Option (Checked FecBounds))
    (mode : Checked (List ℕ)) (slices : Checked ℕ)
    → (with_network n ports o mode slices ≡ none) ↔ (o ≡ none)
network_none n ports none mode slices = (λ e. refl, λ e. refl)
network_none n ports (some fec) mode slices =
    (λ e. absurd (ground (arith, e)), λ e. absurd (ground (arith, e)))

after_none :
    (c : AppConfig) (o : Option (Checked NetworkConfig)) → (after_network c o ≡ none) ↔ (o ≡ none)
after_none c none = (λ e. refl, λ e. refl)
after_none c (some n) = (λ e. absurd (ground (arith, e)), λ e. absurd (ground (arith, e)))

-- Validating panics exactly where the minimum of the redundancy, as corrected, is above 0.40, the
-- maximum is below it, above one or not a number, so that it is replaced by 0.40, and the initial
-- redundancy is not between the two; for all other settings it returns.
pub validate-panics : (c : AppConfig) → (validate c ≡ none) ↔ IsGap (fec_bounds c.network)
unfolding validate check_network
validate-panics c =
    let n = c.network in
    let a = after_none c (check_network n) in
    let w =
      network_none n (check_ports n.tcp_port n.udp_port) (check_fec (fec_bounds n))
        (check_congestion_control n.congestion_control) _ in
    let f = check_fec-none (fec_bounds n) in (λ e. f.0 (w.0 (a.0 e)), λ h. a.1 (w.1 (f.1 h)))
