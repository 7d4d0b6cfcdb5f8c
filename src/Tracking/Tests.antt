-- ===== src/Tracking/Tests.antt =====
-- The receiver's theorems at concrete inputs.
use focus_vision_pcvr.Prelude.{
  ℕ, ◌≡◌, refl, Bool, true, false, ==_iff, none, some, List, [], ◌∷◌, ◌==◌, arith, replicate,
  get_or,
}
use focus_vision_pcvr.Tracking.Parse.{ControllerState, parse_controller}
use focus_vision_pcvr.Tracking.Receiver.{Latest, take_packet}
use focus_vision_pcvr.Tracking.Source.{
  Datagram, datagrams_of, receive_all, receive_all-sources, take_packet-controller,
}

abbrev nothing_yet : Latest
nothing_yet = record { head = none; controllers = none ∷ none ∷ []; gaze = none }

abbrev same_number : ℕ → ℕ → Bool
same_number a b = a == b

-- The headset is at 7.
abbrev marked : List (Datagram ℕ × Bool)
marked =
    (record { now = 5; peer = 9; bytes = 1 ∷ 2 ∷ [] }, false)
    ∷ (record { now = 6; peer = 7; bytes = 2 ∷ 1 ∷ replicate 52 0 }, true)
    ∷ (record { now = 7; peer = 8; bytes = 2 ∷ 0 ∷ replicate 52 0 }, false)
    ∷ []

receive_all-sources_example :
    receive_all same_number
      (λ a. a)
      (some 7)
      (datagrams_of same_number (λ a. a) (some 7) marked)
      (nothing_yet, 3)
    ≡ (take_packet 6 (2 ∷ 1 ∷ replicate 52 0) nothing_yet, 5)
receive_all-sources_example =
    receive_all-sources same_number (λ a. a) (some 7) ==_iff marked nothing_yet 3
      (λ e. omega (arith, e), (refl, (λ e. omega (arith, e), tt))) (omega arith)

take_packet-controller_example :
    ((take_packet 8 (2 ∷ 1 ∷ replicate 52 0) nothing_yet).head ≡ none)
    × ((take_packet 8 (2 ∷ 1 ∷ replicate 52 0) nothing_yet).gaze ≡ none)
    × (get_or (take_packet 8 (2 ∷ 1 ∷ replicate 52 0) nothing_yet).controllers 0 none ≡ none)
    × ((state : ControllerState) × (get_or
            (take_packet 8 (2 ∷ 1 ∷ replicate 52 0) nothing_yet).controllers
            1
            none
          ≡ some (state, 8))
        × (parse_controller (1 ∷ replicate 52 0) ≡ some state)
        × (state.controller_id ≡ 1))
take_packet-controller_example =
    take_packet-controller 8 1 0 (replicate 52 0) nothing_yet (omega arith) (omega arith) refl
      (λ e. omega (arith, e))
