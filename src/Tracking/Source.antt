-- ===== src/Tracking/Source.antt =====
-- Whose packets count, and what they reach.
use focus_vision_pcvr.Prelude.{
  ℕ, suc, ◌+◌, ◌%◌, ◌^◌, ◌≤◌, ◌<◌, ◌≡◌, ◌≢◌, refl, ◌↔◌, Bool, Bool-cases, inl, inr, true, false,
  Option, none, some, List, [], ◌∷◌, All, arith, length, ap, sym, get_or, get_or-set_self,
  get_or-set_ne, lt→ltb, ◌∙◌, le→not_ltb,
}
use focus_vision_pcvr.Tracking.Parse.{ControllerState, parse_controller}
use focus_vision_pcvr.Tracking.Receiver.{
  Latest, store_controller, take_packet, is_paired_hmd, receive,
}

pub record Datagram (Addr : Type 0) : Type 0 where
  pub now : ℕ
  pub peer : Addr
  pub bytes : List ℕ

module _ {Addr : Type 0} (same : Addr → Addr → Bool) (to_canonical : Addr → Addr)
    (session : Option Addr) where
  unfoldable pub receive_all : List (Datagram Addr) → Latest × ℕ → Latest × ℕ
  receive_all [] s = s
  receive_all (d ∷ datagrams) s =
      receive_all datagrams (receive same to_canonical session d.now d.peer d.bytes s)

  -- The paired headset's address, as both are compared, and any other.
  abbrev pub IsHmd : Option Addr → Addr → Type 0
  IsHmd none peer = ⊥
  IsHmd (some ip) peer = to_canonical ip ≡ to_canonical peer

  abbrev pub IsStranger : Option Addr → Addr → Type 0
  IsStranger none peer = Unit
  IsStranger (some ip) peer = to_canonical ip ≢ to_canonical peer

  -- Whether each datagram is the headset's.
  abbrev pub IsMarked : Datagram Addr × Bool → Type 0
  IsMarked (d, true) = IsHmd session d.peer
  IsMarked (d, false) = IsStranger session d.peer

  abbrev pub datagrams_of : List (Datagram Addr × Bool) → List (Datagram Addr)
  datagrams_of [] = []
  datagrams_of ((d, b) ∷ marked) = d ∷ datagrams_of marked

  -- The headset's datagrams alone, each taken.
  abbrev pub take_own : List (Datagram Addr × Bool) → Latest → Latest
  take_own [] l = l
  take_own ((d, true) ∷ marked) l = take_own marked (take_packet d.now d.bytes l)
  take_own ((d, false) ∷ marked) l = take_own marked l

  abbrev pub strangers : List (Datagram Addr × Bool) → ℕ
  strangers [] = 0
  strangers ((d, true) ∷ marked) = strangers marked
  strangers ((d, false) ∷ marked) = 1 + strangers marked

  module _ (decides : (a b : Addr) → (same a b ≡ true) ↔ (a ≡ b)) where
    paired :
        (s : Option Addr) (peer : Addr)
        → IsHmd s peer
        → is_paired_hmd same to_canonical s peer ≡ true
    unfolding is_paired_hmd
    paired none peer h = absurd h
    paired (some ip) peer h = (decides (to_canonical ip) (to_canonical peer)).1 h

    unpaired :
        (s : Option Addr) (peer : Addr)
        → IsStranger s peer
        → is_paired_hmd same to_canonical s peer ≡ false
    unfolding is_paired_hmd
    unpaired none peer h = refl
    unpaired (some ip) peer h = elim (Bool-cases (same (to_canonical ip) (to_canonical peer))) [
      | inl e ↦ absurd (h ((decides (to_canonical ip) (to_canonical peer)).0 e))
      | inr e ↦ e
    ]

    receive-own :
        (d : Datagram Addr) (s : Latest × ℕ)
        → IsHmd session d.peer
        → receive same to_canonical session d.now d.peer d.bytes s
          ≡ (take_packet d.now d.bytes s.0, s.1)
    unfolding receive
    receive-own d (l, rejected) h = rw (paired session d.peer h) refl

    receive-stranger :
        (d : Datagram Addr) (s : Latest × ℕ)
        → IsStranger session d.peer
        → receive same to_canonical session d.now d.peer d.bytes s ≡ (s.0, (s.1 + 1) % 2 ^ 64)
    unfolding receive
    receive-stranger d (l, rejected) h = rw (unpaired session d.peer h) refl

    -- With a session or without: of any datagrams in any order, exactly those from the address of the
    -- session's headset, compared in canonical form, are taken, in their order; the others change
    -- nothing but the number of packets dropped, which counts each of them, modulo 2^64. The equality
    -- of addresses is assumed to be decided.
    pub receive_all-sources :
        (marked : List (Datagram Addr × Bool)) (l : Latest) (rejected : ℕ)
        → All IsMarked marked
        → rejected < 2 ^ 64
        → receive_all (datagrams_of marked) (l, rejected)
          ≡ (take_own marked l, (rejected + strangers marked) % 2 ^ 64)
    unfolding receive_all
    receive_all-sources [] l rejected h small =
        let same_count : rejected ≡ (rejected + 0) % 2 ^ 64 = omega arith in
        ap (λ n. (l, n)) same_count
    receive_all-sources ((d, true) ∷ marked) l rejected h small =
        ap (receive_all (datagrams_of marked)) (receive-own d (l, rejected) h.0)
        ∙ receive_all-sources marked (take_packet d.now d.bytes l) rejected h.1 small
    receive_all-sources ((d, false) ∷ marked) l rejected h small =
        let counted : ((rejected + 1) % 2 ^ 64 + strangers marked) % 2 ^ 64
            ≡ (rejected + (1 + strangers marked)) % 2 ^ 64 =
          omega arith in
        ap (receive_all (datagrams_of marked)) (receive-stranger d (l, rejected) h.0)
        ∙ (receive_all-sources marked l ((rejected + 1) % 2 ^ 64) h.1 (omega arith)
            ∙ ap (λ n. (take_own marked l, n)) counted)

-- A controller packet of at least 53 bytes behind its type, for controller 0 or 1 of two, reaches
-- its own slot, with the time at which it came, and no other: the head, the gaze and the other slot
-- stay.
pub take_packet-controller :
    (now id j : ℕ) (body : List ℕ) (l : Latest)
    → 52 ≤ length body
    → id < 2
    → length l.controllers ≡ 2
    → j ≢ id
    → ((take_packet now (0x02 ∷ id ∷ body) l).head ≡ l.head)
      × ((take_packet now (0x02 ∷ id ∷ body) l).gaze ≡ l.gaze)
      × (get_or (take_packet now (0x02 ∷ id ∷ body) l).controllers j none
          ≡ get_or l.controllers j none)
      × ((state : ControllerState) × (get_or
              (take_packet now (0x02 ∷ id ∷ body) l).controllers
              id
              none
            ≡ some (state, now))
          × (parse_controller (id ∷ body) ≡ some state)
          × (state.controller_id ≡ id))
unfolding take_packet store_controller parse_controller
take_packet-controller now id j body l long small two other =
    rw (le→not_ltb (suc (length body)) 53 (omega arith), lt→ltb id 2 small)
      (
        refl,
        refl,
        get_or-set_ne l.controllers _ none (λ e. other (sym e)),
        (_, get_or-set_self l.controllers id _ none (omega (arith, two)), refl, refl),
      )
