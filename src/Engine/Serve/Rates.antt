-- ===== src/Engine/Serve/Rates.antt =====
-- The two requests of a client that are limited in rate.
pub mod Runs
use focus_vision_pcvr.Prelude.{
  ℕ, zero, suc, ◌+◌, ◌-◌, ◌≤◌, ◌≡◌, refl, Bool, true, false, not, ◌&&◌, Option, none, some, List,
  [], ◌∷◌, ◌++◌, arith, length, get_or, drop, ltb, leb, ltb-cases, leb-cases, ◌==◌, if◌then◌else◌,
  Result, ok, err, Bool-cases, Option-cases, inl, inr, ap,
}
use focus_vision_pcvr.Prelude.Words.{le_at}
use focus_vision_pcvr.Protocol.Feedback.{parse_transport_feedback}
use focus_vision_pcvr.Protocol.ViewConfig.{parse_view_config}
use focus_vision_pcvr.Adaptive.Controller.{min_bitrate_mbps, max_bitrate_mbps}
use focus_vision_pcvr.Engine.FaceData.{parse_face_data}
use focus_vision_pcvr.Engine.Inbox.{Taken, take_control_message}
use focus_vision_pcvr.Engine.Control.{
  Call, notify_idr_request, forward, send_face_data, notify_view_config, send_msg, Channel, open_at,
  call, send, idr_interval, on_idr_request, on_heartbeat, on_face_data, on_transport_feedback,
  on_view_config,
}
use focus_vision_pcvr.Engine.Settings.{
  config_update_min_interval, config_update_ack, update_bitrate, update_recording,
  update_audio_recording, apply_update, on_config_update,
}
use focus_vision_pcvr.Engine.Serve.{
  handle_message, msg_idr_request, msg_heartbeat, msg_face_data, msg_transport_feedback,
  msg_config_update, msg_view_config, msg_disconnect, Served, going, ended, and_then, serve_taken,
  serve_rounds, serve, on_read, Wake, read, read_failed, silence, haptic, sleeping, on_wake, run,
}

abbrev pub is_idr : Call → Bool
is_idr notify_idr_request = true
is_idr (forward e) = false
is_idr (send_face_data f) = false
is_idr (notify_view_config v) = false
is_idr (send_msg m) = false

abbrev pub is_update_ack : Call → Bool
is_update_ack notify_idr_request = false
is_update_ack (forward e) = false
is_update_ack (send_face_data f) = false
is_update_ack (notify_view_config v) = false
is_update_ack (send_msg m) = m.msg_type == config_update_ack

-- The instants of the calls of a kind, the latest first.
abbrev pub times : (Call → Bool) → List (ℕ × Call) → List ℕ
times kind [] = []
times kind ((t, e) ∷ calls) = if kind e then t ∷ times kind calls else times kind calls

-- Each is at least `gap` before the one after it, which is at `t`.
abbrev pub SpacedBelow : ℕ → ℕ → List ℕ → Type 0
SpacedBelow gap t [] = Unit
SpacedBelow gap t (u ∷ ts) = (u + gap ≤ t) × SpacedBelow gap u ts

-- The same of all of them, and the latest is not after `last`.
abbrev pub Spaced : ℕ → ℕ → List ℕ → Type 0
Spaced gap last [] = Unit
Spaced gap last (t ∷ ts) = (t ≤ last) × SpacedBelow gap t ts

-- Keyframes are asked of the encoder at least 500 ms apart, and settings are answered at least one
-- second apart.
pub record IsPaced (c : Channel) : Type 0 where
  pub idr : Spaced idr_interval c.last_idr_time (times is_idr c.calls)
  pub updates : Spaced config_update_min_interval c.last_config_update (times is_update_ack c.calls)

-- One more, at least `gap` after the latest.
Spaced-cons :
    (gap last now : ℕ) (ts : List ℕ)
    → last + gap ≤ now
    → Spaced gap last ts
    → Spaced gap now (now ∷ ts)
Spaced-cons gap last now [] h s = (omega arith, tt)
Spaced-cons gap last now (t ∷ ts) h s = (omega arith, (omega (arith, h, s), s.1))

pub open_at-IsPaced : (now : ℕ) (recording audio : Bool) → IsPaced (open_at now recording audio)
unfolding open_at
open_at-IsPaced now recording audio = record { idr = tt; updates = tt }

pub call-IsPaced :
    (now : ℕ) (e : Call) (c : Channel)
    → is_idr e ≡ false
    → is_update_ack e ≡ false
    → IsPaced c
    → IsPaced (call now e c)
unfolding call
call-IsPaced now e c not_idr not_ack h = record {
  idr = rw not_idr (h.idr);
  updates = rw not_ack (h.updates);
}

idr-IsPaced : (now : ℕ) (c : Channel) → IsPaced c → IsPaced (on_idr_request now c)
unfolding on_idr_request call
idr-IsPaced now c h = elim (leb-cases idr_interval (now - c.last_idr_time)) [
  | inl due ↦ rw (due.0) (record {
    idr =
        Spaced-cons idr_interval c.last_idr_time now (times is_idr c.calls) (omega (arith, due.1))
          h.idr;
    updates = h.updates;
  })
  | inr early ↦ rw (early.0) (record { idr = h.idr; updates = h.updates })
]

heartbeat-IsPaced :
    (now : ℕ) (payload : List ℕ) (c : Channel) → IsPaced c → IsPaced (on_heartbeat now payload c)
unfolding on_heartbeat call send
heartbeat-IsPaced now payload c h = elim (Bool-cases (leb 26 (length payload))) [
  | inl long ↦ rw long (record { idr = h.idr; updates = h.updates })
  | inr short ↦ rw short h
]

face-IsPaced :
    (now : ℕ) (payload : List ℕ) (c : Channel) → IsPaced c → IsPaced (on_face_data now payload c)
unfolding on_face_data
face-IsPaced now payload c h = elim (Option-cases (parse_face_data payload)) [
  | inl bad ↦ rw bad h
  | inr good ↦ rw (good.1) (record { idr = h.idr; updates = h.updates })
]

feedback-IsPaced :
    (now : ℕ) (payload : List ℕ) (c : Channel)
    → IsPaced c
    → IsPaced (on_transport_feedback now payload c)
unfolding on_transport_feedback
feedback-IsPaced now payload c h = elim (Option-cases (parse_transport_feedback payload)) [
  | inl bad ↦ rw bad h
  | inr good ↦ rw (good.1) (record { idr = h.idr; updates = h.updates })
]

view-IsPaced :
    (now : ℕ) (payload : List ℕ) (c : Channel) → IsPaced c → IsPaced (on_view_config now payload c)
unfolding on_view_config
view-IsPaced now payload c h = elim (Option-cases (parse_view_config payload)) [
  | inl bad ↦ rw bad h
  | inr good ↦ rw (good.1) (record { idr = h.idr; updates = h.updates })
]

-- What applying an update leaves as it was.
record Untouched (c d : Channel) : Type 0 where
  last_idr : d.last_idr_time ≡ c.last_idr_time
  last_update : d.last_config_update ≡ c.last_config_update
  idrs : times is_idr d.calls ≡ times is_idr c.calls
  acks : times is_update_ack d.calls ≡ times is_update_ack c.calls

bitrate-Untouched : (now value : ℕ) (c : Channel) → Untouched c (update_bitrate now value c).0
unfolding update_bitrate call
bitrate-Untouched now value c =
    elim (Bool-cases (leb min_bitrate_mbps value && leb value max_bitrate_mbps)) [
      | inl e ↦ rw e (record { last_idr = refl; last_update = refl; idrs = refl; acks = refl })
      | inr e ↦ rw e (record { last_idr = refl; last_update = refl; idrs = refl; acks = refl })
    ]

apply-Untouched : (now key value : ℕ) (c : Channel) → Untouched c (apply_update now key value c).0
unfolding apply_update update_recording update_audio_recording
apply-Untouched now key value c = elim (Bool-cases (key == 1)) [
  | inl e ↦ rw e (bitrate-Untouched now value c)
  | inr n₁ ↦ elim (Bool-cases (key == 2)) [
    | inl e ↦ rw (n₁, e) (record { last_idr = refl; last_update = refl; idrs = refl; acks = refl })
    | inr n₂ ↦ elim (Bool-cases (key == 3)) [
      | inl e ↦
          rw (n₁, n₂, e) (record { last_idr = refl; last_update = refl; idrs = refl; acks = refl })
      | inr n₃ ↦ elim (Bool-cases (key == 5)) [
        | inl e ↦
            rw (n₁, n₂, n₃, e)
              (record { last_idr = refl; last_update = refl; idrs = refl; acks = refl })
        | inr n₅ ↦
            rw (n₁, n₂, n₃, n₅)
              (record { last_idr = refl; last_update = refl; idrs = refl; acks = refl })
      ]
    ]
  ]
]

update-IsPaced :
    (now : ℕ) (payload : List ℕ) (c : Channel)
    → IsPaced c
    → IsPaced (on_config_update now payload c)
unfolding on_config_update send call
update-IsPaced now payload c h =
    elim (ltb-cases (now - c.last_config_update) config_update_min_interval) [
      | inl early ↦ rw (early.0) h
      | inr due ↦ elim (Bool-cases (leb 5 (length payload))) [
        | inr short ↦ rw (due.0, short) h
        | inl long ↦
            let started : Channel = record c { last_config_update = now } in
            let u = apply-Untouched now (get_or payload 0 0) (le_at 4 1 payload) started in
            rw (due.0, long)
              (record {
                idr = rw (u.last_idr, u.idrs) (h.idr);
                updates =
                    rw (u.last_update, u.acks)
                      (Spaced-cons config_update_min_interval c.last_config_update now
                        (times is_update_ack c.calls) (omega (arith, due.1)) h.updates);
              })
      ]
    ]

pub handle-IsPaced :
    (now msg_type : ℕ) (payload : List ℕ) (c : Channel)
    → IsPaced c
    → IsPaced (handle_message now msg_type payload c)
unfolding handle_message
handle-IsPaced now msg_type payload c h = elim (Bool-cases (msg_type == msg_idr_request)) [
  | inl e ↦ rw e (idr-IsPaced now c h)
  | inr n₁ ↦ elim (Bool-cases (msg_type == msg_heartbeat)) [
    | inl e ↦ rw (n₁, e) (heartbeat-IsPaced now payload c h)
    | inr n₂ ↦ elim (Bool-cases (msg_type == msg_face_data)) [
      | inl e ↦ rw (n₁, n₂, e) (face-IsPaced now payload c h)
      | inr n₃ ↦ elim (Bool-cases (msg_type == msg_transport_feedback)) [
        | inl e ↦ rw (n₁, n₂, n₃, e) (feedback-IsPaced now payload c h)
        | inr n₄ ↦ elim (Bool-cases (msg_type == msg_config_update)) [
          | inl e ↦ rw (n₁, n₂, n₃, n₄, e) (update-IsPaced now payload c h)
          | inr n₅ ↦ elim (Bool-cases (msg_type == msg_view_config)) [
            | inl e ↦ rw (n₁, n₂, n₃, n₄, n₅, e) (view-IsPaced now payload c h)
            | inr n₆ ↦ rw (n₁, n₂, n₃, n₄, n₅, n₆) h
          ]
        ]
      ]
    ]
  ]
]
