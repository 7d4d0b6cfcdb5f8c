-- ===== src/Protocol/Feedback.antt =====
-- TRANSPORT_FEEDBACK of protocol.rs. The signed delta is its 32-bit pattern.
use focus_vision_pcvr.Prelude.{
  ℕ, zero, suc, ◌+◌, ◌*◌, ◌%◌, ◌^◌, ◌<◌, ◌≡◌, refl, ap, sym, min, Option, none, some, List, [], ◌∷◌,
  ◌++◌, All, ◌∙◌, subst, arith, append_assoc, length, length-append, length-take, take, drop,
  drop-drop, ltb, le→not_ltb, if◌then◌else◌,
}
use focus_vision_pcvr.Prelude.Words.{to_le_bytes, le_at, from_le_bytes-to_le_bytes}

abbrev pub max_entries : ℕ
max_entries = 256

pub record TransportFeedbackEntry : Type 0 where
  pub sequence : ℕ
  pub recv_delta_us : ℕ

abbrev pub IsEntry : TransportFeedbackEntry → Type 0
IsEntry e = (e.sequence < 2 ^ 16) × (e.recv_delta_us < 2 ^ 32)

unfoldable pub parse_entry : ℕ → List ℕ → TransportFeedbackEntry
parse_entry off payload = record {
  sequence = le_at 2 off payload;
  recv_delta_us = le_at 4 (off + 2) payload;
}

-- The loop over the entries, from the offset of the first one left.
unfoldable pub parse_entries : ℕ → ℕ → List ℕ → List TransportFeedbackEntry
parse_entries zero off payload = []
parse_entries (suc n) off payload = parse_entry off payload ∷ parse_entries n (off + 6) payload

unfoldable pub parse_transport_feedback : List ℕ → Option (List TransportFeedbackEntry)
parse_transport_feedback payload =
    if ltb (length payload) 2
    then none
    else (let count = le_at 2 0 payload in
        if ltb max_entries count
        then none
        else (if ltb (length payload) (2 + count * 6)
            then none
            else some (parse_entries count 2 payload)))

unfoldable pub encode_entry : TransportFeedbackEntry → List ℕ
encode_entry e = to_le_bytes 2 e.sequence ++ to_le_bytes 4 e.recv_delta_us

unfoldable pub encode_entries : List TransportFeedbackEntry → List ℕ
encode_entries [] = []
encode_entries (e ∷ entries) = encode_entry e ++ encode_entries entries

unfoldable pub encode_transport_feedback : List TransportFeedbackEntry → List ℕ
encode_transport_feedback entries =
    let count = min (length entries) max_entries in
    to_le_bytes 2 (count % 2 ^ 16) ++ encode_entries (take count entries)

length-encode_entries :
    (entries : List TransportFeedbackEntry) → length (encode_entries entries) ≡ length entries * 6
unfolding encode_entries encode_entry
length-encode_entries [] = refl
length-encode_entries (e ∷ entries) = omega (arith, length-encode_entries entries)

parse_entry-encode :
    (e : TransportFeedbackEntry) (off : ℕ) (payload rest : List ℕ)
    → IsEntry e
    → drop off payload ≡ encode_entry e ++ rest
    → (parse_entry off payload ≡ e) × (drop (off + 6) payload ≡ rest)
unfolding parse_entry encode_entry
parse_entry-encode e off payload rest small h =
    rw (sym (drop-drop 2 off payload), sym (drop-drop 6 off payload), h)
      (
        rw
            (
              from_le_bytes-to_le_bytes 2 e.sequence (omega (arith, small)),
              from_le_bytes-to_le_bytes 4 e.recv_delta_us (omega (arith, small)),
            )
            refl,
        refl,
      )

parse_entries-encode :
    (entries : List TransportFeedbackEntry) (off : ℕ) (payload rest : List ℕ)
    → All IsEntry entries
    → drop off payload ≡ encode_entries entries ++ rest
    → parse_entries (length entries) off payload ≡ entries
unfolding parse_entries encode_entries
parse_entries-encode [] off payload rest small h = refl
parse_entries-encode (e ∷ entries) off payload rest small h =
    let one =
      parse_entry-encode e off payload (encode_entries entries ++ rest) small.0
        (h ∙ append_assoc (encode_entry e) (encode_entries entries) rest) in
    rw (one.0, parse_entries-encode entries (off + 6) payload rest small.1 one.1) refl

take-IsEntry :
    (n : ℕ) (entries : List TransportFeedbackEntry)
    → All IsEntry entries
    → All IsEntry (take n entries)
take-IsEntry zero entries h = tt
take-IsEntry (suc n) [] h = tt
take-IsEntry (suc n) (e ∷ entries) h = (h.0, take-IsEntry n entries h.1)

counted :
    (entries : List TransportFeedbackEntry) (rest : List ℕ)
    → le_at 2 0 (encode_transport_feedback entries ++ rest) ≡ min (length entries) max_entries
unfolding encode_transport_feedback
counted entries rest =
    from_le_bytes-to_le_bytes 2 (min (length entries) max_entries % 2 ^ 16) (omega arith)
    ∙ omega arith

take-min :
    (n : ℕ) (entries : List TransportFeedbackEntry)
    → take (min (length entries) n) entries ≡ take n entries
take-min zero entries =
    let none_left : min (length entries) zero ≡ zero = omega arith in
    ap (λ k. take k entries) none_left
take-min (suc n) [] =
    let none_there : min 0 (suc n) ≡ zero = omega arith in ap (λ k. take k []) none_there
take-min (suc n) (e ∷ entries) =
    let next : min (suc (length entries)) (suc n) ≡ suc (min (length entries) n) = omega arith in
    ap (λ k. take k (e ∷ entries)) next ∙ ap (◌∷◌ e) (take-min n entries)

length-sent :
    (entries : List TransportFeedbackEntry) (rest : List ℕ)
    → length (encode_transport_feedback entries ++ rest)
      ≡ 2 + min (length entries) max_entries * 6 + length rest
unfolding encode_transport_feedback
length-sent entries rest =
    let sent = take (min (length entries) max_entries) entries in
    omega (
      arith,
      length-append (encode_entries sent) rest,
      length-encode_entries sent,
      length-take (min (length entries) max_entries) entries,
    )

parse-sent :
    (entries : List TransportFeedbackEntry) (rest : List ℕ)
    → All IsEntry entries
    → parse_entries (min (length entries) max_entries) 2 (encode_transport_feedback entries ++ rest)
      ≡ take 256 entries
unfolding encode_transport_feedback
parse-sent entries rest small =
    let n = min (length entries) max_entries in
    let payload = encode_transport_feedback entries ++ rest in
    let sent : length (take n entries) ≡ n = omega (arith, length-take n entries) in
    subst (λ k. parse_entries k 2 payload ≡ take n entries) sent
      (parse_entries-encode (take n entries) 2 payload rest (take-IsEntry n entries small) refl)
    ∙ take-min 256 entries

-- Feedback of entries in the range of their words is read back whatever follows it: all the entries
-- where there are at most 256, and the first 256 where there are more.
pub parse-encode_transport_feedback :
    (entries : List TransportFeedbackEntry) (rest : List ℕ)
    → All IsEntry entries
    → parse_transport_feedback (encode_transport_feedback entries ++ rest) ≡ some (take 256 entries)
unfolding parse_transport_feedback
parse-encode_transport_feedback entries rest small =
    let n = min (length entries) max_entries in
    rw
      (
        counted entries rest,
        length-sent entries rest,
        parse-sent entries rest small,
        le→not_ltb (2 + n * 6 + length rest) 2 (omega arith),
        le→not_ltb max_entries n (omega arith),
        le→not_ltb (2 + n * 6 + length rest) (2 + n * 6) (omega arith),
      )
      refl
