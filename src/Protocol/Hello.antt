-- ===== src/Protocol/Hello.antt =====
-- The HELLO payload of protocol.rs: the version, then the capabilities.
use focus_vision_pcvr.Prelude.{
  ℕ, ◌^◌, ◌<◌, ◌≡◌, List, [], ◌∷◌, ◌++◌, arith, length, get_or, leb, if◌then◌else◌,
}
use focus_vision_pcvr.Prelude.Words.{to_le_bytes, le_at, from_le_bytes-to_le_bytes}

abbrev pub protocol_version : ℕ
protocol_version = 6

unfoldable pub parse_hello_version : List ℕ → ℕ
parse_hello_version payload = if leb 2 (length payload) then le_at 2 0 payload else 1

unfoldable pub parse_hello_caps : List ℕ → ℕ
parse_hello_caps payload = if leb 3 (length payload) then get_or payload 2 0 else 0

unfoldable pub encode_version : ℕ → List ℕ
encode_version version = to_le_bytes 2 version

unfoldable pub encode_hello : ℕ → ℕ → List ℕ
encode_hello version caps = to_le_bytes 2 version ++ (caps ∷ [])

-- A HELLO payload with capabilities, or a version alone, is read back whatever bytes a later version
-- appends to the first: the version of a 16-bit word, and the capabilities or none.
pub parse-encode_hello :
    (version caps : ℕ) (more : List ℕ)
    → version < 2 ^ 16
    → (parse_hello_version (encode_hello version caps ++ more) ≡ version)
      × (parse_hello_caps (encode_hello version caps ++ more) ≡ caps)
      × (parse_hello_version (encode_version version) ≡ version)
      × (parse_hello_caps (encode_version version) ≡ 0)
unfolding parse_hello_version parse_hello_caps encode_hello encode_version
parse-encode_hello version caps more h =
    let word = from_le_bytes-to_le_bytes 2 version (omega arith) in
    (ground (arith, word), ground arith, ground (arith, word), ground arith)
