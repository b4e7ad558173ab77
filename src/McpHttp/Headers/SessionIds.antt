-- ===== src/McpHttp/Headers/SessionIds.antt =====
-- Which texts are session ids (crates/rust-mcp-sdk/src/mcp_http/mcp_http_handler.rs).
use rust_mcp_sdk.Prelude.{
  ℕ, ◌≤◌, ◌<◌, ◌≡◌, refl, Bool, true, false, not, ◌&&◌, none, [], ◌∷◌, length, all, All, arith, ltb,
  ◌==◌, Bool-cases, ◌↔◌, inl, inr,
}
use rust_mcp_sdk.Prelude.Text.{Text}
use rust_mcp_sdk.Prelude.Utf8.{Bytes, as_bytes, as_bytes_ascii, as_bytes-high, IsAscii}
use rust_mcp_sdk.McpHttp.Headers.{is_ascii_graphic, is_valid_session_id, max_session_id_len}

-- A printable character of ASCII that is no space.
abbrev pub IsPrintable : ℕ → Type 0
IsPrintable c = (33 ≤ c) × (c ≤ 126)

-- One to 128 printable characters.
abbrev pub IsSessionId : Text → Type 0
IsSessionId value = (0 < length value) × (length value ≤ 128) × All IsPrintable value

abbrev is_allowed : ℕ → Bool
is_allowed b = is_ascii_graphic b && not (b == 32)

allowed-IsPrintable : (s : Bytes) → all is_allowed s ≡ true → All IsPrintable s
allowed-IsPrintable [] h = tt
allowed-IsPrintable (b ∷ s) h = ground (arith, allowed-IsPrintable s)

IsPrintable-allowed : (s : Bytes) → All IsPrintable s → all is_allowed s ≡ true
IsPrintable-allowed [] h = refl
IsPrintable-allowed (b ∷ s) h = ground (arith, IsPrintable-allowed s h.1, h.0)

IsPrintable-IsAscii : (s : Text) → All IsPrintable s → IsAscii s
IsPrintable-IsAscii [] h = tt
IsPrintable-IsAscii (c ∷ s) h = (omega (arith, h.0), IsPrintable-IsAscii s h.1)

-- Bytes that are allowed are those of a text in ASCII.
allowed-IsAscii : (s : Text) → all is_allowed (as_bytes s) ≡ true → IsAscii s
unfolding as_bytes
allowed-IsAscii [] h = tt
allowed-IsAscii (c ∷ s) h = elim (Bool-cases (ltb c 128)) [
  | inl e ↦ ground (arith, allowed-IsAscii s)
  | inr e ↦
      let (b, t, bytes, above) = as_bytes-high c s (ground arith) in
      let allowed : all is_allowed (b ∷ t) ≡ true = rw bytes at h in absurd (ground arith)
]

-- `is_valid_session_id` accepts a text exactly if it consists of one to 128 printable characters of
-- ASCII, of which a space is none.
pub is_valid_session_id-IsSessionId :
    (value : Text) → (is_valid_session_id value ≡ none) ↔ IsSessionId value
unfolding is_valid_session_id
is_valid_session_id-IsSessionId value = (accepted value, valid value)
  where
    accepted : (value : Text) → is_valid_session_id value ≡ none → IsSessionId value
    accepted [] h = cc
    accepted (c ∷ s) h = elim (Bool-cases (all is_allowed (as_bytes (c ∷ s)))) [
      | inr e ↦ absurd (ground (arith, e, h))
      | inl e ↦
          let same = as_bytes_ascii (c ∷ s) (allowed-IsAscii (c ∷ s) e) in
          let allowed : all is_allowed (c ∷ s) ≡ true = rw same at e in
          (omega arith, ground (arith, same, e, h), allowed-IsPrintable (c ∷ s) allowed)
    ]

    valid : (value : Text) → IsSessionId value → is_valid_session_id value ≡ none
    valid [] h = absurd (omega (arith, h.0))
    valid (c ∷ s) h =
        let same = as_bytes_ascii (c ∷ s) (IsPrintable-IsAscii (c ∷ s) h.2) in
        let within : ltb max_session_id_len (length (c ∷ s)) ≡ false = ground (arith, h.1) in
        rw same (rw within (rw (IsPrintable-allowed (c ∷ s) h.2) refl))
