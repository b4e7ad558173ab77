-- ===== src/Prelude/Utf8.antt =====
-- UTF-8 as Rust's standard library decodes and encodes it.
use Prim.Native.Nat.{ℕ, ◌+◌, ◌-◌, ◌*◌, ◌/◌, ◌%◌, ◌<◌, ◌≤◌}
use native.Mathlib.Omega.{arith}
use mathlib.Core.Path.{◌≡◌, refl}
use mathlib.Core.Logic.{inl, inr}
use mathlib.Core.Bool.{◌&&◌, false}
use mathlib.Core.Option.{Option, none, some}
use mathlib.Core.List.{List, [], ◌∷◌, ◌++◌}
use rust_mcp_sdk.Prelude.Tests.{◌==◌, leb, ltb, if◌then◌else◌, Bool-cases}
use rust_mcp_sdk.Prelude.Lists.{All}
use rust_mcp_sdk.Prelude.Text.{Text, text_beq, text_beq_iff}

abbrev pub Bytes : Type 0
Bytes = List ℕ

-- `char::REPLACEMENT_CHARACTER`
abbrev replacement : ℕ
replacement = 0xFFFD

-- A sequence that has begun: how many bytes are to come, the bits so far, and the range of the
-- next byte.
pub data Pending : Type 0 where
  idle : Pending
  wants : ℕ → ℕ → ℕ → ℕ → Pending

-- The first byte of a sequence: what is written at once, and what is to come.
start : ℕ → Text × Pending
start b =
    if ltb b 0x80
    then (b ∷ [], idle)
    else if leb 0xC2 b && leb b 0xDF
    then ([], wants 1 (b - 0xC0) 0x80 0xBF)
    else if b == 0xE0
    then ([], wants 2 0 0xA0 0xBF)
    else if b == 0xED
    then ([], wants 2 (b - 0xE0) 0x80 0x9F)
    else if leb 0xE1 b && leb b 0xEF
    then ([], wants 2 (b - 0xE0) 0x80 0xBF)
    else if b == 0xF0
    then ([], wants 3 0 0x90 0xBF)
    else if leb 0xF1 b && leb b 0xF3
    then ([], wants 3 (b - 0xF0) 0x80 0xBF)
    else if b == 0xF4
    then ([], wants 3 4 0x80 0x8F)
    else (replacement ∷ [], idle)

next_byte : Pending → ℕ → Text × Pending
unfolding start
next_byte idle b = start b
next_byte (wants left bits lo hi) b =
    if leb lo b && leb b hi
    then (if left == 1
        then ((bits * 64 + (b - 0x80)) ∷ [], idle)
        else ([], wants (left - 1) (bits * 64 + (b - 0x80)) 0x80 0xBF))
    else (let (out, pending) = start b in (replacement ∷ out, pending))

decode : Pending → Bytes → Text
unfolding next_byte
decode idle [] = []
decode (wants left bits lo hi) [] = replacement ∷ []
decode pending (b ∷ s) = let (out, pending') = next_byte pending b in out ++ decode pending' s

-- `String::from_utf8_lossy`: each longest part of a broken sequence becomes one replacement.
unfoldable pub from_utf8_lossy : Bytes → Text
unfolding decode
from_utf8_lossy s = decode idle s

encode_char : ℕ → Bytes
encode_char c =
    if ltb c 0x80
    then c ∷ []
    else if ltb c 0x800
    then (0xC0 + c / 64) ∷ (0x80 + c % 64) ∷ []
    else if ltb c 0x10000
    then (0xE0 + c / 4096) ∷ (0x80 + c / 64 % 64) ∷ (0x80 + c % 64) ∷ []
    else (0xF0 + c / 262144) ∷ (0x80 + c / 4096 % 64) ∷ (0x80 + c / 64 % 64) ∷ (0x80 + c % 64) ∷ []

-- `str::as_bytes`
unfoldable pub as_bytes : Text → Bytes
unfolding encode_char
as_bytes [] = []
as_bytes (c ∷ s) = encode_char c ++ as_bytes s

-- `str::from_utf8`: bytes are well formed exactly when decoding replaces nothing.
unfoldable pub from_utf8 : Bytes → Option Text
from_utf8 s = if text_beq (as_bytes (from_utf8_lossy s)) s then some (from_utf8_lossy s) else none

abbrev pub IsAscii : Text → Type 0
IsAscii = All (λ c. c < 128)

pub from_utf8_lossy_ascii : (s : Bytes) → IsAscii s → from_utf8_lossy s ≡ s
unfolding from_utf8_lossy
from_utf8_lossy_ascii [] h = refl
from_utf8_lossy_ascii (c ∷ s) h = ground (arith, from_utf8_lossy_ascii s h.1, h.0)

pub as_bytes_ascii : (s : Text) → IsAscii s → as_bytes s ≡ s
unfolding as_bytes
as_bytes_ascii [] h = refl
as_bytes_ascii (c ∷ s) h = ground (arith, as_bytes_ascii s h.1, h.0)

pub from_utf8_ascii : (s : Bytes) → IsAscii s → from_utf8 s ≡ some s
unfolding from_utf8
from_utf8_ascii s h =
    rw (from_utf8_lossy_ascii s h) (rw (as_bytes_ascii s h) (rw ((text_beq_iff s s).1 refl) refl))

-- Every byte of a character that is not in ASCII is above those that are.
pub as_bytes-high :
    (c : ℕ) (s : Text) → 128 ≤ c → (b : ℕ) × (t : Bytes) × (as_bytes (c ∷ s) ≡ b ∷ t) × (128 ≤ b)
unfolding as_bytes
as_bytes-high c s h =
    let above : ltb c 0x80 ≡ false = ground arith in
    rw above (elim (Bool-cases (ltb c 0x800)) [
      | inl e ↦ rw e (0xC0 + c / 64, _, refl, omega arith)
      | inr e ↦ rw e (elim (Bool-cases (ltb c 0x10000)) [
        | inl e' ↦ rw e' (0xE0 + c / 4096, _, refl, omega arith)
        | inr e' ↦ rw e' (0xF0 + c / 262144, _, refl, omega arith)
      ])
    ])

-- "é", "€" and "😀" are read back; a cut and an overlong sequence are replaced.
utf8_example :
    (as_bytes (0xE9 ∷ 0x20AC ∷ 0x1F600 ∷ [])
      ≡ 0xC3 ∷ 0xA9 ∷ 0xE2 ∷ 0x82 ∷ 0xAC ∷ 0xF0 ∷ 0x9F ∷ 0x98 ∷ 0x80 ∷ [])
    × (from_utf8 (as_bytes (0xE9 ∷ 0x20AC ∷ 0x1F600 ∷ [])) ≡ some (0xE9 ∷ 0x20AC ∷ 0x1F600 ∷ []))
    × (from_utf8_lossy (0xE2 ∷ 0x82 ∷ 0x41 ∷ 0xC0 ∷ 0xAF ∷ [])
        ≡ replacement ∷ 0x41 ∷ replacement ∷ replacement ∷ [])
    × (from_utf8 (0xE2 ∷ 0x82 ∷ 0x41 ∷ []) ≡ none)
unfolding as_bytes from_utf8 from_utf8_lossy text_beq
utf8_example = (refl, refl, refl, refl)
