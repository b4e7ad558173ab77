-- ===== src/Sse.antt =====
-- Server-sent events: crates/rust-mcp-transport/src/utils/sse_event.rs and sse_parser.rs.
pub mod Lines
pub mod Chunks
pub mod FieldLines
pub mod Messages
pub mod RoundTrip
pub mod Streams
mod Tests
use rust_mcp_sdk.Prelude.{
  ℕ, String, zero, suc, ◌+◌, ◌-◌, ◌^◌, Bool, true, false, not, ◌&&◌, ◌||◌, Option, none, some, List,
  [], ◌∷◌, ◌++◌, length, take, drop, retain, position, is_empty, leb, ltb, ◌==◌, if◌then◌else◌,
  is_some, ◌>>=◌,
}
use rust_mcp_sdk.Prelude.Text.{Text, codes, text_beq, trim, trim_end_by, strip_prefix}
use rust_mcp_sdk.Prelude.Split.{starts_with, split, join}
use rust_mcp_sdk.Prelude.Utf8.{Bytes, from_utf8_lossy, from_utf8, as_bytes}
use rust_mcp_sdk.Prelude.Decimal.{Parsed, parsed, failed, to_decimal, parse_uint}

pub record SseEvent : Type 0 where
  pub event : Option Text
  pub data_bytes : Option Bytes
  pub id : Option Text
  pub retry : Option ℕ

-- A line feed, and the line that holds nothing else.
abbrev pub line_feed : ℕ
line_feed = 10

abbrev pub blank_line : Text
blank_line = line_feed ∷ []

-- The loop that takes the complete lines off the buffer. The fuel is the length of the buffer.
unfoldable pub take_lines : ℕ → Bytes → List Bytes × Bytes
take_lines zero buffer = ([], buffer)
take_lines (suc fuel) buffer = elim (position (λ b. b == line_feed) buffer) [
  | none ↦ ([], buffer)
  | some pos ↦
      let (lines, rest) = take_lines fuel (drop (pos + 1) buffer) in
      (take (pos + 1) buffer ∷ lines, rest)
]

-- A line of a message, by the key of its field.
pub data Field : Type 0 where
  data_field event_field id_field retry_field : Text → Field
  skipped : Field

pub classify : Text → Field
classify line =
    if is_empty line || starts_with (codes ":") line
    then skipped
    else elim (strip_prefix (codes "data: ") line) [
      | some value ↦ data_field value
      | none ↦
          let bare = trim_end_by (λ c. c == line_feed) line in
          if text_beq bare (codes "data:") || (is_empty bare && starts_with (codes "data:") line)
          then data_field []
          else elim (strip_prefix (codes "event: ") line) [
            | some value ↦ event_field (trim value)
            | none ↦ elim (strip_prefix (codes "id: ") line) [
              | some value ↦ id_field (trim value)
              | none ↦ elim (strip_prefix (codes "retry: ") line) [
                | some value ↦ retry_field (trim value)
                | none ↦ skipped
              ]
            ]
          ]
    ]

-- The variables of the loop over a message's lines. The map `fields` has three possible keys.
pub record Fields : Type 0 where
  pub event : Option Text
  pub id : Option Text
  pub retry : Option Text
  pub data_parts : List Text
  pub saw_data_line : Bool

abbrev pub no_fields : Fields
no_fields = record { event = none; id = none; retry = none; data_parts = []; saw_data_line = false }

pub add_field : Fields → Field → Fields
add_field f (data_field value) = record f {
  data_parts =
      if not (is_empty value) && not (text_beq value blank_line)
      then f.data_parts ++ value ∷ []
      else f.data_parts;
  saw_data_line = true;
}
add_field f (event_field value) = record f { event = some value }
add_field f (id_field value) = record f { id = some value }
add_field f (retry_field value) = record f { retry = some value }
add_field f skipped = f

unfoldable pub read_fields : Fields → List Bytes → Fields
read_fields f [] = f
read_fields f (line ∷ lines) = read_fields (add_field f (classify (from_utf8_lossy line))) lines

-- `parse().ok()`
abbrev parsed_ok : Parsed → Option ℕ
parsed_ok (parsed n) = some n
parsed_ok (failed e) = none

abbrev parse_retry : Option Text → Option ℕ
parse_retry r = r >>= λ text. parsed_ok (parse_uint (2 ^ 64) (trim text))

-- The end of `parse_sse_message`, from the loop's variables.
unfoldable pub finish : Fields → Option SseEvent
finish f =
    let data_bytes : Option Bytes =
      if is_empty f.data_parts then none else some (as_bytes (join blank_line f.data_parts)) in
    let retry = parse_retry f.retry in
    if not (is_some data_bytes)
      && not (is_some f.id)
      && not (is_some retry)
      && not (is_some f.event)
      && not f.saw_data_line
    then none
    else some (record { event = f.event; data_bytes = data_bytes; id = f.id; retry = retry })

unfoldable pub parse_sse_message : List Bytes → Option SseEvent
unfolding read_fields finish classify add_field
parse_sse_message lines = finish (read_fields no_fields lines)

abbrev pub is_blank : Bytes → Bool
is_blank line = text_beq line blank_line

abbrev pub option_to_list {ℓ} : {A : Type ℓ} → Option A → List A
option_to_list none = []
option_to_list (some a) = a ∷ []

-- The test for a double newline, once the line is pushed to the lines before it.
abbrev pub ends_message : List Bytes → Bytes → Bool
ends_message current line = leb 2 (length (current ++ line ∷ [])) && is_blank line

-- The loop over the complete lines: the events, and the lines of the message that is not complete.
unfoldable pub assemble : List Bytes → List Bytes → List SseEvent × List Bytes
assemble current [] = ([], current)
assemble current (line ∷ lines) =
    let pushed = current ++ line ∷ [] in
    let last = length pushed - 1 in
    let ended = ends_message current line in
    let (events, left) = assemble (if ended then drop last pushed else pushed) lines in
    (
      (if ended
            then option_to_list
                (parse_sse_message (retain (λ l. not (is_blank l)) (take last pushed)))
            else [])
          ++ events,
      left,
    )

abbrev pub concat : List Bytes → Bytes
concat [] = []
concat (l ∷ ls) = l ++ concat ls

-- The parser's state is its buffer.
unfoldable pub process_new_chunk : Bytes → Bytes → List SseEvent × Bytes
process_new_chunk old bytes =
    let buffer = old ++ bytes in
    let (lines, rest) = take_lines (length buffer) buffer in
    let (events, left) = assemble [] lines in
    (events, if not (is_empty left) then concat left ++ rest else rest)

-- One carriage return at the end is dropped.
unfoldable pub strip_return : Text → Text
strip_return [] = []
strip_return (c ∷ []) = if c == 13 then [] else c ∷ []
strip_return (c ∷ d ∷ s) = c ∷ strip_return (d ∷ s)

line_ends : List Text → List Text
unfolding strip_return
line_ends [] = []
line_ends (s ∷ []) = if is_empty s then [] else s ∷ []
line_ends (s ∷ t ∷ l) = strip_return s ∷ line_ends (t ∷ l)

-- `str::lines`: the parts between line feeds, without a carriage return before the line feed, and
-- without an empty part at the end.
unfoldable pub text_lines : Text → List Text
unfolding line_ends
text_lines text = line_ends (split blank_line text)

abbrev pub written_line : String → Text → Text
written_line prefix value = codes prefix ++ (value ++ blank_line)

abbrev pub data_lines : List Text → List Text
data_lines [] = []
data_lines (line ∷ lines) = written_line "data: " line ∷ data_lines lines

abbrev pub retry_lines : Option ℕ → List Text
retry_lines none = []
retry_lines (some retry) = written_line "retry: " (to_decimal retry) ∷ []

abbrev pub text_field : String → Option Text → List Text
text_field prefix none = []
text_field prefix (some value) = written_line prefix value ∷ []

-- The data, from what `from_utf8` makes of it.
abbrev pub decoded_lines : Option Text → List Text
decoded_lines none = written_line "data: " (codes "[binary data]") ∷ []
decoded_lines (some text) = data_lines (text_lines text)

abbrev pub data_part : Option Bytes → List Text
data_part none = []
data_part (some bytes) = decoded_lines (from_utf8 bytes)

-- The lines that `fmt` writes before the last, blank one.
unfoldable pub event_lines : SseEvent → List Text
unfolding text_lines
event_lines e =
    retry_lines e.retry
    ++ (text_field "id: " e.id ++ (text_field "event: " e.event ++ data_part e.data_bytes))

unfoldable pub to_sse_string : SseEvent → Text
unfolding event_lines
to_sse_string e = concat (event_lines e) ++ blank_line

unfoldable pub event_bytes : SseEvent → Bytes
unfolding to_sse_string
event_bytes e = as_bytes (to_sse_string e)

-- `SseEvent::new` and the setters.
abbrev pub new : Text → SseEvent
new text = record { event = none; data_bytes = some (as_bytes text); id = none; retry = none }

abbrev pub with_event : SseEvent → Text → SseEvent
with_event e event = record e { event = some event }

abbrev pub with_id : SseEvent → Text → SseEvent
with_id e id = record e { id = some id }

abbrev pub with_retry : SseEvent → ℕ → SseEvent
with_retry e retry = record e { retry = some retry }

abbrev pub with_data_bytes : SseEvent → Bytes → SseEvent
with_data_bytes e bytes = record e { data_bytes = some bytes }

abbrev pub with_data : SseEvent → Text → SseEvent
with_data e text = record e { data_bytes = some (as_bytes text) }
