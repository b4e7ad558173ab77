-- ===== src/Sse/RoundTrip.antt =====
-- What is printed as an event (sse_event.rs) is parsed as that event (sse_parser.rs).
use rust_mcp_sdk.Prelude.{
  ℕ, ◌<◌, ◌^◌, ◌≡◌, ◌≢◌, refl, ap, true, false, not, ◌&&◌, ◌||◌, Option, none, some, List, [], ◌∷◌,
  ◌++◌, append_assoc, arith, is_empty, is_some, All, All-append, if◌then◌else◌,
}
use rust_mcp_sdk.Prelude.Text.{Text, codes, text_beq}
use rust_mcp_sdk.Prelude.Split.{join}
use rust_mcp_sdk.Prelude.Utf8.{Bytes, IsAscii, as_bytes, as_bytes_ascii}
use rust_mcp_sdk.Prelude.Decimal.{to_decimal, parse_uint-to_decimal}
use rust_mcp_sdk.Sse.{
  SseEvent, finish, parse_retry, parse_sse_message, blank_line, written_line, event_lines,
  event_bytes, to_sse_string, retry_lines, text_field, concat, is_blank,
}
use rust_mcp_sdk.Sse.Lines.{IsLine}
use rust_mcp_sdk.Sse.Messages.{NotBlank}
use rust_mcp_sdk.Sse.FieldLines.{
  IsFieldText, IsDataText, IsPrintable, IfSome, IfSomeText, echo, with_feed, plain_lines, read_back,
  parts, retry_text, trim-to_decimal, IsAscii-line, event_lines-eq-plain_lines,
  read_fields-plain_lines, to_decimal-IsFieldText,
}

parse_retry-retry_text :
    (r : Option ℕ) → IfSome (λ n. n < 2 ^ 64) r → parse_retry (retry_text r) ≡ r
parse_retry-retry_text none h = refl
parse_retry-retry_text (some n) h =
    rw (trim-to_decimal n) (rw (parse_uint-to_decimal (2 ^ 64) n h) refl)

data_bytes-parts :
    (d : Option Text)
    → IfSomeText IsDataText d
    → (if is_empty (parts d) then none else some (as_bytes (join blank_line (parts d))))
      ≡ with_feed d
data_bytes-parts none h = refl
data_bytes-parts (some d) h = ap some (
    as_bytes_ascii (d ++ blank_line) (All-append (λ c. c < 128) d blank_line h.ascii (omega arith)))

-- The last test of `parse_sse_message` passes: a field is there.
some_field_kept :
    (v i : Option Text) (r : Option ℕ) (d : Option Text) (e : SseEvent)
    → (is_some v || is_some i || is_some d || is_some r) ≡ true
    → (if not (is_some (with_feed d))
          && not (is_some i)
          && not (is_some r)
          && not (is_some v)
          && not (is_some d)
        then none
        else some e)
      ≡ some e
some_field_kept v i r d e h = ground arith

finish-read_back : (e : SseEvent) → IsPrintable e → finish (read_back e) ≡ some (echo e)
unfolding finish
finish-read_back e h = rw (parse_retry-retry_text e.retry h.retry_range) (
    rw (data_bytes-parts e.data_bytes h.data_text)
      (some_field_kept e.event e.id e.retry e.data_bytes (echo e) h.some_field))

pub parse-event_lines :
    (e : SseEvent) → IsPrintable e → parse_sse_message (event_lines e) ≡ some (echo e)
unfolding parse_sse_message
parse-event_lines e h =
    rw (event_lines-eq-plain_lines e h) (rw (read_fields-plain_lines e h) (finish-read_back e h))

-- A line that is written for a field.
pub record IsFieldLine (l : Bytes) : Type 0 where
  pub line : IsLine l
  pub not_blank : is_blank l ≡ false
  pub ascii : IsAscii l

IsLine-end : (s : Text) → All (λ c. c ≢ 10) s → IsLine (s ++ blank_line)
IsLine-end [] h = refl
IsLine-end (c ∷ []) h = (h.0, refl)
IsLine-end (c ∷ d ∷ s) h = (h.0, IsLine-end (d ∷ s) h.1)

IsLine-written :
    (prefix v : Text)
    → All (λ c. c ≢ 10) prefix
    → All (λ c. c ≢ 10) v
    → IsLine (prefix ++ (v ++ blank_line))
IsLine-written prefix v hp hv =
    rw (← append_assoc prefix v blank_line)
      (IsLine-end (prefix ++ v) (All-append (λ c. c ≢ 10) prefix v hp hv))

module _ (v : Text) (no_feed : All (λ c. c ≢ 10) v) (ascii : IsAscii v) where
  id_line : IsFieldLine (written_line "id: " v)
  unfolding text_beq
  id_line = record {
    line = IsLine-written (codes "id: ") v (omega arith) no_feed;
    not_blank = refl;
    ascii = IsAscii-line (codes "id: ") v (omega arith) ascii;
  }

  event_line : IsFieldLine (written_line "event: " v)
  unfolding text_beq
  event_line = record {
    line = IsLine-written (codes "event: ") v (omega arith) no_feed;
    not_blank = refl;
    ascii = IsAscii-line (codes "event: ") v (omega arith) ascii;
  }

  retry_line : IsFieldLine (written_line "retry: " v)
  unfolding text_beq
  retry_line = record {
    line = IsLine-written (codes "retry: ") v (omega arith) no_feed;
    not_blank = refl;
    ascii = IsAscii-line (codes "retry: ") v (omega arith) ascii;
  }

  data_line : IsFieldLine (written_line "data: " v)
  unfolding text_beq
  data_line = record {
    line = IsLine-written (codes "data: ") v (omega arith) no_feed;
    not_blank = refl;
    ascii = IsAscii-line (codes "data: ") v (omega arith) ascii;
  }

retry_field_lines : (r : Option ℕ) → All IsFieldLine (retry_lines r)
retry_field_lines none = tt
retry_field_lines (some n) =
    let t = to_decimal-IsFieldText n in (retry_line (to_decimal n) t.no_feed t.ascii, tt)

id_field_lines :
    (v : Option Text) → IfSomeText IsFieldText v → All IsFieldLine (text_field "id: " v)
id_field_lines none h = tt
id_field_lines (some v) h = (id_line v h.no_feed h.ascii, tt)

event_field_lines :
    (v : Option Text) → IfSomeText IsFieldText v → All IsFieldLine (text_field "event: " v)
event_field_lines none h = tt
event_field_lines (some v) h = (event_line v h.no_feed h.ascii, tt)

data_field_lines :
    (v : Option Text) → IfSomeText IsDataText v → All IsFieldLine (text_field "data: " v)
data_field_lines none h = tt
data_field_lines (some v) h = (data_line v h.no_feed h.ascii, tt)

pub plain_lines-IsFieldLine : (e : SseEvent) → IsPrintable e → All IsFieldLine (plain_lines e)
plain_lines-IsFieldLine e h =
    All-append IsFieldLine (retry_lines e.retry) _ (retry_field_lines e.retry) (
      All-append IsFieldLine (text_field "id: " e.id) _ (id_field_lines e.id h.id_text) (
        All-append IsFieldLine (text_field "event: " e.event) _
          (event_field_lines e.event h.event_text) (data_field_lines e.data_bytes h.data_text)))

pub lines_of : (ls : List Bytes) → All IsFieldLine ls → All IsLine ls
lines_of [] h = tt
lines_of (l ∷ ls) h = (h.0.line, lines_of ls h.1)

pub NotBlank-of : (ls : List Bytes) → All IsFieldLine ls → NotBlank ls
NotBlank-of [] h = tt
NotBlank-of (l ∷ ls) h = (h.0.not_blank, NotBlank-of ls h.1)

IsAscii-of : (ls : List Bytes) → All IsFieldLine ls → IsAscii (concat ls ++ blank_line)
IsAscii-of [] h = omega arith
IsAscii-of (l ∷ ls) h =
    rw (append_assoc l (concat ls) blank_line)
      (All-append (λ c. c < 128) l _ h.0.ascii (IsAscii-of ls h.1))

pub event_bytes-plain_lines :
    (e : SseEvent) → IsPrintable e → event_bytes e ≡ concat (plain_lines e) ++ blank_line
unfolding event_bytes to_sse_string
event_bytes-plain_lines e h =
    rw (event_lines-eq-plain_lines e h)
      (as_bytes_ascii _ (IsAscii-of (plain_lines e) (plain_lines-IsFieldLine e h)))
