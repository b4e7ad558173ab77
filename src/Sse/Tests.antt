-- ===== src/Sse/Tests.antt =====
-- The parser and the printer of events at concrete inputs.
use rust_mcp_sdk.Prelude.{arith, ◌≡◌, refl, some, none, List, [], ◌∷◌}
use rust_mcp_sdk.Prelude.Text.{codes, trim, text_beq}
use rust_mcp_sdk.Prelude.Split.{starts_with, split}
use rust_mcp_sdk.Prelude.Utf8.{from_utf8_lossy, from_utf8, as_bytes, Bytes}
use rust_mcp_sdk.Prelude.Decimal.{parse_uint, to_decimal}
use rust_mcp_sdk.Sse.{
  SseEvent, process_new_chunk, take_lines, assemble, parse_sse_message, to_sse_string, event_bytes,
  new, with_id, with_event,
}
use rust_mcp_sdk.Sse.Chunks.{feed, feed-eq-process_new_chunk}
use rust_mcp_sdk.Sse.FieldLines.{IsFieldText, IsDataText, IsPrintable, echo}
use rust_mcp_sdk.Sse.Streams.{feed-event_bytes}

-- test_event_with_id_and_data of sse_parser.rs
parsed_example : process_new_chunk [] (codes "event: message\nid: 123\ndata: hello\n\ndata: x") ≡ (
  record {
    event = some (codes "message");
    data_bytes = some (codes "hello\n");
    id = some (codes "123");
    retry = none;
  }
      ∷ [],
  codes "\ndata: x",
)
unfolding process_new_chunk take_lines assemble parse_sse_message starts_with trim from_utf8_lossy
    text_beq as_bytes parse_uint
parsed_example = refl

printed_example :
    to_sse_string (with_event (with_id (new (codes "a\r\nb\n")) (codes "7")) (codes "message"))
    ≡ codes "id: 7\nevent: message\ndata: a\ndata: b\n\n"
unfolding to_sse_string from_utf8 from_utf8_lossy text_beq as_bytes split
printed_example = refl

-- A cut inside a field name and one inside the blank line.
abbrev cut_chunks : List Bytes
cut_chunks = codes "id: 7\nda" ∷ codes "ta: hello\n" ∷ codes "\nretry: 250\n\n" ∷ []

abbrev hello : SseEvent
hello = record {
  event = none;
  data_bytes = some (codes "hello");
  id = some (codes "7");
  retry = none;
}

abbrev pause : SseEvent
pause = record { event = none; data_bytes = none; id = none; retry = some 250 }

seven-IsFieldText : IsFieldText (codes "7")
unfolding trim
seven-IsFieldText = record { ascii = omega arith; no_feed = omega arith; trimmed = refl }

hello-IsDataText : IsDataText (codes "hello")
hello-IsDataText = record { ascii = omega arith; no_feed = omega arith; not_empty = refl }

hello-IsPrintable : IsPrintable hello
hello-IsPrintable = record {
  event_text = tt;
  id_text = seven-IsFieldText;
  data_text = hello-IsDataText;
  retry_range = tt;
  some_field = refl;
}

pause-IsPrintable : IsPrintable pause
pause-IsPrintable = record {
  event_text = tt;
  id_text = tt;
  data_text = tt;
  retry_range = omega arith;
  some_field = refl;
}

feed-event_bytes_example : (feed [] cut_chunks).0 ≡ echo hello ∷ echo pause ∷ []
unfolding event_bytes as_bytes from_utf8 from_utf8_lossy text_beq split to_decimal
feed-event_bytes_example =
    feed-event_bytes (hello ∷ pause ∷ []) cut_chunks (hello-IsPrintable, (pause-IsPrintable, tt))
      refl

feed-eq-process_new_chunk_example :
    feed (codes "da") (codes "ta: x\n" ∷ codes "\n" ∷ [])
    ≡ process_new_chunk (codes "da") (codes "ta: x\n\n")
feed-eq-process_new_chunk_example =
    feed-eq-process_new_chunk (codes "da") (codes "ta: x\n") (codes "\n" ∷ [])
