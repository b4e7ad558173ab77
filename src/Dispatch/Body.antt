-- ===== src/Dispatch/Body.antt =====
-- From a message of the server to the client's event: `write_str` (message_dispatcher.rs), the body of
-- the event stream in create_sse_stream (crates/rust-mcp-sdk/src/mcp_http/http_utils.rs), and the
-- client's parser (sse_parser.rs).
use rust_mcp_sdk.Prelude.{
  ℕ, ◌≡◌, ◌≢◌, refl, sym, ap, ◌∙◌, Bool, true, false, Option, none, some, [], ◌∷◌, ◌++◌, All,
  All-append, any, is_empty, arith, ==_iff, if◌then◌else◌, ◌==◌, append_assoc, Bool-cases, inl, inr,
}
use rust_mcp_sdk.Prelude.Text.{
  Text, codes, trim, trim_end_by, trim_start_by, text_beq_iff, is_whitespace, text_beq,
}
use rust_mcp_sdk.Prelude.Split.{split_once, split_once_first}
use rust_mcp_sdk.Prelude.Utf8.{Bytes, as_bytes_ascii}
use rust_mcp_sdk.Events.{EventStore, store_event, generate_event_id}
use rust_mcp_sdk.Sse.{
  SseEvent, blank_line, event_bytes, process_new_chunk, with_event, with_data, with_id,
}
use rust_mcp_sdk.Sse.Messages.{IsRested}
use rust_mcp_sdk.Sse.FieldLines.{IsFieldText, IsDataText}
use rust_mcp_sdk.Sse.Streams.{process_new_chunk-event_bytes}
use rust_mcp_sdk.McpHttp.Payload.{is_empty_sse_message}
use rust_mcp_sdk.Dispatch.{
  MessageDispatcher, writable_std, all_written, id_separator_byte, server_write_str,
}

-- `SseEvent::default`
abbrev pub default_event : SseEvent
default_event = record { event = none; data_bytes = none; id = none; retry = none }

abbrev pub message_event : Text → Bool → Option (Text × Text) → SseEvent
message_event line true (some (id, msg)) = with_id (with_data default_event msg) id
message_event line _ _ = with_data default_event line

-- The event of one line that the transport has written, with its line feed.
unfoldable pub line_event : Bool → Text → SseEvent
line_event resumability_enabled line =
    let trimmed_line = trim_end_by (λ c. c == 10) line in
    if is_empty_sse_message trimmed_line
    then default_event
    else message_event trimmed_line resumability_enabled (split_once id_separator_byte trimmed_line)

-- The events of a connection for SSE: first its endpoint, then one for each line.
unfoldable pub initial_sse_event : Text → SseEvent
initial_sse_event endpoint = with_data (with_event default_event (codes "endpoint")) endpoint

unfoldable pub sse_line_event : Text → SseEvent
sse_line_event line = with_data default_event (trim_end_by (λ c. c == 10) line)

trim_end-feed : (s : Text) → All (λ c. c ≢ 10) s → trim_end_by (λ c. c == 10) (s ++ 10 ∷ []) ≡ s
trim_end-feed [] h = refl
trim_end-feed (c ∷ s) h = rw (trim_end-feed s h.1) (ground (arith, h.0))

-- A character that is not trimmed stays.
module _ (p : ℕ → Bool) (b : ℕ) (stays : p b ≡ false) where
  abbrev has : Text → Bool
  has s = any (λ c. c == b) s

  differs : (c : ℕ) → p c ≡ true → (c == b) ≡ false
  differs c trimmed = elim (Bool-cases (c == b)) [
    | inl e ↦
        let same : p c ≡ p b = ap p ((==_iff c b).0 e) in
        absurd (ground (arith, same, trimmed, stays))
    | inr e ↦ e
  ]

  has-trim_start_by : (s : Text) → has s ≡ true → has (trim_start_by p s) ≡ true
  has-trim_start_by [] h = h
  has-trim_start_by (c ∷ s) h = elim (Bool-cases (p c)) [
    | inl e ↦ rw e (has-trim_start_by s (ground (arith, h, differs c e)))
    | inr e ↦ rw e h
  ]

  has-trim_end_by : (s : Text) → has s ≡ true → has (trim_end_by p s) ≡ true
  has-trim_end_by [] h = h
  has-trim_end_by (c ∷ s) h = elim (Bool-cases (p c)) [
    | inl e ↦ ground (arith, e, h, differs c e, has-trim_end_by s)
    | inr e ↦ ground (arith, e, h, has-trim_end_by s)
  ]

has_separator : (s t : Text) → any (λ c. c == b'|') (s ++ b'|' ∷ t) ≡ true
has_separator [] t = refl
has_separator (c ∷ s) t = rw (has_separator s t) (ground arith)

full_line : (s t : Text) → is_empty_sse_message (s ++ b'|' ∷ t) ≡ false
unfolding is_empty_sse_message trim
full_line s t =
    let stays : is_whitespace b'|' ≡ false = unfold is_whitespace in refl in
    let there =
      has-trim_end_by is_whitespace b'|' stays (trim_start_by is_whitespace (s ++ b'|' ∷ t))
        (has-trim_start_by is_whitespace b'|' stays (s ++ b'|' ∷ t) (has_separator s t)) in
    rw (not_empty s) (elim (Bool-cases (text_beq (trim (s ++ b'|' ∷ t)) (codes ":"))) [
      | inl e ↦
          let colon = (text_beq_iff (trim (s ++ b'|' ∷ t)) (codes ":")).0 e in
          let has_none : any (λ c. c == b'|') (codes ":") ≡ true = rw colon at there in
          absurd (ground (arith, has_none))
      | inr e ↦ e
    ])
  where
    not_empty : (s : Text) → is_empty (s ++ b'|' ∷ t) ≡ false
    not_empty [] = refl
    not_empty (c ∷ s) = refl

module _ {K : Type 0} where
  -- What is written for a message that is stored.
  server_write_str-stored :
      (d : MessageDispatcher K) (session_id stream_id payload : Text) (store : EventStore) (now : ℕ)
      → d.writer ≡ writable_std
      → d.session_id ≡ some session_id
      → d.stream_id ≡ some stream_id
      → d.event_store ≡ some store
      → is_empty (trim payload) ≡ false
      → let id = generate_event_id session_id stream_id now in
        let sent = server_write_str d payload false now all_written in
        (sent.1 ≡ none)
        × (sent.0.event_store ≡ some (store_event store session_id stream_id now payload).0)
        × (sent.0.written ≡ d.written ++ ((id ++ id_separator_byte ∷ []) ++ (payload ++ 10 ∷ [])))
  unfolding server_write_str store_event
  server_write_str-stored d session_id stream_id payload store now std session stream events full =
      rw full (rw session (rw stream (rw events (rw std (refl, refl, refl)))))

-- The line of a stored message, as it is written, becomes an event with the id and the message.
line_event-stored :
    (id payload : Text)
    → All (λ c. c ≢ 10) id
    → All (λ c. c ≢ b'|') id
    → All (λ c. c ≢ 10) payload
    → line_event true ((id ++ b'|' ∷ []) ++ (payload ++ 10 ∷ []))
      ≡ with_id (with_data default_event payload) id
unfolding line_event
line_event-stored id payload no_feed no_bar one_line =
    let regroup : (id ++ b'|' ∷ []) ++ (payload ++ 10 ∷ []) ≡ (id ++ b'|' ∷ payload) ++ 10 ∷ [] =
      append_assoc id (b'|' ∷ []) (payload ++ 10 ∷ [])
      ∙ sym (append_assoc id (b'|' ∷ payload) (10 ∷ [])) in
    let trimmed =
      trim_end-feed (id ++ b'|' ∷ payload)
        (All-append _ id (b'|' ∷ payload) no_feed (λ e. cc, one_line)) in
    rw regroup
      (rw trimmed (rw (full_line id payload) (rw (split_once_first b'|' id payload no_bar) refl)))

-- The parsed event of a stored message.
abbrev pub received_event : Text → Text → SseEvent
received_event id payload = record {
  event = none;
  data_bytes = some (payload ++ blank_line);
  id = some id;
  retry = none;
}

parsed_event :
    (old : Bytes) (id payload : Text)
    → IsRested old
    → IsDataText payload
    → IsFieldText id
    → process_new_chunk old (event_bytes (with_id (with_data default_event payload) id))
      ≡ (received_event id payload ∷ [], blank_line)
parsed_event old id payload rested one_line field =
    let ascii = as_bytes_ascii payload one_line.ascii in
    let printed : SseEvent = record {
      event = none;
      data_bytes = some payload;
      id = some id;
      retry = none;
    } in
    rw ascii (
      process_new_chunk-event_bytes old printed rested (record {
        event_text = tt;
        id_text = field;
        data_text = one_line;
        retry_range = tt;
        some_field = refl;
      }))

-- A message that the server writes to a resumable stream arrives at the client as one event with the
-- message and with the id under which it was stored, from which the client may resume: the bytes of
-- the event are parsed as that, and leave the parser ready for the next. This holds for a message of
-- one line of ASCII, and an id that is a field's text without `|`.
pub process_new_chunk-server_write_str :
    {K : Type 0} (d : MessageDispatcher K) (session_id stream_id payload : Text)
    (store : EventStore) (now : ℕ) (old : Bytes)
    → d.writer ≡ writable_std
    → d.session_id ≡ some session_id
    → d.stream_id ≡ some stream_id
    → d.event_store ≡ some store
    → is_empty (trim payload) ≡ false
    → IsDataText payload
    → IsFieldText (generate_event_id session_id stream_id now)
    → All (λ c. c ≢ b'|') (generate_event_id session_id stream_id now)
    → IsRested old
    → let id = generate_event_id session_id stream_id now in
      let sent = (server_write_str d payload false now all_written).0 in
      (sent.event_store ≡ some (store_event store session_id stream_id now payload).0)
      × ((line : Text) × (sent.written ≡ d.written ++ line)
          × (process_new_chunk old (event_bytes (line_event true line))
              ≡ (received_event id payload ∷ [], blank_line)))
process_new_chunk-server_write_str d session_id stream_id payload store now old std session stream
      events full one_line field no_bar rested =
    let id = generate_event_id session_id stream_id now in
    let stored =
      server_write_str-stored d session_id stream_id payload store now std session stream events
        full in
    let event = line_event-stored id payload field.no_feed no_bar one_line.no_feed in
    (
      stored.1,
      (
        (id ++ b'|' ∷ []) ++ (payload ++ 10 ∷ []),
        stored.2,
        ap (λ e. process_new_chunk old (event_bytes e)) event
            ∙ parsed_event old id payload rested one_line field,
      ),
    )

-- A message that is replayed is written without an id, and if it has a `|` the client of a resumable
-- stream parses the bytes that it is sent to an event that is cut there: what is in front of the first
-- `|` as the id, and the rest as the message. This holds for a message of one line of ASCII, written
-- to a byte stream, whose part in front of the `|` is a field's text and whose part behind it is not
-- empty, and for a parser that has no part of an event.
pub process_new_chunk_replayed :
    {K : Type 0} (d : MessageDispatcher K) (front behind : Text) (now : ℕ) (old : Bytes)
    → d.writer ≡ writable_std
    → IsFieldText front
    → All (λ c. c ≢ b'|') front
    → IsDataText behind
    → IsRested old
    → let line = (front ++ b'|' ∷ behind) ++ 10 ∷ [] in
      ((server_write_str d (front ++ b'|' ∷ behind) true now all_written).0.written
        ≡ d.written ++ line)
      × (process_new_chunk old (event_bytes (line_event true line))
          ≡ (received_event front behind ∷ [], blank_line))
unfolding server_write_str
process_new_chunk_replayed d front behind now old std field no_bar one_line rested =
    let regroup : (front ++ b'|' ∷ []) ++ (behind ++ 10 ∷ [])
        ≡ (front ++ b'|' ∷ behind) ++ 10 ∷ [] =
      append_assoc front (b'|' ∷ []) (behind ++ 10 ∷ [])
      ∙ sym (append_assoc front (b'|' ∷ behind) (10 ∷ [])) in
    (
      rw std refl,
      ap (λ e. process_new_chunk old (event_bytes e))
            (ap (line_event true) (sym regroup)
              ∙ line_event-stored front behind field.no_feed no_bar one_line.no_feed)
          ∙ parsed_event old front behind rested one_line field,
    )
