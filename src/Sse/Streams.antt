-- ===== src/Sse/Streams.antt =====
-- Streams of printed events (sse_event.rs), parsed chunk by chunk (sse_parser.rs).
use rust_mcp_sdk.Prelude.{
  ℕ, ◌≡◌, refl, sym, ap, ◌∙◌, true, ◌||◌, Option, none, some, List, [], ◌∷◌, ◌++◌, map, All,
  is_some,
}
use rust_mcp_sdk.Prelude.Text.{Text}
use rust_mcp_sdk.Prelude.Utf8.{Bytes}
use rust_mcp_sdk.Sse.{
  SseEvent, blank_line, event_bytes, parse_sse_message, retry_lines, text_field, assemble, concat,
  option_to_list, process_new_chunk,
}
use rust_mcp_sdk.Sse.Lines.{split_lines, split_lines-message}
use rust_mcp_sdk.Sse.Chunks.{out, process_new_chunk-eq, feed, feed_same}
use rust_mcp_sdk.Sse.Messages.{
  NotBlank, IsRested, empty_buffer, blank_buffer, assemble_message, assemble_next_message,
}
use rust_mcp_sdk.Sse.FieldLines.{IsPrintable, echo, plain_lines, event_lines-eq-plain_lines}
use rust_mcp_sdk.Sse.RoundTrip.{
  IsFieldLine, parse-event_lines, plain_lines-IsFieldLine, lines_of, NotBlank-of,
  event_bytes-plain_lines,
}

abbrev IsCons : List Bytes → Type 0
IsCons ls = (l : Bytes) × (rest : List Bytes) × (ls ≡ l ∷ rest)

plain_lines-IsCons : (e : SseEvent) → IsPrintable e → IsCons (plain_lines e)
plain_lines-IsCons e h = go e.event e.id e.data_bytes e.retry h.some_field
  where
    go :
        (v i d : Option Text) (r : Option ℕ)
        → (is_some v || is_some i || is_some d || is_some r) ≡ true
        → IsCons (
            retry_lines r
            ++ (text_field "id: " i ++ (text_field "event: " v ++ text_field "data: " d)))
    go v i d (some n) p = (_, _, refl)
    go v (some i) d none p = (_, _, refl)
    go (some v) none d none p = (_, _, refl)
    go none none (some d) none p = (_, _, refl)
    go none none none none p = cc

parse-plain_lines :
    (e : SseEvent) → IsPrintable e → parse_sse_message (plain_lines e) ≡ some (echo e)
parse-plain_lines e h =
    ap parse_sse_message (sym (event_lines-eq-plain_lines e h)) ∙ parse-event_lines e h

abbrev with_buffer : List SseEvent × List Bytes → List SseEvent × Bytes
with_buffer r = (r.0, concat r.1 ++ [])

assemble_alone :
    (ls : List Bytes)
    → IsCons ls
    → NotBlank ls
    → assemble [] (ls ++ blank_line ∷ []) ≡ (option_to_list (parse_sse_message ls), blank_line ∷ [])
assemble_alone [] (l, rest, e) h = cc
assemble_alone (l ∷ ls) c h = assemble_message l ls h

-- The lines of one message behind a rested buffer.
out_message :
    (old : Bytes) (ls : List Bytes)
    → IsRested old
    → All IsFieldLine ls
    → IsCons ls
    → out (split_lines (old ++ (concat ls ++ blank_line)))
      ≡ (option_to_list (parse_sse_message ls), blank_line)
out_message old ls empty_buffer h c =
    ap out (split_lines-message ls (lines_of ls h))
    ∙ ap with_buffer (assemble_alone ls c (NotBlank-of ls h))
out_message old ls blank_buffer h c =
    ap out (split_lines-message (blank_line ∷ ls) (refl, lines_of ls h))
    ∙ ap with_buffer (assemble_next_message ls (NotBlank-of ls h))

-- A printable event that arrives at a parser with no open message is parsed as that event, with
-- the line feed of its data line left in the data, and leaves the parser ready for the next.
pub process_new_chunk-event_bytes :
    (old : Bytes) (e : SseEvent)
    → IsRested old
    → IsPrintable e
    → process_new_chunk old (event_bytes e) ≡ (echo e ∷ [], blank_line)
process_new_chunk-event_bytes old e r h =
    process_new_chunk-eq old (event_bytes e)
    ∙ ap (λ b. out (split_lines (old ++ b))) (event_bytes-plain_lines e h)
    ∙ out_message old (plain_lines e) r (plain_lines-IsFieldLine e h) (plain_lines-IsCons e h)
    ∙ ap
        (λ (p : Option SseEvent).
          let b : List SseEvent × Bytes = (option_to_list p, blank_line) in b)
        (parse-plain_lines e h)

feed-events :
    (old : Bytes) (events : List SseEvent)
    → IsRested old
    → All IsPrintable events
    → (feed old (map event_bytes events)).0 ≡ map echo events
unfolding feed
feed-events old [] r h = refl
feed-events old (e ∷ events) r h =
    rw (process_new_chunk-event_bytes old e r h.0)
      (ap (λ l. echo e ∷ l) (feed-events blank_line events blank_buffer h.1))

-- A stream of printable events, cut into chunks at any places, is parsed as those events in their
-- order, each with the line feed of its data line left in the data.
pub feed-event_bytes :
    (events : List SseEvent) (chunks : List Bytes)
    → All IsPrintable events
    → concat chunks ≡ concat (map event_bytes events)
    → (feed [] chunks).0 ≡ map echo events
feed-event_bytes events chunks h e =
    ap (λ (r : List SseEvent × Bytes). r.0) (feed_same chunks (map event_bytes events) e)
    ∙ feed-events [] events empty_buffer h
