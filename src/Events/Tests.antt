-- ===== src/Events/Tests.antt =====
-- The event store at concrete inputs.
use rust_mcp_sdk.Prelude.{
  ℕ, ◌≡◌, refl, some, none, List, [], ◌∷◌, arith, map, retain, Perm, if◌then◌else◌, not,
}
use rust_mcp_sdk.Prelude.Table.{lookup, insert}
use rust_mcp_sdk.Prelude.Text.{Text, text_beq, text_eq, codes}
use rust_mcp_sdk.Prelude.Split.{split}
use rust_mcp_sdk.Prelude.Decimal.{parse_uint}
use rust_mcp_sdk.Events.{
  push_event, EventEntry, EventStore, EventStoreEntry, ok, err, id_is_empty, invalid_format, new,
  store_event, generate_event_id, parse_event_id, events_after, in_stream, remove_stream_in_session,
}
use rust_mcp_sdk.Events.Ids.{
  IsIdText, IsEventId, parse_event_id-generate_event_id, parse_event_id-IsEventId,
}
use rust_mcp_sdk.Events.Bounds.{
  apply, Op, store, remove_stream, run, IsBoundedQueue, run-IsBoundedQueue, store_all, queue_of,
}
use rust_mcp_sdk.Events.Order.{IsSorted}
use rust_mcp_sdk.Events.Resume.{events_after-queue, events_after-store_all}
use rust_mcp_sdk.Events.Removal.{queue_of-remove_stream_in_session}

abbrev session : Text
session = codes "session-1"

abbrev stream : Text
stream = codes "stream-a"

abbrev other : Text
other = codes "stream-b"

session-IsIdText : IsIdText session
session-IsIdText = record { not_empty = refl; no_stop = omega arith; no_nul = omega arith }

stream-IsIdText : IsIdText stream
stream-IsIdText = record { not_empty = refl; no_stop = omega arith; no_nul = omega arith }

parse_errors :
    (parse_event_id (codes "") ≡ err id_is_empty)
    × (parse_event_id (codes "a-.-b") ≡ err invalid_format)
    × (parse_event_id (codes "a-.--.-7") ≡ err invalid_format)
unfolding parse_event_id split parse_uint
parse_errors = (refl, refl, refl)

parse_event_id-generate_event_id_example :
    parse_event_id (generate_event_id session stream 1700) ≡ ok (session, stream, 1700)
parse_event_id-generate_event_id_example =
    parse_event_id-generate_event_id session stream 1700 session-IsIdText stream-IsIdText
      (omega arith)

parse_event_id-IsEventId_example :
    IsEventId (generate_event_id session stream 1700) session stream 1700
parse_event_id-IsEventId_example =
    parse_event_id-IsEventId (generate_event_id session stream 1700) session stream 1700
      parse_event_id-generate_event_id_example

abbrev ops : List Op
ops =
    store session stream 1 (codes "one")
    ∷ store session stream 2 (codes "two")
    ∷ store session stream 3 (codes "three")
    ∷ remove_stream session other
    ∷ []

abbrev event : Text → ℕ → Text → EventEntry
event t n m = record { stream_id = t; time_stamp = n; message = m }

abbrev two_kept : List EventEntry
two_kept = event stream 2 (codes "two") ∷ event stream 3 (codes "three") ∷ []

two_stored : lookup session (run (new (some 2)) ops).storage_map ≡ some two_kept
unfolding run new apply store_event push_event remove_stream_in_session lookup insert text_beq
two_stored = refl

run-IsBoundedQueue_example : IsBoundedQueue 2 two_kept
run-IsBoundedQueue_example =
    run-IsBoundedQueue (some 2) ops session two_kept (omega arith) two_stored

abbrev later : List EventEntry
later = event stream 5 (codes "b") ∷ event other 6 (codes "c") ∷ event stream 6 (codes "d") ∷ []

abbrev received : EventStoreEntry
received = record {
  session_id = session;
  stream_id = stream;
  messages = codes "b" ∷ codes "d" ∷ [];
}

events_after-store_all_example :
    events_after
      (store_all (store_event (new none) session stream 4 (codes "a")).0 session later)
      (generate_event_id session stream 4)
    ≡ ok (some received)
unfolding new lookup store_event text_beq
events_after-store_all_example =
    events_after-store_all (new none) session stream 4 (codes "a")
      (generate_event_id session stream 4) later session-IsIdText stream-IsIdText (omega arith) tt
      (omega arith) (omega arith) refl

abbrev filled : EventStore
filled = record {
  max_events_per_session = 64;
  storage_map = (session, event stream 4 (codes "a") ∷ later) ∷ [];
}

events_after-queue_example :
    (l : List EventEntry) × (events_after filled (generate_event_id session stream 4)
      ≡ ok (
          some (record {
            session_id = session;
            stream_id = stream;
            messages = map (λ d. d.message) l;
          })))
    × IsSorted l
    × Perm l (retain (in_stream stream) later)
unfolding lookup text_beq
events_after-queue_example =
    events_after-queue filled session stream 4 (event stream 4 (codes "a")) [] later
      session-IsIdText stream-IsIdText (omega arith) refl tt refl

queue_of-remove_stream_in_session_example :
    queue_of (remove_stream_in_session filled session stream) session ≡ (
      if text_beq session session
      then retain (λ e. not (in_stream stream e)) (queue_of filled session)
      else queue_of filled session)
queue_of-remove_stream_in_session_example =
    queue_of-remove_stream_in_session filled session stream session
