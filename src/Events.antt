-- ===== src/Events.antt =====
-- The in-memory event store of the streamable HTTP transport, which keeps the messages that were
-- sent to a client so that a client that reconnects is sent what it missed:
-- crates/rust-mcp-transport/src/event_store.rs and event_store/in_memory_event_store.rs.
-- A method under the write lock returns the new store.
pub mod Ids
pub mod Bounds
pub mod Order
pub mod Resume
pub mod Removal
mod Tests
use rust_mcp_sdk.Prelude.{
  ℕ, ◌+◌, ◌^◌, Bool, true, false, not, ◌&&◌, ◌||◌, Option, none, some, List, [], ◌∷◌, ◌++◌, map, Eq,
  length, drop, retain, any, position, is_empty, leb, ltb, ◌==◌, if◌then◌else◌, unwrap_or,
}
use rust_mcp_sdk.Prelude.Table.{Table, lookup, insert, remove}
use rust_mcp_sdk.Prelude.Text.{Text, text_beq, text_eq, codes}
use rust_mcp_sdk.Prelude.Split.{split}
use rust_mcp_sdk.Prelude.Decimal.{Parsed, parsed, failed, IntError, to_decimal, parse_uint}

-- `EventStoreError`, by the messages that the store makes.
pub data EventStoreError : Type 0 where
  id_is_empty : EventStoreError
  invalid_format : EventStoreError
  bad_timestamp : IntError → EventStoreError

pub data EventStoreResult (A : Type 0) : Type 0 where
  ok : A → EventStoreResult A
  err : EventStoreError → EventStoreResult A

infixl 5 ◌>>=◌
abbrev pub ◌>>=◌ :
    {A B : Type 0} → EventStoreResult A → (A → EventStoreResult B) → EventStoreResult B
ok a >>= f = f a
err e >>= f = err e

-- `MAX_EVENTS_PER_SESSION`
abbrev pub max_events_default : ℕ
max_events_default = 64

-- `ID_SEPARATOR`
abbrev pub id_separator : Text
id_separator = codes "-.-"

pub record EventEntry : Type 0 where
  pub stream_id : Text
  pub time_stamp : ℕ
  pub message : Text

pub record EventStore : Type 0 where
  pub max_events_per_session : ℕ
  pub storage_map : Table Text (List EventEntry)

pub record EventStoreEntry : Type 0 where
  pub session_id : Text
  pub stream_id : Text
  pub messages : List Text

unfoldable pub new : Option ℕ → EventStore
new max_events = record {
  max_events_per_session = unwrap_or max_events max_events_default;
  storage_map = [];
}

unfoldable pub generate_event_id : Text → Text → ℕ → Text
generate_event_id session_id stream_id time_stamp =
    session_id ++ (id_separator ++ (stream_id ++ (id_separator ++ to_decimal time_stamp)))

read_time_stamp : Text → Text → Parsed → EventStoreResult (Text × Text × ℕ)
read_time_stamp session_id stream_id (parsed n) = ok (session_id, stream_id, n)
read_time_stamp session_id stream_id (failed e) = err (bad_timestamp e)

-- The length test is the pattern.
parse_parts : List Text → EventStoreResult (Text × Text × ℕ)
unfolding read_time_stamp
parse_parts (session_id ∷ stream_id ∷ time_stamp ∷ []) =
    if is_empty session_id || is_empty stream_id || is_empty time_stamp
    then err invalid_format
    else read_time_stamp session_id stream_id (parse_uint (2 ^ 128) time_stamp)
parse_parts _ = err invalid_format

unfoldable pub parse_event_id : Text → EventStoreResult (Text × Text × ℕ)
unfolding parse_parts
parse_event_id event_id =
    if is_empty event_id || any (λ c. c == 0) event_id
    then err id_is_empty
    else parse_parts (split id_separator event_id)

abbrev pub pop_front : List EventEntry → List EventEntry
pop_front [] = []
pop_front (e ∷ queue) = queue

-- The queue after a write: the oldest event makes room if the queue is full.
pub push_event : ℕ → EventEntry → List EventEntry → List EventEntry
push_event max_events entry queue =
    (if length queue == max_events then pop_front queue else queue) ++ entry ∷ []

unfoldable pub store_event :
    EventStore → Text → Text → ℕ → Text → EventStore × EventStoreResult Text
unfolding push_event
store_event store session_id stream_id time_stamp message =
    let entry : EventEntry = record {
      stream_id = stream_id;
      time_stamp = time_stamp;
      message = message;
    } in
    let queue = unwrap_or (lookup session_id store.storage_map) [] in
    (
      record store {
        storage_map =
            insert session_id (push_event store.max_events_per_session entry queue)
              store.storage_map;
      },
      ok (generate_event_id session_id stream_id time_stamp),
    )

abbrev pub in_stream : Text → EventEntry → Bool
in_stream stream_id e = text_beq e.stream_id stream_id

unfoldable pub remove_stream_in_session : EventStore → Text → Text → EventStore
remove_stream_in_session store session_id stream_id = elim (lookup session_id store.storage_map) [
  | none ↦ store
  | some events ↦
      let kept = retain (λ e. not (in_stream stream_id e)) events in
      record store {
        storage_map =
            if is_empty kept
            then remove session_id store.storage_map
            else insert session_id kept store.storage_map;
      }
]

unfoldable pub remove_by_session_id : EventStore → Text → EventStore
remove_by_session_id store session_id = record store {
  storage_map = remove session_id store.storage_map;
}

unfoldable pub clear : EventStore → EventStore
clear store = record store { storage_map = [] }

unfoldable pub count : EventStore → ℕ
count store = length store.storage_map

-- `sort_by_key` on the time stamp: the stable sort, here by insertion.
insert_by_time : EventEntry → List EventEntry → List EventEntry
insert_by_time e [] = e ∷ []
insert_by_time e (d ∷ l) =
    if leb e.time_stamp d.time_stamp then e ∷ d ∷ l else d ∷ insert_by_time e l

pub sort_by_time : List EventEntry → List EventEntry
unfolding insert_by_time
sort_by_time [] = []
sort_by_time (e ∷ l) = insert_by_time e (sort_by_time l)

abbrev pub is_event : Text → ℕ → EventEntry → Bool
is_event stream_id time_stamp e = in_stream stream_id e && e.time_stamp == time_stamp

-- The messages behind an event of the queue, or none if it is not there or is the last.
unfoldable pub messages_after : Text → ℕ → List EventEntry → List Text
messages_after stream_id time_stamp events =
    elim (position (is_event stream_id time_stamp) events) [
      | none ↦ []
      | some index ↦
          if ltb (index + 1) (length events)
          then map (λ e. e.message)
              (sort_by_time (retain (in_stream stream_id) (drop (index + 1) events)))
          else []
    ]

-- What `events_after` does once the id is parsed.
pub replay : EventStore → Text → Text → ℕ → Option EventStoreEntry
replay store session_id stream_id time_stamp = elim (lookup session_id store.storage_map) [
  | none ↦ none
  | some events ↦ some (record {
    session_id = session_id;
    stream_id = stream_id;
    messages = messages_after stream_id time_stamp events;
  })
]

unfoldable pub events_after : EventStore → Text → EventStoreResult (Option EventStoreEntry)
unfolding replay
events_after store last_event_id = do
  (session_id, stream_id, time_stamp) ← parse_event_id last_event_id
  ok (replay store session_id stream_id time_stamp)
