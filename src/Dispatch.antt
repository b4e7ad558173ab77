-- ===== src/Dispatch.antt =====
-- The dispatcher of messages: crates/rust-mcp-transport/src/message_dispatcher.rs. A channel for a
-- response is a number. What is awaited is handed over by the caller: sending stops where it waits,
-- and is finished by what has been received then. Messages, their ids and their JSON are parameters.
pub mod Held
pub mod Responses
pub mod Body
mod Tests
use rust_mcp_sdk.Prelude.{
  ℕ, suc, Bool, true, false, not, ◌&&◌, Option, none, some, List, [], ◌∷◌, ◌++◌, map, retain, Eq,
  is_empty, take, if◌then◌else◌,
}
use rust_mcp_sdk.Prelude.Table.{Table, insert}
use rust_mcp_sdk.Prelude.Text.{Text, codes, trim}
use rust_mcp_sdk.Events.{EventStore, EventStoreResult, ok, err, store_event}

-- `ID_SEPARATOR`
abbrev pub id_separator_byte : ℕ
id_separator_byte = b'|'

-- What a dispatcher writes to: bytes, or messages that are acknowledged.
pub data Writer : Type 0 where
  writable_std writable_tx no_writer : Writer

pub data TransportError : Type 0 where
  io_error : Text → TransportError
  internal : Text → TransportError
  json_parse_error : TransportError
  request_timeout : TransportError
  channel_closed : TransportError
  connection_closed : TransportError

-- How a write ends. On a byte stream an error may come when a part of the text is written; a message
-- that is to be acknowledged may not be taken, or be taken and then fail.
pub data WriteEnd : Type 0 where
  all_written : WriteEnd
  stopped : ℕ → TransportError → WriteEnd
  not_taken : Text → WriteEnd

-- `MessageDispatcher`, with all that has been written to either writer.
pub record MessageDispatcher (K : Type 0) : Type 0 where
  pub pending_requests : Table K ℕ
  pub writer : Writer
  pub written : Text
  pub posted : List Text
  pub session_id : Option Text
  pub stream_id : Option Text
  pub event_store : Option EventStore

-- The event's id, if the event is stored.
abbrev pub stored_id : EventStoreResult Text → Option Text
stored_id (ok id) = some id
stored_id (err e) = none

abbrev pub id_prefix : Option Text → Text
id_prefix none = []
id_prefix (some id) = id ++ id_separator_byte ∷ []

module _ {K : Type 0} where
  unfoldable pub new_dispatcher : Table K ℕ → MessageDispatcher K
  new_dispatcher pending = record {
    pending_requests = pending;
    writer = writable_std;
    written = [];
    posted = [];
    session_id = none;
    stream_id = none;
    event_store = none;
  }

  unfoldable pub new_with_acknowledgement : Table K ℕ → MessageDispatcher K
  new_with_acknowledgement pending = record {
    pending_requests = pending;
    writer = writable_tx;
    written = [];
    posted = [];
    session_id = none;
    stream_id = none;
    event_store = none;
  }

  unfoldable pub make_resumable :
      MessageDispatcher K → Text → Text → EventStore → MessageDispatcher K
  make_resumable d session_id stream_id event_store = record d {
    session_id = some session_id;
    stream_id = some stream_id;
    event_store = some event_store;
  }

  abbrev put : MessageDispatcher K → Text → MessageDispatcher K
  put d text = record d { written = d.written ++ text }

  -- The end of both `write_str`, for what stands in front of the payload on a byte stream. How the
  -- writer takes it is an argument.
  abbrev pub write_to :
      MessageDispatcher K
      → Writer
      → Text
      → Text
      → WriteEnd
      → MessageDispatcher K × Option TransportError
  write_to d writable_std prefix payload all_written =
      (put d (prefix ++ (payload ++ 10 ∷ [])), none)
  write_to d writable_std prefix payload (stopped n error) =
      (put d (take n (prefix ++ (payload ++ 10 ∷ []))), some error)
  write_to d writable_std prefix payload (not_taken text) = (d, some (io_error text))
  write_to d writable_tx prefix payload all_written =
      (record d { posted = d.posted ++ payload ∷ [] }, none)
  write_to d writable_tx prefix payload (stopped n error) =
      (record d { posted = d.posted ++ payload ∷ [] }, some error)
  write_to d writable_tx prefix payload (not_taken text) = (d, some (internal text))
  write_to d no_writer prefix payload answer = (d, some (internal (codes "Invalid dispatcher!")))

  -- `write_str` of the client's side.
  unfoldable pub client_write_str :
      MessageDispatcher K → Text → WriteEnd → MessageDispatcher K × Option TransportError
  client_write_str d payload answer = write_to d d.writer [] payload answer

  abbrev pub store_payload :
      MessageDispatcher K
      → Option Text
      → Option Text
      → Option EventStore
      → ℕ
      → Text
      → MessageDispatcher K × Option Text
  store_payload d (some session_id) (some stream_id) (some store) now payload =
      let stored = store_event store session_id stream_id now payload in
      (record d { event_store = some stored.0 }, stored_id stored.1)
  store_payload d _ _ _ now payload = (d, none)

  -- `write_str` of the server's side: the event is stored before anything is written.
  unfoldable pub server_write_str :
      MessageDispatcher K → Text → Bool → ℕ → WriteEnd → MessageDispatcher K × Option TransportError
  server_write_str d payload skip_store now answer =
      let stored =
        (if not skip_store && not (is_empty (trim payload))
          then store_payload d d.session_id d.stream_id d.event_store now payload
          else (d, none)) in
      write_to stored.0 d.writer (id_prefix stored.1) payload answer

-- What has been received on a channel when sending goes on.
pub data Received (R : Type 0) : Type 0 where
  response : R → Received R
  timed_out : Received R
  closed : Received R

pub data SendResult (R : Type 0) : Type 0 where
  answered : Option R → SendResult R
  send_error : TransportError → SendResult R

abbrev pub await_timeout : {R : Type 0} → Received R → SendResult R
await_timeout (response r) = answered (some r)
await_timeout timed_out = send_error request_timeout
await_timeout closed = send_error channel_closed

-- The client's side maps a closed channel to a closed connection.
abbrev pub client_await : {R : Type 0} → Received R → SendResult R
client_await closed = send_error connection_closed
client_await received = await_timeout received

-- What the dispatcher asks of messages.
pub record Messages (K M : Type 0) : Type 0 where
  pub is_request : M → Bool
  pub request_id : M → Option K
  pub to_string : M → Option Text
  pub batch_to_string : List M → Option Text

-- Sending is over, with an error if there is one, or waits for what comes on the channels.
pub data Sending (W : Type 0) : Type 0 where
  finished : Option TransportError → Sending W
  waiting : W → Sending W

module _ {K M : Type 0} ⦃e : Eq K⦄ (messages : Messages K M) where
  unfoldable pub store_pending_request : MessageDispatcher K → K → ℕ → MessageDispatcher K
  store_pending_request d request_id channel = record d {
    pending_requests = insert request_id channel d.pending_requests;
  }

  abbrev store_for_id : MessageDispatcher K → Option K → ℕ → MessageDispatcher K × Option ℕ
  store_for_id d (some request_id) channel =
      (store_pending_request d request_id channel, some channel)
  store_for_id d none channel = (d, none)

  -- The receiver, if the message is a request.
  unfoldable pub store_pending_request_for_message :
      MessageDispatcher K → M → ℕ → MessageDispatcher K × Option ℕ
  store_pending_request_for_message d message channel =
      if messages.is_request message
      then store_for_id d (messages.request_id message) channel
      else (d, none)

  -- After the message is written.
  abbrev pub after_write :
      Option ℕ → MessageDispatcher K × Option TransportError → MessageDispatcher K × Sending ℕ
  after_write rx (d, some error) = (d, finished (some error))
  after_write none (d, none) = (d, finished none)
  after_write (some channel) (d, none) = (d, waiting channel)

  abbrev pub write_payload :
      MessageDispatcher K × Option ℕ
      → Option Text
      → (MessageDispatcher K → Text → MessageDispatcher K × Option TransportError)
      → MessageDispatcher K × Sending ℕ
  write_payload (d, rx) none write = (d, finished (some json_parse_error))
  write_payload (d, rx) (some payload) write = after_write rx (write d payload)

  -- A single message, up to where its response is awaited.
  unfoldable pub client_send_single :
      MessageDispatcher K → M → ℕ → WriteEnd → MessageDispatcher K × Sending ℕ
  client_send_single d message channel answer =
      write_payload (store_pending_request_for_message d message channel)
        (messages.to_string message) (λ d payload. client_write_str d payload answer)

  unfoldable pub server_send_single :
      MessageDispatcher K → M → ℕ → ℕ → WriteEnd → MessageDispatcher K × Sending ℕ
  server_send_single d message channel now answer =
      write_payload (store_pending_request_for_message d message channel)
        (messages.to_string message) (λ d payload. server_write_str d payload false now answer)

  -- The requests of a batch, with a new channel for each, and their receivers.
  abbrev pub store_batch : MessageDispatcher K → List M → ℕ → MessageDispatcher K × List (Option ℕ)
  store_batch d [] channel = (d, [])
  store_batch d (message ∷ rest) channel =
      let stored = store_pending_request_for_message d message channel in
      let others = store_batch stored.0 rest (suc channel) in (others.0, stored.1 ∷ others.1)

  abbrev pub requests_of : List M → List M
  requests_of batch = retain messages.is_request batch

  -- After a batch is written: the receivers, if there are any requests in it.
  abbrev pub after_batch :
      {W : Type 0}
      → Bool
      → W
      → MessageDispatcher K × Option TransportError
      → MessageDispatcher K × Sending W
  after_batch no_requests rx (d, some error) = (d, finished (some error))
  after_batch true rx (d, none) = (d, finished none)
  after_batch false rx (d, none) = (d, waiting rx)

  abbrev pub write_batch :
      {W : Type 0}
      → Bool
      → W
      → MessageDispatcher K
      → Option Text
      → (MessageDispatcher K → Text → MessageDispatcher K × Option TransportError)
      → MessageDispatcher K × Sending W
  write_batch no_requests rx d none write = (d, finished (some json_parse_error))
  write_batch no_requests rx d (some payload) write = after_batch no_requests rx (write d payload)

  -- The client stores all requests of a batch before it writes.
  unfoldable pub client_send_batch :
      MessageDispatcher K → List M → ℕ → WriteEnd → MessageDispatcher K × Sending (List (Option ℕ))
  client_send_batch d batch channel answer =
      let stored = store_batch d (requests_of batch) channel in
      write_batch (is_empty (requests_of batch)) stored.1 stored.0 (messages.batch_to_string batch)
        (λ d payload. client_write_str d payload answer)

  -- The server writes first, and has the requests still to store.
  unfoldable pub server_send_batch :
      MessageDispatcher K → List M → ℕ → WriteEnd → MessageDispatcher K × Sending (List M)
  server_send_batch d batch now answer =
      write_batch (is_empty (requests_of batch)) (requests_of batch) d
        (messages.batch_to_string batch) (λ d payload. server_write_str d payload false now answer)

  -- The responses of a batch in the order of its requests: an error stands for one that failed.
  abbrev pub batch_results :
      {R : Type 0} → (Option K → TransportError → R) → List (Received R) → List (Option K) → List R
  batch_results error_response (response r ∷ results) (id ∷ ids) =
      r ∷ batch_results error_response results ids
  batch_results error_response (timed_out ∷ results) (id ∷ ids) =
      error_response id request_timeout ∷ batch_results error_response results ids
  batch_results error_response (closed ∷ results) (id ∷ ids) =
      error_response id channel_closed ∷ batch_results error_response results ids
  batch_results error_response _ _ = []
