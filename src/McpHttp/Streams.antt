-- ===== src/McpHttp/Streams.antt =====
-- What the handler does for a session: create_sse_stream, create_standalone_stream,
-- start_new_session, single_shot_stream, process_incoming_message_return, process_incoming_message,
-- delete_session and handle_sse_connection of crates/rust-mcp-sdk/src/mcp_http/http_utils.rs.
-- Each returns the new state and what is answered. Shutting a transport down is taken to succeed.
-- SseTransport::new (crates/rust-mcp-transport/src/sse.rs) has no failing branch, so its error is left
-- out.
use rust_mcp_sdk.Prelude.{ℕ, ◌+◌, Bool, true, false, Option, none, some, ◌∷◌, ◌++◌, if◌then◌else◌}
use rust_mcp_sdk.Prelude.Text.{Text, codes}
use rust_mcp_sdk.Sessions.{get}
use rust_mcp_sdk.McpHttp.Types.{
  SdkError, internal_error, bad_request, parse_error, McpHttpError, session_id_invalid, http_error,
  Response, HttpResult, responded, failed, error_response, Body, event_stream,
}
use rust_mcp_sdk.McpHttp.Payload.{Value, ClientMessages, contains_request}
use rust_mcp_sdk.McpHttp.Runtime.{
  AppState, start_stream, replay_after, default_stream_id, update, update_auth_info,
  store_transport, default_stream_exists,
}

-- What the server is set up with, and what it takes from other libraries: the hash of the session
-- store, the readers of JSON and of protocol versions (the error's text, if there is one), the check
-- of a header's value, and the texts of errors.
pub record Config (A M : Type 0) : Type 0 where
  pub enable_json_response : Bool
  pub resumable : Bool
  pub hash : Text → ℕ
  pub token_unique_id : A → Text
  pub value_from_str : Text → Option Value
  pub messages_from_str : Text → Option (ClientMessages M)
  pub is_initialize_request : M → Bool
  pub version_error : Text → Option Text
  pub header_value_error : Text → Option Text
  pub display : SdkError → Text
  pub no_stream_error : Text

-- The first line that is read from a transport.
pub data FirstLine : Type 0 where
  end_of_stream : FirstLine
  line_of : Text → FirstLine
  read_error : Text → FirstLine

-- What the surroundings give while a request is handled: the clock's reading, what the generators
-- make, whether a spawned stream starts in time, the error of writing to a transport if there is
-- one, and the first line that the transport of a single answer gives.
pub record Answers : Type 0 where
  pub now : ℕ
  pub new_session_id : Text
  pub new_stream_id : Text
  pub started : Bool
  pub consumed : ℕ → Option Text
  pub first_line : FirstLine

abbrev pub Outcome : Type 0 → Type 0
Outcome A = AppState A × HttpResult

abbrev pub capacity_error : SdkError
capacity_error = internal_error (codes "Server is at maximum session capacity, try again later.")

abbrev pub json_response : Body → HttpResult
json_response body = responded (record { status = 200; mcp_session_id = none; body = body })

module _ {A M : Type 0} (config : Config A M) (answers : Answers) where
  -- A new transport, and the task that serves it.
  abbrev pub spawn_stream : AppState A → ℕ → Text → Option Text → AppState A
  spawn_stream state r stream_id payload = record state {
    is_shut_down = update state.is_shut_down state.transport_count false;
    transport_count = state.transport_count + 1;
    spawned = start_stream r state.transport_count stream_id payload ∷ state.spawned;
  }

  abbrev replay_events : AppState A → ℕ → Option Text → AppState A
  replay_events state transport none = state
  replay_events state transport (some last_event_id) =
      if config.resumable
      then record state { spawned = replay_after transport last_event_id ∷ state.spawned }
      else state

  abbrev payload_contains_request : Option Text → Option Bool
  payload_contains_request none = some false
  payload_contains_request (some payload) = contains_request config.value_from_str payload

  abbrev pub sse_response : Bool → Text → Response
  sse_response has_request session_id = record {
    status = if has_request then 200 else 202;
    mcp_session_id = some session_id;
    body = event_stream config.resumable;
  }

  unfoldable pub create_sse_stream :
      AppState A → ℕ → Text → Option Text → Bool → Option Text → Outcome A
  create_sse_stream state r session_id payload standalone last_event_id =
      let stream_id = if standalone then default_stream_id else answers.new_stream_id in
      let started = spawn_stream state r stream_id payload in
      elim (payload_contains_request payload) [
        | none ↦ (state, error_response 400 parse_error)
        | some has_request ↦ elim (config.header_value_error session_id) [
          | some error ↦ (started, failed (http_error error))
          | none ↦ (
            replay_events started state.transport_count last_event_id,
            responded (sse_response has_request session_id),
          )
        ]
      ]

  -- The task has stored its transport if it starts in time; else waiting for one times out.
  abbrev pub wait_for_transport : AppState A → ℕ → ℕ → AppState A
  wait_for_transport state r transport =
      if answers.started then store_transport state r default_stream_id transport else state

  abbrev pub timeout_error : McpHttpError
  timeout_error = http_error (
      codes "Failed waiting for transport readiness: "
      ++ config.display (internal_error (codes "Timed out waiting for DEFAULT transport storage")))

  -- What is answered once the stream is made.
  abbrev pub when_ready : ℕ → ℕ → Outcome A → Outcome A
  when_ready r transport (state, failed error) = (state, failed error)
  when_ready r transport (state, responded response) =
      let waited = wait_for_transport state r transport in
      (
        waited,
        if default_stream_exists waited r
            then responded (record response { status = 200 })
            else failed timeout_error,
      )

  -- On a runtime, after the session is found.
  abbrev pub standalone_on : AppState A → ℕ → Text → Option Text → Option A → Outcome A
  standalone_on state r session_id last_event_id auth_info =
      let informed = update_auth_info config.token_unique_id state r auth_info in
      if default_stream_exists informed r
      then (
        informed,
        error_response 409 (bad_request (codes "Only one SSE stream is allowed per session")),
      )
      else when_ready r informed.transport_count
          (create_sse_stream informed r session_id none true last_event_id)

  -- `session_store.get`, which notes the access.
  abbrev pub find_session : AppState A → Text → AppState A × Option ℕ
  find_session state session_id =
      let found = get config.hash state.session_store session_id answers.now in
      (record state { session_store = found.0 }, found.1)

  -- The match on what is found: an answer if that is nothing.
  abbrev pub on_session :
      AppState A × Option ℕ → HttpResult → (AppState A → ℕ → Outcome A) → Outcome A
  on_session (state, none) missing handle = (state, missing)
  on_session (state, some r) missing handle = handle state r

  unfoldable pub create_standalone_stream : AppState A → Text → Option Text → Option A → Outcome A
  create_standalone_stream state session_id last_event_id auth_info =
      on_session (find_session state session_id) (failed (session_id_invalid session_id))
        (λ s r. standalone_on s r session_id last_event_id auth_info)
