-- ===== src/McpHttp/Incoming.antt =====
-- What the handler does with a message, and the start and the end of a session: start_new_session,
-- single_shot_stream, process_incoming_message_return, process_incoming_message, delete_session and
-- handle_sse_connection of crates/rust-mcp-sdk/src/mcp_http/http_utils.rs.
use rust_mcp_sdk.Prelude.{ℕ, ◌+◌, Bool, true, false, Option, none, some, if◌then◌else◌, unwrap_or}
use rust_mcp_sdk.Prelude.Text.{Text, codes}
use rust_mcp_sdk.Sessions.{set, delete, is_full}
use rust_mcp_sdk.McpHttp.Types.{
  internal_error, session_not_found, parse_error, http_error, HttpResult, responded, failed,
  error_response, json_body, empty_body, endpoint_stream,
}
use rust_mcp_sdk.McpHttp.Payload.{is_result}
use rust_mcp_sdk.McpHttp.Endpoint.{endpoint_with_session_id}
use rust_mcp_sdk.McpHttp.Runtime.{
  AppState, default_stream_id, update, update_auth_info, shutdown, consume_payload_string,
}
use rust_mcp_sdk.McpHttp.Streams.{
  Config, Answers, FirstLine, end_of_stream, line_of, read_error, Outcome, capacity_error,
  json_response, spawn_stream, create_sse_stream, find_session, on_session,
}

module _ {A M : Type 0} (config : Config A M) (answers : Answers) where
  -- `create_server_instance`: its number is the count so far.
  abbrev pub create_server_instance : AppState A → Option A → AppState A
  create_server_instance state auth_info = record state {
    runtimes =
        update state.runtimes state.runtime_count
          (record { auth_info = auth_info; transport_map = none });
    runtime_count = state.runtime_count + 1;
  }

  abbrev pub set_session : AppState A → Text → ℕ → AppState A
  set_session state session_id r = record state {
    session_store = set config.hash state.session_store session_id r answers.now;
  }

  -- A session is stored if its stream is answered.
  abbrev pub stored_if_ok : Text → ℕ → Outcome A → Outcome A
  stored_if_ok session_id r (state, failed error) = (state, failed error)
  stored_if_ok session_id r (state, responded response) =
      (set_session state session_id r, responded response)

  -- `session_store.is_full`, which may evict sessions.
  abbrev pub check_capacity : AppState A → AppState A × Bool
  check_capacity state =
      let checked = is_full state.session_store answers.now in
      (record state { session_store = checked.0 }, checked.1)

  unfoldable pub start_new_session : AppState A → Text → Option A → Outcome A
  start_new_session state payload auth_info =
      let checked = check_capacity state in
      if checked.1
      then (checked.0, error_response 503 capacity_error)
      else stored_if_ok answers.new_session_id state.runtime_count (
          create_sse_stream config answers (create_server_instance checked.0 auth_info)
            state.runtime_count answers.new_session_id (some payload) false none)

  -- What is answered with the first line that the transport gives.
  abbrev pub first_line_response : Text → FirstLine → HttpResult
  first_line_response session_id (line_of line) =
      responded (record { status = 200; mcp_session_id = some session_id; body = json_body line })
  first_line_response session_id (read_error error) =
      responded (record { status = 500; mcp_session_id = none; body = json_body error })
  first_line_response session_id end_of_stream = responded (record {
    status = 422;
    mcp_session_id = none;
    body = json_body (codes "End of the transport stream reached.");
  })

  -- Of a stream that is not standalone, as it is called; its id is made by the sessions' generator.
  unfoldable pub single_shot_stream : AppState A → ℕ → Text → Option Text → Bool → Outcome A
  single_shot_stream state r session_id payload standalone =
      let stream_id = if standalone then default_stream_id else answers.new_session_id in
      (
        spawn_stream config answers state r stream_id payload,
        elim (config.header_value_error session_id) [
          | some error ↦ failed (http_error error)
          | none ↦ first_line_response session_id answers.first_line
        ],
      )

  unfoldable pub process_incoming_message_return : AppState A → Text → Text → Option A → Outcome A
  process_incoming_message_return state session_id payload auth_info =
      on_session config answers (find_session config answers state session_id)
        (error_response 404 session_not_found)
        (λ s r.
          single_shot_stream (update_auth_info config.token_unique_id s r auth_info) r session_id
            (some payload) false)

  abbrev pub consumed_response : Option Text → HttpResult
  consumed_response none = json_response empty_body
  consumed_response (some error) = error_response 400 (internal_error error)

  -- With the runtime that is found. The result of a request goes to the standalone stream.
  abbrev pub incoming_on : AppState A → ℕ → Text → Text → Outcome A
  incoming_on state r session_id payload = elim (is_result config.value_from_str payload) [
    | none ↦ (state, error_response 400 parse_error)
    | some true ↦ (
      state,
      consumed_response (consume_payload_string state r config.no_stream_error answers.consumed),
    )
    | some false ↦ create_sse_stream config answers state r session_id (some payload) false none
  ]

  unfoldable pub process_incoming_message : AppState A → Text → Text → Option A → Outcome A
  process_incoming_message state session_id payload auth_info =
      on_session config answers (find_session config answers state session_id)
        (error_response 404 session_not_found)
        (λ s r.
          incoming_on (update_auth_info config.token_unique_id s r auth_info) r session_id payload)

  -- With the runtime that is found.
  abbrev pub end_session : Text → AppState A → ℕ → Outcome A
  end_session session_id state r =
      let ended = shutdown state r in
      (
        record ended { session_store = delete config.hash ended.session_store session_id },
        json_response (json_body (codes "ok")),
      )

  unfoldable pub delete_session : AppState A → Text → Outcome A
  delete_session state session_id =
      on_session config answers (find_session config answers state session_id)
        (error_response 404 session_not_found) (end_session session_id)

  -- The session is stored before anything is answered.
  unfoldable pub handle_sse_connection : AppState A → Option Text → Option A → Outcome A
  handle_sse_connection state sse_message_endpoint auth_info =
      let checked = check_capacity state in
      let endpoint = unwrap_or sse_message_endpoint (codes "/messages") in
      let stored =
        set_session (create_server_instance checked.0 auth_info) answers.new_session_id
          state.runtime_count in
      if checked.1 then (checked.0, error_response 503 capacity_error) else (
        spawn_stream config answers stored state.runtime_count default_stream_id none,
        responded (record {
          status = 200;
          mcp_session_id = none;
          body = endpoint_stream (endpoint_with_session_id endpoint answers.new_session_id);
        }),
      )

  -- When the stream of such a connection has come to its end.
  unfoldable pub sse_connection_ended : AppState A → Text → AppState A
  sse_connection_ended state session_id = record state {
    session_store = delete config.hash state.session_store session_id;
  }
