-- ===== src/McpHttp/Handler.antt =====
-- The handlers of requests: handle_http_post, handle_http_get, handle_http_delete,
-- internal_handle_streamable_http and internal_handle_sse_message of
-- crates/rust-mcp-sdk/src/mcp_http/mcp_http_handler.rs, for a server with all its features.
pub mod Methods
pub mod Refused
pub mod Stores
pub mod Ended
pub mod Limit
pub mod Standalone
use rust_mcp_sdk.Prelude.{
  ℕ, Bool, true, false, not, Option, none, some, List, [], ◌∷◌, ◌++◌, if◌then◌else◌, ◌⊎◌, inl, inr,
}
use rust_mcp_sdk.Prelude.Text.{Text, codes}
use rust_mcp_sdk.McpHttp.Types.{
  Method, get_method, post_method, delete_method, other_method, Request, Headers, SdkError,
  bad_request, session_id_missing, session_id_invalid, stream_io_error, Response, HttpResult,
  responded, failed, error_response, empty_body,
}
use rust_mcp_sdk.McpHttp.Headers.{
  parse_session_id_header, acceptable_content_type, accepts_event_stream,
  valid_streaming_http_accept_header, validate_mcp_protocol_version_header, query_param,
}
use rust_mcp_sdk.McpHttp.Payload.{valid_initialize_method}
use rust_mcp_sdk.McpHttp.Runtime.{AppState, consume_payload_string}
use rust_mcp_sdk.McpHttp.Streams.{
  Config, Answers, Outcome, find_session, on_session, create_standalone_stream,
}
use rust_mcp_sdk.McpHttp.Incoming.{
  start_new_session, process_incoming_message_return, process_incoming_message, delete_session,
}

abbrev pub session_header : Text
session_header = codes "mcp-session-id"

abbrev pub last_event_header : Text
last_event_header = codes "last-event-id"

abbrev pub version_refused : Text → HttpResult
version_refused error = error_response 400 (bad_request (codes "Bad Request: " ++ error))

abbrev pub session_refused : Text → HttpResult
session_refused msg =
    error_response 400 (bad_request (codes "Invalid Mcp-Session-Id header: " ++ msg))

abbrev pub last_event_refused : Text → HttpResult
last_event_refused msg =
    error_response 400 (bad_request (codes "Invalid Mcp-Last-Event-Id header: " ++ msg))

module _ {A M : Type 0} (config : Config A M) (answers : Answers) where
  abbrev pub version_problem : Headers → Option Text
  version_problem headers = validate_mcp_protocol_version_header config.version_error headers

  -- A known version, or none, is needed.
  abbrev pub unless_version : Option Text → Outcome A → AppState A → Outcome A
  unless_version none outcome state = outcome
  unless_version (some error) outcome state = (state, version_refused error)

  -- A message without a session must begin one.
  abbrev pub begin_session : AppState A → Text → Option A → Option SdkError → Outcome A
  begin_session state payload auth_info none =
      start_new_session config answers state payload auth_info
  begin_session state payload auth_info (some error) = (state, error_response 400 error)

  -- What a POST does, by the session id in its headers.
  abbrev pub post_to : AppState A → Request A → Option A → Text ⊎ Option Text → Outcome A
  post_to state request auth_info (inl msg) = (state, session_refused msg)
  post_to state request auth_info (inr (some id)) =
      if config.enable_json_response
      then process_incoming_message_return config answers state id request.body auth_info
      else process_incoming_message config answers state id request.body auth_info
  post_to state request auth_info (inr none) =
      begin_session state request.body auth_info
        (valid_initialize_method config.is_initialize_request config.messages_from_str request.body)

  unfoldable pub handle_http_post : AppState A → Request A → Option A → Outcome A
  handle_http_post state request auth_info =
      if not (valid_streaming_http_accept_header request.headers)
      then (
        state,
        error_response 406
            (bad_request (codes "Client must accept both application/json and text/event-stream")),
      )
      else if not (acceptable_content_type request.headers)
      then (
        state,
        error_response 415
            (bad_request (codes "Unsupported Media Type: Content-Type must be application/json")),
      )
      else unless_version (version_problem request.headers)
          (post_to state request auth_info (parse_session_id_header request.headers session_header))
          state

  -- What a GET does, by its session id and its last event id.
  abbrev pub get_from : AppState A → Option A → Text ⊎ Option Text → Text ⊎ Option Text → Outcome A
  get_from state auth_info (inl msg) last_event_id = (state, session_refused msg)
  get_from state auth_info (inr session_id) (inl msg) = (state, last_event_refused msg)
  get_from state auth_info (inr (some session_id)) (inr last_event_id) =
      create_standalone_stream config answers state session_id last_event_id auth_info
  get_from state auth_info (inr none) (inr last_event_id) =
      (state, error_response 400 (bad_request (codes "Bad request: session not found")))

  unfoldable pub handle_http_get : AppState A → Request A → Option A → Outcome A
  handle_http_get state request auth_info =
      if not (accepts_event_stream request.headers)
      then (state, error_response 406 (bad_request (codes "Client must accept text/event-stream")))
      else unless_version (version_problem request.headers)
          (get_from state auth_info (parse_session_id_header request.headers session_header)
            (parse_session_id_header request.headers last_event_header))
          state

  abbrev pub delete_of : AppState A → Text ⊎ Option Text → Outcome A
  delete_of state (inl msg) = (state, session_refused msg)
  delete_of state (inr (some id)) = delete_session config answers state id
  delete_of state (inr none) =
      (state, error_response 400 (bad_request (codes "Bad Request: Session not found")))

  unfoldable pub handle_http_delete : AppState A → Request A → Outcome A
  handle_http_delete state request =
      unless_version (version_problem request.headers)
        (delete_of state (parse_session_id_header request.headers session_header)) state

  abbrev pub by_method : AppState A → Request A → Method → Outcome A
  by_method state request get_method = handle_http_get state request request.auth_info
  by_method state request post_method = handle_http_post state request request.auth_info
  by_method state request delete_method = handle_http_delete state request
  by_method state request (other_method name) = (
    state,
    error_response 405 (
        bad_request (
          codes "'"
          ++ (name ++ codes "' is not a valid HTTP method for StreamableHTTP transport."))),
  )

  unfoldable pub internal_handle_streamable_http : AppState A → Request A → Outcome A
  internal_handle_streamable_http state request = by_method state request request.method

  abbrev pub transmitted : Option Text → HttpResult
  transmitted none = responded (record { status = 202; mcp_session_id = none; body = empty_body })
  transmitted (some error) = failed (stream_io_error error)

  abbrev pub deliver : Request A → AppState A → ℕ → Outcome A
  deliver request state r =
      (state, transmitted (consume_payload_string state r config.no_stream_error answers.consumed))

  abbrev pub with_session_param : AppState A → Request A → Option Text → Outcome A
  with_session_param state request none = (state, failed session_id_missing)
  with_session_param state request (some session_id) =
      on_session config answers (find_session config answers state session_id)
        (failed (session_id_invalid session_id)) (deliver request)

  unfoldable pub internal_handle_sse_message : AppState A → Request A → Outcome A
  internal_handle_sse_message state request =
      with_session_param state request (query_param request.query (codes "sessionId"))
