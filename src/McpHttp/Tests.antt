-- ===== src/McpHttp/Tests.antt =====
-- The MCP HTTP handler at concrete inputs: a server with numbers for the users' tokens.
use mathlib.Core.Path.{subst, sym, ap}
use rust_mcp_sdk.Prelude.{
  ℕ, ◌≤◌, ◌≡◌, ◌≢◌, refl, Bool, true, false, Option, none, some, List, [], ◌∷◌, length, arith, ◌==◌,
  if◌then◌else◌, inr, unwrap_or,
}
use rust_mcp_sdk.Prelude.Text.{Text, codes, text_beq, text_beq_iff, text_eq, is_whitespace, trim}
use rust_mcp_sdk.Prelude.Split.{split, starts_with}
use rust_mcp_sdk.Prelude.Table.{lookup, insert, remove, modify}
use rust_mcp_sdk.Prelude.Utf8.{as_bytes}
use rust_mcp_sdk.Sessions.{with_limits, total_of, get, set, delete, is_full}
use rust_mcp_sdk.McpHttp.Types.{
  Headers, Method, get_method, post_method, delete_method, Request, HttpResult, responded, failed,
}
use rust_mcp_sdk.McpHttp.Headers.{
  is_valid_session_id, parse_session_id_header, acceptable_content_type, accepts_event_stream,
  valid_streaming_http_accept_header, validate_mcp_protocol_version_header, query_param,
}
use rust_mcp_sdk.McpHttp.Headers.SessionIds.{IsSessionId}
use rust_mcp_sdk.McpHttp.Payload.{
  object, single, contains_request, is_result, valid_initialize_method,
}
use rust_mcp_sdk.McpHttp.Endpoint.{endpoint_with_session_id}
use rust_mcp_sdk.McpHttp.Endpoint.RoundTrip.{
  query_of, endpoint_of, key, HasNoKey, query_param-endpoint_with_session_id,
}
use rust_mcp_sdk.McpHttp.Runtime.{
  AppState, default_stream_id, update_auth_info, store_transport, remove_transport, shutdown,
  default_stream_exists,
}
use rust_mcp_sdk.McpHttp.Streams.{
  Config, Answers, end_of_stream, create_sse_stream, create_standalone_stream,
}
use rust_mcp_sdk.McpHttp.Incoming.{start_new_session, process_incoming_message, delete_session}
use rust_mcp_sdk.McpHttp.Handler.{
  session_header, handle_http_post, handle_http_get, handle_http_delete,
  internal_handle_streamable_http,
}
use rust_mcp_sdk.McpHttp.Handler.Methods.{is_refused}
use rust_mcp_sdk.McpHttp.Handler.Refused.{internal_handle_streamable_http_refused}
use rust_mcp_sdk.McpHttp.Handler.Ended.{run_requests, is_refused-delete_session}
use rust_mcp_sdk.McpHttp.Handler.Limit.{
  Call, handles, connects, disconnects, serve_all, total_of-serve_all,
}
use rust_mcp_sdk.McpHttp.Handler.Standalone.{default_stream_exists-remove_transport}

abbrev hash : Text → ℕ
hash [] = 0
hash (c ∷ s) = hash s

-- A message is a request with an id; it is `initialize` if it is the text "init".
abbrev config : Config ℕ Bool
config = record {
  enable_json_response = false;
  resumable = true;
  hash = hash;
  token_unique_id = λ n. n ∷ [];
  value_from_str = λ s. some (object (codes "id" ∷ codes "method" ∷ []));
  messages_from_str = λ s. some (single (text_beq s (codes "init")));
  is_initialize_request = λ m. m;
  version_error = λ s. none;
  header_value_error = λ s. none;
  display = λ e. [];
  no_stream_error = [];
}

abbrev answers_for : Text → Answers
answers_for id = record {
  now = 5;
  new_session_id = id;
  new_stream_id = codes "t";
  started = true;
  consumed = λ t. none;
  first_line = end_of_stream;
}

abbrev headers_with : Option Text → Headers
headers_with id name =
    if text_beq name (codes "accept")
    then some (some (codes "application/json, text/event-stream"))
    else if text_beq name (codes "content-type")
    then some (some (codes "application/json"))
    else if text_beq name session_header
    then (elim id [ none ↦ none | some s ↦ some (some s) ])
    else none

abbrev request_of : Method → Option Text → Text → Request ℕ
request_of method id body = record {
  method = method;
  headers = headers_with id;
  query = none;
  body = body;
  auth_info = none;
}

abbrev new_state : AppState ℕ
new_state = record {
  session_store = with_limits (some 2) none;
  runtimes = λ r. record { auth_info = none; transport_map = none };
  is_shut_down = λ t. false;
  runtime_count = 0;
  transport_count = 0;
  spawned = [];
}

abbrev state : AppState ℕ
state = record new_state { session_store = set hash (with_limits (some 2) none) (codes "s") 0 0 }

-- What the requests below are answered with.
abbrev status_of : HttpResult → ℕ
status_of (failed error) = 0
status_of (responded response) = response.status

abbrev status : AppState ℕ → Request ℕ → ℕ
status s request =
    status_of (internal_handle_streamable_http config (answers_for (codes "n")) s request).1

statuses :
    (status new_state (request_of post_method none (codes "init")) ≡ 200)
    × (status new_state (request_of post_method none (codes "ping")) ≡ 400)
    × (status new_state (request_of post_method (some (codes "s")) (codes "ping")) ≡ 404)
    × (status state (request_of post_method (some (codes "s")) (codes "ping")) ≡ 200)
    × (status state (request_of post_method (some (codes "a b")) (codes "ping")) ≡ 400)
    × (status state (request_of get_method (some (codes "s")) []) ≡ 200)
    × (status state (request_of delete_method (some (codes "s")) []) ≡ 200)
unfolding internal_handle_streamable_http handle_http_post handle_http_get handle_http_delete
    valid_streaming_http_accept_header acceptable_content_type accepts_event_stream
    validate_mcp_protocol_version_header parse_session_id_header is_valid_session_id as_bytes
    text_beq trim is_whitespace split starts_with valid_initialize_method start_new_session
    process_incoming_message create_sse_stream contains_request is_result create_standalone_stream
    delete_session shutdown update_auth_info store_transport default_stream_exists with_limits get
    set delete is_full lookup insert modify remove
statuses = (refl, refl, refl, refl, refl, refl, refl)

abbrev steps : List (Answers × Request ℕ)
steps =
    (answers_for (codes "n"), request_of post_method none (codes "init"))
    ∷ (answers_for (codes "m"), request_of get_method (some (codes "n")) [])
    ∷ []

state_shards : length state.session_store.shards ≡ 16
unfolding set with_limits
state_shards = refl

new_shards : length new_state.session_store.shards ≡ 16
unfolding with_limits
new_shards = refl

parsed_s :
    parse_session_id_header (headers_with (some (codes "s"))) session_header
    ≡ inr (some (codes "s"))
unfolding parse_session_id_header is_valid_session_id as_bytes text_beq
parsed_s = refl

other_id : (id : Text) → text_beq id (codes "s") ≡ false → id ≢ codes "s"
other_id id apart e =
    let same : text_beq id (codes "s") ≡ true = (text_beq_iff id (codes "s")).1 e in
    absurd (ground (arith, apart, same))

n_apart : text_beq (codes "n") (codes "s") ≡ false
unfolding text_beq
n_apart = refl

m_apart : text_beq (codes "m") (codes "s") ≡ false
unfolding text_beq
m_apart = refl

is_refused-delete_session_example :
    is_refused
      (internal_handle_streamable_http config
        (answers_for (codes "k"))
        (run_requests config
          (delete_session config (answers_for (codes "j")) state (codes "s")).0
          steps)
        (request_of post_method (some (codes "s")) (codes "ping"))).1
    ≡ true
is_refused-delete_session_example =
    is_refused-delete_session config (codes "s") state (answers_for (codes "j"))
      (answers_for (codes "k")) steps (request_of post_method (some (codes "s")) (codes "ping"))
      state_shards (other_id (codes "n") n_apart, (other_id (codes "m") m_apart, tt)) parsed_s

-- Two connections for SSE, one of which ends, and a session of streamable HTTP.
abbrev calls : List (Call ℕ)
calls =
    connects (answers_for (codes "c")) none none
    ∷ handles (answers_for (codes "n")) (request_of post_method none (codes "init"))
    ∷ disconnects (answers_for (codes "c")) (codes "c")
    ∷ connects (answers_for (codes "d")) (some (codes "/m")) none
    ∷ []

total_of-serve_all_example : total_of (serve_all config new_state calls).session_store.shards ≤ 2
total_of-serve_all_example =
    total_of-serve_all config (some 2) none new_state calls refl (omega arith)

not_an_id : ¬ IsSessionId (codes "a b")
not_an_id h = omega (arith, h.2.1.0)

header_there : headers_with (some (codes "a b")) session_header ≡ some (some (codes "a b"))
unfolding text_beq
header_there = refl

internal_handle_streamable_http_refused_example :
    let outcome =
      internal_handle_streamable_http config
        (answers_for (codes "k"))
        state
        (request_of get_method (some (codes "a b")) []) in
    (outcome.0 ≡ state) × (is_refused outcome.1 ≡ true)
internal_handle_streamable_http_refused_example =
    internal_handle_streamable_http_refused config (answers_for (codes "k")) state
      (request_of get_method (some (codes "a b")) []) (some (codes "a b")) header_there
      (λ s e h. not_an_id (subst IsSessionId (sym (ap (λ o. unwrap_or o []) e)) h))

-- A request is posted in between.
abbrev pinged : List (Answers × Text × Option ℕ)
pinged = (answers_for (codes "l"), codes "ping", some 2) ∷ []

abbrev streaming : AppState ℕ
streaming = record state { runtimes = λ r. record { auth_info = some 1; transport_map = some 7 } }

default_stream_exists-remove_transport_example :
    default_stream_exists (remove_transport streaming 0 default_stream_id 6) 0
    ≡ (if 7 == 6 then false else default_stream_exists streaming 0)
default_stream_exists-remove_transport_example =
    default_stream_exists-remove_transport config streaming 0 7 6 refl

no_key : HasNoKey (some (codes "a=b"))
unfolding split starts_with
no_key = ((λ e. cc, (λ e. cc, (λ e. cc, tt))), (λ e. cc, tt))

query_param-endpoint_with_session_id_example :
    query_param
      (query_of
        (endpoint_with_session_id (endpoint_of (codes "/m") (some (codes "a=b"))) (codes "s1")))
      key
    ≡ some (codes "s1")
query_param-endpoint_with_session_id_example =
    query_param-endpoint_with_session_id (codes "/m") (some (codes "a=b")) (codes "s1")
      ((λ e. cc, λ e. cc), ((λ e. cc, λ e. cc), tt)) no_key
      ((λ e. cc, λ e. cc), ((λ e. cc, λ e. cc), tt))
