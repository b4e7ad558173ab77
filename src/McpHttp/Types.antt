-- ===== src/McpHttp/Types.antt =====
-- Requests, responses and errors of the MCP HTTP handler: crates/rust-mcp-sdk/src/mcp_http/error.rs
-- and http_utils.rs. A header is missing, or there with its text if it is one, as `to_str` says.
use rust_mcp_sdk.Prelude.{ℕ, Bool, Option, none}
use rust_mcp_sdk.Prelude.Text.{Text}

abbrev pub Headers : Type 0
Headers = Text → Option (Option Text)

pub data Method : Type 0 where
  get_method post_method delete_method : Method
  other_method : Text → Method

-- What the handler reads of a request. `A` is the type of `AuthInfo`.
pub record Request (A : Type 0) : Type 0 where
  pub method : Method
  pub headers : Headers
  pub query : Option Text
  pub body : Text
  pub auth_info : Option A

-- `McpHttpError`
pub data McpHttpError : Type 0 where
  session_id_missing : McpHttpError
  session_id_invalid : Text → McpHttpError
  stream_io_error : Text → McpHttpError
  http_error : Text → McpHttpError
  transport_error : Text → McpHttpError

-- The constructors of `SdkError` that are used, with the message that is set.
pub data SdkError : Type 0 where
  bad_request : Text → SdkError
  invalid_request : Text → SdkError
  internal_error : Text → SdkError
  session_not_found : SdkError
  parse_error : SdkError

-- What stands in a response: an error in JSON, a text that is labelled as JSON, nothing, or a
-- stream of events, which have ids if the server has an event store, or begin with an endpoint.
pub data Body : Type 0 where
  error_body : SdkError → Body
  json_body : Text → Body
  empty_body : Body
  event_stream : Bool → Body
  endpoint_stream : Text → Body

pub record Response : Type 0 where
  pub status : ℕ
  pub mcp_session_id : Option Text
  pub body : Body

-- `McpHttpResult`
pub data HttpResult : Type 0 where
  responded : Response → HttpResult
  failed : McpHttpError → HttpResult

abbrev pub error_response : ℕ → SdkError → HttpResult
error_response status_code error =
    responded (record { status = status_code; mcp_session_id = none; body = error_body error })
