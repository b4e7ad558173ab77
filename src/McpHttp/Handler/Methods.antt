-- ===== src/McpHttp/Handler/Methods.antt =====
-- The checks that a request passes before its session is looked up (mcp_http_handler.rs).
use rust_mcp_sdk.Prelude.{Bool, true, not, ◌≡◌, refl, Option, none, some, if_both, leb}
use rust_mcp_sdk.Prelude.Text.{Text}
use rust_mcp_sdk.McpHttp.Types.{
  Method, get_method, post_method, delete_method, other_method, Request, HttpResult, responded,
  failed,
}
use rust_mcp_sdk.McpHttp.Headers.{
  parse_session_id_header, acceptable_content_type, accepts_event_stream,
  valid_streaming_http_accept_header,
}
use rust_mcp_sdk.McpHttp.Runtime.{AppState}
use rust_mcp_sdk.McpHttp.Streams.{Config, Answers, Outcome}
use rust_mcp_sdk.McpHttp.Handler.{
  session_header, last_event_header, by_method, unless_version, post_to, handle_http_post, get_from,
  handle_http_get, delete_of, handle_http_delete, internal_handle_streamable_http,
}

-- An error, or a status from 400 on.
abbrev pub is_refused : HttpResult → Bool
is_refused (failed error) = true
is_refused (responded response) = leb 400 response.status

-- What holds of every refusal that leaves the state, and of what is done by the session id, holds of
-- every request.
module _ {A M : Type 0} (config : Config A M) (answers : Answers) (state : AppState A)
    (P : Outcome A → Type 0)
    (refused : (result : HttpResult) → is_refused result ≡ true → P (state, result))
    (request : Request A) where
  unless_version-every :
      (problem : Option Text) (o : Outcome A)
      → P o
      → P (unless_version config answers problem o state)
  unless_version-every none o h = h
  unless_version-every (some error) o h = refused _ refl

  pub internal_handle_streamable_http-every :
      P (
        post_to config answers state request request.auth_info
          (parse_session_id_header request.headers session_header))
      → P (
          get_from config answers state request.auth_info
            (parse_session_id_header request.headers session_header)
            (parse_session_id_header request.headers last_event_header))
      → P (delete_of config answers state (parse_session_id_header request.headers session_header))
      → P (internal_handle_streamable_http config answers state request)
  unfolding internal_handle_streamable_http handle_http_get handle_http_post handle_http_delete
  internal_handle_streamable_http-every post get delete = for_method request.method
    where
      for_method : (method : Method) → P (by_method config answers state request method)
      for_method get_method =
          if_both P (not (accepts_event_stream request.headers)) _ _ (refused _ refl)
            (unless_version-every _ _ get)
      for_method post_method =
          if_both P (not (valid_streaming_http_accept_header request.headers)) _ _ (refused _ refl)
            (if_both P (not (acceptable_content_type request.headers)) _ _ (refused _ refl)
              (unless_version-every _ _ post))
      for_method delete_method = unless_version-every _ _ delete
      for_method (other_method name) = refused _ refl
