-- ===== src/McpHttp/Handler/Refused.antt =====
-- Requests that are refused before a session is looked up (mcp_http_handler.rs).
use rust_mcp_sdk.Prelude.{◌≡◌, refl, true, Option, none, some, Option-cases, inl, inr}
use rust_mcp_sdk.Prelude.Text.{Text, codes}
use rust_mcp_sdk.McpHttp.Types.{Request}
use rust_mcp_sdk.McpHttp.Headers.{parse_session_id_header, is_valid_session_id}
use rust_mcp_sdk.McpHttp.Headers.SessionIds.{IsSessionId, is_valid_session_id-IsSessionId}
use rust_mcp_sdk.McpHttp.Runtime.{AppState}
use rust_mcp_sdk.McpHttp.Streams.{Config, Answers, Outcome}
use rust_mcp_sdk.McpHttp.Handler.{session_header, internal_handle_streamable_http}
use rust_mcp_sdk.McpHttp.Handler.Methods.{is_refused, internal_handle_streamable_http-every}

-- The header is there, and is refused if it is no text or its text is no session id.
parse_session_id_header-inl :
    (headers : Text → Option (Option Text)) (name : Text) (value : Option Text)
    → headers name ≡ some value
    → ((s : Text) → value ≡ some s → ¬ IsSessionId s)
    → (msg : Text) × (parse_session_id_header headers name ≡ inl msg)
unfolding parse_session_id_header
parse_session_id_header-inl headers name none there bad =
    rw there (codes "session ID is not valid UTF-8", refl)
parse_session_id_header-inl headers name (some value) there bad =
    rw there (elim (Option-cases (is_valid_session_id value)) [
      | inl e ↦ absurd (bad value refl ((is_valid_session_id-IsSessionId value).0 e))
      | inr (msg, e) ↦ rw e (msg, refl)
    ])

module _ {A M : Type 0} (config : Config A M) (answers : Answers) (state : AppState A) where
  abbrev LeavesState : Outcome A → Type 0
  LeavesState o = (o.0 ≡ state) × (is_refused o.1 ≡ true)

  -- A request with a session header that is not one to 128 printable characters of ASCII, or that
  -- is no text at all, is refused, whatever its method and its other headers, and changes nothing of
  -- the server: not even the time of a session's last access.
  pub internal_handle_streamable_http_refused :
      (request : Request A) (value : Option Text)
      → request.headers session_header ≡ some value
      → ((s : Text) → value ≡ some s → ¬ IsSessionId s)
      → let outcome = internal_handle_streamable_http config answers state request in
        (outcome.0 ≡ state) × (is_refused outcome.1 ≡ true)
  internal_handle_streamable_http_refused request value there bad =
      let (msg, parsed) =
        parse_session_id_header-inl request.headers session_header value there bad in
      internal_handle_streamable_http-every config answers state LeavesState (λ result e. (refl, e))
        request (rw parsed (refl, refl)) (rw parsed (refl, refl)) (rw parsed (refl, refl))
