-- ===== src/McpHttp/Handler/Standalone.antt =====
-- The standalone stream of a session (http_utils.rs, server_runtime.rs): there is one at a time.
use rust_mcp_sdk.Prelude.{
  ℕ, ◌≡◌, true, false, Option, some, List, [], ◌∷◌, length, arith, ◌==◌, if◌then◌else◌,
}
use rust_mcp_sdk.Prelude.Text.{Text, codes, text_beq}
use rust_mcp_sdk.Sessions.{shard_count, get}
use rust_mcp_sdk.McpHttp.Types.{HttpResult, error_response, bad_request}
use rust_mcp_sdk.McpHttp.Runtime.{
  AppState, default_stream_id, default_stream_exists, remove_transport,
}
use rust_mcp_sdk.McpHttp.Streams.{Config, Answers, Outcome}
use rust_mcp_sdk.McpHttp.Handler.Methods.{is_refused}
use rust_mcp_sdk.McpHttp.Incoming.{process_incoming_message, process_incoming_message_return}

abbrev pub conflict : HttpResult
conflict = error_response 409 (bad_request (codes "Only one SSE stream is allowed per session"))

module _ {A M : Type 0} (config : Config A M) where
  module _ (answers : Answers) where
    abbrev StandsIfAnswered : ℕ → Outcome A → Type 0
    StandsIfAnswered r o = is_refused o.1 ≡ false → default_stream_exists o.0 r ≡ true

  -- A message for a session that is known, as a POST handles it.
  unfoldable pub post_message : AppState A → Text → Answers × Text × Option A → AppState A
  post_message state id (answers, payload, info) =
      if config.enable_json_response
      then (process_incoming_message_return config answers state id payload info).0
      else (process_incoming_message config answers state id payload info).0

  unfoldable pub post_messages : AppState A → Text → List (Answers × Text × Option A) → AppState A
  post_messages state id [] = state
  post_messages state id (message ∷ rest) = post_messages (post_message state id message) id rest

  -- The session is that of the runtime, whose standalone stream is open.
  record IsOpen (id : Text) (r : ℕ) (state : AppState A) : Type 0 where
    pub shards : length state.session_store.shards ≡ shard_count
    pub found : (now : ℕ) → (get config.hash state.session_store id now).1 ≡ some r
    pub exists : default_stream_exists state r ≡ true

  found_at :
      (state : AppState A) (id : Text) (r now later : ℕ)
      → (get config.hash state.session_store id now).1 ≡ some r
      → (get config.hash state.session_store id later).1 ≡ some r
  unfolding get
  found_at state id r now later h = h

  -- When a standalone stream ends, the session's stream is shut down exactly if its transport is the
  -- one that ends: the end of an older stream leaves a newer one as it is.
  pub default_stream_exists-remove_transport :
      (state : AppState A) (r current ended : ℕ)
      → (state.runtimes r).transport_map ≡ some current
      → default_stream_exists (remove_transport state r default_stream_id ended) r
        ≡ (if current == ended then false else default_stream_exists state r)
  unfolding default_stream_exists remove_transport text_beq
  default_stream_exists-remove_transport state r current ended stored = ground (arith, stored)
