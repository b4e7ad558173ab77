-- ===== src/McpHttp/Handler/Limit.antt =====
-- The limit on the sessions of a server (http_utils.rs, in_memory_session_store.rs): a request that
-- begins a session asks the store for room first.
use rust_mcp_sdk.Prelude.{
  ℕ, suc, ◌+◌, ◌≤◌, ◌<◌, ◌≡◌, Option, List, [], ◌∷◌, length, arith, unwrap_or, Bool-cases, inl, inr,
}
use rust_mcp_sdk.Prelude.Text.{Text}
use rust_mcp_sdk.McpHttp.Incoming.{handle_sse_connection, sse_connection_ended}
use rust_mcp_sdk.Sessions.{is_full, usize_mod, default_max_sessions, with_limits, total_of}
use rust_mcp_sdk.Sessions.Capacity.{
  IsWithin, raise-IsWithin, get-IsWithin, delete-IsWithin, is_full-IsWithin, set-IsWithin,
  with_limits-IsWithin,
}
use rust_mcp_sdk.McpHttp.Types.{Request}
use rust_mcp_sdk.McpHttp.Runtime.{AppState}
use rust_mcp_sdk.McpHttp.Streams.{Config, Answers}
use rust_mcp_sdk.McpHttp.Handler.{internal_handle_streamable_http}
use rust_mcp_sdk.McpHttp.Handler.Stores.{IsKept, internal_handle_streamable_http-Ends}

-- What a server is asked for: a streamable HTTP request, a connection for SSE, and the end of one.
pub data Call (A : Type 0) : Type 0 where
  handles : Answers → Request A → Call A
  connects : Answers → (endpoint : Option Text) → (auth_info : Option A) → Call A
  disconnects : Answers → (session_id : Text) → Call A

module _ {A M : Type 0} (config : Config A M) where
  unfoldable pub serve : AppState A → Call A → AppState A
  serve state (handles answers request) =
      (internal_handle_streamable_http config answers state request).0
  serve state (connects answers endpoint auth_info) =
      (handle_sse_connection config answers state endpoint auth_info).0
  serve state (disconnects answers session_id) =
      sse_connection_ended config answers state session_id

  unfoldable pub serve_all : AppState A → List (Call A) → AppState A
  serve_all state [] = state
  serve_all state (call ∷ rest) = serve_all (serve state call) rest

  IsWithin-IsKept :
      (max high : ℕ) (answers : Answers)
      → high + 1 < usize_mod
      → IsKept config answers (IsWithin max high) (IsWithin max (high + 1))
  IsWithin-IsKept max high answers room =
      let lower : high < usize_mod = omega (arith, room) in
      record {
        unchanged = λ s h. raise-IsWithin max config.hash s high h;
        found = λ s id h.
            raise-IsWithin max config.hash _ high (get-IsWithin max config.hash s h id answers.now);
        checked = λ s h.
            raise-IsWithin max config.hash _ high
              (is_full-IsWithin max config.hash s h answers.now lower);
        started = λ s r h free.
            set-IsWithin max config.hash s h answers.new_session_id r answers.now room free;
        deleted = λ s id h. raise-IsWithin max config.hash _ high (
            delete-IsWithin max config.hash _ (get-IsWithin max config.hash s h id answers.now) id
              lower);
      }

  store-handle_sse_connection :
      (max high : ℕ) (answers : Answers) (endpoint : Option Text) (info : Option A)
      (state : AppState A)
      → high + 1 < usize_mod
      → IsWithin max high state.session_store
      → IsWithin max
          (high + 1)
          (handle_sse_connection config answers state endpoint info).0.session_store
  unfolding handle_sse_connection
  store-handle_sse_connection max high answers endpoint info state room h =
      let kept = IsWithin-IsKept max high answers room in
      elim (Bool-cases (is_full state.session_store answers.now).1) [
        | inl e ↦ rw e (kept.checked state.session_store h)
        | inr e ↦ rw e (kept.started state.session_store state.runtime_count h e)
      ]

  serve-IsWithin :
      (max high : ℕ) (call : Call A) (state : AppState A)
      → high + 1 < usize_mod
      → IsWithin max high state.session_store
      → IsWithin max (high + 1) (serve state call).session_store
  unfolding serve sse_connection_ended
  serve-IsWithin max high (handles answers request) state room h =
      internal_handle_streamable_http-Ends config answers (IsWithin max high)
        (IsWithin max (high + 1)) (IsWithin-IsKept max high answers room) state h request
  serve-IsWithin max high (connects answers endpoint info) state room h =
      store-handle_sse_connection max high answers endpoint info state room h
  serve-IsWithin max high (disconnects answers id) state room h =
      raise-IsWithin max config.hash _ high
        (delete-IsWithin max config.hash _ h id (omega (arith, room)))

  serve_all-IsWithin :
      (max high : ℕ) (calls : List (Call A)) (state : AppState A)
      → high + length calls < usize_mod
      → IsWithin max high state.session_store
      → IsWithin max (high + length calls) (serve_all state calls).session_store
  unfolding serve_all
  serve_all-IsWithin max high [] state room h = let e : high + 0 ≡ high = omega arith in rw e h
  serve_all-IsWithin max high (call ∷ rest) state room h =
      let e : high + suc (length rest) ≡ high + 1 + length rest = omega arith in
      rw e (
        serve_all-IsWithin max (high + 1) rest (serve state call) (omega (arith, room))
          (serve-IsWithin max high call state (omega (arith, room)) h))

  -- A server that begins with a new session store never has more sessions than its limit, whatever
  -- streamable HTTP requests and connections for SSE it handles, each to its end before the next, and
  -- whichever of those connections end in between, if there are fewer than 2^64 of them.
  pub total_of-serve_all :
      (max_sessions idle_ttl : Option ℕ) (state : AppState A) (calls : List (Call A))
      → state.session_store ≡ with_limits max_sessions idle_ttl
      → length calls < usize_mod
      → total_of (serve_all state calls).session_store.shards
        ≤ unwrap_or max_sessions default_max_sessions
  total_of-serve_all max_sessions idle_ttl state calls new room =
      (serve_all-IsWithin (unwrap_or max_sessions default_max_sessions) 0 calls state
        (omega (arith, room)) (rw new (with_limits-IsWithin max_sessions idle_ttl))).within
