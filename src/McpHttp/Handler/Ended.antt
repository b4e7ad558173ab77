-- ===== src/McpHttp/Handler/Ended.antt =====
-- A session that has been ended (mcp_http_handler.rs, http_utils.rs): no request finds it again.
use rust_mcp_sdk.Prelude.{
  ℕ, ◌≡◌, ◌≢◌, refl, ◌∙◌, true, Option, some, List, [], ◌∷◌, length, All, if_both, Option-cases,
  ◌⊎◌, inl, inr,
}
use rust_mcp_sdk.Prelude.Text.{Text}
use rust_mcp_sdk.Sessions.{SessionStore, shard_count, get}
use rust_mcp_sdk.Sessions.Gone.{
  IsGone, is_full-IsGone, get-IsGone, set-IsGone, delete-IsGone, delete_makes-IsGone, get_absent,
  unfound-IsGone, length-get,
}
use rust_mcp_sdk.McpHttp.Types.{Request, HttpResult}
use rust_mcp_sdk.McpHttp.Headers.{parse_session_id_header}
use rust_mcp_sdk.McpHttp.Runtime.{AppState}
use rust_mcp_sdk.McpHttp.Streams.{
  Config, Answers, Outcome, find_session, on_session, create_standalone_stream,
}
use rust_mcp_sdk.McpHttp.Incoming.{
  process_incoming_message_return, process_incoming_message, delete_session,
}
use rust_mcp_sdk.McpHttp.Handler.{
  session_header, post_to, get_from, delete_of, internal_handle_streamable_http,
}
use rust_mcp_sdk.McpHttp.Handler.Stores.{
  IsKept, internal_handle_streamable_http-Ends, store-shutdown,
}
use rust_mcp_sdk.McpHttp.Handler.Methods.{is_refused, internal_handle_streamable_http-every}

module _ {A M : Type 0} (config : Config A M) where
  -- Requests, one handled after the other, each with what the surroundings give.
  unfoldable pub run_requests : AppState A → List (Answers × Request A) → AppState A
  run_requests state [] = state
  run_requests state ((answers, request) ∷ rest) =
      run_requests (internal_handle_streamable_http config answers state request).0 rest

  module _ (id : Text) where
    abbrev IsEnded : SessionStore ℕ → Type 0
    IsEnded = IsGone config.hash id

    IsEnded-IsKept :
        (answers : Answers) → answers.new_session_id ≢ id → IsKept config answers IsEnded IsEnded
    IsEnded-IsKept answers other = record {
      unchanged = λ s h. h;
      found = λ s j h. get-IsGone config.hash id s j answers.now h;
      checked = λ s h. is_full-IsGone config.hash id s answers.now h;
      started = λ s r h free.
          set-IsGone config.hash id _ answers.new_session_id r answers.now other
            (is_full-IsGone config.hash id s answers.now h);
      deleted =
          λ s j h. delete-IsGone config.hash id _ j (get-IsGone config.hash id s j answers.now h);
    }

    run_requests-IsEnded :
        (state : AppState A) (steps : List (Answers × Request A))
        → All (λ s. s.0.new_session_id ≢ id) steps
        → IsEnded state.session_store
        → IsEnded (run_requests state steps).session_store
    unfolding run_requests
    run_requests-IsEnded state [] others h = h
    run_requests-IsEnded state ((answers, request) ∷ rest) others h =
        run_requests-IsEnded (internal_handle_streamable_http config answers state request).0 rest
          others.1
          (internal_handle_streamable_http-Ends config answers IsEnded IsEnded
            (IsEnded-IsKept answers others.0) state h request)

    delete_session-IsEnded :
        (answers : Answers) (state : AppState A)
        → length state.session_store.shards ≡ shard_count
        → IsEnded (delete_session config answers state id).0.session_store
    unfolding delete_session
    delete_session-IsEnded answers state shards =
        elim (Option-cases (get config.hash state.session_store id answers.now).1) [
          | inl e ↦ rw e (
              get-IsGone config.hash id _ id answers.now
                (unfound-IsGone config.hash id state.session_store answers.now shards e))
          | inr (r, e) ↦ rw e (
              rw (store-shutdown config answers (find_session config answers state id).0 r) (
                delete_makes-IsGone config.hash id _
                  (length-get config.hash id state.session_store answers.now ∙ shards)))
        ]

    module _ (answers : Answers) (state : AppState A) (h : IsEnded state.session_store) where
      abbrev Refuses : Outcome A → Type 0
      Refuses o = is_refused o.1 ≡ true

      on_session-Refuses :
          (missing : HttpResult) (handle : AppState A → ℕ → Outcome A)
          → is_refused missing ≡ true
          → Refuses
              (on_session config answers (find_session config answers state id) missing handle)
      on_session-Refuses missing handle refused =
          rw (get_absent config.hash id state.session_store answers.now h) refused

      post_to-Refuses :
          (request : Request A) (found : Text ⊎ Option Text)
          → found ≡ inr (some id)
          → Refuses (post_to config answers state request request.auth_info found)
      unfolding process_incoming_message process_incoming_message_return
      post_to-Refuses request found e = rw e (
          if_both Refuses config.enable_json_response _ _ (on_session-Refuses _ _ refl)
            (on_session-Refuses _ _ refl))

      get_from-Refuses :
          (info : Option A) (found last : Text ⊎ Option Text)
          → found ≡ inr (some id)
          → Refuses (get_from config answers state info found last)
      unfolding create_standalone_stream
      get_from-Refuses info found (inl msg) e = rw e refl
      get_from-Refuses info found (inr last) e = rw e (on_session-Refuses _ _ refl)

      delete_of-Refuses :
          (found : Text ⊎ Option Text)
          → found ≡ inr (some id)
          → Refuses (delete_of config answers state found)
      unfolding delete_session
      delete_of-Refuses found e = rw e (on_session-Refuses _ _ refl)

      -- A request that names a session which is not there is refused, whatever its method and its
      -- other headers.
      internal_handle_streamable_http-Refuses :
          (request : Request A)
          → parse_session_id_header request.headers session_header ≡ inr (some id)
          → Refuses (internal_handle_streamable_http config answers state request)
      internal_handle_streamable_http-Refuses request names =
          internal_handle_streamable_http-every config answers state Refuses (λ result e. e) request
            (post_to-Refuses request _ names) (get_from-Refuses request.auth_info _ _ names)
            (delete_of-Refuses _ names)

  -- After a DELETE of a session, and any requests after that for which the generator does not make
  -- the same id again, every request that names the session is refused: by a status from 400 on, or
  -- by an error.
  pub is_refused-delete_session :
      (id : Text) (state : AppState A) (ended later : Answers) (steps : List (Answers × Request A))
      (request : Request A)
      → length state.session_store.shards ≡ shard_count
      → All (λ s. s.0.new_session_id ≢ id) steps
      → parse_session_id_header request.headers session_header ≡ inr (some id)
      → let after = run_requests (delete_session config ended state id).0 steps in
        is_refused (internal_handle_streamable_http config later after request).1 ≡ true
  is_refused-delete_session id state ended later steps request shards others names =
      internal_handle_streamable_http-Refuses id later _
        (run_requests-IsEnded id (delete_session config ended state id).0 steps others
          (delete_session-IsEnded id ended state shards))
        request names
