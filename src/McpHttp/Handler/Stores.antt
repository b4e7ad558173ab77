-- ===== src/McpHttp/Handler/Stores.antt =====
-- How the handling of a request changes the session store (mcp_http_handler.rs and http_utils.rs):
-- what holds after each of the ways to change it holds after every request.
use rust_mcp_sdk.Prelude.{
  ℕ, ◌≡◌, refl, ◌∙◌, Bool, true, false, Option, none, some, if_both, Bool-cases, ◌⊎◌, inl, inr,
  arith,
}
use rust_mcp_sdk.Prelude.Text.{Text}
use rust_mcp_sdk.Sessions.{SessionStore, get, set, delete, is_full}
use rust_mcp_sdk.McpHttp.Types.{Request, SdkError, HttpResult, responded, failed}
use rust_mcp_sdk.McpHttp.Runtime.{
  AppState, update_auth_info, should_update, store_transport, shutdown, default_stream_exists,
}
use rust_mcp_sdk.McpHttp.Streams.{
  Config, Answers, Outcome, create_sse_stream, when_ready, standalone_on, find_session, on_session,
  create_standalone_stream,
}
use rust_mcp_sdk.McpHttp.Incoming.{
  create_server_instance, stored_if_ok, check_capacity, start_new_session, single_shot_stream,
  process_incoming_message_return, incoming_on, process_incoming_message, delete_session,
}
use rust_mcp_sdk.McpHttp.Handler.{
  begin_session, post_to, get_from, delete_of, internal_handle_streamable_http,
}
use rust_mcp_sdk.McpHttp.Handler.Methods.{internal_handle_streamable_http-every}

module _ {A M : Type 0} (config : Config A M) (answers : Answers) where
  pub store-update_auth_info :
      (state : AppState A) (r : ℕ) (info : Option A)
      → (update_auth_info config.token_unique_id state r info).session_store ≡ state.session_store
  unfolding update_auth_info
  store-update_auth_info state r info =
      elim (Bool-cases (should_update config.token_unique_id (state.runtimes r).auth_info info)) [
        | inl e ↦ rw e refl
        | inr e ↦ rw e refl
      ]

  pub store-create_sse_stream :
      (state : AppState A) (r : ℕ) (id : Text) (payload : Option Text) (standalone : Bool)
      (last : Option Text)
      → (create_sse_stream config answers state r id payload standalone last).0.session_store
        ≡ state.session_store
  unfolding create_sse_stream
  store-create_sse_stream state r id payload standalone last = ground arith

  store-when_ready :
      (r t : ℕ) (o : Outcome A)
      → (when_ready config answers r t o).0.session_store ≡ o.0.session_store
  unfolding store_transport
  store-when_ready r t (state, failed error) = refl
  store-when_ready r t (state, responded response) = ground arith

  pub store-shutdown : (s : AppState A) (r : ℕ) → (shutdown s r).session_store ≡ s.session_store
  unfolding shutdown
  store-shutdown s r = ground arith

  pub standalone_on-store :
      (s : AppState A) (r : ℕ) (id : Text) (last : Option Text) (info : Option A)
      → (standalone_on config answers s r id last info).0.session_store ≡ s.session_store
  standalone_on-store s r id last info =
      elim (Bool-cases
        (default_stream_exists (update_auth_info config.token_unique_id s r info) r)) [
          | inl e ↦ rw e (store-update_auth_info s r info)
          | inr e ↦ rw e (
              store-when_ready r _ _
              ∙ (store-create_sse_stream _ r id none true last ∙ store-update_auth_info s r info))
        ]

  -- What each way to change the store makes of the store before a request.
  pub record IsKept (Before After : SessionStore ℕ → Type 0) : Type 1 where
    pub unchanged : (s : SessionStore ℕ) → Before s → After s
    pub found :
        (s : SessionStore ℕ) (id : Text) → Before s → After (get config.hash s id answers.now).0
    pub checked : (s : SessionStore ℕ) → Before s → After (is_full s answers.now).0
    pub started :
        (s : SessionStore ℕ) (r : ℕ)
        → Before s
        → (is_full s answers.now).1 ≡ false
        → After (set config.hash (is_full s answers.now).0 answers.new_session_id r answers.now)
    pub deleted :
        (s : SessionStore ℕ) (id : Text)
        → Before s
        → After (delete config.hash (get config.hash s id answers.now).0 id)

  module _ (Before After : SessionStore ℕ → Type 0) (kept : IsKept Before After)
      (state : AppState A) (before : Before state.session_store) where
    abbrev Ends : Outcome A → Type 0
    Ends o = After o.0.session_store

    refused-Ends : After state.session_store
    refused-Ends = kept.unchanged state.session_store before

    found_in :
        (p : AppState A × Option ℕ) (missing : HttpResult) (handle : AppState A → ℕ → Outcome A)
        → After p.0.session_store
        → ((r : ℕ) → Ends (handle p.0 r))
        → Ends (on_session config answers p missing handle)
    found_in (s, none) missing handle after handled = after
    found_in (s, some r) missing handle after handled = handled r

    -- Looking the session up, where what is done with it leaves the store as it is.
    on_session-Ends :
        (id : Text) (missing : HttpResult) (handle : AppState A → ℕ → Outcome A)
        → ((s : AppState A) (r : ℕ) → (handle s r).0.session_store ≡ s.session_store)
        → Ends (on_session config answers (find_session config answers state id) missing handle)
    on_session-Ends id missing handle same =
        let after = kept.found state.session_store id before in
        found_in (find_session config answers state id) missing handle after
          (λ r. rw (same (find_session config answers state id).0 r) after)

    incoming_on-store :
        (s : AppState A) (r : ℕ) (id payload : Text)
        → (incoming_on config answers s r id payload).0.session_store ≡ s.session_store
    incoming_on-store s r id payload =
        ground (arith, store-create_sse_stream s r id (some payload) false none)

    create_standalone_stream-Ends :
        (id : Text) (last : Option Text) (info : Option A)
        → Ends (create_standalone_stream config answers state id last info)
    unfolding create_standalone_stream
    create_standalone_stream-Ends id last info =
        on_session-Ends id _ _ (λ s r. standalone_on-store s r id last info)

    process_incoming_message_return-Ends :
        (id payload : Text) (info : Option A)
        → Ends (process_incoming_message_return config answers state id payload info)
    unfolding process_incoming_message_return single_shot_stream
    process_incoming_message_return-Ends id payload info =
        on_session-Ends id _ _ (λ s r. store-update_auth_info s r info)

    process_incoming_message-Ends :
        (id payload : Text) (info : Option A)
        → Ends (process_incoming_message config answers state id payload info)
    unfolding process_incoming_message
    process_incoming_message-Ends id payload info =
        on_session-Ends id _ _
          (λ s r. incoming_on-store _ r id payload ∙ store-update_auth_info s r info)

    delete_session-Ends : (id : Text) → Ends (delete_session config answers state id)
    unfolding delete_session
    delete_session-Ends id =
        found_in (find_session config answers state id) _ _
          (kept.found state.session_store id before)
          (λ r.
            rw (store-shutdown (find_session config answers state id).0 r)
              (kept.deleted state.session_store id before))

    stored_if_ok-Ends :
        (id : Text) (r : ℕ) (o : Outcome A) (s : SessionStore ℕ)
        → o.0.session_store ≡ s
        → After s
        → After (set config.hash s id r answers.now)
        → Ends (stored_if_ok config answers id r o)
    stored_if_ok-Ends id r (_, failed error) s same after stored = rw same after
    stored_if_ok-Ends id r (_, responded response) s same after stored = rw same stored

    start_new_session-Ends :
        (payload : Text) (info : Option A)
        → Ends (start_new_session config answers state payload info)
    unfolding start_new_session
    start_new_session-Ends payload info =
        elim (Bool-cases (is_full state.session_store answers.now).1) [
          | inl e ↦ rw e (kept.checked state.session_store before)
          | inr e ↦ rw e (
              stored_if_ok-Ends answers.new_session_id state.runtime_count _ _
                (store-create_sse_stream
                  (create_server_instance config answers (check_capacity config answers state).0
                    info)
                  state.runtime_count answers.new_session_id (some payload) false none)
                (kept.checked state.session_store before)
                (kept.started state.session_store state.runtime_count before e))
        ]

    begin_session-Ends :
        (payload : Text) (info : Option A) (problem : Option SdkError)
        → Ends (begin_session config answers state payload info problem)
    begin_session-Ends payload info none = start_new_session-Ends payload info
    begin_session-Ends payload info (some error) = refused-Ends

    post_to-Ends :
        (request : Request A) (info : Option A) (id : Text ⊎ Option Text)
        → Ends (post_to config answers state request info id)
    post_to-Ends request info (inl msg) = refused-Ends
    post_to-Ends request info (inr (some id)) =
        if_both Ends config.enable_json_response _ _
          (process_incoming_message_return-Ends id request.body info)
          (process_incoming_message-Ends id request.body info)
    post_to-Ends request info (inr none) = begin_session-Ends request.body info _

    get_from-Ends :
        (info : Option A) (id last : Text ⊎ Option Text)
        → Ends (get_from config answers state info id last)
    get_from-Ends info (inl msg) last = refused-Ends
    get_from-Ends info (inr id) (inl msg) = refused-Ends
    get_from-Ends info (inr (some id)) (inr last) = create_standalone_stream-Ends id last info
    get_from-Ends info (inr none) (inr last) = refused-Ends

    delete_of-Ends : (id : Text ⊎ Option Text) → Ends (delete_of config answers state id)
    delete_of-Ends (inl msg) = refused-Ends
    delete_of-Ends (inr (some id)) = delete_session-Ends id
    delete_of-Ends (inr none) = refused-Ends

    -- What a request makes of the store, whatever its method.
    pub internal_handle_streamable_http-Ends :
        (request : Request A)
        → After (internal_handle_streamable_http config answers state request).0.session_store
    internal_handle_streamable_http-Ends request =
        internal_handle_streamable_http-every config answers state Ends (λ result e. refused-Ends)
          request (post_to-Ends request request.auth_info _) (get_from-Ends request.auth_info _ _)
          (delete_of-Ends _)
