-- ===== src/McpHttp/Runtime.antt =====
-- The server runtimes that the handler uses: auth_info and transport_map of ServerRuntime in
-- crates/rust-mcp-sdk/src/mcp_runtimes/server_runtime.rs, and McpAppState of mcp_http/app_state.rs.
-- Runtimes and transports are shared: the session store and the tasks hold their numbers, and the
-- state has what stands behind each number.
use rust_mcp_sdk.Prelude.{ℕ, Bool, true, false, not, Option, none, some, List, if◌then◌else◌, ◌==◌}
use rust_mcp_sdk.Prelude.Text.{Text, codes, text_beq}
use rust_mcp_sdk.Sessions.{SessionStore}

-- `DEFAULT_STREAM_ID`
abbrev pub default_stream_id : Text
default_stream_id = codes "DEFAULT"

-- `auth_info`, and `transport_map`, which holds the standalone stream's transport.
pub record ServerRuntime (A : Type 0) : Type 0 where
  pub auth_info : Option A
  pub transport_map : Option ℕ

-- What is spawned: `start_stream` with its runtime, transport, stream and first payload, and the
-- replay on a transport of the events behind an id.
pub data Spawned : Type 0 where
  start_stream : ℕ → ℕ → Text → Option Text → Spawned
  replay_after : ℕ → Text → Spawned

-- What changes of `McpAppState` and behind it: the sessions' runtimes by their numbers, which of the
-- transports are shut down, how many there are of both, and the spawned tasks, the last first.
pub record AppState (A : Type 0) : Type 0 where
  pub session_store : SessionStore ℕ
  pub runtimes : ℕ → ServerRuntime A
  pub is_shut_down : ℕ → Bool
  pub runtime_count : ℕ
  pub transport_count : ℕ
  pub spawned : List Spawned

abbrev pub update : {V : Type 0} → (ℕ → V) → ℕ → V → ℕ → V
update f i v j = if i == j then v else f j

module _ {A : Type 0} where
  abbrev pub with_runtime : AppState A → ℕ → ServerRuntime A → AppState A
  with_runtime state r runtime = record state { runtimes = update state.runtimes r runtime }

  abbrev pub shut_down : AppState A → ℕ → AppState A
  shut_down state t = record state { is_shut_down = update state.is_shut_down t true }

  module _ (token_unique_id : A → Text) where
    -- `AuthInfo` is known by its `token_unique_id`.
    abbrev pub should_update : Option A → Option A → Bool
    should_update none (some new) = true
    should_update (some old) (some new) = not (text_beq (token_unique_id old) (token_unique_id new))
    should_update (some old) none = true
    should_update none none = false

    unfoldable pub update_auth_info : AppState A → ℕ → Option A → AppState A
    update_auth_info state r new_auth_info =
        if should_update (state.runtimes r).auth_info new_auth_info
        then with_runtime state r (record (state.runtimes r) { auth_info = new_auth_info })
        else state

  -- A stream other than the standalone one is not stored.
  unfoldable pub store_transport : AppState A → ℕ → Text → ℕ → AppState A
  store_transport state r stream_id transport =
      if text_beq stream_id default_stream_id
      then with_runtime state r (record (state.runtimes r) { transport_map = some transport })
      else state

  -- The transport stays in the map, shut down; another one there is left alone.
  unfoldable pub remove_transport : AppState A → ℕ → Text → ℕ → AppState A
  remove_transport state r stream_id transport_to_remove =
      if text_beq stream_id default_stream_id
      then (elim ((state.runtimes r).transport_map) [
        | none ↦ state
        | some current ↦ if current == transport_to_remove then shut_down state current else state
      ])
      else state

  unfoldable pub shutdown : AppState A → ℕ → AppState A
  shutdown state r =
      let taken = with_runtime state r (record (state.runtimes r) { transport_map = none }) in
      elim ((state.runtimes r).transport_map) [
        | none ↦ taken
        | some transport ↦ shut_down taken transport
      ]

  unfoldable pub default_stream_exists : AppState A → ℕ → Bool
  default_stream_exists state r = elim ((state.runtimes r).transport_map) [
    | none ↦ false
    | some transport ↦ not (state.is_shut_down transport)
  ]

  -- `consume_payload_string`: its error, if there is one, by the text of that for a runtime without
  -- a stream, and by the transport's answer.
  unfoldable pub consume_payload_string : AppState A → ℕ → Text → (ℕ → Option Text) → Option Text
  consume_payload_string state r no_stream consume_string_payload =
      elim ((state.runtimes r).transport_map) [
        | none ↦ some no_stream
        | some transport ↦ consume_string_payload transport
      ]
