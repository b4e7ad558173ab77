-- ===== src/Versions.antt =====
-- The agreement on a protocol version: `enforce_compatible_protocol_version` and
-- `ensure_server_protocole_compatibility` of crates/rust-mcp-sdk/src/utils.rs, with their callers:
-- `handle_initialize_request` of crates/rust-mcp-sdk/src/mcp_handlers/mcp_server_handler.rs, which
-- `handle_message` and the loop over messages of mcp_runtimes/server_runtime.rs call, and
-- `initialize_request` of mcp_runtimes/client_runtime.rs.
pub mod Agreement
mod Tests
use rust_mcp_sdk.Prelude.{
  ℕ, Bool, Option, none, some, [], ◌∷◌, ◌++◌, ◌⊎◌, inl, inr, ◌==◌, ltb, is_some, if◌then◌else◌,
}
use rust_mcp_sdk.Prelude.Text.{Text, codes}

pub data Ordering : Type 0 where
  less : Ordering
  equal : Ordering
  greater : Ordering

-- `RpcError`, by its message.
pub data RpcError : Type 0 where
  internal_error : (message : Text) → RpcError

-- `McpSdkError`; the text of an `RpcError` is the schema library's.
pub data McpSdkError : Type 0 where
  incompatible_version : (requested current : Text) → McpSdkError
  rpc_error : RpcError → McpSdkError
  other_error : (message : Text) → McpSdkError

pub data SdkResult (A : Type 0) : Type 0 where
  accepted : A → SdkResult A
  refused : McpSdkError → SdkResult A

-- The order of strings by their code points.
unfoldable pub cmp : Text → Text → Ordering
cmp [] [] = equal
cmp [] (b ∷ t) = less
cmp (a ∷ s) [] = greater
cmp (a ∷ s) (b ∷ t) =
    let rest = cmp s t in if a == b then rest else if ltb a b then less else greater

unfoldable pub ensure_server_protocole_compatibility : Text → Text → SdkResult Unit
ensure_server_protocole_compatibility client_protocol_version server_protocol_version =
    elim (cmp client_protocol_version server_protocol_version) [
      | less ↦ refused (incompatible_version client_protocol_version server_protocol_version)
      | equal ↦ accepted tt
      | greater ↦ accepted tt
    ]

unfoldable pub enforce_compatible_protocol_version : Text → Text → SdkResult (Option Text)
enforce_compatible_protocol_version client_protocol_version server_protocol_version =
    elim (cmp client_protocol_version server_protocol_version) [
      | greater ↦ refused (incompatible_version client_protocol_version server_protocol_version)
      | equal ↦ accepted none
      | less ↦ accepted (some client_protocol_version)
    ]

abbrev updated_version : Text → Option Text → Text
updated_version server_protocol_version none = server_protocol_version
updated_version server_protocol_version (some updated) = updated

-- The server: its version, the client's if it is initialized, and whether there is still a receiver
-- of the client's details, without which they cannot be set.
pub record Server : Type 0 where
  pub protocol_version : Text
  pub client_details : Option Text
  pub has_receiver : Bool

module _ (display_rpc_error : RpcError → Text) where
  -- `to_string` of an error.
  unfoldable pub error_text : McpSdkError → Text
  error_text (incompatible_version requested current) =
      codes "Protocol error: Incompatible protocol version: requested "
      ++ (requested ++ (codes ", current " ++ current))
  error_text (rpc_error error) = display_rpc_error error
  error_text (other_error message) = message

  unfoldable pub set_client_details : Server → Text → Server × SdkResult Unit
  set_client_details server details =
      if server.has_receiver
      then (record server { client_details = some details }, accepted tt)
      else (server, refused (rpc_error (internal_error (codes "Failed to set client details"))))

  -- The answer with a version, when the client's details are set.
  abbrev pub answered : Text → Server × SdkResult Unit → Server × (RpcError ⊎ Text)
  answered version (server, accepted u) = (server, inr version)
  answered version (server, refused error) = (server, inl (internal_error (error_text error)))

  abbrev pub agreed : Server → Text → SdkResult (Option Text) → Server × (RpcError ⊎ Text)
  agreed server version (refused error) = (server, inl (internal_error (error_text error)))
  agreed server version (accepted updated) =
      answered (updated_version server.protocol_version updated) (set_client_details server version)

  unfoldable pub handle_initialize_request : Server → Text → Server × (RpcError ⊎ Text)
  handle_initialize_request server client_protocol_version =
      agreed server client_protocol_version
        (enforce_compatible_protocol_version client_protocol_version server.protocol_version)

  -- What `handle_message` makes of a handler's result. An error while the server is not initialized
  -- is its own, which the loop over messages logs: nothing is sent then.
  abbrev pub sent_for : Server × (RpcError ⊎ Text) → Server × Option (RpcError ⊎ Text)
  sent_for (server, inr version) = (server, some (inr version))
  sent_for (server, inl error) =
      (server, if is_some server.client_details then some (inl error) else none)

  unfoldable pub handle_message : Server → Text → Server × Option (RpcError ⊎ Text)
  handle_message server client_protocol_version =
      sent_for (handle_initialize_request server client_protocol_version)

-- The version that the client stores, from what has come for its request; the error with which a
-- request without an answer ends is an argument.
abbrev pub received : Text → SdkResult Unit → SdkResult Text
received version (accepted u) = accepted version
received version (refused error) = refused error

unfoldable pub initialize_request : Text → Option (RpcError ⊎ Text) → McpSdkError → SdkResult Text
initialize_request client_protocol_version none no_answer = refused no_answer
initialize_request client_protocol_version (some (inl error)) no_answer = refused (rpc_error error)
initialize_request client_protocol_version (some (inr version)) no_answer =
    received version (ensure_server_protocole_compatibility client_protocol_version version)
