-- ===== src/Versions/Tests.antt =====
-- The agreement on a version at concrete versions.
use rust_mcp_sdk.Prelude.{◌≡◌, true, none}
use rust_mcp_sdk.Prelude.Text.{Text, codes}
use rust_mcp_sdk.Versions.{
  RpcError, internal_error, Server, McpSdkError, other_error, handle_message, initialize_request,
}
use rust_mcp_sdk.Versions.Agreement.{agreement, initialize_request-handle_message}

abbrev message_of : RpcError → Text
message_of (internal_error message) = message

abbrev server : Server
server = record {
  protocol_version = codes "2025-06-18";
  client_details = none;
  has_receiver = true;
}

abbrev timed_out : McpSdkError
timed_out = other_error (codes "Request timed out")

initialize_request-handle_message_example :
    let handled = handle_message message_of server (codes "2024-11-05") in
    (initialize_request (codes "2024-11-05") handled.1 timed_out, handled.0.client_details)
    ≡ agreement message_of (codes "2024-11-05") server timed_out
initialize_request-handle_message_example =
    initialize_request-handle_message message_of (codes "2024-11-05") (codes "2025-06-18") true
      timed_out
