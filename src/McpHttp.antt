-- ===== src/McpHttp.antt =====
-- The MCP HTTP handler: crates/rust-mcp-sdk/src/mcp_http/mcp_http_handler.rs, http_utils.rs and
-- error.rs, with what they use of utils.rs and mcp_runtimes/server_runtime.rs. The definitions stand
-- in Types, Headers, Payload, Endpoint, Runtime, Streams, Incoming and Handler.
pub mod Types
pub mod Headers
pub mod Payload
pub mod Runtime
pub mod Endpoint
pub mod Streams
pub mod Incoming
pub mod Handler
mod Tests
