-- ===== src/Lib.antt =====
-- A verification library for rust-mcp-sdk, the Model Context Protocol SDK in Rust.
--
-- The program's parts: a transport crate that moves JSON-RPC messages over standard streams, SSE
-- and streamable HTTP (crates/rust-mcp-transport); the SDK with the client and server runtimes,
-- session and task stores, HTTP handling, middleware and OAuth (crates/rust-mcp-sdk); bindings for
-- two web servers, macros and extras. What is modelled is the logic of the parts below; each file
-- opens with the source that it is about.
--
-- Prelude       Boolean tests, lists, options, maps as association lists with their laws, and what
--               the code uses of Rust's standard library: texts, splitting, decimal numbers, UTF-8.
-- Events        EventStore and InMemoryEventStore of crates/rust-mcp-transport/src/event_store.rs
--               and event_store/in_memory_event_store.rs. A method under the write lock is a
--               function that returns the new store; its parent module has the definitions, and the
--               modules below it the proofs (Ids, Bounds, Order, Resume, Removal).
-- Sse           SseEvent and SseParser of crates/rust-mcp-transport/src/utils/sse_event.rs and
--               sse_parser.rs: the printer, and the parser with its buffer. A `str` is the list of
--               its code points, and bytes are a list of numbers.
-- Sessions      InMemorySessionStore of crates/rust-mcp-sdk/src/session_store/
--               in_memory_session_store.rs, with its sixteen shards and its counter, which wraps
--               around at 2^64. The hasher is a parameter, and the clock's reading an argument.
-- Tasks         InMemoryTaskStore of crates/rust-mcp-sdk/src/task_store/in_memory_task_store.rs: the
--               tasks and their ids by session, the schedule of the polls (Schedule), and each step
--               of the polling loop. A spawned cleanup is an operation of its own, expire_task.
-- Http          The middleware of crates/rust-mcp-sdk/src/mcp_http/middleware.rs (Compose),
--               dns_rebinding.rs and middleware/dns_rebind_protector.rs (Dns) and
--               middleware/auth_middleware.rs (Auth), and middleware/cors_middleware.rs (Cors has
--               the definitions, CorsChecks and CorsPreflight the proofs). A handler is a function from requests to
--               responses; what the code asks of a request's headers is a parameter.
-- McpHttp       The MCP HTTP handler: mcp_http_handler.rs, http_utils.rs and error.rs of
--               crates/rust-mcp-sdk/src/mcp_http, with what they use of utils.rs and
--               mcp_runtimes/server_runtime.rs. A handler takes the server's state, a request and
--               what the surroundings give (the clock, new ids, whether a stream starts in time),
--               and returns the new state and the answer. It uses the session store of Sessions; a
--               stored session is the number of its runtime, and the state has the runtimes, which
--               transports are shut down, and the tasks that are spawned. Types, Headers, Payload,
--               Endpoint, Runtime, Streams, Incoming and Handler have the definitions, and the
--               modules below Handler, Headers and Endpoint the proofs.
-- Dispatch      MessageDispatcher of crates/rust-mcp-transport/src/message_dispatcher.rs: what both
--               sides write, the requests that wait (Held), how a response reaches its request
--               (Responses, with handle_message of server_runtime.rs), and the body of an event
--               stream (Body, with create_sse_stream of http_utils.rs), which joins the dispatcher,
--               the event store of Events and the parser of Sse. What is awaited, and how far a write
--               comes, are arguments.
-- Reader        read_capped_line and spawn_reader of crates/rust-mcp-transport/src/mcp_stream.rs,
--               by the chunks of bytes that a stream gives.
-- RequestIds    RequestIdGenNumeric of crates/rust-mcp-sdk/src/mcp_traits/request_id_gen.rs.
-- Scopes        select_scope and union_scopes of
--               crates/rust-mcp-sdk/src/auth/client_auth/scope.rs; a set is a sorted list.
-- Versions      The checks of protocol versions in crates/rust-mcp-sdk/src/utils.rs and their two
--               callers: on the server handle_initialize_request (mcp_handlers/
--               mcp_server_handler.rs), with what handle_message and the loop over messages
--               (mcp_runtimes/server_runtime.rs) make of its errors, and on the client
--               initialize_request (mcp_runtimes/client_runtime.rs). The error with which a request
--               without an answer ends, and the text of an RpcError, are arguments.
-- Challenges    parse_www_authenticate_param of
--               crates/rust-mcp-sdk/src/auth/client_auth/www_authenticate.rs.
--
-- Fuel: the loop that takes lines off the parser's buffer has the buffer's length as fuel, which
-- take_lines-eq-split_lines shows to be enough; a decimal print of n has n + 1; a
-- client that lists all tasks by pages has at least the number of ids; the loop that reads messages
-- has more rounds than the stream has bytes.
--
-- Not modelled: sockets, timers, the scheduling of spawned tasks and locks (a locked section is one
-- step), logging, JSON encoding, the generated protocol schema, the macros, the web server bindings,
-- the OAuth providers, the loops of the client and server runtimes over messages, and the
-- interleaving of requests that overlap.
pub mod Prelude
pub mod Events
pub mod Sse
pub mod Reader
pub mod McpHttp
pub mod Dispatch
pub mod Sessions
pub mod Tasks
pub mod Http
pub mod RequestIds
pub mod Scopes
pub mod Challenges
pub mod Versions
