-- ===== src/McpHttp/Headers.antt =====
-- The checks of headers and of the query: is_valid_session_id and parse_session_id_header of
-- crates/rust-mcp-sdk/src/mcp_http/mcp_http_handler.rs, and the checks of mcp_http/http_utils.rs.
pub mod SessionIds
use rust_mcp_sdk.Prelude.{
  ℕ, Bool, true, false, not, ◌&&◌, ◌||◌, Option, none, some, List, [], ◌∷◌, map, length, any, all,
  is_empty, leb, ltb, ◌==◌, if◌then◌else◌, ◌>>=◌, unwrap_or, ◌⊎◌, inl, inr,
}
use rust_mcp_sdk.Prelude.Text.{Text, codes, text_beq, trim}
use rust_mcp_sdk.Prelude.Split.{split, starts_with}
use rust_mcp_sdk.Prelude.Utf8.{as_bytes}
use rust_mcp_sdk.McpHttp.Types.{Headers}

-- `MAX_SESSION_ID_LEN`
abbrev pub max_session_id_len : ℕ
max_session_id_len = 128

-- `u8::is_ascii_graphic`
abbrev pub is_ascii_graphic : ℕ → Bool
is_ascii_graphic b = leb 33 b && leb b 126

-- `is_valid_session_id`: its error, if there is one.
unfoldable pub is_valid_session_id : Text → Option Text
is_valid_session_id value =
    if is_empty value
    then some (codes "session ID must not be empty")
    else if ltb max_session_id_len (length (as_bytes value))
    then some (codes "session ID exceeds maximum length of 128 bytes")
    else if not (all (λ b. is_ascii_graphic b && not (b == 32)) (as_bytes value))
    then some (codes "session ID contains invalid characters")
    else none

abbrev checked : Text → Option Text → Text ⊎ Option Text
checked s none = inr (some s)
checked s (some error) = inl error

abbrev parse_value : Option (Option Text) → Text ⊎ Option Text
parse_value none = inr none
parse_value (some none) = inl (codes "session ID is not valid UTF-8")
parse_value (some (some s)) = checked s (is_valid_session_id s)

-- `parse_session_id_header`: an error, or the id if the header is there.
unfoldable pub parse_session_id_header : Headers → Text → Text ⊎ Option Text
parse_session_id_header headers header_name = parse_value (headers header_name)

-- `headers.get(name).and_then(|val| val.to_str().ok()).unwrap_or("")`
abbrev pub header_text : Headers → Text → Text
header_text headers name = unwrap_or (headers name >>= (λ val. val)) []

-- Some part of a list between commas begins with the media type.
abbrev pub lists_type : Text → Text → Bool
lists_type media_type header =
    any (λ val. starts_with media_type (trim val)) (split (codes ",") header)

unfoldable pub acceptable_content_type : Headers → Bool
acceptable_content_type headers =
    lists_type (codes "application/json") (header_text headers (codes "content-type"))

unfoldable pub accepts_event_stream : Headers → Bool
accepts_event_stream headers =
    lists_type (codes "text/event-stream") (header_text headers (codes "accept"))

unfoldable pub valid_streaming_http_accept_header : Headers → Bool
valid_streaming_http_accept_header headers =
    let types = map trim (split (codes ",") (header_text headers (codes "accept"))) in
    any (starts_with (codes "text/event-stream")) types
    && any (starts_with (codes "application/json")) types

-- `validate_mcp_protocol_version_header`, its error if there is one. The generated schema's reading
-- of a version is a parameter: the error's text, if it is none.
unfoldable pub validate_mcp_protocol_version_header : (Text → Option Text) → Headers → Option Text
validate_mcp_protocol_version_header version_error headers =
    let version = header_text headers (codes "mcp-protocol-version") in
    if is_empty version then none else version_error version

-- `splitn(2, '=')`: the text in front of the first `=`, and that behind it or nothing.
abbrev pub split_pair : Text → Text × Text
split_pair [] = ([], [])
split_pair (c ∷ s) =
    let (key, value) = split_pair s in if c == b'=' then ([], s) else (c ∷ key, value)

abbrev pub find_param : Text → List Text → Option Text
find_param key [] = none
find_param key (pair ∷ l) =
    let (k, v) = split_pair pair in
    let rest = find_param key l in if text_beq k key then some v else rest

-- `query_param`, by the query of the request's URI.
unfoldable pub query_param : Option Text → Text → Option Text
query_param none key = none
query_param (some query) key = find_param key (split (codes "&") query)
