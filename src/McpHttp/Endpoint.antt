-- ===== src/McpHttp/Endpoint.antt =====
-- The endpoint that an SSE client posts its messages to: endpoint_with_session_id of
-- crates/rust-mcp-transport/src/utils.rs, and remove_query_and_hash of
-- crates/rust-mcp-sdk/src/utils.rs.
pub mod RoundTrip
use rust_mcp_sdk.Prelude.{Bool, Option, none, some, List, [], ◌∷◌, ◌++◌, is_empty, if◌then◌else◌}
use rust_mcp_sdk.Prelude.Text.{Text, codes}
use rust_mcp_sdk.Prelude.Split.{split_once}

-- The text in front of the separator, and that behind it if there is one.
abbrev cut_at : Text → Option (Text × Text) → Text × Option Text
cut_at s none = (s, none)
cut_at s (some (front, behind)) = (front, some behind)

abbrev new_query : Option Text → Text → Text
new_query none session_id = codes "sessionId=" ++ session_id
new_query (some q) session_id =
    if is_empty q
    then codes "sessionId=" ++ session_id
    else q ++ (codes "&sessionId=" ++ session_id)

abbrev with_fragment : Option Text → Text → Text
with_fragment none url = url
with_fragment (some f) url = url ++ (codes "#" ++ f)

unfoldable pub endpoint_with_session_id : Text → Text → Text
endpoint_with_session_id endpoint session_id =
    let base = if is_empty endpoint then codes "/" else endpoint in
    let (path_and_query, fragment) = cut_at base (split_once b'#' base) in
    let (path, query) = cut_at path_and_query (split_once b'?' path_and_query) in
    with_fragment fragment (path ++ (codes "?" ++ new_query query session_id))

unfoldable pub remove_query_and_hash : Text → Text
remove_query_and_hash endpoint =
    let without_fragment = (cut_at endpoint (split_once b'#' endpoint)).0 in
    let without_query = (cut_at without_fragment (split_once b'?' without_fragment)).0 in
    if is_empty without_query then codes "/" else without_query
