-- ===== src/Challenges.antt =====
-- The parameters of a challenge to an OAuth client: `parse_www_authenticate_param` of
-- crates/rust-mcp-sdk/src/auth/client_auth/www_authenticate.rs.
pub mod RoundTrip
mod Tests
use rust_mcp_sdk.Prelude.{
  Bool, Option, none, some, List, [], ◌∷◌, ◌++◌, is_empty, ◌==◌, if◌then◌else◌,
}
use rust_mcp_sdk.Prelude.Text.{
  Text, codes, trim, trim_start, trim_start_by, trim_end_by, strip_prefix,
}
use rust_mcp_sdk.Prelude.Split.{split}

-- `or_else`
abbrev or_prefix : Option Text → Text → Text → Option Text
or_prefix (some rest) prefix s = some rest
or_prefix none prefix s = strip_prefix prefix s

abbrev unwrap_body : Option Text → Text → Text
unwrap_body none body = body
unwrap_body (some rest) body = rest

-- The scheme is stripped, if it is one of two in one of two spellings.
unfoldable pub strip_scheme : Text → Text
strip_scheme body =
    unwrap_body
      (or_prefix
        (or_prefix (or_prefix (strip_prefix (codes "Bearer") body) (codes "bearer") body)
          (codes "Basic") body)
        (codes "basic") body)
      body

-- `trim_matches`
abbrev pub trim_quotes : Text → Text
trim_quotes s = trim_end_by (λ c. c == b'"') (trim_start_by (λ c. c == b'"') s)

abbrev pub value_or : Option Text → Option Text → Option Text
value_or none later = later
value_or (some rest) later =
    if is_empty (trim_quotes (trim rest)) then later else some (trim_quotes (trim rest))

unfoldable pub find_value : Text → List Text → Option Text
find_value prefix [] = none
find_value prefix (part ∷ parts) =
    let later = find_value prefix parts in value_or (strip_prefix prefix (trim part)) later

unfoldable pub parse_www_authenticate_param : Text → Text → Option Text
parse_www_authenticate_param www_auth param_name =
    find_value (param_name ++ b'=' ∷ []) (split (codes ",") (strip_scheme (trim_start www_auth)))
