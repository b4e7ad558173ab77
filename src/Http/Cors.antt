-- ===== src/Http/Cors.antt =====
-- The CORS middleware: crates/rust-mcp-sdk/src/mcp_http/middleware/cors_middleware.rs. Methods and
-- header names stand for their texts. The parser of methods is the HTTP library's, a parameter. An
-- error of the next handler is passed on.
use rust_mcp_sdk.Prelude.{
  ℕ, Bool, true, false, not, ◌&&◌, Option, none, some, List, [], ◌∷◌, map, any, all, is_empty,
  is_some, if◌then◌else◌, ◌>>=◌, ◌⊎◌, inl, inr,
}
use rust_mcp_sdk.Prelude.Table.{Table, insert}
use rust_mcp_sdk.Prelude.Text.{Text, text_eq, text_beq, codes, trim, to_ascii_lowercase}
use rust_mcp_sdk.Prelude.Split.{split, join}
use rust_mcp_sdk.Prelude.Decimal.{to_decimal}
use rust_mcp_sdk.Http.{header_str}

pub data AllowOrigins : Type 0 where
  any_origin : AllowOrigins
  listed : List Text → AllowOrigins
  echo : AllowOrigins

pub record CorsConfig : Type 0 where
  pub allow_origins : AllowOrigins
  pub allow_methods : List Text
  pub allow_headers : List Text
  pub allow_credentials : Bool
  pub max_age : Option ℕ
  pub expose_headers : List Text

pub record Response : Type 0 where
  pub status : ℕ
  pub headers : Table Text Text
  pub body : Text

-- `GenericBody::build_response` without headers, where `into_response` sets the content type.
abbrev pub build_response : ℕ → Text → Response
build_response status payload = record {
  status = status;
  headers = (codes "content-type", codes "text/plain") ∷ [];
  body = payload;
}

-- `HashSet::contains`
abbrev pub contains : List Text → Text → Bool
contains l t = any (λ u. text_beq u t) l

unfoldable pub resolve_allowed_origin : CorsConfig → Text → Option Text
resolve_allowed_origin config origin = elim config.allow_origins [
  | any_origin ↦ if config.allow_credentials then some origin else some (codes "*")
  | listed allowed ↦ if contains allowed origin then some origin else none
  | echo ↦ some origin
]

abbrev pub insert_some : Text → Option Text → Table Text Text → Table Text Text
insert_some name none headers = headers
insert_some name (some v) headers = insert name v headers

abbrev pub credentials_value : Bool → Option Text
credentials_value b = if b then some (codes "true") else none

abbrev age_value : Option ℕ → Option Text
age_value none = none
age_value (some age) = some (to_decimal age)

unfoldable pub preflight_headers : CorsConfig → Text → Table Text Text
preflight_headers config origin =
    insert (codes "access-control-allow-headers") (join (codes ", ") config.allow_headers) (
      insert (codes "access-control-allow-methods") (join (codes ", ") config.allow_methods) (
        insert_some (codes "access-control-max-age") (age_value config.max_age) (
          insert_some (codes "access-control-allow-credentials")
            (credentials_value config.allow_credentials)
            (insert_some (codes "access-control-allow-origin")
              (resolve_allowed_origin config origin) []))))

unfoldable pub preflight_response : CorsConfig → Text → Response
preflight_response config origin = record {
  status = 204;
  headers = preflight_headers config origin;
  body = [];
}

unfoldable pub add_cors_to_response : CorsConfig → Response → Text → Response
add_cors_to_response config resp origin = record resp {
  headers =
      insert_some (codes "access-control-expose-headers")
        (if is_empty config.expose_headers
          then none
          else some (join (codes ", ") config.expose_headers))
        (insert_some (codes "access-control-allow-credentials")
          (credentials_value config.allow_credentials)
          (insert_some (codes "access-control-allow-origin") (resolve_allowed_origin config origin)
            resp.headers));
}

abbrev pub is_any : AllowOrigins → Bool
is_any any_origin = true
is_any _ = false

abbrev pub allows_method : CorsConfig → Option Text → Bool
allows_method config none = true
allows_method config (some m) = contains config.allow_methods m

abbrev pub allows_headers : CorsConfig → List Text → Bool
allows_headers config requested =
    all (contains (map (map to_ascii_lowercase) config.allow_headers)) requested

-- The answer to a preflight, by its origin, method and headers.
unfoldable pub preflight : CorsConfig → Option Text → Option Text → List Text → Response
preflight config none method requested =
    if is_any config.allow_origins && not config.allow_credentials
    then preflight_response config (codes "*")
    else build_response 400 (codes "CORS origin missing in preflight")
preflight config (some origin) method requested =
    if not (is_some (resolve_allowed_origin config origin))
    then build_response 403 (codes "CORS origin not allowed")
    else (if not (allows_method config method)
        then build_response 405 (codes "CORS method not allowed")
        else (if not (allows_headers config requested)
            then build_response 400 (codes "CORS header not allowed")
            else preflight_response config origin))

-- What is done to the next handler's response.
abbrev pub add_cors : {E : Type 0} → CorsConfig → Option Text → E ⊎ Response → E ⊎ Response
add_cors config origin (inl e) = inl e
add_cors config none (inr resp) = inr resp
add_cors config (some origin) (inr resp) =
    if is_some (resolve_allowed_origin config origin)
    then inr (add_cors_to_response config resp origin)
    else inr resp

abbrev pub requested_of : Option Text → List Text
requested_of none = []
requested_of (some s) = map (λ h. map to_ascii_lowercase (trim h)) (split (codes ",") s)

module _ {Req E : Type 0} (header : Req → Text → Option (Option Text)) (method : Req → Text)
    (parse_method : Text → Option Text) where
  unfoldable pub cors_handle : CorsConfig → Req → (Req → E ⊎ Response) → E ⊎ Response
  cors_handle config req next =
      if text_beq (method req) (codes "OPTIONS")
      then inr (
          preflight config (header_str header req (codes "origin"))
            (header_str header req (codes "access-control-request-method") >>= parse_method)
            (requested_of (header_str header req (codes "access-control-request-headers"))))
      else add_cors config (header_str header req (codes "origin")) (next req)
