-- ===== src/Http/CorsChecks.antt =====
-- Which requests the CORS middleware allows, and what it answers
-- (mcp_http/middleware/cors_middleware.rs).
use rust_mcp_sdk.Prelude.{
  ◌≡◌, refl, ap, ◌∙◌, ◌⊎◌, inl, inr, true, false, Option, none, some, List, [], arith,
  if◌then◌else◌, Bool-cases,
}
use rust_mcp_sdk.Prelude.Table.{lookup, insert}
use rust_mcp_sdk.Prelude.Text.{Text, text_eq, text_beq, codes}
use rust_mcp_sdk.Http.{header_str}
use rust_mcp_sdk.Http.Cors.{
  CorsConfig, AllowOrigins, any_origin, listed, echo, Response, build_response, contains,
  resolve_allowed_origin, preflight_headers, preflight, add_cors, cors_handle, insert_some,
  credentials_value,
}

-- What the inserted headers hold.
lookup-insert_some :
    (origin a b : Text) (age credentials : Option Text)
    → let headers = insert (codes "access-control-allow-headers") a (
        insert (codes "access-control-allow-methods") b (
          insert_some (codes "access-control-max-age") age (
            insert_some
              (codes "access-control-allow-credentials")
              credentials
              (insert_some (codes "access-control-allow-origin") (some origin) [])))) in
      (lookup (codes "access-control-allow-origin") headers ≡ some origin)
      × (lookup (codes "access-control-allow-credentials") headers ≡ credentials)
unfolding lookup insert text_beq
lookup-insert_some origin a b none none = (refl, refl)
lookup-insert_some origin a b none (some c) = (refl, refl)
lookup-insert_some origin a b (some n) none = (refl, refl)
lookup-insert_some origin a b (some n) (some c) = (refl, refl)

lookup-insert_both :
    (origin a b : Text) (age credentials allowed : Option Text)
    → credentials ≡ some (codes "true")
    → allowed ≡ some origin
    → let headers = insert (codes "access-control-allow-headers") a (
        insert (codes "access-control-allow-methods") b (
          insert_some (codes "access-control-max-age") age (
            insert_some
              (codes "access-control-allow-credentials")
              credentials
              (insert_some (codes "access-control-allow-origin") allowed [])))) in
      (lookup (codes "access-control-allow-origin") headers ≡ some origin)
      × (lookup (codes "access-control-allow-credentials") headers ≡ some (codes "true"))
lookup-insert_both origin a b age credentials allowed c h =
    rw c (rw h (lookup-insert_some origin a b age (some (codes "true"))))

resolve-some :
    (o : AllowOrigins) (config : CorsConfig) (origin r : Text)
    → config.allow_origins ≡ o
    → config.allow_credentials ≡ true
    → resolve_allowed_origin config origin ≡ some r
    → r ≡ origin
unfolding resolve_allowed_origin
resolve-some any_origin config origin r e c h = ground (arith, e, c, h)
resolve-some (listed l) config origin r e c h = ground (arith, e, c, h)
resolve-some echo config origin r e c h = ground (arith, e, c, h)

-- With credentials, the answer to a preflight that is granted names the very origin that asked,
-- never the wildcard, and says that credentials are allowed.
pub preflight_headers-some :
    (config : CorsConfig) (origin r : Text)
    → config.allow_credentials ≡ true
    → resolve_allowed_origin config origin ≡ some r
    → (lookup (codes "access-control-allow-origin") (preflight_headers config origin) ≡ some origin)
      × (lookup (codes "access-control-allow-credentials") (preflight_headers config origin)
          ≡ some (codes "true"))
unfolding preflight_headers
preflight_headers-some config origin r c h =
    lookup-insert_both origin _ _ _ (credentials_value config.allow_credentials)
      (resolve_allowed_origin config origin) (ap credentials_value c)
      (h ∙ ap some (resolve-some config.allow_origins config origin r refl c h))

add_cors-none :
    {E : Type 0} (config : CorsConfig) (origin : Text) (resp : E ⊎ Response)
    → resolve_allowed_origin config origin ≡ none
    → add_cors config (some origin) resp ≡ resp
add_cors-none config origin (inl e) h = refl
add_cors-none config origin (inr resp) h = rw h refl

resolve-none :
    (config : CorsConfig) (l : List Text) (origin : Text)
    → config.allow_origins ≡ listed l
    → contains l origin ≡ false
    → resolve_allowed_origin config origin ≡ none
unfolding resolve_allowed_origin
resolve-none config l origin e h = rw (e, resolve_allowed_origin) (rw h refl)

preflight-none :
    (config : CorsConfig) (origin : Text) (method : Option Text) (requested : List Text)
    → resolve_allowed_origin config origin ≡ none
    → preflight config (some origin) method requested
      ≡ build_response 403 (codes "CORS origin not allowed")
unfolding preflight
preflight-none config origin method requested h = rw h refl

-- With a list of origins, a request from an origin that is not in it is refused if its method is
-- OPTIONS, whether or not it asks for a method, and otherwise gets the next handler's response as it
-- is, without any header of the middleware.
pub cors_handle-listed :
    {Req E : Type 0} (header : Req → Text → Option (Option Text)) (method : Req → Text)
    (parse_method : Text → Option Text) (config : CorsConfig) (l : List Text) (origin : Text)
    (req : Req) (next : Req → E ⊎ Response)
    → config.allow_origins ≡ listed l
    → contains l origin ≡ false
    → header_str header req (codes "origin") ≡ some origin
    → cors_handle header method parse_method config req next ≡ (
        if text_beq (method req) (codes "OPTIONS")
        then inr (build_response 403 (codes "CORS origin not allowed"))
        else next req)
unfolding cors_handle
cors_handle-listed header method parse_method config l origin req next e h there =
    rw (there, cors_handle)
      (elim (Bool-cases (text_beq (method req) (codes "OPTIONS"))) [
        | inl b ↦
            rw b (ap inr (preflight-none config origin _ _ (resolve-none config l origin e h)))
        | inr b ↦ rw b (add_cors-none config origin (next req) (resolve-none config l origin e h))
      ])
