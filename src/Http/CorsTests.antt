-- ===== src/Http/CorsTests.antt =====
-- The CORS middleware at concrete inputs, where a request is the function from names to values.
use rust_mcp_sdk.Prelude.{
  ℕ, ◌≡◌, refl, ◌↔◌, ◌⊎◌, inr, true, false, Option, none, some, [], ◌∷◌, if◌then◌else◌,
}
use rust_mcp_sdk.Prelude.Table.{lookup}
use rust_mcp_sdk.Prelude.Text.{Text, text_eq, text_beq, codes}
use rust_mcp_sdk.Http.Cors.{
  CorsConfig, listed, Response, build_response, resolve_allowed_origin, preflight, requested_of,
  preflight_headers, cors_handle, contains,
}
use rust_mcp_sdk.Http.CorsChecks.{preflight_headers-some, cors_handle-listed}
use rust_mcp_sdk.Http.CorsPreflight.{IsOrigin, IsMethod, AreHeaders, preflight-IsOrigin}

abbrev config : CorsConfig
config = record {
  allow_origins = listed (codes "https://a" ∷ []);
  allow_methods = codes "GET" ∷ codes "POST" ∷ [];
  allow_headers = codes "Content-Type" ∷ [];
  allow_credentials = true;
  max_age = some 60;
  expose_headers = [];
}

preflight-IsOrigin_example :
    ((preflight config
        (some (codes "https://a"))
        (some (codes "PUT"))
        (requested_of (some (codes "content-type, x-y")))).status
      ≡ 204)
    ↔ (IsOrigin config.allow_origins (codes "https://a")
        × IsMethod config.allow_methods (some (codes "PUT"))
        × AreHeaders config.allow_headers (some (codes "content-type, x-y")))
preflight-IsOrigin_example =
    preflight-IsOrigin config (codes "https://a") (some (codes "PUT"))
      (some (codes "content-type, x-y"))

resolve_listed : resolve_allowed_origin config (codes "https://a") ≡ some (codes "https://a")
unfolding resolve_allowed_origin text_beq
resolve_listed = refl

preflight_headers-some_example :
    (lookup (codes "access-control-allow-origin") (preflight_headers config (codes "https://a"))
      ≡ some (codes "https://a"))
    × (lookup
          (codes "access-control-allow-credentials")
          (preflight_headers config (codes "https://a"))
        ≡ some (codes "true"))
preflight_headers-some_example =
    preflight_headers-some config (codes "https://a") (codes "https://a") refl resolve_listed

abbrev Request : Type 0
Request = Text → Option (Option Text)

abbrev header : Request → Text → Option (Option Text)
header req name = req name

abbrev request : Request
request name = if text_beq name (codes "origin") then some (some (codes "https://b")) else none

abbrev served : Request → ℕ ⊎ Response
served req = inr (record { status = 200; headers = []; body = codes "hello" })

other_origin : contains (codes "https://a" ∷ []) (codes "https://b") ≡ false
unfolding text_beq
other_origin = refl

cors_handle-listed_example :
    cors_handle header (λ req. codes "GET") (λ m. some m) config request served ≡ (
      if text_beq (codes "GET") (codes "OPTIONS")
      then inr (build_response 403 (codes "CORS origin not allowed"))
      else served request)
unfolding text_beq
cors_handle-listed_example =
    cors_handle-listed header (λ req. codes "GET") (λ m. some m) config (codes "https://a" ∷ [])
      (codes "https://b") request served refl other_origin refl
