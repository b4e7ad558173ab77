-- ===== src/Http/Tests.antt =====
-- The middleware at concrete inputs, where a request is the function from names to values.
use rust_mcp_sdk.Prelude.{
  ℕ, ◌≡◌, refl, ◌↔◌, ◌⊎◌, inr, false, Option, none, some, List, [], ◌∷◌, unwrap_or, if◌then◌else◌,
}
use rust_mcp_sdk.Prelude.Text.{
  Text, codes, text_beq, trim, to_ascii_lowercase, eq_ignore_ascii_case,
}
use rust_mcp_sdk.Prelude.Split.{split_once}
use rust_mcp_sdk.Http.{
  AuthInfo, AuthenticationError, DnsRebindProtector, Forbidden, Middleware, compose, is_wildcard,
  protect_dns_rebinding, check_header, dns_handle, resolve_dns_middleware, auth_handle,
  bearer_token,
}
use rust_mcp_sdk.Http.Compose.{compose-append}
use rust_mcp_sdk.Http.Dns.{
  IsAllowed, default_options, derived, protect_dns_rebinding-IsAllowed,
  dns_handle-resolve_dns_middleware,
}
use rust_mcp_sdk.Http.Auth.{IsValidated, auth_handle-IsValidated}

abbrev Request : Type 0
Request = Text → Option (Option Text)

abbrev header : Request → Text → Option (Option Text)
header req name = req name

abbrev request : Request
request name =
    if text_beq name (codes "authorization") then some (some (codes "Bearer abc")) else none

-- A response is a list of numbers: the status, and what the handlers leave.
abbrev Response : Type 0
Response = List ℕ

abbrev final : Request → Response
final req = 200 ∷ []

abbrev mark : ℕ → Middleware Request Response
mark n req next = n ∷ next req

compose-append_example :
    (compose (mark 1 ∷ mark 2 ∷ []) final ≡ compose (mark 1 ∷ []) (compose (mark 2 ∷ []) final))
    × (compose (mark 0 ∷ mark 1 ∷ []) final ≡ (λ req. mark 0 req (compose (mark 1 ∷ []) final)))
compose-append_example = compose-append (mark 1 ∷ []) (mark 2 ∷ []) final (mark 0)

abbrev protector : DnsRebindProtector
protector = record { allowed_hosts = some (codes "localhost:80" ∷ []); allowed_origins = none }

protect_dns_rebinding-IsAllowed_example :
    (protect_dns_rebinding protector (some (codes "LocalHost:80")) none ≡ none) ↔ (
      IsAllowed protector.allowed_hosts (some (codes "LocalHost:80"))
      × IsAllowed protector.allowed_origins none)
protect_dns_rebinding-IsAllowed_example =
    protect_dns_rebinding-IsAllowed protector (some (codes "LocalHost:80")) none

protect_same_host : protect_dns_rebinding protector (some (codes "LocalHost:80")) none ≡ none
unfolding protect_dns_rebinding check_header eq_ignore_ascii_case text_beq to_ascii_lowercase
protect_same_host = refl

abbrev forbidden : Forbidden → Response
forbidden error = 403 ∷ []

not_wildcard : is_wildcard (codes "127.0.0.1") ≡ false
unfolding is_wildcard text_beq
not_wildcard = refl

dns_handle-resolve_dns_middleware_example :
    ((resolve_dns_middleware default_options (codes "127.0.0.1") 8080).1
      ≡ some (derived (codes "127.0.0.1") 8080))
    × ((error : Forbidden) × (dns_handle header forbidden
            (derived (codes "127.0.0.1") 8080)
            request
            final
          ≡ forbidden error))
unfolding text_beq
dns_handle-resolve_dns_middleware_example =
    dns_handle-resolve_dns_middleware header forbidden (codes "127.0.0.1") 8080 request final
      not_wildcard (λ there. there)

abbrev info : AuthInfo Unit
info = record {
  token_unique_id = codes "abc";
  client_id = none;
  user_id = none;
  scopes = none;
  expires_at = some 100;
  audience = none;
  extra = tt;
}

abbrev verify_token : Text → ℕ ⊎ AuthInfo Unit
verify_token token = inr info

abbrev refused : AuthenticationError ℕ → Response
refused error = 401 ∷ []

abbrev insert_info : AuthInfo Unit → Request → Request
insert_info d req = req

abbrev required : Option (List Text)
required = some (codes "mcp:write" ∷ [])

abbrev handled : Response
handled = auth_handle header refused insert_info 50 required verify_token request final

auth_handle-IsValidated_example :
    ((value : Option Text) × (d : AuthInfo Unit) × (header request (codes "authorization")
        ≡ some value)
      × IsValidated 50 required verify_token (unwrap_or value []) d
      × (handled ≡ final (insert_info d request)))
    ⊎ ((error : AuthenticationError ℕ) × (handled ≡ refused error))
auth_handle-IsValidated_example =
    auth_handle-IsValidated header refused insert_info 50 required verify_token request final

read_token : bearer_token (codes "Bearer abc") ≡ some (codes "abc")
unfolding bearer_token split_once trim eq_ignore_ascii_case text_beq to_ascii_lowercase
read_token = refl
