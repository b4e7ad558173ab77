-- ===== src/Http.antt =====
-- The HTTP middleware: how it is composed, the protection against DNS rebinding, and
-- authentication. crates/rust-mcp-sdk/src/mcp_http/middleware.rs, mcp_http/dns_rebinding.rs,
-- mcp_http/middleware/dns_rebind_protector.rs and mcp_http/middleware/auth_middleware.rs. Requests
-- are a parameter, read through a function that gives a header's value if the header is there, and
-- its text if it is one. A response stands for all that a handler does.
pub mod Compose
pub mod Dns
pub mod Auth
pub mod Cors
pub mod CorsChecks
pub mod CorsPreflight
mod Tests
mod CorsTests
use rust_mcp_sdk.Prelude.{
  ℕ, Bool, true, false, not, ◌&&◌, ◌||◌, Option, none, some, List, [], ◌∷◌, ◌++◌, any, all,
  is_empty, is_some, leb, if◌then◌else◌, ◌==◌, ◌>>=◌, unwrap_or, ◌⊎◌, inl, inr,
}
use rust_mcp_sdk.Prelude.Text.{Text, text_beq, codes, trim, eq_ignore_ascii_case}
use rust_mcp_sdk.Prelude.Split.{split_once}
use rust_mcp_sdk.Prelude.Decimal.{to_decimal}
use mathlib.Core.List.{reverse}

abbrev pub Handler : Type 0 → Type 0 → Type 0
Handler Req Resp = Req → Resp

-- What `Middleware::handle` is given: the request and the next handler.
abbrev pub Middleware : Type 0 → Type 0 → Type 0
Middleware Req Resp = Req → Handler Req Resp → Resp

-- The loop of `compose`.
pub wrap_all :
    {Req Resp : Type 0} → List (Middleware Req Resp) → Handler Req Resp → Handler Req Resp
wrap_all [] handler = handler
wrap_all (mw ∷ l) handler = wrap_all l (λ req. mw req handler)

unfoldable pub compose :
    {Req Resp : Type 0} → List (Middleware Req Resp) → Handler Req Resp → Handler Req Resp
unfolding wrap_all
compose middlewares final_handler = wrap_all (reverse middlewares) final_handler

pub record DnsRebindingOptions : Type 0 where
  pub dns_rebinding_protection : Bool
  pub allowed_hosts : Option (List Text)
  pub allowed_origins : Option (List Text)

pub record DnsRebindProtector : Type 0 where
  pub allowed_hosts : Option (List Text)
  pub allowed_origins : Option (List Text)

-- The errors of `protect_dns_rebinding`, with the text of the header if it has one.
pub data Forbidden : Type 0 where
  invalid_host : Option Text → Forbidden
  invalid_origin : Option Text → Forbidden

unfoldable pub is_wildcard : Text → Bool
is_wildcard host = is_empty host || text_beq host (codes "0.0.0.0") || text_beq host (codes "::")

abbrev pub derive_hosts : Option (List Text) → Text → ℕ → Option (List Text)
derive_hosts (some hosts) host port = some hosts
derive_hosts none host port =
    if is_wildcard host then none else some ((host ++ codes ":" ++ to_decimal port) ∷ [])

-- What is taken out of the options is not put back: their lists are none afterwards.
unfoldable pub resolve_dns_middleware :
    DnsRebindingOptions → Text → ℕ → DnsRebindingOptions × Option DnsRebindProtector
resolve_dns_middleware opts host port =
    let hosts = derive_hosts opts.allowed_hosts host port in
    let taken : DnsRebindingOptions = record opts {
      allowed_hosts = none;
      allowed_origins = none;
    } in
    let protector : DnsRebindProtector = record {
      allowed_hosts = hosts;
      allowed_origins = opts.allowed_origins;
    } in
    if opts.dns_rebinding_protection
    then (taken, if is_some hosts || is_some opts.allowed_origins then some protector else none)
    else (opts, none)

-- One of the two checks: an error if there is a list, and it does not have the header's text.
unfoldable pub check_header :
    Option (List Text) → Option Text → (Option Text → Forbidden) → Option Forbidden
check_header none value error = none
check_header (some []) value error = none
check_header (some (a ∷ l)) none error = some (error none)
check_header (some (a ∷ l)) (some v) error =
    if any (λ allowed. eq_ignore_ascii_case allowed v) (a ∷ l) then none else some (error (some v))

-- The error, or none where the headers pass.
unfoldable pub protect_dns_rebinding :
    DnsRebindProtector → Option Text → Option Text → Option Forbidden
protect_dns_rebinding p host origin = elim (check_header p.allowed_hosts host invalid_host) [
  | some error ↦ some error
  | none ↦ check_header p.allowed_origins origin invalid_origin
]

-- The errors of `validate`; those of the token's verification are the provider's.
pub data AuthenticationError (E : Type 0) : Type 0 where
  missing_token : AuthenticationError E
  invalid_header : AuthenticationError E
  expired : AuthenticationError E
  no_expiration : AuthenticationError E
  insufficient_scope : AuthenticationError E
  verification : E → AuthenticationError E

pub data Validated (E A : Type 0) : Type 0 where
  ok : A → Validated E A
  err : AuthenticationError E → Validated E A

pub data Audience : Type 0 where
  single : Text → Audience
  multiple : List Text → Audience

pub record AuthInfo (Extra : Type 0) : Type 0 where
  pub token_unique_id : Text
  pub client_id : Option Text
  pub user_id : Option Text
  pub scopes : Option (List Text)
  pub expires_at : Option ℕ
  pub audience : Option Audience
  pub extra : Extra

-- The bearer token of the header's text: `splitn(2, ' ')`, where it gives two parts.
unfoldable pub bearer_token : Text → Option Text
bearer_token auth_token = split_once b' ' (trim auth_token) >>= λ (scheme, token).
    if eq_ignore_ascii_case scheme (codes "bearer") then some (trim token) else none

-- A token without scopes is not checked for the scopes that are required.
abbrev pub has_scopes : Option (List Text) → Option (List Text) → Bool
has_scopes (some required) (some user) = all (λ scope. any (text_beq scope) user) required
has_scopes _ _ = true

module _ {E X : Type 0} where
  pub check_info : ℕ → Option (List Text) → AuthInfo X → Option ℕ → Validated E (AuthInfo X)
  check_info now required info none = err no_expiration
  check_info now required info (some expires_at) =
      if leb expires_at now
      then err expired
      else (if has_scopes required info.scopes then ok info else err insufficient_scope)

  -- What follows the provider's verification of the token.
  pub check_verified : ℕ → Option (List Text) → E ⊎ AuthInfo X → Validated E (AuthInfo X)
  unfolding check_info
  check_verified now required (inl e) = err (verification e)
  check_verified now required (inr info) = check_info now required info info.expires_at

  -- What follows the reading of the header.
  pub check_bearer :
      ℕ → Option (List Text) → (Text → E ⊎ AuthInfo X) → Option Text → Validated E (AuthInfo X)
  check_bearer now required verify_token none = err invalid_header
  check_bearer now required verify_token (some token) =
      check_verified now required (verify_token token)

  -- By the clock, the scopes that are required, the provider's `verify_token`, and the header.
  unfoldable pub validate :
      ℕ
      → Option (List Text)
      → (Text → E ⊎ AuthInfo X)
      → Option (Option Text)
      → Validated E (AuthInfo X)
  unfolding check_bearer
  validate now required verify_token none = err missing_token
  validate now required verify_token (some value) =
      check_bearer now required verify_token (bearer_token (unwrap_or value []))

abbrev pub header_str :
    {Req : Type 0} → (Req → Text → Option (Option Text)) → Req → Text → Option Text
header_str header req name = header req name >>= λ value. value

module _ {Req Resp : Type 0} (header : Req → Text → Option (Option Text)) where
  -- `handle` of the protector, over its response with the status 403.
  unfoldable pub dns_handle : (Forbidden → Resp) → DnsRebindProtector → Middleware Req Resp
  dns_handle error_response p req next =
      elim (protect_dns_rebinding p (header_str header req (codes "host"))
        (header_str header req (codes "origin"))) [
          | some error ↦ error_response error
          | none ↦ next req
        ]

  -- `handle` of the authentication: the request that is passed on has the token's information.
  unfoldable pub auth_handle :
      {E X : Type 0}
      → (AuthenticationError E → Resp)
      → (AuthInfo X → Req → Req)
      → ℕ
      → Option (List Text)
      → (Text → E ⊎ AuthInfo X)
      → Middleware Req Resp
  auth_handle error_response insert now required verify_token req next =
      elim (validate now required verify_token (header req (codes "authorization"))) [
        | ok info ↦ next (insert info req)
        | err error ↦ error_response error
      ]
