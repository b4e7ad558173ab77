-- ===== src/Http/Dns.antt =====
-- Which requests the protection against DNS rebinding passes (mcp_http/dns_rebinding.rs and
-- mcp_http/middleware/dns_rebind_protector.rs).
use rust_mcp_sdk.Prelude.{
  ℕ, ◌≡◌, refl, ◌↔◌, ◌⊎◌, inl, inr, true, false, Option, none, some, List, [], ◌∷◌, ◌++◌, map, any,
  arith, Bool-cases, Option-cases,
}
use rust_mcp_sdk.Prelude.Text.{Text, codes, text_beq_iff, to_ascii_lowercase, eq_ignore_ascii_case}
use rust_mcp_sdk.Http.{
  DnsRebindingOptions, DnsRebindProtector, Forbidden, invalid_host, invalid_origin, is_wildcard,
  resolve_dns_middleware, check_header, protect_dns_rebinding, dns_handle, header_str,
}
use rust_mcp_sdk.Prelude.Decimal.{to_decimal}

abbrev pub lowercase : Text → Text
lowercase = map to_ascii_lowercase

-- `DnsRebindingOptions::default`
abbrev pub default_options : DnsRebindingOptions
default_options = record {
  dns_rebinding_protection = true;
  allowed_hosts = none;
  allowed_origins = none;
}

-- A member of the list, but for the case of the letters.
abbrev pub IsAmong : Text → List Text → Type 0
IsAmong v [] = ⊥
IsAmong v (a ∷ l) = (lowercase a ≡ lowercase v) ⊎ IsAmong v l

-- A header passes if there is no list or an empty one, or if it is there and a member.
abbrev pub IsAllowed : Option (List Text) → Option Text → Type 0
IsAllowed none value = Unit
IsAllowed (some []) value = Unit
IsAllowed (some (a ∷ l)) none = ⊥
IsAllowed (some (a ∷ l)) (some v) = IsAmong v (a ∷ l)

any-IsAmong :
    (v : Text) (l : List Text)
    → any (λ allowed. eq_ignore_ascii_case allowed v) l ≡ true
    → IsAmong v l
unfolding eq_ignore_ascii_case
any-IsAmong v [] h = cc
any-IsAmong v (a ∷ l) h = elim (Bool-cases (eq_ignore_ascii_case a v)) [
  | inl e ↦ inl ((text_beq_iff (lowercase a) (lowercase v)).0 e)
  | inr e ↦ inr (any-IsAmong v l (ground (arith, h, e)))
]

IsAmong-any :
    (v : Text) (l : List Text)
    → IsAmong v l
    → any (λ allowed. eq_ignore_ascii_case allowed v) l ≡ true
unfolding eq_ignore_ascii_case
IsAmong-any v [] h = absurd h
IsAmong-any v (a ∷ l) (inl p) = rw ((text_beq_iff (lowercase a) (lowercase v)).1 p) refl
IsAmong-any v (a ∷ l) (inr h) = ground (arith, IsAmong-any v l h)

check_header-IsAllowed :
    (l : Option (List Text)) (value : Option Text) (error : Option Text → Forbidden)
    → (check_header l value error ≡ none) ↔ IsAllowed l value
unfolding check_header
check_header-IsAllowed none value error = (λ h. tt, λ h. refl)
check_header-IsAllowed (some []) value error = (λ h. tt, λ h. refl)
check_header-IsAllowed (some (a ∷ l)) none error = (λ h. cc, λ h. absurd h)
check_header-IsAllowed (some (a ∷ l)) (some v) error =
    (λ h. any-IsAmong v (a ∷ l) (passes h), λ h. rw (IsAmong-any v (a ∷ l) h) refl)
  where
    passes :
        check_header (some (a ∷ l)) (some v) error ≡ none
        → any (λ allowed. eq_ignore_ascii_case allowed v) (a ∷ l) ≡ true
    passes h = elim (Bool-cases (any (λ allowed. eq_ignore_ascii_case allowed v) (a ∷ l))) [
      | inl e ↦ e
      | inr e ↦ ground (arith, h, e)
    ]

-- The headers pass exactly when the host is allowed by the list of hosts and the origin by the list
-- of origins: there is no list or an empty one, or the header is a member but for the case of the
-- letters.
pub protect_dns_rebinding-IsAllowed :
    (p : DnsRebindProtector) (host origin : Option Text)
    → (protect_dns_rebinding p host origin ≡ none)
      ↔ (IsAllowed p.allowed_hosts host × IsAllowed p.allowed_origins origin)
unfolding protect_dns_rebinding
protect_dns_rebinding-IsAllowed p host origin =
    elim (Option-cases (check_header p.allowed_hosts host invalid_host)) [
      | inl e ↦
          rw (e, protect_dns_rebinding)
            (
              λ h. (
                (check_header-IsAllowed p.allowed_hosts host invalid_host).0 e,
                (check_header-IsAllowed p.allowed_origins origin invalid_origin).0 h,
              ),
              λ (_, b). (check_header-IsAllowed p.allowed_origins origin invalid_origin).1 b,
            )
      | inr (error, e) ↦
          rw (e, protect_dns_rebinding)
            (
              λ h. cc,
              λ (a, _).
                  ground (arith, e, (check_header-IsAllowed p.allowed_hosts host invalid_host).1 a),
            )
    ]

-- What the default options make for a host that is not a wildcard.
abbrev pub derived : Text → ℕ → DnsRebindProtector
derived host port = record {
  allowed_hosts = some ((host ++ codes ":" ++ to_decimal port) ∷ []);
  allowed_origins = none;
}

-- A server with the default options on a host that is not a wildcard protects itself: it has the
-- middleware, and a request whose host header is missing, or is not the host and port but for the
-- case of the letters, is answered with an error and does not reach the next handler.
pub dns_handle-resolve_dns_middleware :
    {Req Resp : Type 0} (header : Req → Text → Option (Option Text))
    (error_response : Forbidden → Resp) (host : Text) (port : ℕ) (req : Req) (next : Req → Resp)
    → is_wildcard host ≡ false
    → ¬ IsAllowed (derived host port).allowed_hosts (header_str header req (codes "host"))
    → ((resolve_dns_middleware default_options host port).1 ≡ some (derived host port))
      × ((error : Forbidden) × (dns_handle header error_response (derived host port) req next
            ≡ error_response error))
unfolding dns_handle resolve_dns_middleware
dns_handle-resolve_dns_middleware header error_response host port req next named bad = (
  rw named refl,
  elim (Option-cases (
      protect_dns_rebinding (derived host port) (header_str header req (codes "host"))
        (header_str header req (codes "origin")))) [
          | inl e ↦ absurd (
              bad
                ((protect_dns_rebinding-IsAllowed (derived host port)
                    (header_str header req (codes "host"))
                    (header_str header req (codes "origin"))).0
                  e).0)
          | inr (error, e) ↦ (error, rw (e, dns_handle) refl)
        ],
)
