-- ===== src/Http/CorsPreflight.antt =====
-- Which preflights the CORS middleware grants (mcp_http/middleware/cors_middleware.rs).
use rust_mcp_sdk.Prelude.{
  ◌≡◌, refl, ◌↔◌, ◌⊎◌, inl, inr, Bool, true, false, map, All, Option, none, some, List, [], ◌∷◌,
  is_some, arith, if◌then◌else◌, Bool-cases,
}
use rust_mcp_sdk.Prelude.Text.{
  Text, text_eq, text_beq, text_beq_iff, codes, trim, to_ascii_lowercase,
}
use rust_mcp_sdk.Prelude.Split.{split}
use rust_mcp_sdk.Http.Dns.{IsAmong}
use rust_mcp_sdk.Http.Cors.{
  CorsConfig, AllowOrigins, any_origin, listed, echo, contains, resolve_allowed_origin,
  preflight_response, preflight, allows_method, allows_headers, requested_of,
}

-- A member of the list.
abbrev pub IsListed : Text → List Text → Type 0
IsListed v [] = ⊥
IsListed v (a ∷ l) = (a ≡ v) ⊎ IsListed v l

abbrev pub IsOrigin : AllowOrigins → Text → Type 0
IsOrigin any_origin origin = Unit
IsOrigin (listed l) origin = IsListed origin l
IsOrigin echo origin = Unit

abbrev pub IsMethod : List Text → Option Text → Type 0
IsMethod methods none = Unit
IsMethod methods (some m) = IsListed m methods

-- The names between the commas, without the white space around them.
abbrev pub AreHeaders : List Text → Option Text → Type 0
AreHeaders allowed none = Unit
AreHeaders allowed (some names) = All (λ h. IsAmong (trim h) allowed) (split (codes ",") names)

contains-IsListed : (v : Text) (l : List Text) → (contains l v ≡ true) ↔ IsListed v l
contains-IsListed v [] = (λ h. cc, λ h. absurd h)
contains-IsListed v (a ∷ l) = elim (Bool-cases (text_beq a v)) [
  | inl e ↦ (λ h. inl ((text_beq_iff a v).0 e), λ h. rw e refl)
  | inr e ↦ (
    λ h. inr ((contains-IsListed v l).0 (ground (arith, e, h))),
    λ h. elim h [
      | inl p ↦ rw ((text_beq_iff a v).1 p) refl
      | inr q ↦ ground (arith, (contains-IsListed v l).1 q)
    ],
  )
]

contains-IsAmong :
    (v : Text) (l : List Text)
    → (contains (map (map to_ascii_lowercase) l) (map to_ascii_lowercase v) ≡ true) ↔ IsAmong v l
contains-IsAmong v [] = (λ h. cc, λ h. absurd h)
contains-IsAmong v (a ∷ l) =
    elim (Bool-cases (text_beq (map to_ascii_lowercase a) (map to_ascii_lowercase v))) [
      | inl e ↦ (λ h. inl ((text_beq_iff _ _).0 e), λ h. rw e refl)
      | inr e ↦ (
        λ h. inr ((contains-IsAmong v l).0 (ground (arith, e, h))),
        λ h. elim h [
          | inl p ↦ rw ((text_beq_iff _ _).1 p) refl
          | inr q ↦ ground (arith, (contains-IsAmong v l).1 q)
        ],
      )
    ]

resolve_allowed_origin-IsOrigin :
    (o : AllowOrigins) (config : CorsConfig) (origin : Text)
    → config.allow_origins ≡ o
    → (is_some (resolve_allowed_origin config origin) ≡ true) ↔ IsOrigin o origin
unfolding resolve_allowed_origin
resolve_allowed_origin-IsOrigin any_origin config origin e =
    rw (e, resolve_allowed_origin) (λ h. tt, λ h. if_some config.allow_credentials)
  where
    if_some : (b : Bool) → is_some (if b then some origin else some (codes "*")) ≡ true
    if_some true = refl
    if_some false = refl
resolve_allowed_origin-IsOrigin (listed l) config origin e =
    rw (e, resolve_allowed_origin)
      (elim (Bool-cases (contains l origin)) [
        | inl c ↦ rw c (λ h. (contains-IsListed origin l).0 c, λ h. refl)
        | inr c ↦ rw c (λ h. cc, λ h. absurd (ground (arith, c, (contains-IsListed origin l).1 h)))
      ])
resolve_allowed_origin-IsOrigin echo config origin e =
    rw (e, resolve_allowed_origin) (λ h. tt, λ h. refl)

allows_method-IsMethod :
    (config : CorsConfig) (method : Option Text)
    → (allows_method config method ≡ true) ↔ IsMethod config.allow_methods method
allows_method-IsMethod config none = (λ h. tt, λ h. refl)
allows_method-IsMethod config (some m) = contains-IsListed m config.allow_methods

names-AreHeaders :
    (config : CorsConfig) (names : List Text)
    → (allows_headers config (map (λ h. map to_ascii_lowercase (trim h)) names) ≡ true)
      ↔ All (λ h. IsAmong (trim h) config.allow_headers) names
names-AreHeaders config [] = (λ h. tt, λ h. refl)
names-AreHeaders config (n ∷ names) =
    let first = contains-IsAmong (trim n) config.allow_headers in
    let rest = names-AreHeaders config names in
    elim (Bool-cases (
      contains (map (map to_ascii_lowercase) config.allow_headers)
        (map to_ascii_lowercase (trim n)))) [
          | inl c ↦ rw c (λ h. (first.0 c, rest.0 h), λ h. rest.1 h.1)
          | inr c ↦ rw c (λ h. cc, λ h. absurd (ground (arith, c, first.1 h.0)))
        ]

allows_headers-AreHeaders :
    (config : CorsConfig) (names : Option Text)
    → (allows_headers config (requested_of names) ≡ true) ↔ AreHeaders config.allow_headers names
allows_headers-AreHeaders config none = (λ h. tt, λ h. refl)
allows_headers-AreHeaders config (some names) = names-AreHeaders config (split (codes ",") names)

preflight_guards :
    (config : CorsConfig) (origin : Text) (method : Option Text) (requested : List Text)
    → ((preflight config (some origin) method requested).status ≡ 204) ↔ (
        (is_some (resolve_allowed_origin config origin) ≡ true)
        × (allows_method config method ≡ true)
        × (allows_headers config requested ≡ true))
unfolding preflight preflight_response
preflight_guards config origin method requested =
    elim (Bool-cases (is_some (resolve_allowed_origin config origin))) [
      | inl a ↦ rw a (elim (Bool-cases (allows_method config method)) [
        | inl b ↦ rw b (elim (Bool-cases (allows_headers config requested)) [
          | inl c ↦ rw c (λ h. (refl, refl, refl), λ h. refl)
          | inr c ↦ rw c (λ h. absurd (omega (arith, h)), λ h. cc)
        ])
        | inr b ↦ rw b (λ h. absurd (omega (arith, h)), λ h. cc)
      ])
      | inr a ↦ rw a (λ h. absurd (omega (arith, h)), λ h. cc)
    ]

-- An OPTIONS request with an origin is granted, with the status 204, exactly when the origin is one of
-- the list, if there is a list; the method that it asks for, if it asks for one that can be read, is
-- one of the methods; and every name between the commas of the headers that it asks for, if it asks
-- for some that can be read, is one of the headers but for the case of the letters and the white
-- space around it.
pub preflight-IsOrigin :
    (config : CorsConfig) (origin : Text) (method names : Option Text)
    → ((preflight config (some origin) method (requested_of names)).status ≡ 204) ↔ (
        IsOrigin config.allow_origins origin
        × IsMethod config.allow_methods method
        × AreHeaders config.allow_headers names)
preflight-IsOrigin config origin method names =
    let guards = preflight_guards config origin method (requested_of names) in
    let of_origin = resolve_allowed_origin-IsOrigin config.allow_origins config origin refl in
    let of_method = allows_method-IsMethod config method in
    let of_headers = allows_headers-AreHeaders config names in
    (
      λ h. (of_origin.0 (guards.0 h).0, of_method.0 (guards.0 h).1, of_headers.0 (guards.0 h).2),
      λ h. guards.1 (of_origin.1 h.0, of_method.1 h.1, of_headers.1 h.2),
    )
