-- ===== src/Http/Auth.antt =====
-- Which requests the authentication lets through (mcp_http/middleware/auth_middleware.rs).
use rust_mcp_sdk.Prelude.{
  ℕ, ◌<◌, ◌≡◌, refl, sym, ◌⊎◌, inl, inr, true, false, Option, none, some, List, [], ◌∷◌, ◌++◌, any,
  leb, ◌==◌, arith, Bool-cases, Option-cases, unwrap_or,
}
use rust_mcp_sdk.Prelude.Text.{Text, codes, trim, eq_ignore_ascii_case}
use rust_mcp_sdk.Prelude.Split.{split_once}
use rust_mcp_sdk.Http.{
  AuthInfo, AuthenticationError, Validated, ok, err, bearer_token, has_scopes, check_info,
  check_verified, validate, check_bearer, auth_handle,
}

-- A text is cut at its first space.
split_once-append :
    (s a b : Text)
    → split_once b' ' s ≡ some (a, b)
    → (s ≡ a ++ b' ' ∷ b) × (any (λ c. c == b' ') a ≡ false)
unfolding split_once
split_once-append [] a b h = cc
split_once-append (c ∷ s) a b h = elim (Bool-cases (c == b' ')) [
  | inl e ↦ ground (arith, h, e)
  | inr e ↦ elim (Option-cases (split_once b' ' s)) [
    | inl n ↦ ground (arith, h, e, n)
    | inr ((d, r), n) ↦ ground (arith, h, e, n, split_once-append s d r n)
  ]
]

bearer_token-cut :
    (value token : Text)
    → bearer_token value ≡ some token
    → (scheme : Text) × (rest : Text) × (split_once b' ' (trim value) ≡ some (scheme, rest))
      × (eq_ignore_ascii_case scheme (codes "bearer") ≡ true)
      × (trim rest ≡ token)
unfolding bearer_token
bearer_token-cut value token h = elim (Option-cases (split_once b' ' (trim value))) [
  | inl n ↦ ground (arith, h, n)
  | inr ((scheme, rest), n) ↦ elim (Bool-cases (eq_ignore_ascii_case scheme (codes "bearer"))) [
    | inl s ↦ (scheme, rest, n, s, ground (arith, h, n, s))
    | inr s ↦ ground (arith, h, n, s)
  ]
]

-- What a request has shown that is let through.
pub record IsValidated {E X : Type 0} (now : ℕ) (required : Option (List Text))
    (verify_token : Text → E ⊎ AuthInfo X) (value : Text) (info : AuthInfo X) : Type 0 where
  pub scheme : Text
  pub rest : Text
  pub cut : trim value ≡ scheme ++ b' ' ∷ rest
  pub one_word : any (λ c. c == b' ') scheme ≡ false
  pub bearer : eq_ignore_ascii_case scheme (codes "bearer") ≡ true
  pub verified : verify_token (trim rest) ≡ inr info
  pub expires_at : ℕ
  pub expires : info.expires_at ≡ some expires_at
  pub not_expired : now < expires_at
  pub scoped : has_scopes required info.scopes ≡ true

module _ {E X : Type 0} (now : ℕ) (required : Option (List Text))
    (verify_token : Text → E ⊎ AuthInfo X) where
  check_info-ok :
      (given info : AuthInfo X) (expires_at : Option ℕ)
      → check_info {E = E} now required given expires_at ≡ ok info
      → (t : ℕ) × (expires_at ≡ some t)
        × (now < t)
        × (has_scopes required given.scopes ≡ true)
        × (given ≡ info)
  unfolding check_info
  check_info-ok given info none h = cc
  check_info-ok given info (some t) h = elim (Bool-cases (leb t now)) [
    | inl e ↦ ground (arith, h, e)
    | inr e ↦ elim (Bool-cases (has_scopes required given.scopes)) [
      | inl s ↦ (t, refl, ground arith, s, ground (arith, h, e, s))
      | inr s ↦ ground (arith, h, e, s)
    ]
  ]

  check_verified-ok :
      (found : E ⊎ AuthInfo X) (info : AuthInfo X)
      → check_verified now required found ≡ ok info
      → (found ≡ inr info)
        × ((t : ℕ) × (info.expires_at ≡ some t)
            × (now < t)
            × (has_scopes required info.scopes ≡ true))
  unfolding check_verified
  check_verified-ok (inl e) info h = cc
  check_verified-ok (inr given) info h =
      let (t, expires, later, scoped, same) = check_info-ok given info given.expires_at h in
      rw (sym same) (refl, (t, expires, later, scoped))

  validate-none : (info : AuthInfo X) → ¬ (validate now required verify_token none ≡ ok info)
  unfolding validate
  validate-none info h = cc

  has_scopes-none : (user : Option (List Text)) → user ≡ none → has_scopes required user ≡ true
  has_scopes-none none h = elim required as (λ r. has_scopes r none ≡ true) [
    | none ↦ refl
    | some l ↦ refl
  ]
  has_scopes-none (some l) h = cc

  -- What a token without scopes is checked for.
  check_info-none :
      (info : AuthInfo X) (o : Option ℕ) (t : ℕ)
      → o ≡ some t
      → now < t
      → info.scopes ≡ none
      → check_info {E = E} now required info o ≡ ok info
  unfolding check_info
  check_info-none info none t h later s = cc
  check_info-none info (some u) t h later s =
      ground (arith, h, later, has_scopes-none info.scopes s)

  validate-found :
      (value token : Text) (info : AuthInfo X) (t : ℕ)
      → bearer_token value ≡ some token
      → verify_token token ≡ inr info
      → info.expires_at ≡ some t
      → now < t
      → info.scopes ≡ none
      → validate now required verify_token (some (some value)) ≡ ok info
  unfolding validate check_bearer check_verified
  validate-found value token info t read verified expires later s =
      rw (read, validate) (rw verified (check_info-none info info.expires_at t expires later s))

  check_bearer-ok :
      (o : Option Text) (info : AuthInfo X)
      → check_bearer now required verify_token o ≡ ok info
      → (token : Text) × (o ≡ some token)
        × (check_verified now required (verify_token token) ≡ ok info)
  unfolding check_bearer
  check_bearer-ok none info h = cc
  check_bearer-ok (some token) info h = (token, refl, h)

  validate-IsValidated :
      (value : Option Text) (info : AuthInfo X)
      → validate now required verify_token (some value) ≡ ok info
      → IsValidated now required verify_token (unwrap_or value []) info
  unfolding validate
  validate-IsValidated value info h =
      let (token, read, checked) = check_bearer-ok (bearer_token (unwrap_or value [])) info h in
      let (scheme, rest, split, bearer, trimmed) =
        bearer_token-cut (unwrap_or value []) token read in
      let (verified, (t, expires, later, scoped)) =
        check_verified-ok (verify_token token) info checked in
      record {
        scheme = scheme;
        rest = rest;
        cut = (split_once-append (trim (unwrap_or value [])) scheme rest split).0;
        one_word = (split_once-append (trim (unwrap_or value [])) scheme rest split).1;
        bearer = bearer;
        verified = rw trimmed verified;
        expires_at = t;
        expires = expires;
        not_expired = later;
        scoped = scoped;
      }

module _ {Req Resp E X : Type 0} (header : Req → Text → Option (Option Text))
    (error_response : AuthenticationError E → Resp) (insert : AuthInfo X → Req → Req) (now : ℕ)
    (required : Option (List Text)) (verify_token : Text → E ⊎ AuthInfo X) (req : Req)
    (next : Req → Resp) where
  -- Either the request goes to the next handler with the token's information: then its header is a
  -- bearer token that the provider verifies, that has not expired, and whose scopes, if it has any,
  -- hold those that are required; or the answer is an error, and the next handler is not called.
  pub auth_handle-IsValidated :
      ((value : Option Text) × (info : AuthInfo X) × (header req (codes "authorization")
          ≡ some value)
        × IsValidated now required verify_token (unwrap_or value []) info
        × (auth_handle header error_response insert now required verify_token req next
            ≡ next (insert info req)))
      ⊎ ((error : AuthenticationError E) × (auth_handle header error_response insert now required
              verify_token req next
            ≡ error_response error))
  unfolding auth_handle
  auth_handle-IsValidated = go (header req (codes "authorization")) refl _ refl
    where
      go :
          (h : Option (Option Text))
          → header req (codes "authorization") ≡ h
          → (v : Validated E (AuthInfo X)) → validate now required verify_token h ≡ v
          → ((value : Option Text) × (info : AuthInfo X) × (h ≡ some value)
              × IsValidated now required verify_token (unwrap_or value []) info
              × ((elim (validate now required verify_token h) [
                | ok info ↦ next (insert info req)
                | err error ↦ error_response error
              ])
                  ≡ next (insert info req)))
            ⊎ ((error : AuthenticationError E) × ((elim (validate now required verify_token h) [
              | ok info ↦ next (insert info req)
              | err error ↦ error_response error
            ])
                  ≡ error_response error))
      go none e (ok info) v = absurd (validate-none now required verify_token info v)
      go (some value) e (ok info) v = inl (
        value,
        info,
        refl,
        validate-IsValidated now required verify_token value info v,
        rw v refl,
      )
      go h e (err error) v = inr (error, rw v refl)

  -- A token whose information has no scopes is let through whatever scopes are required.
  auth_handle-none :
      (value token : Text) (info : AuthInfo X) (expires_at : ℕ)
      → header req (codes "authorization") ≡ some (some value)
      → bearer_token value ≡ some token
      → verify_token token ≡ inr info
      → info.expires_at ≡ some expires_at
      → now < expires_at
      → info.scopes ≡ none
      → auth_handle header error_response insert now required verify_token req next
        ≡ next (insert info req)
  unfolding auth_handle
  auth_handle-none value token info expires_at there read verified expires later no_scopes =
      rw (there, auth_handle)
        (rw
          (validate-found now required verify_token value token info expires_at read verified
            expires later no_scopes)
          refl)
