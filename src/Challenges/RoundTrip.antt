-- ===== src/Challenges/RoundTrip.antt =====
-- A printed challenge is read back (crates/rust-mcp-sdk/src/auth/client_auth/www_authenticate.rs).
use rust_mcp_sdk.Prelude.{
  ℕ, ◌≡◌, ◌≢◌, refl, ap, ◌∙◌, false, Option, none, some, List, [], ◌∷◌, ◌++◌, map, All, All-append,
  is_empty, arith, ◌==◌, if◌then◌else◌, Bool-cases, inl, inr, append_assoc,
}
use rust_mcp_sdk.Prelude.Text.{
  Text, codes, trim, trim_start, trim_start_by, strip_prefix, is_whitespace, text_beq, text_eq,
}
use rust_mcp_sdk.Prelude.Trim.{trim_end_by-last, trim_end_by-kept, trim-space}
use rust_mcp_sdk.Prelude.Table.{Table, lookup}
use rust_mcp_sdk.Prelude.Split.{split, join, split-append, split_none}
use rust_mcp_sdk.Challenges.{
  strip_scheme, trim_quotes, value_or, find_value, parse_www_authenticate_param,
}

-- A name begins with no white space, and has no `=` and no comma; a value is not empty, and has no
-- quote and no comma.
pub record IsName (name : Text) : Type 0 where
  pub first : ℕ
  pub rest : Text
  pub is_cons : name ≡ first ∷ rest
  pub dense : is_whitespace first ≡ false
  pub no_sign : All (λ c. c ≢ b'=') name
  pub no_comma : All (λ c. c ≢ b',') name

pub record IsValue (value : Text) : Type 0 where
  pub not_empty : is_empty value ≡ false
  pub no_quote : All (λ c. c ≢ b'"') value
  pub no_comma : All (λ c. c ≢ b',') value

abbrev pub AreParams : Table Text Text → Type 0
AreParams = All (λ p. IsName p.0 × IsValue p.1)

-- `name="value"`
abbrev pub quoted : Text → Text
quoted value = b'"' ∷ (value ++ b'"' ∷ [])

abbrev pub param_text : Text × Text → Text
param_text p = p.0 ++ b'=' ∷ quoted p.1

-- `Bearer name="value", name="value"`
abbrev pub challenge : Table Text Text → Text
challenge params = codes "Bearer" ++ join (codes ",") (map (λ p. 32 ∷ param_text p) params)

strip_prefix-sign :
    (name other rest : Text)
    → All (λ c. c ≢ b'=') name
    → All (λ c. c ≢ b'=') other
    → strip_prefix (name ++ b'=' ∷ []) (other ++ b'=' ∷ rest)
      ≡ (if text_beq other name then some rest else none)
unfolding text_beq
strip_prefix-sign [] [] rest h g = refl
strip_prefix-sign [] (d ∷ other) rest h g = ground (arith, g.0)
strip_prefix-sign (c ∷ name) [] rest h g = ground (arith, h.0)
strip_prefix-sign (c ∷ name) (d ∷ other) rest h g =
    ground (arith, strip_prefix-sign name other rest h.1 g.1)

-- The value without its quotes.
trim_quotes-quoted : (value : Text) → IsValue value → trim_quotes (trim (quoted value)) ≡ value
unfolding trim
trim_quotes-quoted value h =
    rw (trim_end_by-kept is_whitespace b'"' value (unfold is_whitespace in refl))
      (rw (starts value h.not_empty h.no_quote) (trim_end_by-last b'"' value h.no_quote))
  where
    starts :
        (value : Text)
        → is_empty value ≡ false
        → All (λ c. c ≢ b'"') value
        → trim_start_by (λ c. c == b'"') (value ++ b'"' ∷ []) ≡ value ++ b'"' ∷ []
    starts [] full g = cc
    starts (c ∷ value) full g = ground (arith, g.0)

-- A space in front of a parameter is trimmed.
trim-param_text :
    (name value : Text)
    → IsName name
    → trim (32 ∷ param_text (name, value)) ≡ param_text (name, value)
trim-param_text name value h =
    let text = h.rest ++ b'=' ∷ b'"' ∷ value in
    let grouped : text ++ b'"' ∷ [] ≡ h.rest ++ b'=' ∷ quoted value =
      append_assoc h.rest (b'=' ∷ b'"' ∷ value) (b'"' ∷ []) in
    let trimmed = trim-space h.first b'"' text h.dense (unfold is_whitespace in refl) in
    rw h.is_cons (rw grouped at trimmed)

value_or-quoted :
    (value : Text) (later : Option Text)
    → IsValue value
    → value_or (some (quoted value)) later ≡ some value
value_or-quoted value later h = rw (trim_quotes-quoted value h) (rw h.not_empty refl)

-- What is looked for among the printed parameters.
find_value-params :
    (name : Text) (params : Table Text Text)
    → IsName name
    → AreParams params
    → find_value (name ++ b'=' ∷ []) (map (λ p. 32 ∷ param_text p) params) ≡ lookup name params
unfolding find_value lookup
find_value-params name [] is_name h = refl
find_value-params name ((other, value) ∷ params) is_name h =
    rw (trim-param_text other value h.0.0) (
      rw (strip_prefix-sign name other (quoted value) is_name.no_sign h.0.0.no_sign)
        (elim (Bool-cases (text_beq other name)) [
          | inl e ↦ rw e (value_or-quoted value _ h.0.1)
          | inr e ↦ rw e (find_value-params name params is_name h.1)
        ]))

join-split_back :
    (l : List Text) (s : Text)
    → All (λ c. c ≢ b',') s
    → All (λ t. All (λ c. c ≢ b',') t) l
    → split (codes ",") (join (codes ",") (s ∷ l)) ≡ s ∷ l
join-split_back [] s h g = split_none b',' s h
join-split_back (t ∷ l) s h g =
    split-append b',' s (join (codes ",") (t ∷ l))
    ∙ (rw (split_none b',' s h) (ap (λ r. s ∷ r) (join-split_back l t g.0 g.1)))

param_text-no_comma :
    (name value : Text)
    → IsName name
    → IsValue value
    → All (λ c. c ≢ b',') (param_text (name, value))
param_text-no_comma name value h g =
    All-append _ name (b'=' ∷ quoted value) h.no_comma
      (λ e. cc, (λ e. cc, All-append _ value (b'"' ∷ []) g.no_comma (λ e. cc, tt)))

space-no_comma : (c : ℕ) → c ≡ 32 → c ≢ b','
space-no_comma c h e = cc

spaced-no_comma :
    (param : Text × Text)
    → IsName param.0
    → IsValue param.1
    → All (λ c. c ≢ b',') (32 ∷ param_text param)
spaced-no_comma p h g = (space-no_comma 32 refl, param_text-no_comma p.0 p.1 h g)

params-no_comma :
    (params : Table Text Text)
    → AreParams params
    → All (λ t. All (λ c. c ≢ b',') t) (map (λ p. 32 ∷ param_text p) params)
params-no_comma [] h = tt
params-no_comma (p ∷ params) h = (spaced-no_comma p h.0.0 h.0.1, params-no_comma params h.1)

-- From a challenge of the Bearer scheme with parameters in quotes, each parameter is read back, and
-- none that is not there: for names and values without commas, values that are not empty and have no
-- quotes, and names that have no `=` and begin with no white space.
pub parse_www_authenticate_param-challenge :
    (name : Text) (param : Text × Text) (params : Table Text Text)
    → IsName name
    → AreParams (param ∷ params)
    → parse_www_authenticate_param (challenge (param ∷ params)) name ≡ lookup name (param ∷ params)
unfolding parse_www_authenticate_param strip_scheme trim_start
parse_www_authenticate_param-challenge name param params is_name h =
    let parts = params-no_comma (param ∷ params) h in
    rw
      (join-split_back (map (λ p. 32 ∷ param_text p) params) (32 ∷ param_text param) parts.0
        parts.1)
      (find_value-params name (param ∷ params) is_name h)
