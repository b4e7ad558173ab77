-- ===== src/Challenges/Tests.antt =====
-- A challenge at concrete parameters.
use rust_mcp_sdk.Prelude.{◌≡◌, refl, [], ◌∷◌}
use rust_mcp_sdk.Prelude.Text.{Text, codes, is_whitespace, text_eq}
use rust_mcp_sdk.Prelude.Table.{lookup}
use rust_mcp_sdk.Challenges.{parse_www_authenticate_param}
use rust_mcp_sdk.Challenges.RoundTrip.{
  IsName, IsValue, challenge, parse_www_authenticate_param-challenge,
}

abbrev scope_param : Text × Text
scope_param = (codes "s", codes "m r")

abbrev error_param : Text × Text
error_param = (codes "e", codes "x")

scope_IsName : IsName (codes "s")
unfolding is_whitespace
scope_IsName = record {
  first = b's';
  rest = [];
  is_cons = refl;
  dense = refl;
  no_sign = (λ e. cc, tt);
  no_comma = (λ e. cc, tt);
}

error_IsName : IsName (codes "e")
unfolding is_whitespace
error_IsName = record {
  first = b'e';
  rest = [];
  is_cons = refl;
  dense = refl;
  no_sign = (λ e. cc, tt);
  no_comma = (λ e. cc, tt);
}

scope_IsValue : IsValue (codes "m r")
scope_IsValue = record {
  not_empty = refl;
  no_quote = (λ e. cc, (λ e. cc, (λ e. cc, tt)));
  no_comma = (λ e. cc, (λ e. cc, (λ e. cc, tt)));
}

error_IsValue : IsValue (codes "x")
error_IsValue = record { not_empty = refl; no_quote = (λ e. cc, tt); no_comma = (λ e. cc, tt) }

parse_www_authenticate_param-challenge_example :
    parse_www_authenticate_param (challenge (scope_param ∷ error_param ∷ [])) (codes "e")
    ≡ lookup (codes "e") (scope_param ∷ error_param ∷ [])
parse_www_authenticate_param-challenge_example =
    parse_www_authenticate_param-challenge (codes "e") scope_param (error_param ∷ []) error_IsName
      ((scope_IsName, scope_IsValue), ((error_IsName, error_IsValue), tt))
