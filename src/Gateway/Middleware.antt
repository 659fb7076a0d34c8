-- ===== src/Gateway/Middleware.antt =====
-- internal/gateway/middleware_auth.go: who a request is from.
use blabby.Prelude.{
  ℕ, [], ◌∷◌, Option, none, some, Bool, false, ◌||◌, ◌==◌, if◌then◌else◌, Result, ok, err,
}
use blabby.Text.{Bytes, codes}
use blabby.ErrCode.{auth_missing_token, auth_expired_token, auth_invalid_token, service_unavailable}
use blabby.Gateway.Errors.{Response, reject}
use blabby.Account.World.{World}
use blabby.Auth.Token.{
  Jwt, JwtAuthenticator, Claims, TokenError, token_invalid, token_expired, identity_unavailable,
  validate_token,
}

abbrev pub bearer_prefix : Bytes
bearer_prefix = codes "Bearer "

-- `strings.ContainsAny(token, " \t\r\n")`
unfoldable pub has_space : Bytes → Bool
has_space [] = false
has_space (b ∷ s) = (b == b' ' || (b == b'\t' || (b == b'\r' || b == b'\n'))) || has_space s

-- What follows the prefix.
unfoldable pub strip : Bytes → Bytes → Option Bytes
strip [] s = some s
strip (p ∷ prefix) [] = none
strip (p ∷ prefix) (b ∷ s) = let rest = strip prefix s in if p == b then rest else none

unfoldable pub solid : Option Bytes → Option Bytes
unfolding has_space
solid none = none
solid (some []) = none
solid (some (b ∷ token)) = if has_space (b ∷ token) then none else some (b ∷ token)

-- `extractBearerToken`
unfoldable pub extract_bearer_token : Bytes → Option Bytes
unfolding solid strip
extract_bearer_token header = solid (strip bearer_prefix header)

-- The response to a token that `ValidateToken` refuses.
abbrev pub token_response : TokenError → Response
token_response token_expired = reject 401 auth_expired_token
token_response identity_unavailable = reject 503 service_unavailable
token_response token_invalid = reject 401 auth_invalid_token

abbrev pub identity : Result TokenError Claims → Result Response ℕ
identity (ok claims) = ok claims.user_id
identity (err e) = err (token_response e)

unfoldable pub authenticate_bearer :
    Jwt → JwtAuthenticator → ℕ → Option Bytes → World → Result Response ℕ × World
unfolding validate_token
authenticate_bearer jwt a now none w = (err (reject 401 auth_missing_token), w)
authenticate_bearer jwt a now (some token) w =
    let (claims, w') = validate_token jwt a now token w in (identity claims, w')

-- `authMiddleware`: the user that the next handler sees, or the response. `ValidateToken` returns claims
-- or an error, so the guard against neither has nothing to do.
unfoldable pub auth_middleware :
    Jwt → JwtAuthenticator → ℕ → Bytes → World → Result Response ℕ × World
unfolding authenticate_bearer extract_bearer_token
auth_middleware jwt a now header = authenticate_bearer jwt a now (extract_bearer_token header)
