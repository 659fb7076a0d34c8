-- ===== src/Auth/Token.antt =====
-- internal/auth/jwt.go: the tokens of the gateway. The jwt library is a parameter.
use blabby.Prelude.{ℕ, ◌+◌, ◌*◌, ◌^◌, List, [], ◌∷◌, Option, none, some, Result, ok, err, ◌>>=◌}
use blabby.Text.{Bytes, codes}
use blabby.PublicCode.{format_user, parse_user_code}
use blabby.PublicCode
use blabby.Account.World.{World}
use blabby.Account.Directory.{
  AuthError, public_code_unknown, backend, VerifiedUser, resolve_user_id,
}

-- `jwt.RegisteredClaims`, as far as the package uses it
pub record RegisteredClaims : Type 0 where
  pub subject : Bytes
  pub issuer : Bytes
  pub audience : List Bytes
  pub expires_at : ℕ
  pub issued_at : Option ℕ

-- What `jwt.ParseWithClaims` fails with: `jwt.ErrTokenExpired`, or anything else.
pub data JwtError : Type 0 where
  expired malformed : JwtError

-- `sign` signs by HS256 under a key; `parse` of a key, the issuer, the audience and the time checks a
-- token and requires it to expire.
pub record Jwt : Type 0 where
  pub sign : Bytes → RegisteredClaims → Option Bytes
  pub parse : Bytes → Bytes → Bytes → ℕ → Bytes → Result JwtError RegisteredClaims

abbrev pub issuer : Bytes
issuer = codes "blabby"

abbrev pub audience : Bytes
audience = codes "blabby"

-- nanoseconds
abbrev pub default_expiration : ℕ
default_expiration = 10 * 60 * 10 ^ 9

pub record JwtAuthenticator : Type 0 where
  pub signing_key : Bytes
  pub expiration : ℕ

pub data TokenError : Type 0 where
  token_invalid token_expired identity_unavailable : TokenError

pub record Claims : Type 0 where
  pub user_id : ℕ
  pub issuer : Bytes
  pub audience : List Bytes
  pub expires_at : ℕ
  pub issued_at : Option ℕ

pub record TokenResult : Type 0 where
  pub user_id : ℕ
  pub token : Bytes

-- The claims that `Authenticate` signs.
unfoldable pub claims_of : JwtAuthenticator → VerifiedUser → ℕ → RegisteredClaims
claims_of a user now = record {
  subject = format_user user.public_code;
  issuer = issuer;
  audience = audience ∷ [];
  expires_at = now + a.expiration;
  issued_at = some now;
}

abbrev signed : ℕ → Option Bytes → Result AuthError TokenResult
signed user_id none = err backend
signed user_id (some token) = ok (record { user_id = user_id; token = token })

-- `Authenticate`, after `VerifyCredentials` and at the time it reads
unfoldable pub authenticate :
    Jwt → JwtAuthenticator → ℕ → Result AuthError VerifiedUser → Result AuthError TokenResult
unfolding claims_of
authenticate jwt a now verified = do
  user ← verified
  signed user.user_id (jwt.sign a.signing_key (claims_of a user now))

abbrev parse_error : JwtError → TokenError
parse_error expired = token_expired
parse_error malformed = token_invalid

abbrev claims_with : RegisteredClaims → ℕ → Claims
claims_with c user_id = record {
  user_id = user_id;
  issuer = c.issuer;
  audience = c.audience;
  expires_at = c.expires_at;
  issued_at = c.issued_at;
}

unfoldable pub identify : RegisteredClaims → Result AuthError ℕ → Result TokenError Claims
identify c (ok user_id) = ok (claims_with c user_id)
identify c (err public_code_unknown) = err token_invalid
identify c (err e) = err identity_unavailable

unfoldable pub resolve_subject :
    RegisteredClaims → Result PublicCode.Error Bytes → World → Result TokenError Claims × World
unfolding identify resolve_user_id
resolve_subject c (err e) w = (err token_invalid, w)
resolve_subject c (ok code) w = let (found, w') = resolve_user_id code w in (identify c found, w')

unfoldable pub validate_parsed :
    Result JwtError RegisteredClaims → World → Result TokenError Claims × World
unfolding resolve_subject parse_user_code
validate_parsed (err e) w = (err (parse_error e), w)
validate_parsed (ok c) w = resolve_subject c (parse_user_code c.subject) w

-- `ValidateToken` at the time `now`
unfoldable pub validate_token :
    Jwt → JwtAuthenticator → ℕ → Bytes → World → Result TokenError Claims × World
unfolding validate_parsed
validate_token jwt a now [] w = (err token_invalid, w)
validate_token jwt a now (b ∷ token) w =
    validate_parsed (jwt.parse a.signing_key issuer audience now (b ∷ token)) w
