-- ===== src/Gateway/Examples.antt =====
-- The theorems on the edge at Ann's requests.
use blabby.Prelude.{ℕ, ◌++◌, [], ◌∷◌, none, some, false, Result, ok, ◌≡◌, refl}
use blabby.Text.{Bytes, codes, bytes_eq}
use blabby.Domain.User.{UserStatus}
use blabby.Auth.Password.{Crypto}
use blabby.Auth.Token.{Jwt, JwtAuthenticator, JwtError, RegisteredClaims, issuer, audience}
use blabby.Account.World.{User, Tables, World}
use blabby.Account.Registration.{default_registration_policy}
use blabby.Gateway.Middleware.{auth_middleware, bearer_prefix, has_space}
use blabby.Gateway.Decode.{Request, Decoder, decode_json_body}
use blabby.Gateway.Accounts.{
  RegisterRequest, VerifyRequest, ResendVerificationRequest, LoginRequest, handle_register,
  handle_verify, handle_resend_verification, handle_login,
}
use blabby.Gateway.Canonical.{Canonical, IsDecoding, responses-Canonical}
use blabby.Gateway.Identity.{Names, auth_middleware-Names}

abbrev crypto : Crypto
crypto = record {
  nfc = λ s. s;
  digest = λ s. s;
  generate = λ cost salt secret. some secret;
  compare = bytes_eq;
  cost = λ hash. none;
  default_cost = 10;
}

abbrev claims : RegisteredClaims
claims = record {
  subject = codes "U0123456789";
  issuer = issuer;
  audience = audience ∷ [];
  expires_at = 700;
  issued_at = some 100;
}

abbrev read_token : Bytes → Result JwtError RegisteredClaims
read_token token = ok claims

abbrev jwt : Jwt
jwt = record { sign = λ key c. some (codes "t"); parse = λ key i a now token. read_token token }

abbrev authenticator : JwtAuthenticator
authenticator = record { signing_key = codes "k"; expiration = 600 }

abbrev ann : User
ann = record {
  public_code = codes "0123456789";
  mail_address = codes "ann@example.com";
  handle = codes "ann";
  display_name = codes "ann";
  password_hash = codes "secret";
  status = UserStatus.active;
  created_at = 100;
  updated_at = 100;
}

abbrev tables : Tables
tables = record { users = (7, ann) ∷ []; challenges = [] }

abbrev world : World
world = record {
  now = 200;
  committed = tables;
  tables = tables;
  ticks = [];
  faults = [];
  mints = [];
  code_bytes = [];
  draws = [];
  salts = [];
  arrivals = [];
  rivals = [];
  outbox = [];
}

passed : (auth_middleware jwt authenticator 200 (codes "Bearer t") world).0 ≡ ok 7
unfolding blabby.PublicCode.normalize_crockford blabby.PublicCode.contains_rune
    blabby.PublicCode.normalize_all blabby.PublicCode.parse_public_code
    blabby.PublicCode.parse_prefixed_code blabby.Text.decode_rune blabby.Text.runes_from
    blabby.Text.is_space blabby.Text.trim_space blabby.Text.bytes_eq
    blabby.Gateway.Middleware.auth_middleware
passed = refl

auth_middleware-Names_example :
    (token : Bytes) × (codes "Bearer t" ≡ bearer_prefix ++ token)
    × (has_space token ≡ false)
    × ((c : RegisteredClaims) × (read_token token ≡ ok c) × Names c world 7)
auth_middleware-Names_example =
    auth_middleware-Names jwt authenticator 200 (codes "Bearer t") world 7 passed

responses-Canonical_example :
    ((d : Decoder RegisterRequest) (r : Request)
      → Canonical (handle_register crypto default_registration_policy d r world).0)
    × ((d : Decoder VerifyRequest) (r : Request)
        → Canonical (handle_verify crypto default_registration_policy d r world).0)
    × ((d : Decoder ResendVerificationRequest) (r : Request)
        → Canonical (handle_resend_verification crypto default_registration_policy d r world).0)
    × ((d : Decoder LoginRequest) (now : ℕ) (r : Request)
        → Canonical (handle_login crypto jwt authenticator d now r world).0)
    × ((now : ℕ) (header : Bytes)
        → Canonical (auth_middleware jwt authenticator now header world).0)
    × ((T : Type 0) (d : Decoder T) (max_bytes : ℕ) (r : Request)
        → IsDecoding d max_bytes r (decode_json_body d max_bytes r))
responses-Canonical_example =
    responses-Canonical crypto default_registration_policy jwt authenticator world
