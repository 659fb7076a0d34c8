-- ===== src/Gateway/Identity.antt =====
-- On the requests that the middleware passes on.
use blabby.Prelude.{
  ℕ, [], ◌∷◌, ◌++◌, Option, none, some, Bool, true, false, ◌==◌, if◌then◌else◌, Result, ok, err,
  ◌≡◌, refl, sym, ap, ◌∙◌, arith, Bool-cases, inl, inr,
}
use blabby.Text.{Bytes}
use blabby.PublicCode.{parse_user_code}
use blabby.PublicCode
use blabby.Account.World.{User, World}
use blabby.Account.Users.{find_user, has_code}
use blabby.Account.Directory.{AuthError, resolve_user_id}
use blabby.Account.Credentials.{resolve_user_id-found}
use blabby.Auth.Token.{
  Jwt, JwtAuthenticator, JwtError, RegisteredClaims, issuer, audience, identify, resolve_subject,
  validate_parsed, validate_token,
}
use blabby.Gateway.Middleware.{
  bearer_prefix, has_space, strip, solid, extract_bearer_token, identity, authenticate_bearer,
  auth_middleware,
}

-- The subject of the claims is the code of the account.
abbrev pub Names : RegisteredClaims → World → ℕ → Type 0
Names c w i =
    (code : Bytes) × (u : User) × (parse_user_code c.subject ≡ ok code)
    × (find_user (has_code code) w.tables.users ≡ some (i, u))

identify-ok :
    (c : RegisteredClaims) (r : Result AuthError ℕ) (i : ℕ)
    → identity (identify c r) ≡ ok i
    → r ≡ ok i
unfolding identify
identify-ok c (ok j) i e = ground arith
identify-ok c (err AuthError.public_code_unknown) i e = absurd (ground arith)
identify-ok c (err e) i h = absurd (ground arith)

subject-Names :
    (c : RegisteredClaims) (parsed : Result PublicCode.Error Bytes) (w : World) (i : ℕ)
    → parse_user_code c.subject ≡ parsed
    → identity (resolve_subject c parsed w).0 ≡ ok i
    → Names c w i
unfolding resolve_subject
subject-Names c (err x) w i at e = absurd (ground arith)
subject-Names c (ok code) w i at e =
    let (u, found) =
      resolve_user_id-found code w i (identify-ok c (resolve_user_id code w).0 i e) in
    (code, u, at, found)

parsed-Names :
    (r : Result JwtError RegisteredClaims) (w : World) (i : ℕ)
    → identity (validate_parsed r w).0 ≡ ok i
    → (c : RegisteredClaims) × (r ≡ ok c) × Names c w i
unfolding validate_parsed
parsed-Names (err JwtError.expired) w i e = absurd (ground arith)
parsed-Names (err JwtError.malformed) w i e = absurd (ground arith)
parsed-Names (ok c) w i e = (c, refl, subject-Names c (parse_user_code c.subject) w i refl e)

token-Names :
    (jwt : Jwt) (a : JwtAuthenticator) (now : ℕ) (token : Bytes) (w : World) (i : ℕ)
    → identity (validate_token jwt a now token w).0 ≡ ok i
    → (c : RegisteredClaims) × (jwt.parse a.signing_key issuer audience now token ≡ ok c)
      × Names c w i
unfolding validate_token
token-Names jwt a now [] w i e = absurd (ground arith)
token-Names jwt a now (b ∷ token) w i e =
    parsed-Names (jwt.parse a.signing_key issuer audience now (b ∷ token)) w i e

strip-prefix : (prefix s token : Bytes) → strip prefix s ≡ some token → s ≡ prefix ++ token
unfolding strip
strip-prefix [] s token e = cc
strip-prefix (p ∷ prefix) [] token e = absurd (ground arith)
strip-prefix (p ∷ prefix) (b ∷ s) token e = elim (Bool-cases (p == b)) [
  | inr other ↦
      absurd (ground (arith, sym (ap (λ t. if t then strip prefix s else none) other) ∙ e))
  | inl same ↦
      let rest =
        strip-prefix prefix s token (sym (ap (λ t. if t then strip prefix s else none) same) ∙ e) in
      ap2 (ground (arith, same)) rest
]
  where
    ap2 : {x y : ℕ} {u v : Bytes} → x ≡ y → u ≡ v → x ∷ u ≡ y ∷ v
    ap2 h k = cc

solid-some :
    (o : Option Bytes) (token : Bytes)
    → solid o ≡ some token
    → (o ≡ some token) × (has_space token ≡ false)
unfolding solid
solid-some none token e = absurd (ground arith)
solid-some (some []) token e = absurd (ground arith)
solid-some (some (b ∷ s)) token e = elim (Bool-cases (has_space (b ∷ s))) [
  | inl spaced ↦
      absurd (ground (arith, sym (ap (λ t. if t then none else some (b ∷ s)) spaced) ∙ e))
  | inr plain ↦
      let same = sym (ap (λ t. if t then none else some (b ∷ s)) plain) ∙ e in
      (same, sym (ap spaced_or same) ∙ plain)
]
  where
    spaced_or : Option Bytes → Bool
    spaced_or none = true
    spaced_or (some t) = has_space t

extract_bearer_token-some :
    (header token : Bytes)
    → extract_bearer_token header ≡ some token
    → (header ≡ bearer_prefix ++ token) × (has_space token ≡ false)
unfolding extract_bearer_token
extract_bearer_token-some header token e =
    let (stripped, plain) = solid-some (strip bearer_prefix header) token e in
    (strip-prefix bearer_prefix header token stripped, plain)

bearer-Names :
    (jwt : Jwt) (a : JwtAuthenticator) (now : ℕ) (o : Option Bytes) (w : World) (i : ℕ)
    → (authenticate_bearer jwt a now o w).0 ≡ ok i
    → (token : Bytes) × (o ≡ some token)
      × ((c : RegisteredClaims) × (jwt.parse a.signing_key issuer audience now token ≡ ok c)
          × Names c w i)
unfolding authenticate_bearer
bearer-Names jwt a now none w i e = absurd (ground arith)
bearer-Names jwt a now (some token) w i e = (token, refl, token-Names jwt a now token w i e)

-- A request is passed on as user `i` only if its header is `Bearer ` and a token without white space,
-- the token parses under the gateway's key, issuer and audience, and its subject is the code of an
-- account with the id `i`.
pub auth_middleware-Names :
    (jwt : Jwt) (a : JwtAuthenticator) (now : ℕ) (header : Bytes) (w : World) (i : ℕ)
    → (auth_middleware jwt a now header w).0 ≡ ok i
    → (token : Bytes) × (header ≡ bearer_prefix ++ token)
      × (has_space token ≡ false)
      × ((c : RegisteredClaims) × (jwt.parse a.signing_key issuer audience now token ≡ ok c)
          × Names c w i)
unfolding auth_middleware
auth_middleware-Names jwt a now header w i e =
    let (token, extracted, named) = bearer-Names jwt a now (extract_bearer_token header) w i e in
    let (prefixed, plain) = extract_bearer_token-some header token extracted in
    (token, prefixed, plain, named)
