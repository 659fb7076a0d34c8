-- ===== src/Gateway/Canonical.antt =====
-- On the statuses of the error responses of the account handlers.
use blabby.Prelude.{
  ℕ, ◌||◌, if◌then◌else◌, Option, none, some, Bool, true, false, ltb, length, Result, ok, err, ◌≡◌,
  refl, ap, ◌⊎◌, inl, inr, Bool-cases,
}
use blabby.Text.{Bytes, trim_space}
use blabby.ErrCode.{invalid_request, payload_too_large}
use blabby.Domain.Refs.{is_blank}
use blabby.Domain.MailAddress.{max_mail_address_bytes, new_mail_address}
use blabby.Auth.Password.{Crypto, validate_password_strength}
use blabby.Auth.Token.{
  Jwt, JwtAuthenticator, TokenResult, Claims, TokenError, authenticate, validate_token,
}
use blabby.Account.World.{World, Error}
use blabby.Account.Registration.{RegistrationPolicy, RegisterParams, register}
use blabby.Account.Verify
use blabby.Account.Directory.{AuthError, verify_credentials}
use blabby.Gateway.Errors.{Response, reject, http_status}
use blabby.Gateway.Middleware.{auth_middleware, authenticate_bearer, extract_bearer_token, identity}
use blabby.Gateway.Decode.{
  Request, Decoder, RequestError, Decoded, value, beyond_cap, end_of_body, decoded,
  content_type_is_json, decode_strict_json_body, decode_json_body, rejected,
}
use blabby.Gateway.Accounts.{
  RegisterRequest, VerifyRequest, ResendVerificationRequest, LoginRequest, with_body,
  register_request, verify_request, resend_request, login_request, register_params, parsed_params,
  created, verified, resent, logged_in, register_checked, handle_register, verify_address,
  handle_verify, resend_address, handle_resend_verification, handle_login, max_password_bytes,
  max_pin_bytes,
}

-- A response to an error has the status that `http_status` gives its code.
abbrev pub Canonical : {A : Type 0} → Result Response A → Type 0
Canonical (ok a) = Unit
Canonical (err response) = response.status ≡ http_status response.code

if-Canonical :
    {A : Type 0} (t : Bool) (x y : Result Response A)
    → Canonical x
    → Canonical y
    → Canonical (if t then x else y)
if-Canonical true x y h k = h
if-Canonical false x y h k = k

created-Canonical : (r : Result Error Bytes) → Canonical (created r)
created-Canonical (ok code) = tt
created-Canonical (err Error.mail_taken) = refl
created-Canonical (err Error.mail_race) = refl
created-Canonical (err Error.handle_taken) = refl
created-Canonical (err Error.rate_limited) = refl
created-Canonical (err e) = refl

verified-Canonical : (r : Verify.Outcome) → Canonical (verified r)
verified-Canonical (ok _) = tt
verified-Canonical (err Error.verify_invalid) = refl
verified-Canonical (err e) = refl

resent-Canonical : (r : Result Error (Unit {0})) → Canonical (resent r)
resent-Canonical (ok _) = tt
resent-Canonical (err Error.rate_limited) = refl
resent-Canonical (err e) = refl

logged_in-Canonical : (r : Result AuthError TokenResult) → Canonical (logged_in r)
logged_in-Canonical (ok result) = if-Canonical (is_blank result.token) _ _ refl tt
logged_in-Canonical (err AuthError.account_pending) = refl
logged_in-Canonical (err AuthError.invalid_credentials) = refl
logged_in-Canonical (err e) = refl

identity-Canonical : (r : Result TokenError Claims) → Canonical (identity r)
identity-Canonical (ok claims) = tt
identity-Canonical (err TokenError.token_expired) = refl
identity-Canonical (err TokenError.identity_unavailable) = refl
identity-Canonical (err TokenError.token_invalid) = refl

-- The same for a handler's response with the state it leaves.
abbrev CanonicalIn : {A : Type 0} → Result Response A × World → Type 0
CanonicalIn r = Canonical r.0

if-CanonicalIn :
    {A : Type 0} (t : Bool) (x y : Result Response A × World)
    → CanonicalIn x
    → CanonicalIn y
    → CanonicalIn (if t then x else y)
if-CanonicalIn true x y h k = h
if-CanonicalIn false x y h k = k

-- A rejected body has a canonical response, whatever its handler is.
body-Canonical :
    {T A : Type 0} (d : Decoder T) (cap : ℕ) (r : Request)
    (handle : T → World → Result Response A × World) (w : World)
    → ((request : T) → CanonicalIn (handle request w))
    → CanonicalIn (with_body (decode_json_body d cap r) handle w)
unfolding decode_json_body
body-Canonical {T = T} d max_bytes r handle w h = go (decode_strict_json_body d max_bytes r)
  where
    go : (o : Result RequestError T) → CanonicalIn (with_body (rejected o) handle w)
    go (ok request) = h request
    go (err e) = refl

parsed-Canonical :
    (crypto : Crypto) (password : Bytes) (mail handle : Option Bytes)
    → Canonical (parsed_params crypto password mail handle)
parsed-Canonical crypto password none handle = refl
parsed-Canonical crypto password (some mail) none = refl
parsed-Canonical crypto password (some mail) (some handle) =
    if-Canonical (validate_password_strength crypto password) _ _ tt refl

module _ (crypto : Crypto) (policy : RegistrationPolicy) where
  register_params-Canonical : (req : RegisterRequest) → Canonical (register_params crypto req)
  unfolding register_params
  register_params-Canonical req =
      if-Canonical
        (is_blank (trim_space req.mail_address)
          || (is_blank (trim_space req.handle) || is_blank req.password))
        (err (reject 400 invalid_request)) _ refl
        (if-Canonical (ltb max_password_bytes (length req.password))
          (err (reject 400 invalid_request)) _ refl (parsed-Canonical crypto req.password _ _))

  checked-Canonical :
      (checked : Result Response RegisterParams) (w : World)
      → Canonical checked
      → CanonicalIn (register_checked crypto policy checked w)
  unfolding register_checked
  checked-Canonical (ok params) w h = created-Canonical (register crypto policy params w).0
  checked-Canonical (err response) w h = h

  verify_address-Canonical :
      (pin : Bytes) (mail : Option Bytes) (w : World)
      → CanonicalIn (verify_address crypto policy pin mail w)
  unfolding verify_address
  verify_address-Canonical pin none w = refl
  verify_address-Canonical pin (some mail) w =
      verified-Canonical (Verify.verify crypto policy mail pin w).0

  resend_address-Canonical :
      (mail : Option Bytes) (w : World) → CanonicalIn (resend_address crypto policy mail w)
  unfolding resend_address
  resend_address-Canonical none w = refl
  resend_address-Canonical (some mail) w = resent-Canonical (Verify.resend crypto policy mail w).0

  register-Canonical :
      (req : RegisterRequest) (w : World) → Canonical (register_request crypto policy req w).0
  unfolding register_request
  register-Canonical req w =
      checked-Canonical (register_params crypto req) w (register_params-Canonical req)

  verify-Canonical :
      (req : VerifyRequest) (w : World) → Canonical (verify_request crypto policy req w).0
  unfolding verify_request
  verify-Canonical req w =
      if-CanonicalIn (is_blank (trim_space req.mail_address) || is_blank req.pin) _ _ refl (
        if-CanonicalIn (ltb max_pin_bytes (length req.pin)) _ _ refl
          (verify_address-Canonical req.pin (new_mail_address crypto.nfc req.mail_address) w))

  resend-Canonical :
      (req : ResendVerificationRequest) (w : World)
      → Canonical (resend_request crypto policy req w).0
  unfolding resend_request
  resend-Canonical req w =
      if-CanonicalIn (is_blank (trim_space req.mail_address)) _ _ refl
        (resend_address-Canonical (new_mail_address crypto.nfc req.mail_address) w)

module _ (crypto : Crypto) (jwt : Jwt) (a : JwtAuthenticator) where
  login-Canonical :
      (now : ℕ) (req : LoginRequest) (w : World)
      → Canonical (login_request crypto jwt a now req w).0
  unfolding login_request
  login-Canonical now req w =
      if-CanonicalIn (is_blank (trim_space req.mail_address) || is_blank req.password) _ _ refl (
        if-CanonicalIn
          (ltb max_mail_address_bytes (length req.mail_address)
            || ltb max_password_bytes (length req.password))
          _ _ refl
          (logged_in-Canonical
            (authenticate jwt a now (verify_credentials crypto req.mail_address req.password w).0)))

  bearer-Canonical :
      (now : ℕ) (token : Option Bytes) (w : World)
      → Canonical (authenticate_bearer jwt a now token w).0
  unfolding authenticate_bearer
  bearer-Canonical now none w = refl
  bearer-Canonical now (some token) w = identity-Canonical (validate_token jwt a now token w).0

  middleware-Canonical :
      (now : ℕ) (header : Bytes) (w : World) → Canonical (auth_middleware jwt a now header w).0
  unfolding auth_middleware
  middleware-Canonical now header w = bearer-Canonical now (extract_bearer_token header) w

-- What the outcome of decoding a body says: it has the content type and is one value within the cap; or the
-- cap is exceeded, and the response is a 413; or the response is a 400.
abbrev pub IsDecoding : {T : Type 0} → Decoder T → ℕ → Request → Result Response T → Type 0
IsDecoding d max_bytes r (ok request) =
    (content_type_is_json d r.content_type ≡ true)
    × (d.decode max_bytes r.body ≡ (value request, end_of_body))
IsDecoding d max_bytes r (err response) =
    ((response ≡ reject 413 payload_too_large)
      × (((d.decode max_bytes r.body).0 ≡ beyond_cap)
          ⊎ ((d.decode max_bytes r.body).1 ≡ beyond_cap)))
    ⊎ (response ≡ reject 400 invalid_request)

decoded-IsDecoding :
    {T : Type 0} (d : Decoder T) (max_bytes : ℕ) (r : Request)
    (answers : Decoded T × Decoded (Unit {0}))
    → content_type_is_json d r.content_type ≡ true
    → d.decode max_bytes r.body ≡ answers
    → IsDecoding d max_bytes r (rejected (decoded answers))
decoded-IsDecoding d max_bytes r (value request, end_of_body) typed e = (typed, e)
decoded-IsDecoding d max_bytes r (value request, beyond_cap) typed e =
    inl (refl, inr (ap (λ x. x.1) e))
decoded-IsDecoding d max_bytes r (value request, other) typed e = inr refl
decoded-IsDecoding d max_bytes r (beyond_cap, rest) typed e = inl (refl, inl (ap (λ x. x.0) e))
decoded-IsDecoding d max_bytes r (other, rest) typed e = inr refl

decode-IsDecoding :
    {T : Type 0} (d : Decoder T) (max_bytes : ℕ) (r : Request)
    → IsDecoding d max_bytes r (decode_json_body d max_bytes r)
unfolding decode_json_body decode_strict_json_body
decode-IsDecoding d max_bytes r = elim (Bool-cases (content_type_is_json d r.content_type)) [
  | inl typed ↦ rw typed (decoded-IsDecoding d max_bytes r (d.decode max_bytes r.body) typed refl)
  | inr other ↦ rw other (inr refl)
]

-- Whatever the request, its decoder and the state, an error response of the handlers of registration,
-- verification, re-sending and login, the rejection of a body included, and of the middleware, has the
-- status that `httpStatus` gives its code. A body that is passed on has the JSON content type and is one
-- value within the cap; any other is rejected, with 413 PAYLOAD_TOO_LARGE only where a read of the decoder
-- exceeds the cap, and else with 400 INVALID_REQUEST.
pub responses-Canonical :
    (crypto : Crypto) (policy : RegistrationPolicy) (jwt : Jwt) (a : JwtAuthenticator) (w : World)
    → ((d : Decoder RegisterRequest) (r : Request)
        → Canonical (handle_register crypto policy d r w).0)
      × ((d : Decoder VerifyRequest) (r : Request)
          → Canonical (handle_verify crypto policy d r w).0)
      × ((d : Decoder ResendVerificationRequest) (r : Request)
          → Canonical (handle_resend_verification crypto policy d r w).0)
      × ((d : Decoder LoginRequest) (now : ℕ) (r : Request)
          → Canonical (handle_login crypto jwt a d now r w).0)
      × ((now : ℕ) (header : Bytes) → Canonical (auth_middleware jwt a now header w).0)
      × ((T : Type 0) (d : Decoder T) (max_bytes : ℕ) (r : Request)
          → IsDecoding d max_bytes r (decode_json_body d max_bytes r))
unfolding handle_register handle_verify handle_resend_verification handle_login
responses-Canonical crypto policy jwt a w = (
  (λ d r. body-Canonical d _ r _ w (λ req. register-Canonical crypto policy req w)),
  (λ d r. body-Canonical d _ r _ w (λ req. verify-Canonical crypto policy req w)),
  (λ d r. body-Canonical d _ r _ w (λ req. resend-Canonical crypto policy req w)),
  (λ d now r. body-Canonical d _ r _ w (λ req. login-Canonical crypto jwt a now req w)),
  (λ now header. middleware-Canonical crypto jwt a now header w),
  (λ T d max_bytes r. decode-IsDecoding d max_bytes r),
)
