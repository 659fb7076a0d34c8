-- ===== src/Gateway/Accounts.antt =====
-- internal/gateway/handler.go, handler_register.go and handler_verify.go: the handlers of login,
-- registration and verification, with the decoding of their bodies. `internal_error`
-- is what is left of an error that is only logged.
use blabby.Prelude.{ℕ, ◌^◌, Option, none, some, ◌||◌, ltb, length, if◌then◌else◌, Result, ok, err}
use blabby.Text.{Bytes, trim_space}
use blabby.ErrCode.{
  Code, auth_invalid_token, auth_account_pending, invalid_request, internal_error, invalid_email,
  weak_password, email_already_registered, handle_already_taken, verification_invalid,
}
use blabby.ErrCode
use blabby.Domain.Refs.{is_blank}
use blabby.Domain.MailAddress.{max_mail_address_bytes, new_mail_address}
use blabby.Domain.Handle.{new_handle}
use blabby.Auth.Password.{Crypto, validate_password_strength}
use blabby.Auth.Token.{Jwt, JwtAuthenticator, TokenResult, authenticate}
use blabby.Account.World.{
  World, Error, mail_taken, mail_race, handle_taken, rate_limited, verify_invalid,
}
use blabby.Account.Registration.{RegistrationPolicy, RegisterParams, register}
use blabby.Account.Verify
use blabby.Account.Directory.{AuthError, invalid_credentials, account_pending, verify_credentials}
use blabby.Gateway.Errors.{Response, reject}
use blabby.Gateway.Decode.{Request, Decoder, decode_json_body}

abbrev pub max_password_bytes : ℕ
max_password_bytes = 256

abbrev pub max_pin_bytes : ℕ
max_pin_bytes = 16

-- `maxLoginBodyBytes`
abbrev pub max_login_body_bytes : ℕ
max_login_body_bytes = 2 ^ 20

pub record RegisterRequest : Type 0 where
  pub mail_address : Bytes
  pub handle : Bytes
  pub password : Bytes

pub record VerifyRequest : Type 0 where
  pub mail_address : Bytes
  pub pin : Bytes

pub record ResendVerificationRequest : Type 0 where
  pub mail_address : Bytes

pub record LoginRequest : Type 0 where
  pub mail_address : Bytes
  pub password : Bytes

-- A handler whose body is decoded first; a rejection is its response.
abbrev pub with_body :
    {T A : Type 0}
    → Result Response T
    → (T → World → Result Response A × World)
    → World
    → Result Response A × World
with_body (err response) handle w = (err response, w)
with_body (ok request) handle w = handle request w

abbrev pub parsed_params :
    Crypto → Bytes → Option Bytes → Option Bytes → Result Response RegisterParams
parsed_params crypto password none handle = err (reject 400 invalid_email)
parsed_params crypto password (some mail) none = err (reject 400 invalid_request)
parsed_params crypto password (some mail) (some handle) =
    if validate_password_strength crypto password
    then ok (record { mail_address = mail; handle = handle; password = password })
    else err (reject 400 weak_password)

-- The checks of `handleRegister` before the service is called.
unfoldable pub register_params : Crypto → RegisterRequest → Result Response RegisterParams
unfolding new_mail_address new_handle validate_password_strength
register_params crypto req =
    if is_blank (trim_space req.mail_address)
      || (is_blank (trim_space req.handle) || is_blank req.password)
    then err (reject 400 invalid_request)
    else if ltb max_password_bytes (length req.password)
    then err (reject 400 invalid_request)
    else parsed_params crypto req.password (new_mail_address crypto.nfc req.mail_address)
        (new_handle crypto.nfc req.handle)

-- `writeRegisterError`
abbrev pub register_error : Error → Response
register_error mail_taken = reject 409 email_already_registered
register_error mail_race = reject 409 email_already_registered
register_error handle_taken = reject 409 handle_already_taken
register_error rate_limited = reject 429 ErrCode.verification_rate_limited
register_error e = reject 500 internal_error

abbrev pub created : Result Error Bytes → Result Response Bytes
created (ok code) = ok code
created (err e) = err (register_error e)

-- `writeVerifyError`
abbrev pub verify_error : Error → Response
verify_error verify_invalid = reject 400 verification_invalid
verify_error e = reject 500 internal_error

abbrev pub verified : Verify.Outcome → Result Response (Unit {0})
verified (ok _) = ok tt
verified (err e) = err (verify_error e)

abbrev pub resend_error : Error → Response
resend_error rate_limited = reject 429 ErrCode.verification_rate_limited
resend_error e = reject 500 internal_error

abbrev pub resent : Result Error (Unit {0}) → Result Response (Unit {0})
resent (ok _) = ok tt
resent (err e) = err (resend_error e)

-- The response of `handleLogin` to a rejected credential.
abbrev pub login_error : AuthError → Response
login_error account_pending = reject 401 auth_account_pending
login_error invalid_credentials = reject 401 auth_invalid_token
login_error e = reject 500 internal_error

abbrev pub logged_in : Result AuthError TokenResult → Result Response Bytes
logged_in (err e) = err (login_error e)
logged_in (ok result) =
    if is_blank result.token then err (reject 500 internal_error) else ok result.token

module _ (crypto : Crypto) (policy : RegistrationPolicy) where
  unfoldable pub register_checked :
      Result Response RegisterParams → World → Result Response Bytes × World
  unfolding register
  register_checked (err response) w = (err response, w)
  register_checked (ok params) w =
      let (result, w') = register crypto policy params w in (created result, w')

  unfoldable pub register_request : RegisterRequest → World → Result Response Bytes × World
  unfolding register_checked register_params
  register_request req = register_checked (register_params crypto req)

  -- `handleRegister`: the public code of a 201, or the response.
  unfoldable pub handle_register :
      Decoder RegisterRequest → Request → World → Result Response Bytes × World
  unfolding register_request decode_json_body
  handle_register d r = with_body (decode_json_body d max_login_body_bytes r) register_request

  unfoldable pub verify_address : Bytes → Option Bytes → World → Result Response (Unit {0}) × World
  unfolding Verify.verify
  verify_address pin none w = (err (reject 400 invalid_email), w)
  verify_address pin (some mail) w =
      let (outcome, w') = Verify.verify crypto policy mail pin w in (verified outcome, w')

  unfoldable pub verify_request : VerifyRequest → World → Result Response (Unit {0}) × World
  unfolding verify_address new_mail_address
  verify_request req w =
      if is_blank (trim_space req.mail_address) || is_blank req.pin
      then (err (reject 400 invalid_request), w)
      else if ltb max_pin_bytes (length req.pin)
      then (err (reject 400 invalid_request), w)
      else verify_address req.pin (new_mail_address crypto.nfc req.mail_address) w

  -- `handleVerify`
  unfoldable pub handle_verify :
      Decoder VerifyRequest → Request → World → Result Response (Unit {0}) × World
  unfolding verify_request decode_json_body
  handle_verify d r = with_body (decode_json_body d max_login_body_bytes r) verify_request

  unfoldable pub resend_address : Option Bytes → World → Result Response (Unit {0}) × World
  unfolding Verify.resend
  resend_address none w = (err (reject 400 invalid_email), w)
  resend_address (some mail) w =
      let (result, w') = Verify.resend crypto policy mail w in (resent result, w')

  unfoldable pub resend_request :
      ResendVerificationRequest → World → Result Response (Unit {0}) × World
  unfolding resend_address new_mail_address
  resend_request req w =
      if is_blank (trim_space req.mail_address)
      then (err (reject 400 invalid_request), w)
      else resend_address (new_mail_address crypto.nfc req.mail_address) w

  -- `handleResendVerification`
  unfoldable pub handle_resend_verification :
      Decoder ResendVerificationRequest → Request → World → Result Response (Unit {0}) × World
  unfolding resend_request decode_json_body
  handle_resend_verification d r =
      with_body (decode_json_body d max_login_body_bytes r) resend_request

unfoldable pub login_request :
    Crypto → Jwt → JwtAuthenticator → ℕ → LoginRequest → World → Result Response Bytes × World
unfolding authenticate verify_credentials
login_request crypto jwt a now req w =
    if is_blank (trim_space req.mail_address) || is_blank req.password
    then (err (reject 400 invalid_request), w)
    else if ltb max_mail_address_bytes (length req.mail_address)
        || ltb max_password_bytes (length req.password)
    then (err (reject 400 invalid_request), w)
    else let (checked, w') = verify_credentials crypto req.mail_address req.password w in
      (logged_in (authenticate jwt a now checked), w')

-- `handleLogin` at the time `now`
unfoldable pub handle_login :
    Crypto
    → Jwt
    → JwtAuthenticator
    → Decoder LoginRequest
    → ℕ
    → Request
    → World
    → Result Response Bytes × World
unfolding login_request decode_json_body
handle_login crypto jwt a d now r =
    with_body (decode_json_body d max_login_body_bytes r) (login_request crypto jwt a now)
