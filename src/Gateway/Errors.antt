-- ===== src/Gateway/Errors.antt =====
-- internal/gateway/errors.go: error responses and the status of each code.
use blabby.Prelude.{ℕ}
use blabby.ErrCode.{
  Code, auth_invalid_token, auth_expired_token, auth_missing_token, auth_account_pending,
  room_not_member, room_permission_denied, room_already_member, room_owner_cannot_leave,
  email_already_registered, handle_already_taken, room_not_found, rate_limit_exceeded,
  verification_rate_limited, invalid_request, missing_field, invalid_email, weak_password,
  verification_invalid, payload_too_large, service_unavailable, internal_error,
}

-- An error response: the HTTP status, and the code of the body.
pub record Response : Type 0 where
  pub status : ℕ
  pub code : Code

-- `WriteErrorResponse`
abbrev pub reject : ℕ → Code → Response
reject status code = record { status = status; code = code }

-- `httpStatus`
abbrev pub http_status : Code → ℕ
http_status auth_invalid_token = 401
http_status auth_expired_token = 401
http_status auth_missing_token = 401
http_status auth_account_pending = 401
http_status room_not_member = 403
http_status room_permission_denied = 403
http_status room_already_member = 409
http_status room_owner_cannot_leave = 409
http_status email_already_registered = 409
http_status handle_already_taken = 409
http_status room_not_found = 404
http_status rate_limit_exceeded = 429
http_status verification_rate_limited = 429
http_status invalid_request = 400
http_status missing_field = 400
http_status invalid_email = 400
http_status weak_password = 400
http_status verification_invalid = 400
http_status payload_too_large = 413
http_status service_unavailable = 503
http_status internal_error = 500
