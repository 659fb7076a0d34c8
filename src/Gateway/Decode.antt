-- ===== src/Gateway/Decode.antt =====
-- internal/gateway/decode.go: the decoding of a request's body. `mime.ParseMediaType`, and the decoder of
-- encoding/json over the reader that `http.MaxBytesReader` caps, are parameters.
use blabby.Prelude.{ℕ, String, Option, none, some, Bool, false, if◌then◌else◌, Result, ok, err}
use blabby.Text.{Bytes, codes, bytes_eq}
use blabby.ErrCode.{Code, invalid_request, payload_too_large}
use blabby.Domain.Refs.{is_blank}
use blabby.Gateway.Errors.{Response, reject, http_status}

pub record Request : Type 0 where
  pub content_type : Bytes
  pub body : Bytes

-- What a call of `Decode` answers: a value, the error of the cap, `io.EOF`, or another error.
pub data Decoded (T : Type 0) : Type 0 where
  value : T → Decoded T
  beyond_cap end_of_body malformed : Decoded T

-- `decode` gives the answers of two calls in a row of one decoder, from the cap and the body.
pub record Decoder (T : Type 0) : Type 0 where
  pub parse_media_type : Bytes → Option Bytes
  pub decode : ℕ → Bytes → Decoded T × Decoded (Unit {0})

-- `requestError`, without the message
pub record RequestError : Type 0 where
  pub reason : String
  pub code : Code

abbrev is_json : Option Bytes → Bool
is_json none = false
is_json (some media_type) = bytes_eq media_type (codes "application/json")

-- `contentTypeIsJSON`
unfoldable pub content_type_is_json : {T : Type 0} → Decoder T → Bytes → Bool
unfolding bytes_eq
content_type_is_json d header =
    if is_blank header then false else is_json (d.parse_media_type header)

abbrev fail : {T : Type 0} → String → Code → Result RequestError T
fail reason code = err (record { reason = reason; code = code })

abbrev trailing : {T : Type 0} → T → Decoded (Unit {0}) → Result RequestError T
trailing request end_of_body = ok request
trailing request beyond_cap = fail "payload_too_large" payload_too_large
trailing request d = fail "trailing_garbage" invalid_request

abbrev pub decoded : {T : Type 0} → Decoded T × Decoded (Unit {0}) → Result RequestError T
decoded (value request, rest) = trailing request rest
decoded (beyond_cap, rest) = fail "payload_too_large" payload_too_large
decoded (d, rest) = fail "malformed_body" invalid_request

-- `decodeStrictJSONBody`
unfoldable pub decode_strict_json_body :
    {T : Type 0} → Decoder T → ℕ → Request → Result RequestError T
unfolding content_type_is_json
decode_strict_json_body d max_bytes r =
    if content_type_is_json d r.content_type
    then decoded (d.decode max_bytes r.body)
    else fail "content_type" invalid_request

abbrev pub rejected : {T : Type 0} → Result RequestError T → Result Response T
rejected (ok request) = ok request
rejected (err e) = err (reject (http_status e.code) e.code)

-- `decodeJSONBody`
unfoldable pub decode_json_body : {T : Type 0} → Decoder T → ℕ → Request → Result Response T
unfolding decode_strict_json_body
decode_json_body d max_bytes r = rejected (decode_strict_json_body d max_bytes r)
