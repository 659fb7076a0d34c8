-- ===== src/Connection/Actor.antt =====
-- internal/actor/connection/connection.go and reregister.go: the state of the actor and its
-- handlers. A handler acts on the state and may panic, which ends it there; log lines are left out.
-- What is remote (the authenticator and the user's grain) has a state of type `W`.
use blabby.Prelude.{
  ℕ, List, [], ◌∷◌, ◌++◌, Option, none, some, Bool, true, false, ◌&&◌, String, ltb, if◌then◌else◌,
  Result, ok, err, length,
}
use blabby.Text.{Bytes, bytes_eq}
use blabby.Id.{format_id}
use blabby.Domain.Refs.{is_blank}
use blabby.ErrCode
use blabby.ErrCode.{
  Code, auth_missing_token, auth_invalid_token, auth_expired_token, service_unavailable,
  internal_error,
}
use blabby.Wire.{ErrorDetail}
use blabby.Connection.Messages.{Pid, Outbound, auth_succeeded, auth_failed, close_connection}
use blabby.Connection.Heartbeat
use blabby.Connection.Heartbeat.{Timers, new_timers, Cadence}

-- What `errors.Is` tells apart among the errors of `ValidateToken`.
pub data AuthError : Type 0 where
  token_expired identity_unavailable token_rejected : AuthError

-- `RegisterConnectionResponse`; a nil PID has empty fields.
pub record RegisterResponse : Type 0 where
  pub error : Option ErrorDetail
  pub grain_pid : Pid

pub data TransportError : Type 0 where
  unreachable : TransportError

-- The authenticator, whose claims may be nil, and the caller of the user's grain, which may be nil.
pub record Remote (W : Type 0) : Type 0 where
  pub validate_token : Bytes → W → Result AuthError (Option ℕ) × W
  pub register_connection : Option (Bytes → Pid → W → Result TransportError RegisterResponse × W)
  pub self : Pid

pub data Behaviour : Type 0 where
  pre_auth post_auth closing : Behaviour

-- `outbound` is what the channel holds. `sent` and `watched` are the history: all that was ever put
-- into the channel, and the grains that the actor has watched. `is_open` says whether the channel and
-- the socket are open, and `stopping` whether the actor has asked to be stopped.
pub record Connection (W : Type 0) : Type 0 where
  pub behaviour : Behaviour
  pub user_id : Option ℕ
  pub grain_pid : Option Pid
  pub attempts : ℕ
  pub retry_pending : Bool
  pub outbound : List Outbound
  pub timers : Timers
  pub is_open : Bool
  pub stopping : Bool
  pub sent : List Outbound
  pub watched : List Pid
  pub world : W

abbrev pub outbound_buffer_size : ℕ
outbound_buffer_size = 64

abbrev pub reregister_max_attempts : ℕ
reregister_max_attempts = 3

-- `Started`
unfoldable pub started : {W : Type 0} → Option Cadence → W → Connection W
unfolding Heartbeat.start
started cadence world = record {
  behaviour = pre_auth;
  user_id = none;
  grain_pid = none;
  attempts = 0;
  retry_pending = false;
  outbound = [];
  timers = Heartbeat.start (new_timers cadence);
  is_open = true;
  stopping = false;
  sent = [];
  watched = [];
  world = world;
}

-- An action: none is a panic.
abbrev pub Act : Type 0 → Type 0 → Type 0
Act W A = Connection W → Option A × Connection W

abbrev pub resume : {W A B : Type 0} → Option A → (A → Act W B) → Act W B
resume none f c = (none, c)
resume (some a) f c = f a c

infixl 5 ◌>>=◌ ◌>>◌
abbrev pub ◌>>=◌ : {W A B : Type 0} → Act W A → (A → Act W B) → Act W B
◌>>=◌ m f c = let (a, c') = m c in resume a f c'

abbrev pub ◌>>◌ : {W B : Type 0} → Act W (Unit {0}) → Act W B → Act W B
m >> k = m >>= λ _. k

abbrev pub pure : {W A : Type 0} → A → Act W A
pure a c = (some a, c)

abbrev pub skip : {W : Type 0} → Act W (Unit {0})
skip = pure tt

abbrev pub put : {W : Type 0} → Outbound → Connection W → Connection W
put m c = record c { outbound = c.outbound ++ m ∷ []; sent = c.sent ++ m ∷ [] }

unfoldable pub send_outbound : {W : Type 0} → Outbound → Act W (Unit {0})
send_outbound m c =
    if ltb (length c.outbound) outbound_buffer_size then (some tt, put m c) else (none, c)

unfoldable pub send_outbound_best_effort : {W : Type 0} → Outbound → Act W (Unit {0})
send_outbound_best_effort m c =
    (some tt, (if ltb (length c.outbound) outbound_buffer_size then put m c else c))

abbrev pub become : {W : Type 0} → Behaviour → Act W (Unit {0})
become b c = (some tt, record c { behaviour = b })

-- `Become(newClosingBehavior(…))`: the close is queued first, and the behaviour then ignores all.
unfoldable pub become_closing : {W : Type 0} → String → Act W (Unit {0})
unfolding send_outbound
become_closing reason = send_outbound (close_connection reason) >> become closing

abbrev pub same_pid : Pid → Option Pid → Bool
same_pid a none = false
same_pid a (some b) = bytes_eq a.address b.address && bytes_eq a.id b.id

-- `grainPIDFromResponse`
unfoldable pub grain_pid_from_response : RegisterResponse → Option Pid
grain_pid_from_response resp =
    if is_blank resp.grain_pid.address
    then none
    else if is_blank resp.grain_pid.id
    then none
    else some resp.grain_pid

abbrev pub watch : {W : Type 0} → Option Pid → Act W (Unit {0})
watch none c = (some tt, c)
watch (some pid) c = (some tt, record c { watched = c.watched ++ pid ∷ [] })

pub record Rejection : Type 0 where
  pub code : Code
  pub message : String
  pub reason : String

abbrev pub reject : {A : Type 0} → Code → String → String → Result Rejection A
reject code message reason = err (record { code = code; message = message; reason = reason })

-- `handleAuth` from the answer of the user's grain.
abbrev inline_rejection : Result ErrCode.ParseError Code → Result Rejection (ℕ × Option Pid)
inline_rejection (err e) =
    reject internal_error "service unavailable" "register_inline_error_invalid_taxonomy"
inline_rejection (ok code) = reject code "registration rejected" "register_inline_error"

unfoldable pub settle_register :
    ℕ → Result TransportError RegisterResponse → Result Rejection (ℕ × Option Pid)
unfolding grain_pid_from_response
settle_register user_id (err e) =
    reject internal_error "service unavailable" "register_transport_error"
settle_register user_id (ok resp) = elim resp.error [
  | none ↦ ok (user_id, grain_pid_from_response resp)
  | some detail ↦ inline_rejection (ErrCode.parse detail.code detail.status)
]

-- `handleAuth` from the claims.
unfoldable pub register_claims :
    {W : Type 0}
    → Remote W
    → Result AuthError (Option ℕ)
    → W
    → Result Rejection (ℕ × Option Pid) × W
unfolding settle_register
register_claims r (err token_expired) w =
    (reject auth_expired_token "token has expired" "expired", w)
register_claims r (err identity_unavailable) w =
    (reject service_unavailable "authentication temporarily unavailable" "unavailable", w)
register_claims r (err token_rejected) w = (reject auth_invalid_token "invalid token" "invalid", w)
register_claims r (ok none) w = (reject auth_invalid_token "invalid token" "contract_violation", w)
register_claims r (ok (some user_id)) w = elim r.register_connection [
  | none ↦ (reject internal_error "service unavailable" "no_user_client", w)
  | some call ↦
      let (resp, w') = call (format_id user_id) r.self w in (settle_register user_id resp, w')
]

unfoldable pub handle_auth :
    {W : Type 0} → Remote W → Bytes → W → Result Rejection (ℕ × Option Pid) × W
unfolding register_claims
handle_auth r token w = let (claims, w') = r.validate_token token w in register_claims r claims w'

-- The end of the `InboundAuth` case of `preAuthBehavior`.
unfoldable pub settle_auth : {W : Type 0} → Result Rejection (ℕ × Option Pid) → Act W (Unit {0})
unfolding send_outbound_best_effort become_closing send_outbound
settle_auth (err rej) = do
  send_outbound_best_effort (auth_failed rej.code rej.message)
  become_closing rej.reason
settle_auth (ok (user_id, grain_pid)) = do
  λ c. (some tt, record c { user_id = some user_id; grain_pid = grain_pid })
  watch grain_pid
  send_outbound auth_succeeded
  become post_auth

abbrev pub fail_auth : {W : Type 0} → String → String → Act W (Unit {0})
fail_auth message reason = do
  send_outbound_best_effort (auth_failed auth_missing_token message)
  become_closing reason
