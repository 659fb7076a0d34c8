-- ===== src/Connection/Behaviour.antt =====
-- internal/actor/connection/connection.go and reregister.go: the behaviours before and after the
-- authentication, the forwarding of room traffic, the re-registration with the user's grain, and
-- `Receive`.
use blabby.Prelude.{
  ℕ, [], Option, none, some, Bool, true, false, ◌+◌, leb, if◌then◌else◌, Result, ok, err,
}
use blabby.Text.{Bytes}
use blabby.Id.{format_id}
use blabby.PublicCode.{parse_public_code, format_room, format_user}
use blabby.PublicCode
use blabby.Wire.{UserRefPb, RoomRefPb}
use blabby.Room.Ports.{EventType, joined, left}
use blabby.Connection.Messages.{
  Pid, Member, Outbound, chat_delivered, room_joined, room_left, app_ping, Message, ForwardRequest,
  NotifyRequest, inbound_auth, auth_timeout_expired, protocol_violation, app_ping_tick,
  app_pong_received, pong_timeout_expired, reregister_retry, terminated, forward_message,
  notify_room_event, connection_closed, read_pump_panicked, write_pump_failed, write_pump_closed,
}
use blabby.Connection.Heartbeat
use blabby.Connection.Heartbeat.{Timers}
use blabby.Connection.Actor.{
  Connection, Remote, RegisterResponse, TransportError, pre_auth, post_auth, closing, Act, ◌>>=◌,
  ◌>>◌, pure, skip, send_outbound, become_closing, same_pid, grain_pid_from_response, watch,
  handle_auth, settle_auth, fail_auth, reregister_max_attempts,
}

-- `roomCodeFromRef` and `userCodeFromRef`
abbrev formatted : (Bytes → Bytes) → Result PublicCode.Error Bytes → Option Bytes
formatted format (err e) = none
formatted format (ok code) = some (format code)

unfoldable pub room_code_from_ref : Option RoomRefPb → Option Bytes
room_code_from_ref none = none
room_code_from_ref (some room) = formatted format_room (parse_public_code room.public_code)

unfoldable pub user_code_from_ref : Option UserRefPb → Option Bytes
user_code_from_ref none = none
user_code_from_ref (some user) = formatted format_user (parse_public_code user.public_code)

abbrev name_of : Option UserRefPb → Bytes
name_of none = []
name_of (some user) = user.name

-- What a request gives to the client, or none where a reference is invalid.
abbrev pub chat_of : ForwardRequest → Option Bytes → Option Bytes → Option Outbound
chat_of req (some room) (some sender) = some (
    chat_delivered (record {
      room_id = room;
      sender = record { id = sender; name = name_of req.sender };
      text = req.text;
      timestamp = req.timestamp;
      event_id = req.event_id;
    }))
chat_of req room sender = none

abbrev member_of : NotifyRequest → Bytes → Bytes → Member
member_of req room user = record {
  room_id = room;
  user = record { id = user; name = name_of req.user };
  event_id = req.event_id;
  at = req.timestamp;
}

abbrev pub event_of :
    NotifyRequest → Option EventType → Option Bytes → Option Bytes → Option Outbound
event_of req (some joined) (some room) (some user) = some (room_joined (member_of req room user))
event_of req (some left) (some room) (some user) = some (room_left (member_of req room user))
event_of req kind room user = none

unfoldable pub chat_frame : ForwardRequest → Option Outbound
unfolding room_code_from_ref user_code_from_ref
chat_frame req = chat_of req (room_code_from_ref req.room) (user_code_from_ref req.sender)

unfoldable pub event_frame : NotifyRequest → Option Outbound
unfolding room_code_from_ref user_code_from_ref
event_frame req =
    event_of req req.event_type (room_code_from_ref req.room) (user_code_from_ref req.user)

abbrev pub send_if_some : {W : Type 0} → Option Outbound → Act W (Unit {0})
send_if_some none = skip
send_if_some (some m) = send_outbound m

-- `forwardMessage` and `forwardRoomEvent`
unfoldable pub forward_chat : {W : Type 0} → ForwardRequest → Act W (Unit {0})
unfolding send_outbound
forward_chat req = send_if_some (chat_frame req)

unfoldable pub forward_room_event : {W : Type 0} → NotifyRequest → Act W (Unit {0})
unfolding send_outbound
forward_room_event req = send_if_some (event_frame req)

-- `reregister`: the new PID of the grain, or a failure.
abbrev pub reregistered : Result TransportError RegisterResponse → Option (Option Pid)
reregistered (err e) = none
reregistered (ok resp) = elim resp.error [
  | none ↦ some (grain_pid_from_response resp)
  | some detail ↦ none
]

-- `recordReregisterFailure`: true where the attempts are used up.
unfoldable pub record_failure : {W : Type 0} → Act W Bool
record_failure c =
    if leb reregister_max_attempts (c.attempts + 1)
    then (some true, record c { attempts = c.attempts + 1 })
    else (some false, record c { attempts = c.attempts + 1; retry_pending = true })

-- `attemptReregister` from the answer of the grain.
unfoldable pub settle_reregister : {W : Type 0} → Option (Option Pid) → Act W Bool
unfolding record_failure
settle_reregister none = record_failure
settle_reregister (some grain_pid) = do
  λ c. (some tt, record c { grain_pid = grain_pid; attempts = 0 })
  watch grain_pid
  pure false

-- The user of a connection that has authenticated.
abbrev pub user_text : Option ℕ → Bytes
user_text none = format_id 0
user_text (some u) = format_id u

-- The call of `reregister`; without a caller it panics on nil.
abbrev pub asked :
    {W : Type 0}
    → Pid
    → Option (Bytes → Pid → W → Result TransportError RegisterResponse × W)
    → Act W (Option (Option Pid))
asked self none c = (none, c)
asked self (some call) c =
    let (resp, w) = call (user_text c.user_id) self c.world in
    (some (reregistered resp), record c { world = w })

-- `attemptReregister`
unfoldable pub attempt_reregister : {W : Type 0} → Remote W → Act W Bool
unfolding settle_reregister grain_pid_from_response
attempt_reregister r = asked r.self r.register_connection >>= settle_reregister

abbrev pub close_if : {W : Type 0} → Bool → Act W (Unit {0})
close_if true = become_closing "reregister_failed"
close_if false = skip

unfoldable pub try_reregister : {W : Type 0} → Remote W → Act W (Unit {0})
unfolding attempt_reregister become_closing
try_reregister r = attempt_reregister r >>= close_if

-- `preAuthBehavior`
unfoldable pub pre_auth_behaviour : {W : Type 0} → Remote W → Message → Act W (Unit {0})
unfolding settle_auth become_closing send_outbound
pre_auth_behaviour r (inbound_auth token) c =
    let (outcome, w) = handle_auth r token c.world in settle_auth outcome (record c { world = w })
pre_auth_behaviour r auth_timeout_expired c = fail_auth "authentication timeout" "auth_timeout" c
pre_auth_behaviour r (protocol_violation v) c =
    fail_auth "missing authentication token" "missing_token" c
pre_auth_behaviour r app_ping_tick c = send_outbound app_ping c
pre_auth_behaviour r pong_timeout_expired c = become_closing "pong_timeout" c
pre_auth_behaviour r m c = skip c

-- `postAuthBehavior`
unfoldable pub post_auth_behaviour : {W : Type 0} → Remote W → Message → Act W (Unit {0})
unfolding forward_chat forward_room_event try_reregister become_closing send_outbound
post_auth_behaviour r (forward_message req) c = forward_chat req c
post_auth_behaviour r (notify_room_event req) c = forward_room_event req c
post_auth_behaviour r (terminated who) c =
    if same_pid who c.grain_pid
    then (if c.retry_pending then (some tt, c) else try_reregister r c)
    else (some tt, c)
post_auth_behaviour r reregister_retry c = try_reregister r (record c { retry_pending = false })
post_auth_behaviour r app_ping_tick c = send_outbound app_ping c
post_auth_behaviour r pong_timeout_expired c = become_closing "pong_timeout" c
post_auth_behaviour r m c = skip c

-- `uc.behavior.Receive`
unfoldable pub behave : {W : Type 0} → Remote W → Message → Act W (Unit {0})
behave r m c = elim c.behaviour [
  | pre_auth ↦ pre_auth_behaviour r m c
  | post_auth ↦ post_auth_behaviour r m c
  | closing ↦ (some tt, c)
]

abbrev pub on_timers : {W : Type 0} → (Timers → Timers) → Act W (Unit {0})
on_timers f c = (some tt, record c { timers = f c.timers })

abbrev pub request_stop : {W : Type 0} → Act W (Unit {0})
request_stop c = (some tt, record c { stopping = true })

-- `Receive` of a user message.
unfoldable pub receive : {W : Type 0} → Remote W → Message → Act W (Unit {0})
unfolding behave
receive r (connection_closed reason) = request_stop
receive r read_pump_panicked = request_stop
receive r (write_pump_failed reason kind) = request_stop
receive r (write_pump_closed failed) = request_stop
receive r app_ping_tick = behave r app_ping_tick >> on_timers Heartbeat.ensure_watchdog
receive r app_pong_received = behave r app_pong_received >> on_timers Heartbeat.reset_watchdog
receive r pong_timeout_expired =
    on_timers Heartbeat.cancel_watchdog >> behave r pong_timeout_expired
receive r m = behave r m

-- `Stopping`
unfoldable pub shut_down : {W : Type 0} → Connection W → Connection W
shut_down c = record c {
  timers = Heartbeat.stop c.timers;
  retry_pending = false;
  is_open = false;
  stopping = true;
}
