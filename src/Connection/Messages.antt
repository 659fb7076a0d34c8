-- ===== src/Connection/Messages.antt =====
-- internal/actor/connection/messages.go and decoder.go: what the actor receives and what it sends.
use blabby.Prelude.{ℕ, Option, none, some, Bool, String, if◌then◌else◌}
use blabby.Text.{Bytes, codes, bytes_eq, trim_space}
use blabby.Domain.Refs.{is_blank}
use blabby.ErrCode.{Code}
use blabby.Wire.{UserRefPb, RoomRefPb}
use blabby.Room.Ports.{EventType}

-- `actor.PID`
pub record Pid : Type 0 where
  pub address : Bytes
  pub id : Bytes

pub record UserRef : Type 0 where
  pub id : Bytes
  pub name : Bytes

-- An unset time is none.
pub record Chat : Type 0 where
  pub room_id : Bytes
  pub sender : UserRef
  pub text : Bytes
  pub timestamp : Option ℕ
  pub event_id : Bytes

pub record Member : Type 0 where
  pub room_id : Bytes
  pub user : UserRef
  pub event_id : Bytes
  pub at : Option ℕ

-- What the actor hands to the write pump.
pub data Outbound : Type 0 where
  auth_succeeded : Outbound
  auth_failed : Code → String → Outbound
  chat_delivered : Chat → Outbound
  room_joined room_left : Member → Outbound
  error_response : Code → String → Outbound
  app_ping : Outbound
  close_connection : String → Outbound

pub data DecodeFailure : Type 0 where
  malformed_json unknown_type : DecodeFailure

pub data Violation : Type 0 where
  missing_token : Violation

-- `ForwardMessageRequest` and `NotifyRoomEventRequest` as they arrive: a reference may be nil, and
-- an event type other than the two known ones is none.
pub record ForwardRequest : Type 0 where
  pub room : Option RoomRefPb
  pub sender : Option UserRefPb
  pub text : Bytes
  pub timestamp : Option ℕ
  pub event_id : Bytes

pub record NotifyRequest : Type 0 where
  pub room : Option RoomRefPb
  pub user : Option UserRefPb
  pub event_type : Option EventType
  pub event_id : Bytes
  pub timestamp : Option ℕ

-- What arrives in the mailbox, the actor's start apart.
pub data Message : Type 0 where
  inbound_auth : Bytes → Message
  auth_timeout_expired : Message
  decode_failed : DecodeFailure → Message
  protocol_violation : Violation → Message
  app_ping_tick app_pong_received pong_timeout_expired : Message
  reregister_retry : Message
  terminated : Pid → Message
  forward_message : ForwardRequest → Message
  notify_room_event : NotifyRequest → Message
  connection_closed : String → Message
  read_pump_panicked : Message
  write_pump_failed : String → String → Message
  write_pump_closed : Bool → Message

-- `NewAuthToken`
unfoldable pub new_auth_token : Bytes → Option Bytes
new_auth_token value = if is_blank (trim_space value) then none else some (trim_space value)

-- `json.Unmarshal` into an envelope and into an auth frame: the field read, "" where it is absent.
pub record Unmarshal : Type 0 where
  pub envelope_type : Bytes → Option Bytes
  pub frame_token : Bytes → Option Bytes

abbrev auth_or_violation : Option Bytes → Message
auth_or_violation none = protocol_violation missing_token
auth_or_violation (some token) = inbound_auth token

abbrev decode_auth : Option Bytes → Message
decode_auth none = decode_failed malformed_json
decode_auth (some raw) = auth_or_violation (new_auth_token raw)

abbrev decode_typed : Unmarshal → Bytes → Option Bytes → Message
decode_typed json frame none = decode_failed malformed_json
decode_typed json frame (some kind) =
    if bytes_eq kind (codes "auth")
    then decode_auth (json.frame_token frame)
    else if bytes_eq kind (codes "pong")
    then app_pong_received
    else decode_failed unknown_type

unfoldable pub decode_inbound_frame : Unmarshal → Bytes → Message
unfolding new_auth_token
decode_inbound_frame json frame =
    if is_blank frame
    then decode_failed malformed_json
    else decode_typed json frame (json.envelope_type frame)
