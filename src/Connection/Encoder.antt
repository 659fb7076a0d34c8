-- ===== src/Connection/Encoder.antt =====
-- internal/actor/connection/encoder.go and write_pump.go: the frames that a client is sent, before
-- `json.Marshal` prints them, and the pump that writes them.
use blabby.Prelude.{ℕ, ◌/◌, List, [], ◌∷◌, Option, none, some, Bool, true, false, String}
use blabby.Text.{Bytes}
use blabby.ErrCode.{Code, number, status_of}
use blabby.Connection.Messages.{
  UserRef, Chat, Member, Outbound, auth_succeeded, auth_failed, chat_delivered, room_joined,
  room_left, error_response, app_ping, close_connection, Message, write_pump_closed,
  write_pump_failed,
}

pub data Json : Type 0 where
  label : String → Json
  text : Bytes → Json
  int : ℕ → Json
  user : UserRef → Json

pub record Frame : Type 0 where
  pub kind : String
  pub fields : List (String × Json)

-- `timestampMillis`; an instant counts nanoseconds since the Unix epoch.
abbrev timestamp_millis : Option ℕ → ℕ
timestamp_millis none = 0
timestamp_millis (some t) = t / 1000000

abbrev error_fields : String → Code → String → List (String × Json)
error_fields kind code message =
    ("type", label kind)
    ∷ ("code", int (number code))
    ∷ ("status", label (status_of code))
    ∷ ("message", label message)
    ∷ []

abbrev member_fields : String → Member → List (String × Json)
member_fields kind m =
    ("type", label kind)
    ∷ ("room_id", text m.room_id)
    ∷ ("event_id", text m.event_id)
    ∷ ("user", user m.user)
    ∷ ("timestamp", int (timestamp_millis m.at))
    ∷ []

abbrev message_fields : Chat → List (String × Json)
message_fields m =
    ("type", label "message")
    ∷ ("room_id", text m.room_id)
    ∷ ("event_id", text m.event_id)
    ∷ ("sender", user m.sender)
    ∷ ("text", text m.text)
    ∷ ("timestamp", int (timestamp_millis m.timestamp))
    ∷ []

unfoldable pub encode_outbound_message : Outbound → Option Frame
encode_outbound_message auth_succeeded =
    some (record { kind = "auth_ok"; fields = ("type", label "auth_ok") ∷ [] })
encode_outbound_message (auth_failed code message) =
    some (record { kind = "auth_error"; fields = error_fields "auth_error" code message })
encode_outbound_message (chat_delivered m) =
    some (record { kind = "message"; fields = message_fields m })
encode_outbound_message (room_joined m) =
    some (record { kind = "event"; fields = member_fields "joined" m })
encode_outbound_message (room_left m) =
    some (record { kind = "event"; fields = member_fields "left" m })
encode_outbound_message (error_response code message) =
    some (record { kind = "error"; fields = error_fields "error" code message })
encode_outbound_message app_ping =
    some (record { kind = "ping"; fields = ("type", label "ping") ∷ [] })
encode_outbound_message (close_connection reason) = none

-- The socket, with a state of its own: each call says whether it succeeds.
pub record Socket (S : Type 0) : Type 0 where
  pub set_write_deadline : S → Bool × S
  pub write_message : Frame → S → Bool × S
  pub write_close : S → Bool × S

-- What the `select` of the pump's loop yields: a message of its channel, or the end of its context, or the
-- end of the channel.
pub data Selected : Type 0 where
  received : Outbound → Selected
  cancelled channel_closed : Selected

-- How a run of the pump over what it selects ends: the notification, if there is one, and the frames that
-- were written.
pub record Pumped (S : Type 0) : Type 0 where
  pub notified : Option Message
  pub written : List Frame
  pub socket : S

abbrev stop_with : {S : Type 0} → Message → S → Pumped S
stop_with m s = record { notified = some m; written = []; socket = s }

abbrev pub stop_silently : {S : Type 0} → S → Pumped S
stop_silently s = record { notified = none; written = []; socket = s }

abbrev wrote : {S : Type 0} → Frame → Pumped S → Pumped S
wrote f p = record p { written = f ∷ p.written }

-- `runWritePump` over what its loop selects; where the list ends, it waits for more.
unfoldable pub run_write_pump : {S : Type 0} → Socket S → S → List Selected → Pumped S
unfolding encode_outbound_message
run_write_pump k s [] = stop_silently s
run_write_pump k s (cancelled ∷ ms) = stop_silently s
run_write_pump k s (channel_closed ∷ ms) = stop_silently s
run_write_pump k s (received (close_connection reason) ∷ ms) =
    let (done, s') = k.write_close s in stop_with (write_pump_closed done) s'
run_write_pump k s (received m ∷ ms) = elim (encode_outbound_message m) [
  | none ↦ run_write_pump k s ms
  | some f ↦
      let (ready, s1) = k.set_write_deadline s in
      let (done, s2) = k.write_message f s1 in
      elim ready [
        | false ↦ stop_with (write_pump_failed "write_deadline_error" f.kind) s1
        | true ↦ elim done [
          | false ↦ stop_with (write_pump_failed "write_error" f.kind) s2
          | true ↦ wrote f (run_write_pump k s2 ms)
        ]
      ]
]
