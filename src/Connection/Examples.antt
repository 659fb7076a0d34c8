-- ===== src/Connection/Examples.antt =====
-- The theorems on connections at a concrete client: Ada (7), who is in a room, and who loses her grain.
use blabby.Prelude.{
  ℕ, suc, zero, List, [], ◌∷◌, ◌++◌, Option, none, some, Bool, true, false, Result, ok, err, ◌≡◌,
  refl, arith, length, ◌≤◌,
}
use blabby.Text.{Bytes, codes}
use blabby.Wire.{UserRefPb, RoomRefPb}
use blabby.Room.Ports.{joined}
use blabby.Connection.Messages.{
  Pid, app_ping, close_connection, Violation, inbound_auth, auth_timeout_expired,
  protocol_violation, app_ping_tick, terminated, forward_message, notify_room_event,
}
use blabby.Connection.Heartbeat.{Cadence}
use blabby.Prelude.{pos}
use blabby.Connection.Actor.{
  Connection, Remote, RegisterResponse, TransportError, unreachable, started, closing, Rejection,
  handle_auth, register_claims, token_expired, outbound_buffer_size,
}
use blabby.ErrCode.{auth_expired_token, auth_missing_token}
use blabby.Connection.Behaviour.{receive}
use blabby.Connection.Run.{Event, delivered, taken, run}
use blabby.Connection.Encoder.{Socket}
use blabby.Connection.Protocol.{awaiting, refused_with, sent_follows_protocol}
use blabby.Connection.Phases.{Phase, greeting, reaches}
use blabby.Connection.Retry.{connection-Bounded}
use blabby.Connection.Bounds.{Bounded}
use blabby.Connection.Closing.{three_failures_close, after_three}

abbrev grain : Pid
grain = record { address = codes "node-1:8090"; id = codes "user/7" }

abbrev self : Pid
self = record { address = codes "gate-1:8090"; id = codes "conn/3" }

abbrev accepting : Bytes → Pid → Unit {0} → Result TransportError RegisterResponse × Unit {0}
accepting user pid w = (ok (record { error = none; grain_pid = grain }), w)

abbrev failing : Bytes → Pid → Unit {0} → Result TransportError RegisterResponse × Unit {0}
failing user pid w = (err unreachable, w)

abbrev remote : Remote (Unit {0})
remote = record {
  validate_token = λ token w. (ok (some 7), w);
  register_connection = some accepting;
  self = self;
}

abbrev cadence : Option Cadence
cadence = some (record { ping_interval = pos 30; pong_timeout = pos 60 })

abbrev room : RoomRefPb
room = record {
  room_id = codes "9";
  public_code = codes "K7M3P9X2WQ";
  name = codes "Lobby";
  status = "active";
  metadata_version = 3;
}

abbrev ada : UserRefPb
ada = record { id = codes "7"; name = codes "Ada"; public_code = codes "K7M3P9X2WQ" }

abbrev events : List Event
events =
    delivered app_ping_tick
    ∷ delivered (inbound_auth (codes "token"))
    ∷ taken
    ∷ delivered (
        forward_message (record {
          room = some room;
          sender = some ada;
          text = codes "hi";
          timestamp = some 5;
          event_id = codes "12";
        }))
    ∷ delivered (
        notify_room_event (record {
          room = some room;
          user = some ada;
          event_type = some joined;
          event_id = codes "13";
          timestamp = none;
        }))
    ∷ delivered (terminated grain)
    ∷ []

-- A gateway at which every token has expired, and a connection that awaits its authentication.
abbrev expired : Remote (Unit {0})
expired = record {
  validate_token = λ token w. (err token_expired, w);
  register_connection = none;
  self = self;
}

abbrev waiting : Connection (Unit {0})
waiting = started cadence tt

abbrev expiry : Rejection
expiry = record { code = auth_expired_token; message = "token has expired"; reason = "expired" }

sent_follows_protocol_example :
    ((p : Phase) × (reaches (some greeting) (run expired waiting events).sent ≡ some p))
    × ((receive expired (inbound_auth (codes "token")) (awaiting waiting)).1.sent
        ≡ refused_with waiting auth_expired_token "token has expired" "expired")
    × ((receive expired auth_timeout_expired (awaiting waiting)).1.sent
        ≡ refused_with waiting auth_missing_token "authentication timeout" "auth_timeout")
    × ((violation : Violation)
        → (receive expired (protocol_violation violation) (awaiting waiting)).1.sent
          ≡ refused_with waiting auth_missing_token "missing authentication token" "missing_token")
unfolding handle_auth register_claims started
sent_follows_protocol_example =
    sent_follows_protocol expired cadence tt events waiting (codes "token") expiry (omega arith)
      refl

connection-Bounded_example :
    (length (run remote (started cadence tt) events).outbound ≤ outbound_buffer_size)
    × ((run remote (started cadence tt) events).is_open ≡ true
        → Bounded (run remote (started cadence tt) events))
connection-Bounded_example = connection-Bounded remote cadence tt events

abbrev ada_connection : Connection (Unit {0})
ada_connection = record {
  behaviour = closing;
  user_id = some 7;
  grain_pid = some grain;
  attempts = 0;
  retry_pending = false;
  outbound = app_ping ∷ [];
  timers = record { cadence = none; pinging = false; watchdog = false };
  is_open = true;
  stopping = false;
  sent = app_ping ∷ [];
  watched = [];
  world = tt;
}

three_failures_close_example :
    ((after_three remote failing grain ada_connection).behaviour ≡ closing)
    × ((after_three remote failing grain ada_connection).outbound
        ≡ (app_ping ∷ []) ++ close_connection "reregister_failed" ∷ [])
    × ((after_three remote failing grain ada_connection).retry_pending ≡ false)
unfolding blabby.Text.bytes_eq
three_failures_close_example =
    three_failures_close remote failing grain ada_connection (λ user pid w. refl) refl (omega arith)

-- A socket that takes two calls and then fails; its state counts what is left.
abbrev use_up : ℕ → Bool × ℕ
use_up zero = (false, 0)
use_up (suc n) = (true, n)

abbrev flaky : Socket ℕ
flaky = record {
  set_write_deadline = use_up;
  write_message = λ f n. use_up n;
  write_close = use_up;
}
