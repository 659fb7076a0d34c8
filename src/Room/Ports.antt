-- ===== src/Room/Ports.antt =====
-- What a Room grain calls: the ports of membership.go and message.go over a database of type `S`,
-- and the messages that it sends out (fanout.go and events.go).
use blabby.Prelude.{ℕ, List, [], Option, none, some, Bool, ◌==◌, if◌then◌else◌, Result}
use blabby.Text.{Bytes}
use blabby.Id.{format_id}
use blabby.Domain.Membership.{MembershipRole}
use blabby.Domain.Refs.{UserRef, RoomRef}
use blabby.Wire.{UserRefPb, RoomRefPb, proto_user_ref, proto_room_ref}

-- `MembershipEvent` and `MessageEvent`; an instant is a number, and the zero time is 0.
pub record Event : Type 0 where
  pub id : ℕ
  pub occurred_at : ℕ

abbrev pub no_event : Event
no_event = record { id = 0; occurred_at = 0 }

abbrev pub is_zero : Event → Bool
is_zero evt = evt.occurred_at == 0

-- `database` stands for every failure of a statement, a transaction or the id source.
pub data StoreError : Type 0 where
  owner_cannot_leave role_permission_denied membership_not_found : StoreError
  not_a_member not_the_owner duplicate_row database : StoreError

-- `MembershipStore` without `LoadMembers`, which only an activation calls.
pub record MembershipStore (S : Type 0) : Type 0 where
  pub record_join : ℕ → UserRef → S → Result StoreError Event × S
  pub record_leave : ℕ → UserRef → S → Result StoreError Event × S
  pub record_role_change : ℕ → ℕ → ℕ → MembershipRole → S → Result StoreError (Unit {0}) × S
  pub record_ownership_transfer : ℕ → ℕ → ℕ → S → Result StoreError (Unit {0}) × S

pub record MessageStore (S : Type 0) : Type 0 where
  pub record_message : ℕ → ℕ → Bytes → S → Result StoreError Event × S

pub data EventType : Type 0 where
  joined left : EventType

-- `NotifyRoomEventRequest`; an unset id is empty.
pub record RoomEvent : Type 0 where
  pub room : RoomRefPb
  pub user : UserRefPb
  pub event_type : EventType
  pub event_id : Bytes
  pub timestamp : Option ℕ

-- `ForwardMessageRequest`
pub record Forward : Type 0 where
  pub room : RoomRefPb
  pub sender : UserRefPb
  pub text : Bytes
  pub timestamp : ℕ
  pub event_id : Bytes

-- `buildJoinedEvent` and `buildLeftEvent`, with `applyMembershipEvent`.
unfoldable pub build_event : EventType → RoomRef → UserRef → Event → RoomEvent
build_event kind room user evt = record {
  room = proto_room_ref room;
  user = proto_user_ref user;
  event_type = kind;
  event_id = if is_zero evt then [] else format_id evt.id;
  timestamp = if is_zero evt then none else some evt.occurred_at;
}

unfoldable pub build_forward_message : RoomRef → UserRef → Bytes → ℕ → Bytes → Forward
build_forward_message room sender text timestamp event_id = record {
  room = proto_room_ref room;
  sender = proto_user_ref sender;
  text = text;
  timestamp = timestamp;
  event_id = event_id;
}

-- `fanoutNotify` and `fanoutForward`: the recipients and the payload.
pub data Job : Type 0 where
  notify : List ℕ → RoomEvent → Job
  forward : List ℕ → Forward → Job
