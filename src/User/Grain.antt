-- ===== src/User/Grain.antt =====
-- internal/grain/user/user.go and roles.go: the handlers `JoinRoom`, `LeaveRoom`, `SendMessage`,
-- `SetRoomMemberRole` and `TransferRoomOwnership`. The rooms are reached through the port of
-- room_client.go, over the state `W` of all that is remote. Log lines are left out.
use blabby.Prelude.{
  ℕ, Option, none, some, Bool, true, false, String, Result, ok, err, if◌then◌else◌,
}
use blabby.Text.{Bytes, trim_space}
use blabby.Id.{parse_id}
use blabby.Domain.Refs.{RoomRef, is_blank}
use blabby.ErrCode
use blabby.ErrCode.{
  Code, invalid_request, missing_field, internal_error, room_already_member, room_not_member,
}
use blabby.Wire
use blabby.Wire.{UserRefPb, RoomRefPb, nil_room_ref, ErrorDetail, err_detail, parse_room_ref}
use blabby.Room.Grain.{JoinResponse, LeaveResponse, PostMessageResponse}
use blabby.User.State.{UserState, join_room, leave_room}

-- A call that did not reach the room.
pub data TransportError : Type 0 where
  unreachable : TransportError

-- `roomClient`
pub record RoomClient (W : Type 0) : Type 0 where
  pub join : ℕ → UserRefPb → W → Result TransportError JoinResponse × W
  pub leave : ℕ → Bytes → W → Result TransportError LeaveResponse × W
  pub post_message : ℕ → UserRefPb → Bytes → W → Result TransportError PostMessageResponse × W
  pub set_member_role :
      ℕ → UserRefPb → Bytes → String → W → Result TransportError (Option ErrorDetail) × W
  pub transfer_ownership :
      ℕ → UserRefPb → Bytes → W → Result TransportError (Option ErrorDetail) × W

-- The fields of a grain that no command changes.
pub record Self (W : Type 0) : Type 0 where
  pub nfc : Bytes → Bytes
  pub identity : Bytes
  pub user : UserRefPb
  pub rooms : RoomClient W

-- The error of a response, the state and what is remote.
abbrev pub Reply : Type 0 → Type 0
Reply W = Option ErrorDetail × UserState × W

abbrev refuse : {W : Type 0} → UserState → W → ErrorDetail → Reply W
refuse s w detail = (some detail, s, w)

abbrev pub settle_error : ErrorDetail → Result ErrCode.ParseError Code → Code × ErrorDetail
settle_error detail (err e) = (internal_error, err_detail internal_error "room operation failed")
settle_error detail (ok code) = (code, err_detail code detail.message)

unfoldable pub parse_room_error : ErrorDetail → Code × ErrorDetail
parse_room_error detail = settle_error detail (ErrCode.parse detail.code detail.status)

-- The error in a room's response, unless it has the code that the command takes for success.
abbrev pub is_already_member : Code → Bool
is_already_member room_already_member = true
is_already_member _ = false

abbrev pub is_not_member : Code → Bool
is_not_member room_not_member = true
is_not_member _ = false

abbrev pub pass_or_forward : (Code → Bool) → Code × ErrorDetail → Option ErrorDetail
pass_or_forward passes (code, detail) = if passes code then none else some detail

unfoldable pub forwarded : (Code → Bool) → Option ErrorDetail → Option ErrorDetail
unfolding parse_room_error
forwarded passes none = none
forwarded passes (some room_err) = pass_or_forward passes (parse_room_error room_err)

abbrev pub never : Code → Bool
never code = false

abbrev pub room_or_nil : Option RoomRefPb → RoomRefPb
room_or_nil none = nil_room_ref
room_or_nil (some p) = p

module _ {W : Type 0} (g : Self W) where
  -- `JoinRoom`, from the check of the room's answer to its end.
  abbrev pub settle_join : UserState → W → Option ErrorDetail → Result Wire.Error RoomRef → Reply W
  settle_join s w (some detail) ref = refuse s w detail
  settle_join s w none (err e) = refuse s w (err_detail internal_error "room operation failed")
  settle_join s w none (ok ref) = (none, join_room s ref, w)

  unfoldable pub finish_join : UserState → Result TransportError JoinResponse × W → Reply W
  finish_join s (err e, w) = refuse s w (err_detail internal_error "failed to reach room")
  finish_join s (ok resp, w) =
      settle_join s w (forwarded is_already_member resp.error)
        (parse_room_ref g.nfc (room_or_nil resp.room))

  unfoldable pub join_room_request : UserState → W → Bytes → Reply W
  unfolding finish_join
  join_room_request s w raw = elim (parse_id raw) [
    | err e ↦ refuse s w (err_detail invalid_request "room_id is required")
    | ok room_id ↦ finish_join s (g.rooms.join room_id g.user w)
  ]

  abbrev pub settle_leave : UserState → ℕ → W → Option ErrorDetail → Reply W
  settle_leave s room_id w (some detail) = refuse s w detail
  settle_leave s room_id w none = (none, leave_room s room_id, w)

  unfoldable pub finish_leave : UserState → ℕ → Result TransportError LeaveResponse × W → Reply W
  finish_leave s room_id (err e, w) = refuse s w (err_detail internal_error "failed to reach room")
  finish_leave s room_id (ok resp, w) =
      settle_leave s room_id w (forwarded is_not_member resp.error)

  unfoldable pub leave_room_request : UserState → W → Bytes → Reply W
  unfolding finish_leave
  leave_room_request s w raw = elim (parse_id raw) [
    | err e ↦ refuse s w (err_detail invalid_request "room_id is required")
    | ok room_id ↦ finish_leave s room_id (g.rooms.leave room_id g.identity w)
  ]

  -- The response of `SendMessage` has a time where it has no error.
  abbrev pub settle_send : Option ErrorDetail → Option ℕ → PostMessageResponse
  settle_send (some detail) t = record { error = some detail; timestamp = none }
  settle_send none t = record { error = none; timestamp = t }

  unfoldable pub finish_send :
      Result TransportError PostMessageResponse × W → PostMessageResponse × W
  finish_send (err e, w) =
      (settle_send (some (err_detail internal_error "failed to reach room")) none, w)
  finish_send (ok resp, w) = (settle_send (forwarded never resp.error) resp.timestamp, w)

  unfoldable pub send_checked : W → ℕ → Bytes → PostMessageResponse × W
  unfolding finish_send
  send_checked w room_id text =
      if is_blank (trim_space text)
      then (
        record { error = some (err_detail missing_field "text is required"); timestamp = none },
        w,
      )
      else finish_send (g.rooms.post_message room_id g.user text w)

  unfoldable pub send_message : W → Bytes → Bytes → PostMessageResponse × W
  unfolding send_checked
  send_message w raw text = elim (parse_id raw) [
    | err e ↦ (
      record { error = some (err_detail invalid_request "room_id is required"); timestamp = none },
      w,
    )
    | ok room_id ↦ send_checked w room_id text
  ]

  unfoldable pub finish_relay :
      Result TransportError (Option ErrorDetail) × W → Option ErrorDetail × W
  finish_relay (err e, w) = (some (err_detail internal_error "failed to reach room"), w)
  finish_relay (ok error, w) = (forwarded never error, w)

  unfoldable pub set_room_member_role : W → Bytes → Bytes → String → Option ErrorDetail × W
  unfolding finish_relay
  set_room_member_role w raw target role = elim (parse_id raw) [
    | err e ↦ (some (err_detail invalid_request "room_id is required"), w)
    | ok room_id ↦ finish_relay (g.rooms.set_member_role room_id g.user target role w)
  ]

  unfoldable pub transfer_room_ownership : W → Bytes → Bytes → Option ErrorDetail × W
  unfolding finish_relay
  transfer_room_ownership w raw new_owner = elim (parse_id raw) [
    | err e ↦ (some (err_detail invalid_request "room_id is required"), w)
    | ok room_id ↦ finish_relay (g.rooms.transfer_ownership room_id g.user new_owner w)
  ]
