-- ===== src/Room/Grain.antt =====
-- internal/grain/room/room.go: the handlers `Join`, `Leave` and `PostMessage`. A handler takes the
-- state in memory and the database, and gives both back with its response and the jobs that it
-- hands to the fan-out child. Log lines are left out.
use blabby.Prelude.{ℕ, List, [], ◌∷◌, Option, none, some, String, if◌then◌else◌, Result, ok, err}
use blabby.Text.{Bytes}
use blabby.Id.{parse_id, format_id}
use blabby.Domain.Refs.{UserRef, RoomRef}
use blabby.Domain.MessageText.{new_message_text, message_text_empty, invalid_message_text}
use blabby.Domain.MessageText
use blabby.ErrCode.{
  Code, room_not_found, invalid_request, room_already_member, room_not_member,
  room_owner_cannot_leave, internal_error, missing_field,
}
use blabby.Wire.{UserRefPb, RoomRefPb, ErrorDetail, err_detail, parse_user_ref, proto_room_ref}
use blabby.Room.State.{
  RoomState, add_member, remove_member, refresh_member, record_message, is_member, member_ref,
  member_ids,
}
use blabby.Room.Ports.{
  Event, no_event, is_zero, StoreError, MembershipStore, MessageStore, Job, notify, forward, joined,
  left, build_event, build_forward_message, owner_cannot_leave,
}

-- What a grain is built with, and the reading of its clock.
pub record Env (S : Type 0) : Type 0 where
  pub nfc : Bytes → Bytes
  pub membership : Option (MembershipStore S)
  pub messages : Option (MessageStore S)
  pub now : ℕ

pub record Outcome (S R : Type 0) : Type 0 where
  pub response : R
  pub state : RoomState
  pub store : S
  pub jobs : List Job

pub record JoinResponse : Type 0 where
  pub error : Option ErrorDetail
  pub room : Option RoomRefPb

pub record LeaveResponse : Type 0 where
  pub error : Option ErrorDetail

pub record PostMessageResponse : Type 0 where
  pub error : Option ErrorDetail
  pub timestamp : Option ℕ

abbrev pub join_err : Code → String → JoinResponse
join_err code msg = record { error = some (err_detail code msg); room = none }

abbrev pub join_err_with_room : Code → String → RoomRefPb → JoinResponse
join_err_with_room code msg room = record { error = some (err_detail code msg); room = some room }

abbrev pub leave_err : Code → String → LeaveResponse
leave_err code msg = record { error = some (err_detail code msg) }

abbrev pub post_err : Code → String → PostMessageResponse
post_err code msg = record { error = some (err_detail code msg); timestamp = none }

-- A response that leaves all as it is.
abbrev pub refuse : {S R : Type 0} → RoomState → S → R → Outcome S R
refuse s db resp = record { response = resp; state = s; store = db; jobs = [] }

module _ {S : Type 0} (env : Env S) where
  -- `recordJoin`, `recordLeave` and `recordMessage`: without a store nothing is durable.
  unfoldable pub record_join : ℕ → UserRef → S → Result StoreError Event × S
  record_join room_id joiner db = elim env.membership [
    | none ↦ (ok no_event, db)
    | some store ↦ store.record_join room_id joiner db
  ]

  unfoldable pub record_leave : ℕ → UserRef → S → Result StoreError Event × S
  record_leave room_id leaver db = elim env.membership [
    | none ↦ (ok no_event, db)
    | some store ↦ store.record_leave room_id leaver db
  ]

  unfoldable pub append_message : ℕ → ℕ → Bytes → S → Result StoreError Event × S
  append_message room_id author text db = elim env.messages [
    | none ↦ (ok no_event, db)
    | some store ↦ store.record_message room_id author text db
  ]

  -- `Join`, from the durable write to its end.
  unfoldable pub finish_join :
      RoomState → RoomRef → UserRef → Result StoreError Event × S → Outcome S JoinResponse
  finish_join s room joiner (err e, db) =
      refuse s db
        (join_err_with_room internal_error "failed to record membership" (proto_room_ref room))
  finish_join s room joiner (ok evt, db) =
      let s' = (add_member s joiner).0 in
      record {
        response = record { error = none; room = some (proto_room_ref room) };
        state = s';
        store = db;
        jobs = notify (member_ids s') (build_event joined room joiner evt) ∷ [];
      }

  unfoldable pub join_as : RoomState → S → RoomRef → UserRef → Outcome S JoinResponse
  unfolding finish_join
  join_as s db room joiner =
      if is_member s joiner.id
      then refuse s db (
          join_err_with_room room_already_member "already a member of this room"
            (proto_room_ref room))
      else finish_join s room joiner (record_join room.id joiner db)

  unfoldable pub join : RoomState → S → UserRefPb → Outcome S JoinResponse
  unfolding join_as
  join s db user = elim s.ref [
    | none ↦ refuse s db (join_err room_not_found "room not found")
    | some room ↦ elim (parse_user_ref env.nfc user) [
      | err e ↦ refuse s db (
          join_err_with_room invalid_request "user id and display name are required"
            (proto_room_ref room))
      | ok joiner ↦ join_as s db room joiner
    ]
  ]

  -- `Leave`, from the durable write to its end: the recipients are the members before the removal.
  unfoldable pub finish_leave :
      RoomState → RoomRef → UserRef → ℕ → Result StoreError Event × S → Outcome S LeaveResponse
  finish_leave s room leaver user_id (err owner_cannot_leave, db) =
      refuse s db (leave_err room_owner_cannot_leave "transfer ownership before leaving the room")
  finish_leave s room leaver user_id (err e, db) =
      refuse s db (leave_err internal_error "failed to record membership")
  finish_leave s room leaver user_id (ok evt, db) = record {
    response = record { error = none };
    state = (remove_member s user_id).0;
    store = db;
    jobs = notify (member_ids s) (build_event left room leaver evt) ∷ [];
  }

  unfoldable pub leave_as : RoomState → S → RoomRef → ℕ → Outcome S LeaveResponse
  unfolding finish_leave
  leave_as s db room user_id = elim (member_ref s user_id) [
    | none ↦ refuse s db (leave_err room_not_member "not a member of this room")
    | some leaver ↦ finish_leave s room leaver user_id (record_leave room.id leaver db)
  ]

  unfoldable pub leave : RoomState → S → Bytes → Outcome S LeaveResponse
  unfolding leave_as
  leave s db user = elim s.ref [
    | none ↦ refuse s db (leave_err room_not_found "room not found")
    | some room ↦ elim (parse_id user) [
      | err e ↦ refuse s db (leave_err invalid_request "user_id is required")
      | ok user_id ↦ leave_as s db room user_id
    ]
  ]

  abbrev timestamp_of : Event → ℕ
  timestamp_of evt = if is_zero evt then env.now else evt.occurred_at

  abbrev event_id_of : Event → Bytes
  event_id_of evt = if is_zero evt then [] else format_id evt.id

  -- `PostMessage`, from the durable write to its end.
  unfoldable pub finish_post :
      RoomState
      → RoomRef
      → UserRef
      → Bytes
      → Result StoreError Event × S
      → Outcome S PostMessageResponse
  finish_post s room sender text (err e, db) =
      refuse s db (post_err internal_error "failed to record message")
  finish_post s room sender text (ok evt, db) =
      let timestamp = timestamp_of evt in
      let s' =
        record_message (refresh_member s sender)
          (record { sender_id = sender.id; text = text; timestamp = timestamp }) in
      record {
        response = record { error = none; timestamp = some timestamp };
        state = s';
        store = db;
        jobs =
            forward (member_ids s')
              (build_forward_message room sender text timestamp (event_id_of evt))
            ∷ [];
      }

  unfoldable pub post_as : RoomState → S → RoomRef → UserRef → Bytes → Outcome S PostMessageResponse
  unfolding finish_post
  post_as s db room sender text =
      if is_member s sender.id
      then finish_post s room sender text (append_message room.id sender.id text db)
      else refuse s db (post_err room_not_member "not a member of this room")

  abbrev text_error : MessageText.Error → PostMessageResponse
  text_error message_text_empty = post_err missing_field "text is required"
  text_error invalid_message_text =
      post_err invalid_request
        "text must be at most 4096 bytes of valid UTF-8 without control characters other than newline and tab"

  unfoldable pub post_message : RoomState → S → UserRefPb → Bytes → Outcome S PostMessageResponse
  unfolding post_as
  post_message s db user raw = elim s.ref [
    | none ↦ refuse s db (post_err room_not_found "room not found")
    | some room ↦ elim (parse_user_ref env.nfc user) [
      | err e ↦ refuse s db (post_err invalid_request "user id and display name are required")
      | ok sender ↦ elim (new_message_text env.nfc raw) [
        | err e ↦ refuse s db (text_error e)
        | ok text ↦ post_as s db room sender text
      ]
    ]
  ]
