-- ===== src/Room/Roles.antt =====
-- internal/grain/room/roles.go: the handlers `SetMemberRole` and `TransferOwnership`. Neither
-- changes the state in memory or fans anything out, so a handler gives back its response and the
-- database.
use blabby.Prelude.{ℕ, Option, none, some, String, Result, ok, err, if◌then◌else◌, not}
use blabby.Text.{Bytes}
use blabby.Id.{parse_id}
use blabby.Domain.Membership.{MembershipRole, is_owner, parse_membership_role}
use blabby.Domain.Refs.{RoomRef}
use blabby.ErrCode.{
  Code, room_not_found, invalid_request, room_not_member, room_permission_denied, internal_error,
}
use blabby.Wire.{UserRefPb, ErrorDetail, err_detail, parse_user_ref}
use blabby.Room.State.{RoomState, is_member}
use blabby.Room.Ports.{StoreError, role_permission_denied}
use blabby.Room.Grain.{Env}

abbrev pub Reply : Type 0 → Type 0
Reply S = Option ErrorDetail × S

abbrev refused : {S : Type 0} → S → Code → String → Reply S
refused db code msg = (some (err_detail code msg), db)

-- The role that a request names, unless that is the owner's.
unfoldable pub requested_role : String → Option MembershipRole
requested_role raw = elim (parse_membership_role raw) [
  | none ↦ none
  | some role ↦ if is_owner role then none else some role
]

module _ {S : Type 0} (env : Env S) where
  unfoldable pub finish_set_role : Result StoreError (Unit {0}) × S → Reply S
  finish_set_role (ok _, db) = (none, db)
  finish_set_role (err role_permission_denied, db) =
      refused db room_permission_denied "your role does not permit changing member roles"
  finish_set_role (err e, db) = refused db internal_error "failed to record role change"

  unfoldable pub set_role_as : RoomState → S → RoomRef → ℕ → ℕ → MembershipRole → Reply S
  unfolding finish_set_role
  set_role_as s db room actor target role =
      if not (is_member s actor)
      then refused db room_not_member "not a member of this room"
      else if not (is_member s target)
      then refused db room_not_member "target is not a member of this room"
      else elim env.membership [
        | none ↦ refused db internal_error "role management unavailable"
        | some store ↦ finish_set_role (store.record_role_change room.id actor target role db)
      ]

  unfoldable pub set_member_role : RoomState → S → UserRefPb → Bytes → String → Reply S
  unfolding set_role_as requested_role
  set_member_role s db user target raw = elim s.ref [
    | none ↦ refused db room_not_found "room not found"
    | some room ↦ elim (parse_user_ref env.nfc user) [
      | err e ↦ refused db invalid_request "actor id and display name are required"
      | ok actor ↦ elim (parse_id target) [
        | err e ↦ refused db invalid_request "target_user_id is required"
        | ok target_id ↦ elim (requested_role raw) [
          | none ↦ refused db invalid_request "role must be admin or member"
          | some role ↦ set_role_as s db room actor.id target_id role
        ]
      ]
    ]
  ]

  unfoldable pub finish_transfer : Result StoreError (Unit {0}) × S → Reply S
  finish_transfer (ok _, db) = (none, db)
  finish_transfer (err role_permission_denied, db) =
      refused db room_permission_denied "only the owner can transfer ownership"
  finish_transfer (err e, db) = refused db internal_error "failed to record ownership transfer"

  unfoldable pub transfer_as : RoomState → S → RoomRef → ℕ → ℕ → Reply S
  unfolding finish_transfer
  transfer_as s db room actor new_owner =
      if not (is_member s actor)
      then refused db room_not_member "not a member of this room"
      else if not (is_member s new_owner)
      then refused db room_not_member "new owner is not a member of this room"
      else elim env.membership [
        | none ↦ refused db internal_error "role management unavailable"
        | some store ↦ finish_transfer (store.record_ownership_transfer room.id actor new_owner db)
      ]

  unfoldable pub transfer_ownership : RoomState → S → UserRefPb → Bytes → Reply S
  unfolding transfer_as
  transfer_ownership s db user new_owner = elim s.ref [
    | none ↦ refused db room_not_found "room not found"
    | some room ↦ elim (parse_user_ref env.nfc user) [
      | err e ↦ refused db invalid_request "actor id and display name are required"
      | ok actor ↦ elim (parse_id new_owner) [
        | err e ↦ refused db invalid_request "new_owner_user_id is required"
        | ok new_owner_id ↦ transfer_as s db room actor.id new_owner_id
      ]
    ]
  ]
