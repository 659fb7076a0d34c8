-- ===== src/Wire.antt =====
-- The protobuf messages of proto/common, proto/room and proto/user that the grains exchange, and
-- the grains' parsing and building of the references in them (internal/grain/room/room.go and
-- events.go, internal/grain/user/user.go). A nil reference reads as one with empty fields, which is
-- what the generated getters give.
pub mod RoundTrip
mod Examples
use blabby.Prelude.{
  ℕ, [], Option, none, some, String, Result, ok, err, ◌>>=◌, map_err, or_err, ℤ, pos,
}
use blabby.Text.{Bytes}
use blabby.Id
use blabby.PublicCode
use blabby.Domain.Refs
use blabby.Domain.Refs.{
  UserRef, RoomRef, new_user_ref, new_room_ref, status_label, parse_room_status,
}
use blabby.ErrCode.{Code, number, status_of}

pub record UserRefPb : Type 0 where
  pub id : Bytes
  pub name : Bytes
  pub public_code : Bytes

pub record RoomRefPb : Type 0 where
  pub room_id : Bytes
  pub public_code : Bytes
  pub name : Bytes
  pub status : String
  pub metadata_version : ℕ

abbrev pub nil_room_ref : RoomRefPb
nil_room_ref = record {
  room_id = [];
  public_code = [];
  name = [];
  status = "";
  metadata_version = 0;
}

pub record ErrorDetail : Type 0 where
  pub code : ℤ
  pub status : String
  pub message : String

-- `errDetail` and the detail in `joinErr`, `leaveErr`, `postErr`, `setRoleErr` and `transferErr`.
abbrev pub err_detail : Code → String → ErrorDetail
err_detail code message = record {
  code = pos (number code);
  status = status_of code;
  message = message;
}

pub data Error : Type 0 where
  bad_id : Id.Error → Error
  bad_code : PublicCode.Error → Error
  bad_ref : Refs.Error → Error
  bad_status : Error

-- `parseUserRef`
unfoldable pub parse_user_ref : (Bytes → Bytes) → UserRefPb → Result Error UserRef
parse_user_ref nfc p = do
  user_id ← map_err bad_id (Id.parse_id p.id)
  code ← map_err bad_code (PublicCode.parse_public_code p.public_code)
  map_err bad_ref (new_user_ref nfc user_id code p.name)

-- `parseRoomRef`
unfoldable pub parse_room_ref : (Bytes → Bytes) → RoomRefPb → Result Error RoomRef
parse_room_ref nfc p = do
  room_id ← map_err bad_id (Id.parse_id p.room_id)
  code ← map_err bad_code (PublicCode.parse_public_code p.public_code)
  status ← or_err (parse_room_status p.status) bad_status
  map_err bad_ref (new_room_ref nfc room_id code p.name (status_label status) p.metadata_version)

unfoldable pub proto_user_ref : UserRef → UserRefPb
proto_user_ref u = record { id = Id.format_id u.id; name = u.name; public_code = u.public_code }

unfoldable pub proto_room_ref : RoomRef → RoomRefPb
proto_room_ref r = record {
  room_id = Id.format_id r.id;
  public_code = r.public_code;
  name = r.name;
  status = status_label r.status;
  metadata_version = r.metadata_version;
}
