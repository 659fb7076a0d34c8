-- ===== src/Domain/Refs.antt =====
-- internal/domain/user.go and room.go: the snapshots of users and rooms that travel with messages.
use blabby.Prelude.{
  ℕ, [], Option, none, some, String, str_eq, Result, ok, ◌>>=◌, ◌>>◌, ensure, or_err, Bool, true,
  false, not, leb, ◌==◌, length, if◌then◌else◌, ◌≡◌, ◌≤◌, arith, ◌≢◌,
}
use blabby.Text.{Bytes, trim_space}

abbrev pub max_user_name_bytes : ℕ
max_user_name_bytes = 256

abbrev pub max_room_name_bytes : ℕ
max_room_name_bytes = 64

pub data Error : Type 0 where
  zero_id zero_public_code blank_name long_name unknown_status : Error

pub data RoomStatus : Type 0 where
  active archived : RoomStatus

abbrev pub status_label : RoomStatus → String
status_label active = "active"
status_label archived = "archived"

unfoldable pub parse_room_status : String → Option RoomStatus
parse_room_status raw =
    if str_eq raw "active"
    then some active
    else if str_eq raw "archived"
    then some archived
    else none

pub record UserRef : Type 0 where
  pub id : ℕ
  pub public_code : Bytes
  pub name : Bytes

pub record RoomRef : Type 0 where
  pub id : ℕ
  pub public_code : Bytes
  pub name : Bytes
  pub status : RoomStatus
  pub metadata_version : ℕ

abbrev pub is_blank : Bytes → Bool
is_blank [] = true
is_blank _ = false

-- The name rule that both constructors share.
unfoldable pub check_name : (Bytes → Bytes) → ℕ → Bytes → Result Error Bytes
check_name nfc bound name = do
  let trimmed = trim_space (nfc name)
  ensure (not (is_blank trimmed)) blank_name
  ensure (leb (length trimmed) bound) long_name
  ok trimmed

-- `NewUserRef`
unfoldable pub new_user_ref : (Bytes → Bytes) → ℕ → Bytes → Bytes → Result Error UserRef
unfolding check_name
new_user_ref nfc user_id public_code name = do
  ensure (not (user_id == 0)) zero_id
  ensure (not (is_blank public_code)) zero_public_code
  trimmed ← check_name nfc max_user_name_bytes name
  ok (record { id = user_id; public_code = public_code; name = trimmed })

-- `NewRoomRef`, with the fields of `RoomRefParams` as arguments; the status is the raw label.
unfoldable pub new_room_ref :
    (Bytes → Bytes) → ℕ → Bytes → Bytes → String → ℕ → Result Error RoomRef
unfolding check_name
new_room_ref nfc room_id public_code name status version = do
  ensure (not (room_id == 0)) zero_id
  ensure (not (is_blank public_code)) zero_public_code
  parsed ← or_err (parse_room_status status) unknown_status
  trimmed ← check_name nfc max_room_name_bytes name
  ok (record {
    id = room_id;
    public_code = public_code;
    name = trimmed;
    status = parsed;
    metadata_version = version;
  })

-- What a reference needs before it may travel: an id, a public code, and a name within the bound.
pub record IsLabelled (bound id : ℕ) (public_code name : Bytes) : Type 0 where
  pub has_id : id ≢ 0
  pub has_code : is_blank public_code ≡ false
  pub has_name : is_blank name ≡ false
  pub name_fits : length name ≤ bound

-- A user reference that was built keeps its id and code, and can label its user.
pub new_user_ref-IsLabelled :
    (nfc : Bytes → Bytes) (id : ℕ) (code name : Bytes) (ref : UserRef)
    → new_user_ref nfc id code name ≡ ok ref
    → (ref.id ≡ id)
      × (ref.public_code ≡ code)
      × IsLabelled max_user_name_bytes ref.id ref.public_code ref.name
unfolding new_user_ref
new_user_ref-IsLabelled nfc id code name ref e = ground arith

-- The same of a room reference, whose status is the one that the label names.
pub new_room_ref-IsLabelled :
    (nfc : Bytes → Bytes) (id : ℕ) (code name : Bytes) (status : String) (version : ℕ)
    (ref : RoomRef)
    → new_room_ref nfc id code name status version ≡ ok ref
    → (ref.id ≡ id)
      × (ref.public_code ≡ code)
      × (parse_room_status status ≡ some ref.status)
      × (ref.metadata_version ≡ version)
      × IsLabelled max_room_name_bytes ref.id ref.public_code ref.name
unfolding new_room_ref
new_room_ref-IsLabelled nfc id code name status version ref e = ground arith
