-- ===== src/Room/State.antt =====
-- internal/grain/room/state.go: the state in memory of a Room grain.
pub mod Window
use blabby.Prelude.{
  ℕ, suc, zero, List, [], ◌∷◌, ◌++◌, Option, none, some, Bool, true, false, leb, if◌then◌else◌,
  length, drop, ℤ, pos, negsuc,
}
use blabby.Text.{Bytes}
use blabby.Map.{lookup, insert, delete, has_key, keys, sort, is_some}
use blabby.Domain.Refs.{UserRef, RoomRef}

abbrev pub max_recent_messages : ℕ
max_recent_messages = 100

pub record ChatMessage : Type 0 where
  pub sender_id : ℕ
  pub text : Bytes
  pub timestamp : ℕ

-- `ref` is the source's pair of `ref` and `refLoaded`.
pub record RoomState : Type 0 where
  pub ref : Option RoomRef
  pub members : List (ℕ × UserRef)
  pub recent_messages : List ChatMessage
  pub max_recent : ℤ

unfoldable pub new_room_state : RoomState
new_room_state = record {
  ref = none;
  members = [];
  recent_messages = [];
  max_recent = pos max_recent_messages;
}

unfoldable pub load_room : RoomState → RoomRef → RoomState
load_room s ref = record s { ref = some ref }

abbrev pub is_loaded : RoomState → Bool
is_loaded s = is_some s.ref

abbrev pub is_member : RoomState → ℕ → Bool
is_member s user_id = has_key user_id s.members

abbrev pub member_ref : RoomState → ℕ → Option UserRef
member_ref s user_id = lookup user_id s.members

-- Each returns the state and the source's Boolean result.
unfoldable pub add_member : RoomState → UserRef → RoomState × Bool
add_member s ref =
    if is_member s ref.id
    then (s, false)
    else (record s { members = insert ref.id ref s.members }, true)

unfoldable pub refresh_member : RoomState → UserRef → RoomState
refresh_member s ref =
    if is_member s ref.id then record s { members = insert ref.id ref s.members } else s

unfoldable pub remove_member : RoomState → ℕ → RoomState × Bool
remove_member s user_id =
    if is_member s user_id
    then (record s { members = delete user_id s.members }, true)
    else (s, false)

-- A bound that is not positive falls back to the default.
abbrev pub effective_bound : ℤ → ℕ
effective_bound (negsuc n) = max_recent_messages
effective_bound (pos zero) = max_recent_messages
effective_bound (pos (suc n)) = suc n

-- `recordMessage` on the buffer.
unfoldable pub push_recent : ℕ → List ChatMessage → ChatMessage → List ChatMessage
push_recent bound recent msg =
    (if leb bound (length recent) then drop 1 recent else recent) ++ msg ∷ []

unfoldable pub record_message : RoomState → ChatMessage → RoomState
unfolding push_recent
record_message s msg = record s {
  recent_messages = push_recent (effective_bound s.max_recent) s.recent_messages msg;
}

unfoldable pub member_ids : RoomState → List ℕ
member_ids s = sort (keys s.members)
