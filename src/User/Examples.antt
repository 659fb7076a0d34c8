-- ===== src/User/Examples.antt =====
-- The theorems on user grains at concrete inputs: Eve (5) and a lobby that has Ada (7) as a member.
use blabby.Prelude.{[], ◌∷◌, none, some, true, false, ok, ◌≡◌, arith, refl}
use blabby.Text.{Bytes, codes}
use blabby.Id.{parse_id}
use blabby.Map.{lookup, elem, has_key, is_some}
use blabby.PublicCode.{contains_rune}
use blabby.Domain.Refs.{UserRef, RoomRef, active, max_room_name_bytes}
use blabby.ErrCode.{invalid_request}
use blabby.Wire.{UserRefPb, ErrorDetail, err_detail, parse_user_ref}
use blabby.Wire.RoundTrip.{IsSettled}
use blabby.Room.State.{RoomState, new_room_state, is_member}
use blabby.Room.Grain.{Env}
use blabby.User.State.{UserState, new_user_state}
use blabby.User.Grain.{
  join_room_request, leave_room_request, send_message, set_room_member_role,
  transfer_room_ownership,
}
use blabby.User.Relay.{user_fail_closed, user_errors_canonical, AllCanonical}
use blabby.Prelude.{ℕ, List}
use blabby.Connection.Messages.{Pid}
use blabby.Map.Named.{one_if}
use blabby.User.Connections.{deliver}
use blabby.User.FanOut.{
  Notice, registers, terminated, HasNoSlash, times, after_notices, is_live, delivers_once_to_live,
}
use blabby.User.Agreement.{user_of, join_agrees, leave_agrees}

abbrev same : Bytes → Bytes
same s = s

abbrev code : Bytes
code = codes "K7M3P9X2WQ"

abbrev ada : UserRef
ada = record { id = 7; public_code = code; name = codes "Ada" }

abbrev eve : UserRef
eve = record { id = 5; public_code = code; name = codes "Eve" }

abbrev eve_pb : UserRefPb
eve_pb = record { id = codes "5"; name = codes "Eve"; public_code = code }

abbrev lobby : RoomRef
lobby = record {
  id = 9;
  public_code = code;
  name = codes "Lobby";
  status = active;
  metadata_version = 3;
}

abbrev cellar : RoomRef
cellar = record lobby { id = 4; name = codes "Cellar" }

abbrev open_room : RoomState
open_room = record new_room_state { ref = some lobby; members = (7, ada) ∷ [] }

-- No stores, so the database is trivial.
abbrev env : Env (Unit {0})
env = record { nfc = same; membership = none; messages = none; now = 1001 }

abbrev cached : UserState
cached = record { joined_rooms = (9, lobby) ∷ (4, cellar) ∷ [] }

lobby-IsSettled : IsSettled same max_room_name_bytes lobby.id lobby.public_code lobby.name
unfolding contains_rune blabby.Text.trim_space blabby.Text.is_space blabby.Text.decode_rune
    blabby.Text.runes_from
lobby-IsSettled = record {
  positive = omega arith;
  id_fits = omega arith;
  canonical =
      (refl, (refl, (refl, (refl, (refl, (refl, (refl, (refl, (refl, (refl, (refl, tt)))))))))));
  trimmed = refl;
  named = refl;
  name_fits = omega arith;
}

eve_parses : parse_user_ref same eve_pb ≡ ok eve
unfolding parse_user_ref parse_id blabby.Id.parse_int blabby.Id.new_id
    blabby.PublicCode.parse_public_code blabby.Text.trim_space blabby.Text.is_space
    blabby.Text.decode_rune blabby.Text.runes_from blabby.PublicCode.normalize_all contains_rune
    blabby.PublicCode.normalize_crockford blabby.Domain.Refs.new_user_ref
eve_parses = refl

five : parse_id (codes "5") ≡ ok 5
unfolding parse_id blabby.Id.parse_int blabby.Id.new_id
five = refl

nine : parse_id (codes "9") ≡ ok 9
unfolding parse_id blabby.Id.parse_int blabby.Id.new_id
nine = refl

user_fail_closed_example :
    ((join_room_request (user_of env 9 (codes "5") eve_pb) cached (open_room, tt) (codes "x")).0
        ≡ some (err_detail invalid_request "room_id is required")
      → (join_room_request (user_of env 9 (codes "5") eve_pb) cached (open_room, tt) (codes "x")).1
        ≡ cached)
    × ((leave_room_request (user_of env 9 (codes "5") eve_pb) cached (open_room, tt) (codes "x")).0
          ≡ some (err_detail invalid_request "room_id is required")
        → (leave_room_request
            (user_of env 9 (codes "5") eve_pb)
            cached
            (open_room, tt)
            (codes "x")).1
          ≡ cached)
user_fail_closed_example =
    user_fail_closed (user_of env 9 (codes "5") eve_pb) cached (open_room, tt) (codes "x")
      (err_detail invalid_request "room_id is required")

joins :
    (join_room_request
      (user_of env 9 (codes "5") eve_pb)
      new_user_state
      (open_room, tt)
      (codes "9")).0
    ≡ none
unfolding blabby.Text.decode_rune blabby.Text.runes_from blabby.Text.is_space blabby.Text.trim_space
    blabby.Id.parse_int blabby.Id.new_id blabby.Id.parse_id blabby.Id.format_id
    blabby.PublicCode.normalize_crockford blabby.PublicCode.contains_rune
    blabby.PublicCode.normalize_all blabby.PublicCode.parse_public_code
    blabby.Domain.Refs.parse_room_status blabby.Domain.Refs.new_user_ref
    blabby.Domain.Refs.new_room_ref blabby.Wire.parse_user_ref blabby.Wire.parse_room_ref
    blabby.Wire.proto_room_ref blabby.Map.lookup blabby.Room.Grain.record_join
    blabby.Room.Grain.join blabby.User.Grain.forwarded blabby.User.Grain.join_room_request
joins = refl

leaves :
    (leave_room_request (user_of env 9 (codes "5") eve_pb) cached (open_room, tt) (codes "9")).0
    ≡ none
unfolding blabby.Id.parse_int blabby.Id.new_id blabby.Id.parse_id blabby.Map.lookup
    blabby.ErrCode.parse blabby.Room.Grain.leave blabby.User.Grain.forwarded
    blabby.User.Grain.leave_room_request
leaves = refl

user_errors_canonical_example :
    AllCanonical
      (join_room_request (user_of env 9 (codes "5") eve_pb) cached (open_room, tt) (codes "x")).0
    × AllCanonical
        (leave_room_request (user_of env 9 (codes "5") eve_pb) cached (open_room, tt) (codes "x")).0
    × AllCanonical
        (send_message
          (user_of env 9 (codes "5") eve_pb)
          (open_room, tt)
          (codes "x")
          (codes "9")).0.error
    × AllCanonical
        (set_room_member_role
          (user_of env 9 (codes "5") eve_pb)
          (open_room, tt)
          (codes "x")
          (codes "7")
          "admin").0
    × AllCanonical
        (transfer_room_ownership
          (user_of env 9 (codes "5") eve_pb)
          (open_room, tt)
          (codes "x")
          (codes "7")).0
user_errors_canonical_example =
    user_errors_canonical (user_of env 9 (codes "5") eve_pb) cached (open_room, tt) (codes "x")
      (codes "9") (codes "7") "admin"

join_agrees_example :
    (parse_id (codes "9") ≡ ok 9)
    × (lookup 9
          (join_room_request
            (user_of env 9 (codes "5") eve_pb)
            new_user_state
            (open_room, tt)
            (codes "9")).1.joined_rooms
        ≡ some lobby)
    × (is_member
          (join_room_request
            (user_of env 9 (codes "5") eve_pb)
            new_user_state
            (open_room, tt)
            (codes "9")).2.0
          5
        ≡ true)
join_agrees_example =
    join_agrees env (codes "5") eve_pb new_user_state open_room tt lobby (codes "9") eve refl
      lobby-IsSettled eve_parses joins

leave_agrees_example :
    (◌≡◌ {A = ℕ} 9 9)
    × (lookup 9
          (leave_room_request
            (user_of env 9 (codes "5") eve_pb)
            cached
            (open_room, tt)
            (codes "9")).1.joined_rooms
        ≡ none)
    × (is_member
          (leave_room_request
            (user_of env 9 (codes "5") eve_pb)
            cached
            (open_room, tt)
            (codes "9")).2.0
          5
        ≡ false)
leave_agrees_example =
    leave_agrees env (codes "5") eve_pb cached open_room tt lobby (codes "9") 9 5 refl nine five
      leaves

abbrev laptop : Pid
laptop = record { address = codes "h:1"; id = codes "c/1" }

abbrev phone : Pid
phone = record { address = codes "h:1"; id = codes "c/2" }

laptop_slashless : HasNoSlash laptop.address
unfolding HasNoSlash
laptop_slashless = (refl, (refl, (refl, tt)))

abbrev notices : List Notice
notices = registers (some laptop) ∷ registers (some phone) ∷ registers none ∷ terminated phone ∷ []

delivers_once_to_live_example :
    times laptop (deliver (codes "hi") (after_notices phone [] notices))
    ≡ one_if (is_live laptop false notices)
delivers_once_to_live_example =
    delivers_once_to_live laptop laptop_slashless phone (codes "hi") notices
      (laptop_slashless, (laptop_slashless, (tt, (laptop_slashless, tt))))
