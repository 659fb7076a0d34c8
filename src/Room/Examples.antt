-- ===== src/Room/Examples.antt =====
-- The theorems on rooms at concrete inputs: a lobby with its owner Ada (7) and the member Bob (8),
-- over the production stores.
use blabby.Prelude.{List, [], ◌∷◌, none, some, true, false, ok, ◌≡◌, arith, refl, pos}
use blabby.Text.{Bytes, codes}
use blabby.Id.{parse_id}
use blabby.Map.Laws.{Distinct}
use blabby.Domain.Membership.{owner, admin, member, parse_membership_role}
use blabby.Domain.Refs.{UserRef, RoomRef, active}
use blabby.ErrCode.{room_already_member, room_not_member, room_owner_cannot_leave}
use blabby.Wire.{UserRefPb, err_detail, parse_user_ref}
use blabby.Persistence.Rows.{Row, find_role, OwnedBy}
use blabby.Persistence.Sql.{Db}
use blabby.Room.State.{RoomState, ChatMessage, new_room_state, is_member}
use blabby.Room.State.Window.{record_all, last, recent_messages_window}
use blabby.Room.Ports.{StoreError}
use blabby.Room.Grain.{Env, join, leave, post_message}
use blabby.Room.FailClosed.{posts, serve, commands_fail_closed}
use blabby.Prelude.{ℕ, Result, inr}
use blabby.Room.Activation.{Loaders, init, names}
use blabby.Room.Hydration.{init-serves, init-refuses}
use blabby.Domain.Refs.{archived}
use blabby.ErrCode.{room_not_found}
use blabby.Room.Grain.{refuse, join_err, leave_err, post_err}
use blabby.Room.Delivery.{join_accepted, leave_accepted, Joined, Left}
use blabby.Room.Store.{
  membership_store, message_store, record_join, record_leave, record_role_change,
  record_ownership_transfer,
}
use blabby.Room.Roles
use blabby.Room.Ownership.{owner_kept}
use blabby.Room.Atomic.{StoredJoin, StoredLeave, StoredRole, StoredTransfer, store_call-IsAtomic}
use blabby.Persistence.Atomic.{IsAtomic}
use blabby.Room.Authority.{set_member_role-Authorised, transfer_authorised, Authorised}

abbrev same : Bytes → Bytes
same s = s

abbrev code : Bytes
code = codes "K7M3P9X2WQ"

abbrev ada : UserRef
ada = record { id = 7; public_code = code; name = codes "Ada" }

abbrev bob : UserRef
bob = record { id = 8; public_code = code; name = codes "Bob" }

abbrev eve : UserRef
eve = record { id = 5; public_code = code; name = codes "Eve" }

abbrev ada_pb : UserRefPb
ada_pb = record { id = codes "7"; name = codes "Ada"; public_code = code }

abbrev eve_pb : UserRefPb
eve_pb = record { id = codes "5"; name = codes "Eve"; public_code = code }

abbrev lobby : RoomRef
lobby = record {
  id = 9;
  public_code = code;
  name = codes "Lobby";
  status = active;
  metadata_version = 3;
}

abbrev open_room : RoomState
open_room = record new_room_state { ref = some lobby; members = (8, bob) ∷ (7, ada) ∷ [] }

abbrev db : Db
db = record {
  rows =
      record { room = 9; user = 7; role = owner }
      ∷ record { room = 9; user = 8; role = member }
      ∷ [];
  events = [];
  now = 1000;
  mints = some (pos 501) ∷ [];
  faults = [];
}

abbrev broken : Db
broken = record db { faults = false ∷ true ∷ [] }

abbrev env : Env Db
env = record {
  nfc = same;
  membership = some membership_store;
  messages = some message_store;
  now = 1001;
}

open_room-Distinct : Distinct open_room.members
unfolding blabby.Map.lookup
open_room-Distinct = (refl, (refl, tt))

joined_twice :
    (join env open_room db ada_pb).response.error
    ≡ some (err_detail room_already_member "already a member of this room")
unfolding join parse_user_ref parse_id blabby.Id.parse_int blabby.Id.new_id
    blabby.PublicCode.parse_public_code blabby.Text.trim_space blabby.Text.is_space
    blabby.Text.decode_rune blabby.Text.runes_from blabby.PublicCode.normalize_all
    blabby.PublicCode.contains_rune blabby.PublicCode.normalize_crockford
    blabby.Domain.Refs.new_user_ref blabby.Map.lookup
joined_twice = refl

owner_stays :
    (leave env open_room db (codes "7")).response.error
    ≡ some (err_detail room_owner_cannot_leave "transfer ownership before leaving the room")
unfolding leave parse_id blabby.Id.parse_int blabby.Id.new_id blabby.Map.lookup
    blabby.Room.Grain.record_leave record_leave find_role
owner_stays = refl

stranger :
    (post_message env open_room db eve_pb (codes "hi")).response.error
    ≡ some (err_detail room_not_member "not a member of this room")
unfolding post_message parse_user_ref parse_id blabby.Id.parse_int blabby.Id.new_id
    blabby.PublicCode.parse_public_code blabby.Text.trim_space blabby.Text.is_space
    blabby.Text.decode_rune blabby.Text.runes_from blabby.PublicCode.normalize_all
    blabby.PublicCode.contains_rune blabby.PublicCode.normalize_crockford
    blabby.Domain.Refs.new_user_ref blabby.Domain.MessageText.new_message_text
    blabby.Text.valid_from blabby.Domain.MessageText.canonicalize_newlines
    blabby.Text.Charset.all_test blabby.Domain.MessageText.is_message_text_rune blabby.Map.lookup
stranger = refl

commands_fail_closed_example :
    ((serve env open_room db (posts eve_pb (codes "hi"))).1 ≡ open_room)
    × ((serve env open_room db (posts eve_pb (codes "hi"))).2 ≡ [])
commands_fail_closed_example =
    commands_fail_closed env open_room db (posts eve_pb (codes "hi"))
      (err_detail room_not_member "not a member of this room") (unfold serve in stranger)

abbrev seeded : ℕ → Unit {0} → Result StoreError (List UserRef) × Unit {0}
seeded id w = (ok (ada ∷ bob ∷ []), w)

-- Loaders over no database at all.
abbrev loaders : RoomRef → Loaders (Unit {0})
loaders room = record { load_room = λ id w. (ok room, w); load_members = some seeded }

nine_parses : parse_id (codes "9") ≡ ok 9
unfolding parse_id blabby.Id.parse_int blabby.Id.new_id
nine_parses = refl

init-serves_example :
    (s : RoomState) × (init (loaders lobby) (codes "9") tt ≡ (some s, tt))
    × (s.ref ≡ some lobby)
    × ((u : ℕ) → is_member s u ≡ names u (ada ∷ bob ∷ []))
    × Distinct s.members
init-serves_example =
    init-serves (loaders lobby) (codes "9") 9 lobby seeded (ada ∷ bob ∷ []) tt tt tt nine_parses
      refl refl refl

abbrev closed_env : Env (Unit {0})
closed_env = record { nfc = same; membership = none; messages = none; now = 1001 }

init-refuses_example :
    (s : RoomState) × (init (loaders (record lobby { status = archived })) (codes "9") tt
      ≡ (some s, tt))
    × (join closed_env s tt eve_pb ≡ refuse s tt (join_err room_not_found "room not found"))
    × (leave closed_env s tt (codes "7") ≡ refuse s tt (leave_err room_not_found "room not found"))
    × (post_message closed_env s tt eve_pb (codes "hi")
        ≡ refuse s tt (post_err room_not_found "room not found"))
init-refuses_example =
    init-refuses (loaders (record lobby { status = archived })) (codes "9") 9
      (ok (record lobby { status = archived })) tt tt closed_env eve_pb (codes "7") (codes "hi")
      nine_parses refl (inr (lobby, refl))

eve_parses : parse_user_ref same eve_pb ≡ ok eve
unfolding parse_user_ref parse_id blabby.Id.parse_int blabby.Id.new_id
    blabby.PublicCode.parse_public_code blabby.Text.trim_space blabby.Text.is_space
    blabby.Text.decode_rune blabby.Text.runes_from blabby.PublicCode.normalize_all
    blabby.PublicCode.contains_rune blabby.PublicCode.normalize_crockford
    blabby.Domain.Refs.new_user_ref
eve_parses = refl

eve_joins : (join env open_room db eve_pb).response.error ≡ none
unfolding blabby.Text.decode_rune blabby.Text.runes_from blabby.Text.is_space blabby.Text.trim_space
    blabby.Id.parse_int blabby.Id.new_id blabby.Id.parse_id blabby.PublicCode.normalize_crockford
    blabby.PublicCode.contains_rune blabby.PublicCode.normalize_all
    blabby.PublicCode.parse_public_code blabby.Domain.Refs.new_user_ref blabby.Wire.parse_user_ref
    blabby.Map.lookup blabby.Room.Grain.record_join blabby.Room.Grain.join
    blabby.Room.Store.record_join blabby.Persistence.Rows.find_role
eve_joins = refl

join_accepted_example :
    Joined lobby eve open_room
      (join env open_room db eve_pb).state
      (join env open_room db eve_pb).jobs
join_accepted_example =
    join_accepted env open_room db lobby open_room-Distinct eve_pb eve refl eve_parses eve_joins

bob_parses : parse_id (codes "8") ≡ ok 8
unfolding parse_id blabby.Id.parse_int blabby.Id.new_id
bob_parses = refl

bob_leaves : (leave env open_room db (codes "8")).response.error ≡ none
unfolding blabby.Id.parse_int blabby.Id.new_id blabby.Id.parse_id blabby.Map.lookup
    blabby.Room.Grain.record_leave blabby.Room.Grain.leave blabby.Room.Store.record_leave
    blabby.Persistence.Rows.find_role
bob_leaves = refl

leave_accepted_example :
    (leaver : UserRef) × Left lobby leaver 8 open_room
      (leave env open_room db (codes "8")).state
      (leave env open_room db (codes "8")).jobs
leave_accepted_example =
    leave_accepted env open_room db lobby open_room-Distinct (codes "8") 8 refl bob_parses
      bob_leaves

abbrev posted : List ChatMessage
posted = record { sender_id = 7; text = codes "hi"; timestamp = 1000 } ∷ []

recent_messages_window_example :
    (record_all new_room_state posted).recent_messages ≡ last 100 posted
recent_messages_window_example = recent_messages_window posted

db-OwnedBy : OwnedBy 9 7 db.rows
unfolding find_role
db-OwnedBy = record { owns = refl; alone = λ v h. ground arith }

handed : (record_ownership_transfer 9 7 8 db).0 ≡ ok tt
unfolding blabby.Domain.Membership.can_transfer_ownership blabby.Persistence.Rows.find_role
    blabby.Room.Store.record_ownership_transfer
handed = refl

owner_kept_example :
    OwnedBy 9 7 (record_join 9 eve db).1.rows
    × OwnedBy 9 7 (record_leave 9 eve db).1.rows
    × OwnedBy 9 7 (record_role_change 9 7 8 admin db).1.rows
owner_kept_example = owner_kept 9 7 db 9 eve 7 8 admin db-OwnedBy

store_call-IsAtomic_example :
    IsAtomic (StoredJoin 9 eve broken) broken (record_join 9 eve broken)
    × IsAtomic (StoredLeave 9 eve broken) broken (record_leave 9 eve broken)
    × IsAtomic (StoredRole 9 8 admin broken) broken (record_role_change 9 7 8 admin broken)
    × IsAtomic (StoredTransfer 9 7 8 broken) broken (record_ownership_transfer 9 7 8 broken)
store_call-IsAtomic_example = store_call-IsAtomic broken 9 eve 7 8 admin

ada_parses : parse_user_ref same ada_pb ≡ ok ada
unfolding parse_user_ref parse_id blabby.Id.parse_int blabby.Id.new_id
    blabby.PublicCode.parse_public_code blabby.Text.trim_space blabby.Text.is_space
    blabby.Text.decode_rune blabby.Text.runes_from blabby.PublicCode.normalize_all
    blabby.PublicCode.contains_rune blabby.PublicCode.normalize_crockford
    blabby.Domain.Refs.new_user_ref
ada_parses = refl

promoted : (Roles.set_member_role env open_room db ada_pb (codes "8") "admin").0 ≡ none
unfolding blabby.Text.decode_rune blabby.Text.runes_from blabby.Text.is_space blabby.Text.trim_space
    blabby.Id.parse_int blabby.Id.new_id blabby.Id.parse_id blabby.PublicCode.normalize_crockford
    blabby.PublicCode.contains_rune blabby.PublicCode.normalize_all
    blabby.PublicCode.parse_public_code blabby.Domain.Refs.new_user_ref blabby.Wire.parse_user_ref
    blabby.Map.lookup blabby.Room.Store.record_role_change blabby.Persistence.Rows.find_role
    blabby.Room.Roles.set_member_role blabby.Domain.Membership.parse_membership_role
    blabby.Domain.Membership.can_set_role
promoted = refl

admin_parses : parse_membership_role "admin" ≡ some admin
unfolding parse_membership_role
admin_parses = refl

set_member_role-Authorised_example : Authorised 9 7 8 admin db.rows
set_member_role-Authorised_example =
    set_member_role-Authorised env open_room db lobby ada ada_pb (codes "8") "admin" 8 admin refl
      refl ada_parses bob_parses admin_parses promoted

transferred : (Roles.transfer_ownership env open_room db ada_pb (codes "8")).0 ≡ none
unfolding blabby.Text.decode_rune blabby.Text.runes_from blabby.Text.is_space blabby.Text.trim_space
    blabby.Id.parse_int blabby.Id.new_id blabby.Id.parse_id blabby.PublicCode.normalize_crockford
    blabby.PublicCode.contains_rune blabby.PublicCode.normalize_all
    blabby.PublicCode.parse_public_code blabby.Domain.Refs.new_user_ref blabby.Wire.parse_user_ref
    blabby.Map.lookup blabby.Room.Store.record_ownership_transfer blabby.Persistence.Rows.find_role
    blabby.Room.Roles.transfer_ownership blabby.Domain.Membership.can_transfer_ownership
transferred = refl

transfer_authorised_example :
    (ada.id ≡ 7) × OwnedBy 9 8 (Roles.transfer_ownership env open_room db ada_pb (codes "8")).1.rows
transfer_authorised_example =
    transfer_authorised env open_room db lobby ada ada_pb (codes "8") 7 8 refl refl ada_parses
      bob_parses db-OwnedBy transferred
