-- ===== src/Room/Activation.antt =====
-- internal/grain/room/room.go and loader.go: the activation of a room's grain, and internal/grain/room/
-- fanout.go: the work of the fan-out child. Log lines are left out.
use blabby.Prelude.{
  ℕ, List, [], ◌∷◌, Option, none, some, Bool, true, false, ◌==◌, ◌||◌, if◌then◌else◌, Result, ok,
  err,
}
use blabby.Text.{Bytes}
use blabby.Id.{parse_id}
use blabby.Id
use blabby.Domain.Refs.{UserRef, RoomRef, RoomStatus, active}
use blabby.Room.Ports.{StoreError, RoomEvent, Forward, Job, notify, forward}
use blabby.Room.State.{RoomState, new_room_state, load_room, add_member}

-- `ErrRoomNotFound`, or a failure that may pass.
pub data LoadError : Type 0 where
  absent unavailable : LoadError

-- What an activation reads: `LoadRoom`, and `LoadMembers` where a store is wired.
pub record Loaders (S : Type 0) : Type 0 where
  pub load_room : ℕ → S → Result LoadError RoomRef × S
  pub load_members : Option (ℕ → S → Result StoreError (List UserRef) × S)

abbrev is_active : RoomStatus → Bool
is_active active = true
is_active _ = false

-- The state with the room, or none where the grain stays unloaded.
abbrev pub Hydrated : Type 0
Hydrated = Option RoomState

-- `hydrate` from the answer of the loader; none of the outer is a panic.
unfoldable pub settle_hydrate : Result LoadError RoomRef → Option Hydrated
unfolding load_room
settle_hydrate (ok ref) =
    some (if is_active ref.status then some (load_room new_room_state ref) else none)
settle_hydrate (err absent) = some none
settle_hydrate (err unavailable) = none

abbrev hydrate_id : {S : Type 0} → Loaders S → Result Id.Error ℕ → S → Option Hydrated × S
hydrate_id l (err e) db = (some none, db)
hydrate_id l (ok room_id) db =
    let (loaded, db') = l.load_room room_id db in (settle_hydrate loaded, db')

-- `hydrate`
unfoldable pub hydrate : {S : Type 0} → Loaders S → Bytes → S → Option Hydrated × S
unfolding settle_hydrate parse_id
hydrate l identity db = hydrate_id l (parse_id identity) db

unfoldable pub add_members : RoomState → List UserRef → RoomState
unfolding add_member
add_members s [] = s
add_members s (u ∷ us) = add_members (add_member s u).0 us

abbrev settle_members :
    {S : Type 0} → RoomState → Result StoreError (List UserRef) × S → Option RoomState × S
settle_members s (err e, db) = (none, db)
settle_members s (ok members, db) = (some (add_members s members), db)

abbrev room_id_of : RoomState → ℕ
room_id_of s = elim s.ref [ none ↦ 0 | some room ↦ room.id ]

-- `loadMembers`; none is a panic.
unfoldable pub load_members : {S : Type 0} → Loaders S → RoomState → S → Option RoomState × S
unfolding add_members
load_members l s db = elim l.load_members [
  | none ↦ (some s, db)
  | some read ↦ settle_members s (read (room_id_of s) db)
]

abbrev pub settle_init : {S : Type 0} → Loaders S → Option Hydrated × S → Option RoomState × S
settle_init l (none, db) = (none, db)
settle_init l (some none, db) = (some new_room_state, db)
settle_init l (some (some s), db) = load_members l s db

-- `Init`; none is a panic, after which the grain is activated again at the next request.
unfoldable pub init : {S : Type 0} → Loaders S → Bytes → S → Option RoomState × S
unfolding hydrate load_members new_room_state
init l identity db = settle_init l (hydrate l identity db)

-- `userNotifier`, over the state of all that is remote: whether the call succeeds.
pub record Notifier (W : Type 0) : Type 0 where
  pub notify_room_event : ℕ → RoomEvent → W → Bool × W
  pub forward_message : ℕ → Forward → W → Bool × W

-- `runNotify` and `runForward`: a failure is logged and the next recipient has its turn.
unfoldable pub send_each : {W : Type 0} → (ℕ → W → Bool × W) → List ℕ → W → W
send_each send [] w = w
send_each send (recipient ∷ recipients) w = send_each send recipients (send recipient w).1

-- `fanoutWorker.Receive`
unfoldable pub run_job : {W : Type 0} → Notifier W → Job → W → W
unfolding send_each
run_job n (notify recipients payload) w =
    send_each (λ u. n.notify_room_event u payload) recipients w
run_job n (forward recipients payload) w = send_each (λ u. n.forward_message u payload) recipients w

-- Which of the members a list of references names.
unfoldable pub names : ℕ → List UserRef → Bool
names u [] = false
names u (m ∷ ms) = m.id == u || names u ms
