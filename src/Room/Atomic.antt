-- ===== src/Room/Atomic.antt =====
-- What each call of the production store does, and that it does all of it or nothing.
use blabby.Prelude.{ℕ, [], ◌∷◌, ◌++◌, none, false, true, ok, ◌≡◌, ◌⊎◌, arith}
use blabby.Map.{is_some}
use blabby.Domain.Membership.{
  MembershipRole, owner, admin, member, can_set_role, can_transfer_ownership,
}
use blabby.Domain.Refs.{UserRef}
use blabby.Room.Ports.{Event}
use blabby.Persistence.Rows.{find_role, delete_row, set_role}
use blabby.Persistence.Sql.{
  Db, EventKind, EventRow, member_joined, member_left, ◌>>◌, statement, mint_event_id,
}
use blabby.Persistence.Repo.{
  add, remove, append_event, get_role, update_role, move_owner, transfer_ownership, holds_owner,
}
use blabby.Room.Store.{
  record_transition, record_join, record_leave, change_role, record_role_change, hand_over,
  check_and_hand_over, record_ownership_transfer,
}
use blabby.Persistence.Atomic.{Done, IsAtomic, within_tx-IsAtomic}

-- The row of the timeline that a transition adds.
abbrev pub transition_row : ℕ → UserRef → EventKind → Event → EventRow
transition_row room actor kind e = record {
  id = e.id;
  room = room;
  kind = kind;
  user = actor.id;
  occurred_at = e.occurred_at;
  payload = actor.name;
}

abbrev pub StoredJoin : ℕ → UserRef → Db → Done Event
StoredJoin room actor db e rows events =
    (find_role room actor.id db.rows ≡ none)
    × (rows ≡ db.rows ++ record { room = room; user = actor.id; role = member } ∷ [])
    × (events ≡ db.events ++ transition_row room actor member_joined e ∷ [])

abbrev pub StoredLeave : ℕ → UserRef → Db → Done Event
StoredLeave room actor db e rows events =
    (is_some (find_role room actor.id db.rows) ≡ true)
    × (holds_owner (find_role room actor.id db.rows) ≡ false)
    × (rows ≡ delete_row room actor.id db.rows)
    × (events ≡ db.events ++ transition_row room actor member_left e ∷ [])

abbrev pub StoredRole : ℕ → ℕ → MembershipRole → Db → Done (Unit {0})
StoredRole room target role db _ rows events =
    (rows ≡ set_role room target role db.rows) × (events ≡ db.events)

-- The owner may hand the room to themself, which changes nothing.
abbrev pub StoredTransfer : ℕ → ℕ → ℕ → Db → Done (Unit {0})
StoredTransfer room from to db _ rows events =
    ((from ≡ to) × (rows ≡ db.rows)
      ⊎ (rows ≡ set_role room to owner (set_role room from admin db.rows)))
    × (events ≡ db.events)

join-StoredJoin :
    (room : ℕ) (actor : UserRef) (db : Db) (e : Event)
    → ((add room actor.id member >> append_event room member_joined actor.id actor.name) db).0
      ≡ ok e
    → StoredJoin room actor db e
        ((add room actor.id member >> append_event room member_joined actor.id actor.name)
          db).1.rows
        ((add room actor.id member >> append_event room member_joined actor.id actor.name)
          db).1.events
unfolding add append_event mint_event_id statement
join-StoredJoin room actor db e h = ground arith

leave-StoredLeave :
    (room : ℕ) (actor : UserRef) (db : Db) (e : Event)
    → ((remove room actor.id >> append_event room member_left actor.id actor.name) db).0 ≡ ok e
    → StoredLeave room actor db e
        ((remove room actor.id >> append_event room member_left actor.id actor.name) db).1.rows
        ((remove room actor.id >> append_event room member_left actor.id actor.name) db).1.events
unfolding remove append_event mint_event_id statement
leave-StoredLeave room actor db e h = ground arith

change-StoredRole :
    (room by target : ℕ) (role : MembershipRole) (db : Db)
    → (change_role room by target role db).0 ≡ ok tt
    → StoredRole room target role db tt
        (change_role room by target role db).1.rows
        (change_role room by target role db).1.events
unfolding change_role get_role update_role statement can_set_role
change-StoredRole room by target role db h = ground arith

hand_over-StoredTransfer :
    (room from to : ℕ) (db : Db)
    → (check_and_hand_over room from to db).0 ≡ ok tt
    → StoredTransfer room from to db tt
        (check_and_hand_over room from to db).1.rows
        (check_and_hand_over room from to db).1.events
unfolding check_and_hand_over hand_over get_role transfer_ownership move_owner statement
    can_transfer_ownership
hand_over-StoredTransfer room from to db h = ground arith

-- Each call of the production store does all of its work or nothing of it, wherever it fails. One that
-- succeeds has done its work: a join has added the row of a user who had none, and a leave has deleted the
-- row of a member who is not the owner, each with one event at the end of the timeline that has the id and the time of the answer; a change
-- of role has set the role; a transfer has demoted the actor and promoted the new owner, or is to the actor.
-- One that fails with an error of the database has left both tables alone, or has done all of that, as when
-- the answer of the commit is lost; and one that fails with any other error has left both tables alone.
pub store_call-IsAtomic :
    (db : Db) (room : ℕ) (actor : UserRef) (by target : ℕ) (role : MembershipRole)
    → IsAtomic (StoredJoin room actor db) db (record_join room actor db)
      × IsAtomic (StoredLeave room actor db) db (record_leave room actor db)
      × IsAtomic (StoredRole room target role db) db (record_role_change room by target role db)
      × IsAtomic (StoredTransfer room by target db) db (record_ownership_transfer room by target db)
unfolding record_join record_leave record_role_change record_ownership_transfer record_transition
store_call-IsAtomic db room actor by target role = (
  within_tx-IsAtomic (StoredJoin room actor db) db _
      (λ rest e h. join-StoredJoin room actor (record db { faults = rest }) e h),
  within_tx-IsAtomic (StoredLeave room actor db) db _
      (λ rest e h. leave-StoredLeave room actor (record db { faults = rest }) e h),
  within_tx-IsAtomic (StoredRole room target role db) db _
      (λ rest _ h. change-StoredRole room by target role (record db { faults = rest }) h),
  within_tx-IsAtomic (StoredTransfer room by target db) db _
      (λ rest _ h. hand_over-StoredTransfer room by target (record db { faults = rest }) h),
)
