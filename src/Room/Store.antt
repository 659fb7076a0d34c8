-- ===== src/Room/Store.antt =====
-- internal/grain/room/membership.go and message.go: the stores of production, over the database.
use blabby.Prelude.{ℕ, ◌==◌, if◌then◌else◌}
use blabby.Text.{Bytes}
use blabby.Domain.Membership.{MembershipRole, member, can_set_role, can_transfer_ownership}
use blabby.Domain.Refs.{UserRef}
use blabby.Room.Ports.{Event, MembershipStore, MessageStore, role_permission_denied}
use blabby.Persistence.Sql.{
  Db, Sql, EventKind, message_posted, member_joined, member_left, within_tx, ◌>>=◌, ◌>>◌, pure,
  raise,
}
use blabby.Persistence.Repo.{add, remove, get_role, update_role, transfer_ownership, append_event}

-- `record`
unfoldable pub record_transition : ℕ → UserRef → EventKind → Sql (Unit {0}) → Sql Event
unfolding within_tx append_event
record_transition room actor kind mutate =
    within_tx (mutate >> append_event room kind actor.id actor.name)

unfoldable pub record_join : ℕ → UserRef → Sql Event
unfolding record_transition add
record_join room actor = record_transition room actor member_joined (add room actor.id member)

unfoldable pub record_leave : ℕ → UserRef → Sql Event
unfolding record_transition remove
record_leave room actor = record_transition room actor member_left (remove room actor.id)

-- The body of the transaction of `RecordRoleChange`.
unfoldable pub change_role : ℕ → ℕ → ℕ → MembershipRole → Sql (Unit {0})
unfolding get_role update_role
change_role room actor target role = do
  actor_role ← get_role room actor
  target_role ← get_role room target
  (if can_set_role actor_role target_role role
      then update_role room target role
      else raise role_permission_denied)

unfoldable pub record_role_change : ℕ → ℕ → ℕ → MembershipRole → Sql (Unit {0})
unfolding within_tx change_role
record_role_change room actor target role = within_tx (change_role room actor target role)

-- The body of the transaction of `RecordOwnershipTransfer`, after the check of the authority.
unfoldable pub hand_over : ℕ → ℕ → ℕ → Sql (Unit {0})
unfolding get_role transfer_ownership
hand_over room actor new_owner =
    if actor == new_owner
    then pure tt
    else do _ ← get_role room new_owner; transfer_ownership room actor new_owner

unfoldable pub check_and_hand_over : ℕ → ℕ → ℕ → Sql (Unit {0})
unfolding get_role hand_over
check_and_hand_over room actor new_owner = do
  actor_role ← get_role room actor
  if can_transfer_ownership actor_role
      then hand_over room actor new_owner
      else raise role_permission_denied

unfoldable pub record_ownership_transfer : ℕ → ℕ → ℕ → Sql (Unit {0})
unfolding within_tx check_and_hand_over
record_ownership_transfer room actor new_owner =
    within_tx (check_and_hand_over room actor new_owner)

unfoldable pub record_message : ℕ → ℕ → Bytes → Sql Event
unfolding append_event
record_message room author text = append_event room message_posted author text

abbrev pub membership_store : MembershipStore Db
membership_store = record {
  record_join = record_join;
  record_leave = record_leave;
  record_role_change = record_role_change;
  record_ownership_transfer = record_ownership_transfer;
}

abbrev pub message_store : MessageStore Db
message_store = record { record_message = record_message }
