-- ===== src/Persistence/Repo.antt =====
-- The statements of membership_repo.go and the appends of journal.go.
use blabby.Prelude.{ℕ, [], ◌∷◌, ◌++◌, Option, none, some, Bool, false, ok, err, ◌==◌, if◌then◌else◌}
use blabby.Text.{Bytes}
use blabby.Domain.Membership.{MembershipRole, owner, admin, is_owner}
use blabby.Room.Ports.{
  Event, duplicate_row, membership_not_found, owner_cannot_leave, not_a_member, not_the_owner,
}
use blabby.Map.{is_some}
use blabby.Persistence.Rows.{find_role, delete_row, set_role}
use blabby.Persistence.Sql.{Sql, EventKind, statement, mint_event_id, pure, raise, ◌>>=◌}

-- `Add`: a second row at the key breaks the primary key.
unfoldable pub add : ℕ → ℕ → MembershipRole → Sql (Unit {0})
unfolding statement
add room user role = statement λ db.
    if is_some (find_role room user db.rows) then (err duplicate_row, db) else (
      ok tt,
      record db { rows = db.rows ++ record { room = room; user = user; role = role } ∷ [] },
    )

-- `Remove`
unfoldable pub remove : ℕ → ℕ → Sql (Unit {0})
unfolding statement
remove room user = statement λ db. elim (find_role room user db.rows) [
  | none ↦ (err membership_not_found, db)
  | some role ↦
      if is_owner role
      then (err owner_cannot_leave, db)
      else (ok tt, record db { rows = delete_row room user db.rows })
]

abbrev role_or_missing : Option MembershipRole → Sql MembershipRole
role_or_missing none = raise membership_not_found
role_or_missing (some role) = pure role

-- `GetRole`
unfoldable pub get_role : ℕ → ℕ → Sql MembershipRole
unfolding statement
get_role room user = statement λ db. role_or_missing (find_role room user db.rows) db

-- `UpdateRole`
unfoldable pub update_role : ℕ → ℕ → MembershipRole → Sql (Unit {0})
unfolding statement
update_role room user role = statement λ db.
    if is_some (find_role room user db.rows)
    then (ok tt, record db { rows = set_role room user role db.rows })
    else (err membership_not_found, db)

abbrev pub holds_owner : Option MembershipRole → Bool
holds_owner none = false
holds_owner (some role) = is_owner role

-- The statement of `TransferOwnership`: the target gates the demotion, and that the promotion.
unfoldable pub move_owner : ℕ → ℕ → ℕ → Sql (Unit {0})
unfolding statement
move_owner room from to = statement λ db.
    if is_some (find_role room to db.rows)
    then (if holds_owner (find_role room from db.rows)
        then (ok tt, record db { rows = set_role room to owner (set_role room from admin db.rows) })
        else (err not_the_owner, db))
    else (err not_a_member, db)

-- `TransferOwnership`
unfoldable pub transfer_ownership : ℕ → ℕ → ℕ → Sql (Unit {0})
unfolding move_owner
transfer_ownership room from to = if from == to then pure tt else move_owner room from to

-- `AppendMembership` and `AppendMessage`, which differ in the type and the payload.
unfoldable pub append_event : ℕ → EventKind → ℕ → Bytes → Sql Event
unfolding statement mint_event_id
append_event room kind user payload = do
  event_id ← mint_event_id
  statement λ db. (
    ok (record { id = event_id; occurred_at = db.now }),
    record db {
      events =
          db.events
          ++ record {
            id = event_id;
            room = room;
            kind = kind;
            user = user;
            occurred_at = db.now;
            payload = payload;
          }
            ∷ [];
    },
  )
