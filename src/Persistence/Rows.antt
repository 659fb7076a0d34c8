-- ===== src/Persistence/Rows.antt =====
-- The rows of `room_membership`, by their key (room_id, user_id), and the effect of the statements
-- of membership_repo.go on them.
use blabby.Prelude.{
  ℕ, List, [], ◌∷◌, ◌++◌, Option, none, some, Bool, ◌&&◌, ◌==◌, if◌then◌else◌, ◌≡◌, arith,
}
use blabby.Domain.Membership.{MembershipRole, owner}

pub record Row : Type 0 where
  pub room : ℕ
  pub user : ℕ
  pub role : MembershipRole

abbrev pub at_key : ℕ → ℕ → Row → Bool
at_key room user row = row.room == room && row.user == user

-- SELECT role … WHERE room_id = $1 AND user_id = $2
unfoldable pub find_role : ℕ → ℕ → List Row → Option MembershipRole
find_role room user [] = none
find_role room user (row ∷ rows) =
    if at_key room user row then some row.role else find_role room user rows

-- DELETE … WHERE room_id = $1 AND user_id = $2
unfoldable pub delete_row : ℕ → ℕ → List Row → List Row
delete_row room user [] = []
delete_row room user (row ∷ rows) =
    let rest = delete_row room user rows in if at_key room user row then rest else row ∷ rest

-- UPDATE … SET role = $3 WHERE room_id = $1 AND user_id = $2
unfoldable pub set_role : ℕ → ℕ → MembershipRole → List Row → List Row
set_role room user role [] = []
set_role room user role (row ∷ rows) =
    (if at_key room user row then record row { role = role } else row)
    ∷ set_role room user role rows

-- The role of a row that was there before.
abbrev pub replaced : MembershipRole → Option MembershipRole → Option MembershipRole
replaced role none = none
replaced role (some old) = some role

abbrev pub or_else : Option MembershipRole → Option MembershipRole → Option MembershipRole
or_else none o = o
or_else (some r) o = some r

pub find_role-delete_row :
    (room user r u : ℕ) (rows : List Row)
    → find_role r u (delete_row room user rows)
      ≡ (if room == r && user == u then none else find_role r u rows)
unfolding find_role delete_row
find_role-delete_row room user r u [] = ground arith
find_role-delete_row room user r u (row ∷ rows) =
    ground (arith, find_role-delete_row room user r u rows)

pub find_role-set_role :
    (room user : ℕ) (role : MembershipRole) (r u : ℕ) (rows : List Row)
    → find_role r u (set_role room user role rows)
      ≡ (if room == r && user == u then replaced role (find_role r u rows) else find_role r u rows)
unfolding find_role set_role
find_role-set_role room user role r u [] = ground arith
find_role-set_role room user role r u (row ∷ rows) =
    ground (arith, find_role-set_role room user role r u rows)

pub find_role-append :
    (row : Row) (r u : ℕ) (rows : List Row)
    → find_role r u (rows ++ row ∷ [])
      ≡ or_else (find_role r u rows) (if at_key r u row then some row.role else none)
unfolding find_role
find_role-append row r u [] = ground arith
find_role-append row r u (old ∷ rows) = ground (arith, find_role-append row r u rows)

-- The room has the owner `u`, and no other.
pub record OwnedBy (room u : ℕ) (rows : List Row) : Type 0 where
  pub owns : find_role room u rows ≡ some owner
  pub alone : (v : ℕ) → find_role room v rows ≡ some owner → v ≡ u
