-- ===== src/Account/Users.antt =====
-- internal/persistence/user_repo.go: the statements on the table `service_user`.
use blabby.Prelude.{ℕ, List, [], ◌∷◌, Option, none, some, Bool, if◌then◌else◌, ok, err}
use blabby.Text.{Bytes, bytes_eq}
use blabby.Map.{lookup, insert, has_key, is_some}
use blabby.Domain.User.{UserStatus}
use blabby.Domain.Handle.{normalized}
use blabby.PublicCode.{new_public_code}
use blabby.Account.World.{
  User, Account, Verification, Tables, Arrival, World, Error, user_not_found, mail_taken,
  handle_taken, code_collision, mint, database, Action, ◌>>=◌, pure, raise, statement, mint_user_id,
}

unfoldable pub find_user : (User → Bool) → List Account → Option Account
find_user p [] = none
find_user p ((i, u) ∷ rest) = if p u then some (i, u) else find_user p rest

abbrev pub has_mail : Bytes → User → Bool
has_mail mail u = bytes_eq u.mail_address mail

abbrev pub has_code : Bytes → User → Bool
has_code code u = bytes_eq u.public_code code

abbrev pub has_handle : Bytes → User → Bool
has_handle handle u = bytes_eq (normalized u.handle) (normalized handle)

-- The constraints of the table, and the one that a new row violates first.
pub data Constraint : Type 0 where
  primary_key user_public_code_key mail_address_key handle_norm_key : Constraint

unfoldable pub conflict : ℕ → User → List Account → Option Constraint
unfolding lookup find_user
conflict i u users =
    if has_key i users
    then some primary_key
    else if is_some (find_user (has_code u.public_code) users)
    then some user_public_code_key
    else if is_some (find_user (has_mail u.mail_address) users)
    then some mail_address_key
    else if is_some (find_user (has_handle u.handle) users)
    then some handle_norm_key
    else none

-- `classifyCreateError` of a violated constraint.
abbrev pub classify_create_error : Constraint → Error
classify_create_error user_public_code_key = code_collision
classify_create_error mail_address_key = mail_taken
classify_create_error handle_norm_key = handle_taken
classify_create_error primary_key = database

abbrev pub fresh_challenge : Bytes → ℕ → ℕ → Verification
fresh_challenge pin_hash expires_at sent_at = record {
  pin_hash = pin_hash;
  expires_at = expires_at;
  attempts = 0;
  resend_count = 0;
  last_sent_at = some sent_at;
}

-- What a registration elsewhere leaves, if the constraints admit it.
unfoldable pub admit : Option Arrival → Tables → Tables
unfolding conflict insert
admit none t = t
admit (some a) t = elim (conflict a.id a.user t.users) [
  | some violated ↦ t
  | none ↦ record {
    users = insert a.id (record a.user { status = UserStatus.pending }) t.users;
    challenges = insert a.id (fresh_challenge a.pin_hash a.expires_at a.sent_at) t.challenges;
  }
]

abbrev pub with_arrival : Option Arrival → List (Option Arrival) → World → World
with_arrival arrival rest w = record w {
  committed = admit arrival w.committed;
  tables = admit arrival w.tables;
  arrivals = rest;
}

unfoldable pub arrive : World → World
unfolding admit
arrive w = elim w.arrivals [ [] ↦ w | arrival ∷ rest ↦ with_arrival arrival rest w ]

-- The INSERT of `userInsertSQL`, and the row it returns.
unfoldable pub insert_user : ℕ → User → Action Account
unfolding conflict insert
insert_user i u w = elim (conflict i u w.tables.users) [
  | some violated ↦ (err (classify_create_error violated), w)
  | none ↦ (ok (i, u), record w { tables = record w.tables { users = insert i u w.tables.users } })
]

pub record UserCreateParams : Type 0 where
  pub mail_address : Bytes
  pub handle : Bytes
  pub display_name : Bytes
  pub password_hash : Bytes
  pub status : UserStatus

abbrev pub new_user : Bytes → UserCreateParams → ℕ → User
new_user code params now = record {
  public_code = code;
  mail_address = params.mail_address;
  handle = params.handle;
  display_name = params.display_name;
  password_hash = params.password_hash;
  status = params.status;
  created_at = now;
  updated_at = now;
}

-- `id.NewPublicCode`
unfoldable pub mint_public_code : Action Bytes
unfolding new_public_code
mint_public_code w = elim w.code_bytes [
  | [] ↦ (err mint, w)
  | random ∷ rest ↦ elim random [
    | none ↦ (err mint, record w { code_bytes = rest })
    | some bytes ↦ (ok (new_public_code bytes), record w { code_bytes = rest })
  ]
]

-- `Create`
unfoldable pub create : UserCreateParams → Action Account
unfolding statement mint_user_id mint_public_code insert_user arrive
create params = do
  user_id ← mint_user_id
  code ← mint_public_code
  statement (λ w. insert_user user_id (new_user code params w.now) (arrive w))

-- `findOne`, after a SELECT on a unique column
unfoldable pub find_one : Option Account → Action Account
find_one none = raise user_not_found
find_one (some account) = pure account

-- `FindByEmail`
unfoldable pub find_by_email : Bytes → Action Account
unfolding statement find_one find_user
find_by_email mail = statement (λ w. find_one (find_user (has_mail mail) w.tables.users) w)

abbrev with_id : ℕ → Option User → Option Account
with_id i none = none
with_id i (some u) = some (i, u)

-- `FindByID`
unfoldable pub find_by_id : ℕ → Action Account
unfolding statement find_one lookup
find_by_id i = statement (λ w. find_one (with_id i (lookup i w.tables.users)) w)

-- `ResolveByPublicCode`
unfoldable pub resolve_by_public_code : Bytes → Action ℕ
unfolding statement find_one find_user
resolve_by_public_code code = do
  (i, u) ← statement (λ w. find_one (find_user (has_code code) w.tables.users) w)
  pure i

-- An UPDATE by id, and whether it found its row.
unfoldable pub update_user : ℕ → (User → User) → Action (Unit {0})
unfolding lookup insert
update_user i f w = elim (lookup i w.tables.users) [
  | none ↦ (err user_not_found, w)
  | some u ↦
      (ok tt, record w { tables = record w.tables { users = insert i (f u) w.tables.users } })
]

-- `SetStatus`
unfoldable pub set_status : ℕ → UserStatus → Action (Unit {0})
unfolding statement update_user
set_status i status =
    statement (λ w. update_user i (λ u. record u { status = status; updated_at = w.now }) w)

-- `SetPasswordHash`
unfoldable pub set_password_hash : ℕ → Bytes → Action (Unit {0})
unfolding statement update_user
set_password_hash i hash =
    statement (λ w. update_user i (λ u. record u { password_hash = hash; updated_at = w.now }) w)
