-- ===== src/Account/Directory.antt =====
-- internal/gateway/user_directory.go: checking of credentials and resolution of token subjects. What a
-- comparison against the dummy hash costs in time is not modelled; its result is discarded.
use blabby.Prelude.{ℕ, Option, none, some, if◌then◌else◌, Result, ok, err}
use blabby.Text.{Bytes}
use blabby.Domain.User.{UserStatus, pending, active, disabled}
use blabby.Domain.MailAddress.{new_mail_address}
use blabby.Auth.Password.{Crypto, hash_password, verify_password, password_needs_rehash}
use blabby.Account.World.{Account, World, Error, user_not_found, Action, ◌>>=◌}
use blabby.Account.Users.{find_by_email, resolve_by_public_code, set_password_hash}
use blabby.Account.Registration.{draw_salt, or_raise}

pub record VerifiedUser : Type 0 where
  pub user_id : ℕ
  pub public_code : Bytes

-- The sentinels of internal/auth/errors.go that the two calls return; `backend` is any other error.
pub data AuthError : Type 0 where
  invalid_credentials account_pending public_code_unknown backend : AuthError

-- A statement on the pool commits by itself.
abbrev pub autocommit : {A : Type 0} → Action A → Action A
autocommit m w = let (r, w') = m w in (r, record w' { committed = w'.tables })

module _ (crypto : Crypto) where
  -- `rehashPassword`, whose failures are only logged
  unfoldable pub rehash_password : ℕ → Bytes → World → World
  unfolding draw_salt set_password_hash
  rehash_password user_id password w = (rehash w).1
    where
      rehash : Action (Unit {0})
      rehash = do
        salt ← draw_salt Error.hash_password
        hash ← or_raise Error.hash_password (hash_password crypto salt password)
        autocommit (set_password_hash user_id hash)

  -- What follows a password that verified.
  unfoldable pub admit_status :
      Bytes → Account → UserStatus → World → Result AuthError VerifiedUser × World
  unfolding rehash_password password_needs_rehash
  admit_status password (user_id, user) pending w = (err account_pending, w)
  admit_status password (user_id, user) disabled w = (err invalid_credentials, w)
  admit_status password (user_id, user) active w = (
    ok (record { user_id = user_id; public_code = user.public_code }),
    if password_needs_rehash crypto user.password_hash
        then rehash_password user_id password w
        else w,
  )

  unfoldable pub verify_found :
      Bytes → Result Error Account → World → Result AuthError VerifiedUser × World
  unfolding verify_password admit_status
  verify_found password (ok (user_id, user)) w =
      if verify_password crypto user.password_hash password
      then admit_status password (user_id, user) user.status w
      else (err invalid_credentials, w)
  verify_found password (err user_not_found) w = (err invalid_credentials, w)
  verify_found password (err e) w = (err backend, w)

  unfoldable pub verify_address :
      Bytes → Option Bytes → World → Result AuthError VerifiedUser × World
  unfolding find_by_email verify_found
  verify_address password none w = (err invalid_credentials, w)
  verify_address password (some addr) w =
      let (found, w') = find_by_email addr w in verify_found password found w'

  -- `VerifyCredentials`
  unfoldable pub verify_credentials : Bytes → Bytes → World → Result AuthError VerifiedUser × World
  unfolding verify_address new_mail_address
  verify_credentials mail_address password =
      verify_address password (new_mail_address crypto.nfc mail_address)

abbrev pub resolved : Result Error ℕ → Result AuthError ℕ
resolved (ok user_id) = ok user_id
resolved (err user_not_found) = err public_code_unknown
resolved (err e) = err backend

-- `ResolveUserID`
unfoldable pub resolve_user_id : Bytes → World → Result AuthError ℕ × World
unfolding resolve_by_public_code
resolve_user_id code w = let (found, w') = resolve_by_public_code code w in (resolved found, w')
