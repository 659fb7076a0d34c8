-- ===== src/Account/Verify.antt =====
-- internal/gateway/verification.go: checking a submitted PIN, and re-sending one.
use blabby.Prelude.{ℕ, Option, none, some, leb, if◌then◌else◌, Result, ok, err}
use blabby.Text.{Bytes}
use blabby.Domain.User.{UserStatus, is_pending}
use blabby.Pin
use blabby.Auth.Password.{Crypto}
use blabby.Account.World.{
  Account, Verification, Delivery, World, Error, user_not_found, verification_not_found,
  verify_invalid, Action, pure, raise, within_tx, read_clock, expired, ◌>>=◌, ◌>>◌,
}
use blabby.Account.Users.{find_by_email, set_status}
use blabby.Account.Verifications
use blabby.Account.Registration.{RegistrationPolicy, resend_pending, deliver, send}

-- What the closure leaves in `outcome`.
abbrev pub Outcome : Type 0
Outcome = Result Error (Unit {0})

abbrev invalid : Action Outcome
invalid = pure (err verify_invalid)

-- An error that is wrapped by `%w` is still its sentinel.
abbrev pub settle : Result Error Outcome × World → Outcome × World
settle (ok outcome, w) = (outcome, w)
settle (err e, w) = (err e, w)

module _ (crypto : Crypto) (policy : RegistrationPolicy) where
  unfoldable pub count_attempt : ℕ → Action Outcome
  unfolding Verifications.increment_attempts
  count_attempt user_id = do attempts ← Verifications.increment_attempts user_id; invalid

  unfoldable pub activate : ℕ → Action Outcome
  unfolding set_status Verifications.remove
  activate user_id = do
    set_status user_id UserStatus.active
    Verifications.remove user_id
    pure (ok tt)

  -- A submitted PIN that the hash accepts activates the account; any other counts.
  unfoldable pub judged : ℕ → Result Pin.Error (Unit {0}) → Action Outcome
  unfolding count_attempt activate
  judged user_id (err e) = count_attempt user_id
  judged user_id (ok _) = activate user_id

  unfoldable pub judge : ℕ → Bytes → Verification → Action Outcome
  unfolding judged Pin.verify
  judge user_id pin challenge = judged user_id (Pin.verify crypto.compare challenge.pin_hash pin)

  unfoldable pub check : ℕ → Bytes → Verification → Action Outcome
  unfolding judge read_clock
  check user_id pin challenge =
      if leb policy.max_verify_attempts challenge.attempts then invalid else (do
        now ← read_clock
        if expired challenge now then invalid else judge user_id pin challenge)

  unfoldable pub check_found : ℕ → Bytes → Result Error Verification → Action Outcome
  unfolding check
  check_found user_id pin (ok challenge) = check user_id pin challenge
  check_found user_id pin (err verification_not_found) = invalid
  check_found user_id pin (err e) = raise e

  unfoldable pub verify_account : Bytes → Account → Action Outcome
  unfolding check_found Verifications.find_by_user
  verify_account pin (user_id, user) =
      if is_pending user.status
      then (λ w.
          let (found, w') = Verifications.find_by_user user_id w in
          check_found user_id pin found w')
      else invalid

  unfoldable pub verify_found : Bytes → Result Error Account → Action Outcome
  unfolding verify_account
  verify_found pin (ok account) = verify_account pin account
  verify_found pin (err user_not_found) = invalid
  verify_found pin (err e) = raise e

  -- The closure of `Verify`.
  unfoldable pub verify_op : Bytes → Bytes → Action Outcome
  unfolding verify_found find_by_email
  verify_op mail pin w = let (found, w') = find_by_email mail w in verify_found pin found w'

  -- `Verify` of an address and a PIN.
  unfoldable pub verify : Bytes → Bytes → World → Outcome × World
  unfolding verify_op within_tx
  verify mail pin w = settle (within_tx (verify_op mail pin) w)

  unfoldable pub resend_account : Bytes → Account → Action (Unit {0} × Option Delivery)
  unfolding resend_pending
  resend_account mail (user_id, user) =
      if is_pending user.status
      then (do
        pin ← resend_pending crypto policy user_id
        pure (tt, some (record { to = mail; pin = pin })))
      else pure (tt, none)

  unfoldable pub resend_found : Bytes → Result Error Account → Action (Unit {0} × Option Delivery)
  unfolding resend_account
  resend_found mail (ok account) = resend_account mail account
  resend_found mail (err user_not_found) = pure (tt, none)
  resend_found mail (err e) = raise e

  -- The closure of `Resend`.
  unfoldable pub resend_op : Bytes → Action (Unit {0} × Option Delivery)
  unfolding resend_found find_by_email
  resend_op mail w = let (found, w') = find_by_email mail w in resend_found mail found w'

  -- `Resend`
  unfoldable pub resend : Bytes → Action (Unit {0})
  unfolding resend_op within_tx send
  resend mail w = deliver (within_tx (resend_op mail) w)
