-- ===== src/Account/Registration.antt =====
-- internal/gateway/registration.go: registration of an account and of its verification challenge. The
-- policy and the library's cryptography are parameters.
use blabby.Prelude.{
  ℕ, zero, suc, ◌+◌, ◌-◌, ◌*◌, ◌^◌, Option, none, some, Bool, true, false, if◌then◌else◌, Result,
  ok, err, [], ◌∷◌,
}
use blabby.Text.{Bytes}
use blabby.Domain.User.{UserStatus, is_pending}
use blabby.PublicCode.{format_user}
use blabby.Pin.{new_pin}
use blabby.Auth.Password.{Crypto, hash_password}
use blabby.Account.World.{
  Account, Delivery, World, Error, user_not_found, mail_taken, mail_race, code_collision,
  generate_pin, Error, Action, ◌>>=◌, ◌>>◌, pure, raise, within_tx, read_clock,
}
use blabby.Account.Users
use blabby.Account.Users.{find_by_email}
use blabby.Account.Verifications

pub record RegisterParams : Type 0 where
  pub mail_address : Bytes
  pub handle : Bytes
  pub password : Bytes

pub record RegistrationPolicy : Type 0 where
  pub pin_ttl : ℕ
  pub resend_min_interval : ℕ
  pub max_resend_count : ℕ
  pub max_verify_attempts : ℕ
  pub collision_retries : ℕ

-- `DefaultRegistrationPolicy`
abbrev pub default_registration_policy : RegistrationPolicy
default_registration_policy = record {
  pin_ttl = 10 * 60 * 10 ^ 9;
  resend_min_interval = 60 * 10 ^ 9;
  max_resend_count = 5;
  max_verify_attempts = 5;
  collision_retries = 3;
}

-- A draw from a tape of the environment; a tape that ends is a source that fails.
unfoldable pub draw_number : Action ℕ
draw_number w = elim w.draws [
  | [] ↦ (err generate_pin, w)
  | drawn ∷ rest ↦ elim drawn [
    | none ↦ (err generate_pin, record w { draws = rest })
    | some n ↦ (ok n, record w { draws = rest })
  ]
]

unfoldable pub draw_salt : Error → Action ℕ
draw_salt e w = elim w.salts [
  | [] ↦ (err e, w)
  | drawn ∷ rest ↦ elim drawn [
    | none ↦ (err e, record w { salts = rest })
    | some n ↦ (ok n, record w { salts = rest })
  ]
]

abbrev pub or_raise : {A : Type 0} → Error → Option A → Action A
or_raise e none = raise e
or_raise e (some a) = pure a

-- `sender.Send`, whose failure is only logged
unfoldable pub send : Option Delivery → World → World
send none w = w
send (some d) w = record w { outbox = d ∷ w.outbox }

-- What follows the transaction of a registration or of a re-sending.
abbrev pub deliver :
    {A : Type 0} → Result Error (A × Option Delivery) × World → Result Error A × World
deliver (ok (a, to_send), w) = (ok a, send to_send w)
deliver (err e, w) = (err e, w)

-- How `runWithRegistrationRetry` takes the outcome of a transaction: return it, or run once more after
-- a race or after a collision. The flag says that a race was retried, the number how many collisions
-- may still be.
pub data Verdict : Type 0 where
  return after_race after_collision : Verdict

unfoldable pub verdict : {A : Type 0} → Bool → ℕ → Result Error A → Verdict
verdict retried left (ok a) = return
verdict retried left (err mail_race) = if retried then return else after_race
verdict retried left (err code_collision) = elim left [ zero ↦ return | suc more ↦ after_collision ]
verdict retried left (err e) = return

abbrev pub follow :
    {A : Type 0}
    → (Bool → ℕ → Action A)
    → Bool
    → ℕ
    → Result Error A × World
    → Verdict
    → Result Error A × World
follow again retried left (result, w) return = (result, w)
follow again retried left (result, w) after_race = again true left w
follow again retried left (result, w) after_collision = again retried (left - 1) w

-- One turn of the loop, which goes on as `again` says.
unfoldable pub turn : {A : Type 0} → (Bool → ℕ → Action A) → Bool → ℕ → Action A → Action A
unfolding verdict within_tx
turn again retried left op w =
    let (result, w') = within_tx op w in
    follow again retried left (result, w') (verdict retried left result)

-- The loop with `fuel` turns after the first.
unfoldable pub turns : {A : Type 0} → ℕ → Bool → ℕ → Action A → Action A
unfolding turn
turns zero retried left op = within_tx op
turns (suc fuel) retried left op = turn (λ r l. turns fuel r l op) retried left op

-- `runWithRegistrationRetry`: one race and each collision may be retried.
unfoldable pub run_with_registration_retry : {A : Type 0} → ℕ → Action A → Action A
unfolding turns
run_with_registration_retry collision_retries op =
    turns (suc collision_retries) false collision_retries op

module _ (crypto : Crypto) (policy : RegistrationPolicy) where
  -- `newHashedPIN`: the PIN and its hash, at the cost `pinHashCost`; `Hash` tests the digits of the PIN
  -- again, which those of `NewPIN` pass
  unfoldable pub new_hashed_pin : Action (Bytes × Bytes)
  unfolding draw_number draw_salt
  new_hashed_pin = do
    n ← draw_number
    salt ← draw_salt generate_pin
    hash ← or_raise generate_pin (crypto.generate crypto.default_cost salt (new_pin n))
    pure (new_pin n, hash)

  -- An insertion that a unique address refused was overtaken.
  unfoldable pub mark_race : Result Error Account × World → Result Error Account × World
  mark_race (ok a, w) = (ok a, w)
  mark_race (err mail_taken, w) = (err mail_race, w)
  mark_race (err e, w) = (err e, w)

  abbrev pub pending_user : RegisterParams → Bytes → Users.UserCreateParams
  pending_user params password_hash = record {
    mail_address = params.mail_address;
    handle = params.handle;
    display_name = params.handle;
    password_hash = password_hash;
    status = UserStatus.pending;
  }

  unfoldable pub store_challenge : Bytes × Bytes → Account → Action (Account × Bytes)
  unfolding read_clock Verifications.create
  store_challenge (pin, pin_hash) account = do
    now ← read_clock
    Verifications.create (record {
      user_id = account.0;
      pin_hash = pin_hash;
      expires_at = now + policy.pin_ttl;
      sent_at = now;
    })
    pure (account, pin)

  -- `createPending`
  unfoldable pub create_pending : RegisterParams → Bytes → Action (Account × Bytes)
  unfolding new_hashed_pin Users.create mark_race store_challenge
  create_pending params password_hash = do
    hashed_pin ← new_hashed_pin
    account ← λ w. mark_race (Users.create (pending_user params password_hash) w)
    store_challenge hashed_pin account

  unfoldable pub replace_challenge : ℕ → Bytes × Bytes → Action Bytes
  unfolding read_clock Verifications.resend
  replace_challenge user_id (pin, pin_hash) = do
    now ← read_clock
    Verifications.resend
        (record {
          user_id = user_id;
          pin_hash = pin_hash;
          expires_at = now + policy.pin_ttl;
          sent_at = now;
        })
        (record {
          previous_sent_before = now - policy.resend_min_interval;
          max_resend_count = policy.max_resend_count;
        })
    pure pin

  -- `resendPending`
  unfoldable pub resend_pending : ℕ → Action Bytes
  unfolding new_hashed_pin replace_challenge
  resend_pending user_id = do hashed_pin ← new_hashed_pin; replace_challenge user_id hashed_pin

  -- What `op` does with the account that has the address: re-send if it is pending.
  unfoldable pub register_again : RegisterParams → Account → Action (Bytes × Option Delivery)
  unfolding resend_pending
  register_again params (user_id, user) =
      if is_pending user.status
      then (do
        pin ← resend_pending user_id
        pure (format_user user.public_code, some (record { to = params.mail_address; pin = pin })))
      else raise mail_taken

  unfoldable pub register_hashed : RegisterParams → Bytes → Action (Bytes × Option Delivery)
  unfolding create_pending
  register_hashed params password_hash = do
    ((user_id, user), pin) ← create_pending params password_hash
    pure (format_user user.public_code, some (record { to = params.mail_address; pin = pin }))

  -- and what it does if there is none.
  unfoldable pub register_new : RegisterParams → Action (Bytes × Option Delivery)
  unfolding draw_salt register_hashed
  register_new params = do
    salt ← draw_salt Error.hash_password
    password_hash ← or_raise Error.hash_password (hash_password crypto salt params.password)
    register_hashed params password_hash

  unfoldable pub register_found :
      RegisterParams → Result Error Account → Action (Bytes × Option Delivery)
  unfolding register_again register_new
  register_found params (ok account) = register_again params account
  register_found params (err user_not_found) = register_new params
  register_found params (err e) = raise e

  -- The closure `op` of `Register`: the public code, and the PIN to deliver.
  unfoldable pub register_op : RegisterParams → Action (Bytes × Option Delivery)
  unfolding register_found find_by_email
  register_op params w =
      let (found, w') = find_by_email params.mail_address w in register_found params found w'

  -- `Register`
  unfoldable pub register : RegisterParams → Action Bytes
  unfolding run_with_registration_retry register_op send
  register params w =
      deliver (run_with_registration_retry policy.collision_retries (register_op params) w)
