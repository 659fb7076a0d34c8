-- ===== src/Account/Transactions.antt =====
-- On the steps of registration and re-sending, and the soundness of the tables.
use blabby.Prelude.{ℕ, ◌+◌, Option, none, some, Result, ok, err, refl, arith}
use blabby.Text.{Bytes}
use blabby.Pin.{new_pin}
use blabby.Auth.Password.{Crypto}
use blabby.Account.World.{Account, Tables, World, Error, Action, ◌>>=◌, pure, read_clock}
use blabby.Account.Users
use blabby.Account.Users.{find_user, has_mail, find_one, find_by_email, update_user, set_status}
use blabby.Account.Registration.{
  RegistrationPolicy, RegisterParams, draw_number, draw_salt, or_raise, new_hashed_pin, mark_race,
  create_pending, pending_user, store_challenge, replace_challenge, resend_pending,
}
use blabby.Account.Triples.{
  Assertion, At, Both, Post, Post-continue, Triple, Triple-bind, Triple-Reads, Reads,
  statement-Reads, read_clock-Reads,
}
use blabby.Account.Kept.{Sound, Added, create-Added, create_challenge-IsSound, resend-IsSound}

pub draw_number-Reads : Reads draw_number
unfolding draw_number
draw_number-Reads w = ground arith

pub draw_salt-Reads : (e : Error) → Reads (draw_salt e)
unfolding draw_salt
draw_salt-Reads e w = ground arith

or_raise-Reads : {A : Type 0} (e : Error) (o : Option A) → Reads (or_raise e o)
or_raise-Reads e none w = (refl, refl)
or_raise-Reads e (some a) w = (refl, refl)

find_one-Reads : (o : Option Account) → Reads (find_one o)
unfolding find_one
find_one-Reads none w = (refl, refl)
find_one-Reads (some a) w = (refl, refl)

pub find_by_email-Reads : (mail : Bytes) → Reads (find_by_email mail)
unfolding find_by_email
find_by_email-Reads mail =
    statement-Reads _ (λ w. find_one-Reads (find_user (has_mail mail) w.tables.users) w)

module _ (crypto : Crypto) (policy : RegistrationPolicy) where
  abbrev pub Inv : Tables → Type 0
  Inv = Sound policy.max_resend_count

  -- The start of a transaction's body that reads, and of one that has added an account.
  pub sound-Reads :
      {A B : Type 0} (R : B → Assertion) (m : Action A) (f : A → Action B)
      → Reads m
      → ((a : A) → Triple Inv (Both Inv) R (f a))
      → Triple Inv (Both Inv) R (m >>= f)
  sound-Reads R m f = Triple-Reads Inv (Both Inv) R m f (λ c t h. h.0)

  hashed_pin :
      (n : ℕ) (hash : Option Bytes)
      → Triple Inv {A = Bytes × Bytes}
          (Both Inv)
          (λ _. Both Inv)
          (or_raise Error.generate_pin hash >>= λ h. pure (new_pin n, h))
  hashed_pin n none w h = h.0
  hashed_pin n (some hash) w h = h

  -- A re-sending or a registration draws its PIN first.
  with_pin :
      {B : Type 0} (R : B → Assertion) (f : Bytes × Bytes → Action B)
      → ((p : Bytes × Bytes) → Triple Inv (Both Inv) R (f p))
      → Triple Inv (Both Inv) R (new_hashed_pin crypto policy >>= f)
  unfolding new_hashed_pin
  with_pin R f h =
      Triple-bind Inv (Both Inv) (λ _. Both Inv) R _ f
        (sound-Reads (λ _. Both Inv) draw_number _ draw_number-Reads
          (λ n.
            sound-Reads (λ _. Both Inv) (draw_salt Error.generate_pin) _ (draw_salt-Reads _)
              (λ salt. hashed_pin n (crypto.generate crypto.default_cost salt (new_pin n)))))
        h

  mark_race-Post :
      (Q : Account → Assertion) (r : Result Error Account × World)
      → Post Inv Q r
      → Post Inv Q (mark_race crypto policy r)
  unfolding mark_race
  mark_race-Post Q (ok a, w) h = h
  mark_race-Post Q (err Error.mail_taken, w) h = h
  mark_race-Post Q (err e, w) h = ground (arith, h)

  store_challenge-Sound :
      (p : Bytes × Bytes) (account : Account)
      → Triple Inv
          (Added policy.max_resend_count account)
          (λ _. Both Inv)
          (store_challenge crypto policy p account)
  unfolding store_challenge
  store_challenge-Sound (pin, pin_hash) account =
      Triple-Reads Inv _ (λ _. Both Inv) read_clock _ (λ c t h. h.0) read_clock-Reads
        (λ now w h.
          Post-continue Inv (λ _. Both Inv) (λ _. Both Inv) (λ _. pure (account, pin)) _
            (create_challenge-IsSound _ account pin_hash (now + policy.pin_ttl) now w h)
            (λ _ w h. h))

  pub create_pending-Sound :
      (params : RegisterParams) (hash : Bytes)
      → Triple Inv (Both Inv) (λ _. Both Inv) (create_pending crypto policy params hash)
  unfolding create_pending
  create_pending-Sound params hash =
      with_pin (λ _. Both Inv) _
        (λ p w h.
          Post-continue Inv (λ account. Added policy.max_resend_count account) (λ _. Both Inv)
            (store_challenge crypto policy p) _
            (mark_race-Post _ (Users.create (pending_user crypto policy params hash) w)
              (create-Added _ (pending_user crypto policy params hash) refl w h))
            (store_challenge-Sound p))

  replace_challenge-Sound :
      (user_id : ℕ) (p : Bytes × Bytes)
      → Triple Inv (Both Inv) (λ _. Both Inv) (replace_challenge crypto policy user_id p)
  unfolding replace_challenge
  replace_challenge-Sound user_id (pin, pin_hash) =
      sound-Reads (λ _. Both Inv) read_clock _ read_clock-Reads
        (λ now w h.
          Post-continue Inv (λ _. Both Inv) (λ _. Both Inv) (λ _. pure pin) _
            (resend-IsSound _ _ _ refl w h) (λ _ w h. h))

  pub resend_pending-Sound :
      (user_id : ℕ) → Triple Inv (Both Inv) (λ _. Both Inv) (resend_pending crypto policy user_id)
  unfolding resend_pending
  resend_pending-Sound user_id = with_pin (λ _. Both Inv) _ (replace_challenge-Sound user_id)

  -- What reads the tables leaves them, whatever it returns.
  pub after_reading :
      {A B : Type 0} (m : Action A) (f : Result Error A → Action B) (w : World)
      → Reads m
      → ((r : Result Error A) → Triple Inv (Both Inv) (λ _. Both Inv) (f r))
      → At (Both Inv) w
      → Post Inv (λ _. Both Inv) (f (m w).0 (m w).1)
  after_reading m f w reads h both = let (c, t) = reads w in h (m w).0 (m w).1 (rw (c, t) both)
