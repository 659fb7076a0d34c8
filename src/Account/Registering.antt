-- ===== src/Account/Registering.antt =====
-- On registration with its retries, on re-sending, and the soundness of the tables.
use blabby.Prelude.{
  ℕ, zero, suc, ◌-◌, Option, none, some, Bool, true, false, Result, ok, err, inl, inr, arith,
  Bool-cases,
}
use blabby.Text.{Bytes}
use blabby.Domain.User.{is_pending}
use blabby.Auth.Password.{Crypto, hash_password}
use blabby.Account.World.{Account, Tables, Delivery, World, Error, Action, ◌>>=◌, within_tx}
use blabby.Account.Users.{find_by_email}
use blabby.Account.Registration.{
  RegistrationPolicy, RegisterParams, draw_salt, or_raise, register_again, register_hashed,
  register_new, register_found, register_op, register, Verdict, after_race, after_collision,
  verdict, follow, turn, turns, run_with_registration_retry, deliver, send,
}
use blabby.Account.Verify
use blabby.Account.Verify.{
  Outcome, judge, check, check_found, verify_account, verify_found, verify_op, verify, settle,
  resend_account, resend_found, resend_op,
}
use blabby.Account.Triples.{At, Both, Post, Post-continue, Triple, within_tx-Both}
use blabby.Account.Transactions.{
  Inv, sound-Reads, resend_pending-Sound, create_pending-Sound, after_reading, draw_salt-Reads,
  find_by_email-Reads,
}

module _ (crypto : Crypto) (policy : RegistrationPolicy) where
  abbrev I : Tables → Type 0
  I = Inv crypto policy

  register_again-Sound :
      (params : RegisterParams) (account : Account)
      → Triple I (Both I) (λ _. Both I) (register_again crypto policy params account)
  unfolding register_again
  register_again-Sound params (user_id, user) w h = elim (Bool-cases (is_pending user.status)) [
    | inl waiting ↦ rw waiting (
        Post-continue I (λ _. Both I) (λ _. Both I) _ _
          (resend_pending-Sound crypto policy user_id w h) (λ _ w h. h))
    | inr settled ↦ rw settled h.0
  ]

  register_hashed-Sound :
      (params : RegisterParams) (hash : Bytes)
      → Triple I (Both I) (λ _. Both I) (register_hashed crypto policy params hash)
  unfolding register_hashed
  register_hashed-Sound params hash w h =
      Post-continue I (λ _. Both I) (λ _. Both I) _ _
        (create_pending-Sound crypto policy params hash w h) (λ _ w h. h)

  register_new-Sound :
      (params : RegisterParams)
      → Triple I (Both I) (λ _. Both I) (register_new crypto policy params)
  unfolding register_new
  register_new-Sound params =
      sound-Reads crypto policy (λ _. Both I) (draw_salt Error.hash_password) _ (draw_salt-Reads _)
        (λ salt w h. go (hash_password crypto salt params.password) w h)
    where
      go :
          (hash : Option Bytes) (w : World)
          → At (Both I) w
          → Post I {A = Bytes × Option Delivery}
              (λ _. Both I)
              ((or_raise Error.hash_password hash >>= register_hashed crypto policy params) w)
      go none w h = h.0
      go (some hash) w h = register_hashed-Sound params hash w h

  register_found-Sound :
      (params : RegisterParams) (found : Result Error Account)
      → Triple I (Both I) (λ _. Both I) (register_found crypto policy params found)
  unfolding register_found
  register_found-Sound params (ok account) w h = register_again-Sound params account w h
  register_found-Sound params (err Error.user_not_found) w h = register_new-Sound params w h
  register_found-Sound params (err e) w h = ground (arith, h)

  register_op-Sound :
      (params : RegisterParams) → Triple I (Both I) (λ _. Both I) (register_op crypto policy params)
  unfolding register_op
  register_op-Sound params w h =
      after_reading crypto policy (find_by_email params.mail_address)
        (register_found crypto policy params) w (find_by_email-Reads params.mail_address)
        (register_found-Sound params) h

  turn-Sound :
      {A : Type 0} (again : Bool → ℕ → Action A) (retried : Bool) (left : ℕ) (op : Action A)
      → Triple I (Both I) (λ _. Both I) op
      → ((r : Bool) (l : ℕ) (w : World) → At (Both I) w → At (Both I) (again r l w).1)
      → (w : World) → At (Both I) w
      → At (Both I) (turn again retried left op w).1
  unfolding turn
  turn-Sound again retried left op kept more w h =
      go (verdict retried left (within_tx op w).0) (within_tx-Both I op w kept h)
    where
      go :
          (v : Verdict)
          → At (Both I) (within_tx op w).1
          → At (Both I) (follow again retried left (within_tx op w) v).1
      go Verdict.return both = both
      go after_race both = more true left _ both
      go after_collision both = more retried (left - 1) _ both

  turns-Sound :
      {A : Type 0} (fuel : ℕ) (retried : Bool) (left : ℕ) (op : Action A)
      → Triple I (Both I) (λ _. Both I) op
      → (w : World) → At (Both I) w
      → At (Both I) (turns fuel retried left op w).1
  unfolding turns
  turns-Sound zero retried left op kept w h = within_tx-Both I op w kept h
  turns-Sound (suc fuel) retried left op kept w h =
      turn-Sound (λ r l. turns fuel r l op) retried left op kept
        (λ r l. turns-Sound fuel r l op kept) w h

  deliver-Sound :
      {A : Type 0} (r : Result Error (A × Option Delivery) × World)
      → At (Both I) r.1
      → At (Both I) (deliver r).1
  unfolding send
  deliver-Sound (ok (a, none), w) h = h
  deliver-Sound (ok (a, some d), w) h = h
  deliver-Sound (err e, w) h = h

  pub register-Sound :
      (params : RegisterParams) (w : World)
      → At (Both I) w
      → At (Both I) (register crypto policy params w).1
  unfolding register run_with_registration_retry
  register-Sound params w h = deliver-Sound _ (
      turns-Sound (suc policy.collision_retries) false policy.collision_retries
        (register_op crypto policy params) (register_op-Sound params) w h)

  resend_account-Sound :
      (mail : Bytes) (account : Account)
      → Triple I (Both I) (λ _. Both I) (resend_account crypto policy mail account)
  unfolding resend_account
  resend_account-Sound mail (user_id, user) w h = elim (Bool-cases (is_pending user.status)) [
    | inl waiting ↦ rw waiting (
        Post-continue I (λ _. Both I) (λ _. Both I) _ _
          (resend_pending-Sound crypto policy user_id w h) (λ _ w h. h))
    | inr settled ↦ rw settled h
  ]

  resend_found-Sound :
      (mail : Bytes) (found : Result Error Account)
      → Triple I (Both I) (λ _. Both I) (resend_found crypto policy mail found)
  unfolding resend_found
  resend_found-Sound mail (ok account) w h = resend_account-Sound mail account w h
  resend_found-Sound mail (err Error.user_not_found) w h = h
  resend_found-Sound mail (err e) w h = ground (arith, h)

  pub resend-Sound :
      (mail : Bytes) (w : World)
      → At (Both I) w
      → At (Both I) (Verify.resend crypto policy mail w).1
  unfolding Verify.resend resend_op
  resend-Sound mail w h = deliver-Sound _ (
      within_tx-Both I (resend_op crypto policy mail) w
        (λ w h.
          after_reading crypto policy (find_by_email mail) (resend_found crypto policy mail) w
            (find_by_email-Reads mail) (resend_found-Sound mail) h)
        h)
