-- ===== src/Account/Acceptance.antt =====
-- On the submission of the PIN that a registration has issued.
use blabby.Prelude.{
  ℕ, ◌<◌, [], some, true, false, leb, Result, ok, err, ◌≡◌, inl, inr, refl, sym, ap, ◌∙◌, arith,
  Option-cases,
}
use blabby.Text.{Bytes}
use blabby.Map.{lookup, is_some}
use blabby.Domain.User.{is_pending}
use blabby.Pin
use blabby.Pin.{parse_pin}
use blabby.Auth.Password.{Crypto}
use blabby.Account.World.{
  User, Account, Verification, World, Error, statement, end_tx, answered_commit, within_tx,
  read_clock, expired,
}
use blabby.Account.Users.{find_user, has_mail, find_one, find_by_email, update_user, set_status}
use blabby.Account.Verifications
use blabby.Account.Registration.{RegistrationPolicy}
use blabby.Account.Verify.{
  Outcome, settle, verify, verify_op, verify_found, verify_account, check_found, check, judge,
  judged, activate,
}
use blabby.Account.Sound.{IsSound, is_pending_row}
use blabby.Account.Issued.{Ready}

-- No statement fails, and the clock stands still.
abbrev pub calm : World → World
calm w = record w { faults = []; ticks = [] }

settled : (r : Result Error Outcome × World) → r.0 ≡ ok (ok tt) → (settle r).0 ≡ ok tt
settled (ok outcome, w) e = cc
settled (err x, w) e = absurd (ground arith)

module _ (crypto : Crypto) (policy : RegistrationPolicy) where
  activates :
      (i : ℕ) (u : User) (v : Verification) (w : World)
      → lookup i w.tables.users ≡ some u
      → lookup i w.tables.challenges ≡ some v
      → (end_tx (activate crypto policy i (calm w))).0 ≡ ok (ok tt)
  unfolding activate statement end_tx answered_commit update_user set_status Verifications.remove
      Verifications.delete_challenge
  activates i u v w there at = rw (there, activate, set_status, update_user, statement, at) refl

  accepts :
      (mail pin : Bytes) (i : ℕ) (u u' : User) (v : Verification) (w : World)
      → find_user (has_mail mail) w.tables.users ≡ some (i, u)
      → is_pending u.status ≡ true
      → lookup i w.tables.challenges ≡ some v
      → leb policy.max_verify_attempts v.attempts ≡ false
      → expired v w.now ≡ false
      → Pin.verify crypto.compare v.pin_hash pin ≡ ok tt
      → lookup i w.tables.users ≡ some u'
      → (verify crypto policy mail pin (calm w)).0 ≡ ok tt
  unfolding verify verify_op verify_found verify_account check_found check judge judged activate
      statement end_tx answered_commit within_tx read_clock find_one find_by_email update_user
      set_status Verifications.find_by_user Verifications.remove Verifications.delete_challenge
  accepts mail pin i u u' v w found waiting at below early right there =
      rw (found, waiting, at, below, early, right) (settled _ (activates i u' v w there at))

-- The PIN of a pending account's unexpired challenge activates the account, if no statement fails: where
-- the tables are sound, bcrypt accepts its own hashes, the policy allows an attempt and the PIN is in
-- its canonical form, `Verify` reports success.
pub verify-Ready :
    (crypto : Crypto) (policy : RegistrationPolicy) (mail pin : Bytes) (account : Account)
    (w : World)
    → IsSound policy.max_resend_count w.tables
    → ((salt : ℕ) (secret hash : Bytes)
        → crypto.generate crypto.default_cost salt secret ≡ some hash
        → crypto.compare hash secret ≡ true)
    → 0 < policy.max_verify_attempts
    → parse_pin pin ≡ ok pin
    → Ready crypto policy mail account pin w.tables
    → ((v : Verification) → lookup account.0 w.tables.challenges ≡ some v → w.now < v.expires_at)
    → (verify crypto policy mail pin (calm w)).0 ≡ ok tt
unfolding Pin.verify
verify-Ready crypto policy mail pin (i, u) w sound bcrypt allowed canonical ready timely =
    let (pending, issued) = ready in
    let (found, waiting) = pending in
    let (v, at, hashed, none_yet, sent) = issued in
    let (salt, made) = hashed in
    let early = timely v at in
    let right : Pin.verify crypto.compare v.pin_hash pin ≡ ok tt =
      rw (canonical, bcrypt salt pin v.pin_hash made) refl in
    elim (Option-cases (lookup i w.tables.users)) [
      | inl gone ↦
          absurd (ground (arith, sym (ap is_some at) ∙ sound.paired i ∙ ap is_pending_row gone))
      | inr (u', there) ↦
          accepts crypto policy mail pin i u u' v w found waiting at (ground arith) (ground arith)
            right there
    ]
