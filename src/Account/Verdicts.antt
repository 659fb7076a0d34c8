-- ===== src/Account/Verdicts.antt =====
-- On verifications that succeed: from the challenge to the whole closure.
use blabby.Prelude.{
  ℕ, ◌<◌, some, true, leb, if◌then◌else◌, Result, ok, err, ◌≡◌, inl, inr, refl, ap, ◌∙◌, arith,
  Bool-cases, subst,
}
use blabby.Text.{Bytes}
use blabby.Map.{lookup}
use blabby.Domain.User.{is_pending}
use blabby.Pin
use blabby.Auth.Password.{Crypto}
use blabby.Account.World.{
  Account, Verification, Tables, World, Error, Action, pure, read_clock, expired, continue,
}
use blabby.Account.Verifications
use blabby.Account.Registration.{RegistrationPolicy}
use blabby.Account.Verify.{Outcome, judge, check, check_found, verify_account, verify_found}
use blabby.Account.Triples.{read_clock-Reads}
use blabby.Account.Checked.{find_by_user-Reads, find_by_user-found}
use blabby.Account.Accepting.{Accepted, judged-Accepted, read_clock-now}

module _ (crypto : Crypto) (policy : RegistrationPolicy) where
  judge-Accepted :
      (pin : Bytes) (i : ℕ) (v : Verification) (w : World)
      → lookup i w.tables.challenges ≡ some v
      → v.attempts < policy.max_verify_attempts
      → w.now < v.expires_at
      → (judge crypto policy i pin v w).0 ≡ ok (ok tt)
      → Accepted crypto policy pin i v w.tables (judge crypto policy i pin v w).1
  unfolding judge
  judge-Accepted pin i v w at below early e =
      let (right, (done, now)) =
        judged-Accepted crypto policy i w (Pin.verify crypto.compare v.pin_hash pin) e in
      (at, below, rw now early, right, done)

  -- What follows the reading of the clock.
  abbrev timely : Bytes → ℕ → Verification → ℕ → Action Outcome
  timely pin i v now =
      if expired v now then pure (err Error.verify_invalid) else judge crypto policy i pin v

  timely-Accepted :
      (pin : Bytes) (i : ℕ) (v : Verification) (w : World)
      → lookup i w.tables.challenges ≡ some v
      → v.attempts < policy.max_verify_attempts
      → (timely pin i v w.now w).0 ≡ ok (ok tt)
      → Accepted crypto policy pin i v w.tables (timely pin i v w.now w).1
  timely-Accepted pin i v w at below = elim (Bool-cases (expired v w.now)) [
    | inl late ↦ rw late (λ e. absurd (ground arith))
    | inr early ↦ rw early (λ e. judge-Accepted pin i v w at below (ground arith) e)
  ]

  clocked-Accepted :
      (pin : Bytes) (i : ℕ) (v : Verification) (t : Tables) (r : Result Error ℕ × World)
      → (r.0 ≡ ok r.1.now)
      → r.1.tables ≡ t
      → lookup i t.challenges ≡ some v
      → v.attempts < policy.max_verify_attempts
      → (continue r.0 (timely pin i v) r.1).0 ≡ ok (ok tt)
      → Accepted crypto policy pin i v t (continue r.0 (timely pin i v) r.1).1
  clocked-Accepted pin i v t (r, w) now same at below = rw now (λ e.
      subst (λ t. Accepted crypto policy pin i v t (timely pin i v w.now w).1) same
        (timely-Accepted pin i v w (ap (λ t. lookup i t.challenges) same ∙ at) below e))

  check-Accepted :
      (pin : Bytes) (i : ℕ) (v : Verification) (w : World)
      → lookup i w.tables.challenges ≡ some v
      → (check crypto policy i pin v w).0 ≡ ok (ok tt)
      → Accepted crypto policy pin i v w.tables (check crypto policy i pin v w).1
  unfolding check
  check-Accepted pin i v w at = elim (Bool-cases (leb policy.max_verify_attempts v.attempts)) [
    | inl locked ↦ rw locked (λ e. absurd (ground arith))
    | inr below ↦ rw below (
        clocked-Accepted pin i v w.tables (read_clock w) (read_clock-now w) (read_clock-Reads w).1
          at (ground arith))
  ]

  check_found-Accepted :
      (pin : Bytes) (i : ℕ) (found : Result Error Verification) (w : World)
      → ((v : Verification) → found ≡ ok v → lookup i w.tables.challenges ≡ some v)
      → (check_found crypto policy i pin found w).0 ≡ ok (ok tt)
      → (v : Verification) × Accepted crypto policy pin i v w.tables
          (check_found crypto policy i pin found w).1
  unfolding check_found
  check_found-Accepted pin i (ok v) w at e = (v, check-Accepted pin i v w (at v refl) e)
  check_found-Accepted pin i (err x) w at e = absurd (ground arith)

  -- A success for an account: it was pending, and its challenge accepts.
  abbrev pub Succeeds : Bytes → Account → Tables → World → Type 0
  Succeeds pin (i, user) t w' =
      (is_pending user.status ≡ true) × ((v : Verification) × Accepted crypto policy pin i v t w')

  verify_account-Succeeds :
      (pin : Bytes) (account : Account) (w : World)
      → (verify_account crypto policy pin account w).0 ≡ ok (ok tt)
      → Succeeds pin account w.tables (verify_account crypto policy pin account w).1
  unfolding verify_account
  verify_account-Succeeds pin (i, user) w = elim (Bool-cases (is_pending user.status)) [
    | inr settled ↦ rw settled (λ e. absurd (ground arith))
    | inl waiting ↦
        let same = (find_by_user-Reads i w).1 in
        rw waiting (λ e. (
          refl,
          subst
              (λ t.
                (v : Verification) × Accepted crypto policy pin i v t
                  (check_found crypto policy i pin (Verifications.find_by_user i w).0
                    (Verifications.find_by_user i w).1).1)
              same
              (check_found-Accepted pin i (Verifications.find_by_user i w).0
                (Verifications.find_by_user i w).1
                (λ v found. ap (λ t. lookup i t.challenges) same ∙ find_by_user-found i w v found)
                e),
        ))
  ]

  pub verify_found-Succeeds :
      (pin : Bytes) (found : Result Error Account) (w : World)
      → (verify_found crypto policy pin found w).0 ≡ ok (ok tt)
      → (account : Account) × (found ≡ ok account)
        × Succeeds pin account w.tables (verify_found crypto policy pin found w).1
  unfolding verify_found
  verify_found-Succeeds pin (ok account) w e =
      (account, refl, verify_account-Succeeds pin account w e)
  verify_found-Succeeds pin (err x) w e = absurd (ground arith)
