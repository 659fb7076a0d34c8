-- ===== src/Account/Checked.antt =====
-- On verification (internal/gateway/verification.go): its steps and the soundness of the tables.
use blabby.Prelude.{
  ℕ, Option, none, some, leb, Result, ok, err, ◌≡◌, inl, inr, refl, sym, ap, ◌∙◌, subst, arith,
  Bool-cases, Option-cases, List, [], ◌∷◌,
}
use blabby.Text.{Bytes}
use blabby.Map.{lookup, insert, delete, has_key}
use blabby.Domain.User.{active, is_pending}
use blabby.Pin
use blabby.Auth.Password.{Crypto}
use blabby.Account.World.{
  User, Account, Verification, Tables, World, Error, read_clock, within_tx, expired,
}
use blabby.Account.Users.{find_by_email, update_user, set_status}
use blabby.Account.Verifications
use blabby.Account.Verifications.{or_not_found, put}
use blabby.Account.Registration.{RegistrationPolicy}
use blabby.Account.Verify.{
  Outcome, judge, judged, count_attempt, activate, check, check_found, verify_account, verify_found,
  verify_op, verify, settle,
}
use blabby.Account.Sound.{change-IsSound, settle-IsSound}
use blabby.Account.Triples.{
  Assertion, At, Both, Post, Post-continue, Triple, Triple-Reads, Triple-statement, Reads,
  statement-cases, statement-Reads, read_clock-Reads, within_tx-Both,
}
use blabby.Account.Kept.{Sound}
use blabby.Account.Transactions.{Inv, after_reading, find_by_email-Reads}

or_not_found-Reads : (o : Option Verification) → Reads (or_not_found o)
or_not_found-Reads none w = (refl, refl)
or_not_found-Reads (some v) w = (refl, refl)

pub find_by_user-Reads : (i : ℕ) → Reads (Verifications.find_by_user i)
unfolding Verifications.find_by_user
find_by_user-Reads i = statement-Reads _ (λ w. or_not_found-Reads (lookup i w.tables.challenges) w)

or_not_found-found :
    (o : Option Verification) (w : World) (v : Verification)
    → (or_not_found o w).0 ≡ ok v
    → o ≡ some v
or_not_found-found none w v e = absurd (ground arith)
or_not_found-found (some u) w v e = ground arith

-- What is found is the row of the id.
pub find_by_user-found :
    (i : ℕ) (w : World) (v : Verification)
    → (Verifications.find_by_user i w).0 ≡ ok v
    → lookup i w.tables.challenges ≡ some v
unfolding Verifications.find_by_user
find_by_user-found i w v =
    statement-cases (λ r. r.0 ≡ ok v → lookup i w.tables.challenges ≡ some v)
      (λ w. or_not_found (lookup i w.tables.challenges) w) w (λ rest e. absurd (ground arith))
      (λ rest e. or_not_found-found (lookup i w.tables.challenges) (record w { faults = rest }) v e)

module _ (max_resends : ℕ) where
  abbrev S : Tables → Type 0
  S = Sound max_resends

  -- The transaction has read the challenge of the user.
  abbrev pub Holding : ℕ → Verification → Assertion
  Holding i v c t = S c × S t × (lookup i t.challenges ≡ some v)

  attempted-Sound :
      (i n : ℕ) (v : Verification) (t : Tables)
      → S t
      → lookup i t.challenges ≡ some v
      → S (record t { challenges = insert i (Verifications.attempted n v) t.challenges })
  attempted-Sound i n v t h e =
      change-IsSound max_resends i v (Verifications.attempted n v) t h e (h.bounded i v e)

  add_attempts-Sound : (i n : ℕ) (t : Tables) → S t → S (Verifications.add_attempts i n t)
  unfolding Verifications.add_attempts
  add_attempts-Sound i n t h = elim (Option-cases (lookup i t.challenges)) [
    | inl gone ↦ rw (gone, Verifications.add_attempts) h
    | inr (v, e) ↦ rw (e, Verifications.add_attempts) (attempted-Sound i n v t h e)
  ]

  overtake-Sound : (i : ℕ) (w : World) → At (Both S) w → At (Both S) (Verifications.overtake i w)
  unfolding Verifications.overtake
  overtake-Sound i w h = go w.rivals
    where
      go :
          (rivals : List ℕ)
          → At (Both S) (elim rivals [
            | [] ↦ w
            | n ∷ rest ↦ record w {
              committed = Verifications.add_attempts i n w.committed;
              tables = Verifications.add_attempts i n w.tables;
              rivals = rest;
            }
          ])
      go [] = h
      go (n ∷ rest) = (add_attempts-Sound i n w.committed h.0, add_attempts-Sound i n w.tables h.1)

  count_one-Sound : (i : ℕ) → Triple S (Both S) (λ _. Both S) (Verifications.count_one i)
  unfolding Verifications.count_one
  count_one-Sound i w h = elim (Option-cases (lookup i w.tables.challenges)) [
    | inl gone ↦ rw (gone, Post, Verifications.count_one) h.0
    | inr (v, e) ↦ rw (e, Post, Verifications.count_one) (h.0, attempted-Sound i 1 v w.tables h.1 e)
  ]

  pub increment-Sound :
      (i : ℕ) → Triple S (Both S) (λ _. Both S) (Verifications.increment_attempts i)
  unfolding Verifications.increment_attempts
  increment-Sound i =
      Triple-statement S (Both S) (λ _. Both S) _ (λ c t h. h.0)
        (λ w h. count_one-Sound i (Verifications.overtake i w) (overtake-Sound i w h))

  -- The account is active, and its challenge is about to go.
  abbrev pub Activated : ℕ → Assertion
  Activated i c t = S c × S (record t { challenges = delete i t.challenges })

  pub set_status-Activated :
      (i : ℕ) (v : Verification) → Triple S (Holding i v) (λ _. Activated i) (set_status i active)
  unfolding set_status update_user
  set_status-Activated i v =
      Triple-statement S (Holding i v) (λ _. Activated i) _ (λ c t h. h.0)
        (λ w h. go w h (lookup i w.tables.users))
    where
      go :
          (w : World)
          → At (Holding i v) w
          → (o : Option User)
          → Post S {A = Unit {0}}
              (λ _. Activated i)
              (elim o [
                | none ↦ (err Error.user_not_found, w)
                | some u ↦ (
                  ok tt,
                  record w {
                    tables = record w.tables {
                      users =
                          insert i
                            (record u { status = active; updated_at = w.now })
                            w.tables.users;
                    };
                  },
                )
              ])
      go w h none = h.0
      go w h (some u) = (
        h.0,
        settle-IsSound max_resends i (record u { status = active; updated_at = w.now }) w.tables h.1
            refl,
      )

  pub remove-Sound : (i : ℕ) → Triple S (Activated i) (λ _. Both S) (Verifications.remove i)
  unfolding Verifications.remove Verifications.delete_challenge
  remove-Sound i =
      Triple-statement S (Activated i) (λ _. Both S) _ (λ c t h. h.0)
        (λ w h. elim (Bool-cases (has_key i w.tables.challenges)) [
          | inl there ↦ rw (there, Post) (h.0, h.1)
          | inr gone ↦ rw (gone, Post) h.0
        ])

module _ (crypto : Crypto) (policy : RegistrationPolicy) where
  abbrev I : Tables → Type 0
  I = Inv crypto policy

  abbrev Has : ℕ → Verification → Assertion
  Has = Holding policy.max_resend_count

  judged-Sound :
      (i : ℕ) (v : Verification) (accepted : Result Pin.Error (Unit {0}))
      → Triple I (Has i v) (λ _. Both I) (judged crypto policy i accepted)
  unfolding judged count_attempt activate
  judged-Sound i v (err e) w h =
      Post-continue I (λ _. Both I) (λ _. Both I) _ _ (increment-Sound _ i w (h.0, h.1))
        (λ _ w h. h)
  judged-Sound i v (ok accepted) w h =
      Post-continue I (λ _. Activated _ i) (λ _. Both I) _ _ (set_status-Activated _ i v w h)
        (λ _ w h.
          Post-continue I (λ _. Both I) (λ _. Both I) _ _ (remove-Sound _ i w h) (λ _ w h. h))

  judge-Sound :
      (i : ℕ) (pin : Bytes) (v : Verification)
      → Triple I (Has i v) (λ _. Both I) (judge crypto policy i pin v)
  unfolding judge
  judge-Sound i pin v = judged-Sound i v (Pin.verify crypto.compare v.pin_hash pin)

  weaken : (i : ℕ) (v : Verification) (w : World) → At (Has i v) w → At (Both I) w
  weaken i v w h = (h.0, h.1)

  check-Sound :
      (i : ℕ) (pin : Bytes) (v : Verification)
      → Triple I (Has i v) (λ _. Both I) (check crypto policy i pin v)
  unfolding check
  check-Sound i pin v w h = elim (Bool-cases (leb policy.max_verify_attempts v.attempts)) [
    | inl locked ↦ rw (locked, Post) (weaken i v w h)
    | inr open_still ↦ rw open_still (
        Triple-Reads I (Has i v) (λ _. Both I) read_clock _ (λ c t h. h.0) read_clock-Reads
          (λ now w h. elim (Bool-cases (expired v now)) [
            | inl late ↦ rw (late, Post) (weaken i v w h)
            | inr early ↦ rw early (judge-Sound i pin v w h)
          ])
          w h)
  ]

  check_found-Sound :
      (i : ℕ) (pin : Bytes) (found : Result Error Verification) (w : World)
      → ((v : Verification) → found ≡ ok v → lookup i w.tables.challenges ≡ some v)
      → At (Both I) w
      → Post I (λ _. Both I) (check_found crypto policy i pin found w)
  unfolding check_found
  check_found-Sound i pin (ok v) w at h = check-Sound i pin v w (h.0, h.1, at v refl)
  check_found-Sound i pin (err Error.verification_not_found) w at h = h
  check_found-Sound i pin (err e) w at h = ground (arith, h)

  verify_account-Sound :
      (pin : Bytes) (account : Account)
      → Triple I (Both I) (λ _. Both I) (verify_account crypto policy pin account)
  unfolding verify_account
  verify_account-Sound pin (i, user) w h = elim (Bool-cases (is_pending user.status)) [
    | inr settled ↦ rw settled h
    | inl waiting ↦
        let (c, t) = find_by_user-Reads i w in
        rw waiting (
          check_found-Sound i pin _ _
            (λ v e. ap (λ t. lookup i t.challenges) t ∙ find_by_user-found i w v e) (rw (c, t) h))
  ]

  verify_found-Sound :
      (pin : Bytes) (found : Result Error Account)
      → Triple I (Both I) (λ _. Both I) (verify_found crypto policy pin found)
  unfolding verify_found
  verify_found-Sound pin (ok account) w h = verify_account-Sound pin account w h
  verify_found-Sound pin (err Error.user_not_found) w h = h
  verify_found-Sound pin (err e) w h = ground (arith, h)

  settle-world : (r : Result Error Outcome × World) → (settle r).1 ≡ r.1
  settle-world (ok outcome, w) = refl
  settle-world (err e, w) = refl

  pub verify-Sound :
      (mail pin : Bytes) (w : World)
      → At (Both I) w
      → At (Both I) (verify crypto policy mail pin w).1
  unfolding verify verify_op
  verify-Sound mail pin w h =
      subst (At (Both I)) (sym (settle-world (within_tx (verify_op crypto policy mail pin) w))) (
        within_tx-Both I (verify_op crypto policy mail pin) w
          (λ w h.
            after_reading crypto policy (find_by_email mail) (verify_found crypto policy pin) w
              (find_by_email-Reads mail) (verify_found-Sound pin) h)
          h)
