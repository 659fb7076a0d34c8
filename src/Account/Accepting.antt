-- ===== src/Account/Accepting.antt =====
-- On verifications that succeed: the update of the account and the removal of the challenge.
use blabby.Prelude.{
  ℕ, ◌<◌, List, Option, none, some, Bool, true, false, if◌then◌else◌, Result, ok, err, ◌≡◌, refl,
  arith,
}
use blabby.Text.{Bytes}
use blabby.Map.{lookup, insert, delete, has_key}
use blabby.Domain.User.{active}
use blabby.Pin
use blabby.Auth.Password.{Crypto}
use blabby.Account.World.{
  User, Verification, Tables, World, Error, pure, read_clock, continue, ◌>>=◌,
}
use blabby.Account.Users.{update_user, set_status}
use blabby.Account.Verifications
use blabby.Account.Registration.{RegistrationPolicy}
use blabby.Account.Verify.{Outcome, judged, count_attempt, activate}
use blabby.Account.Triples.{statement-cases}

abbrev pub activated : ℕ → User → ℕ → Tables → Tables
activated i u now t = record {
  users = insert i (record u { status = active; updated_at = now }) t.users;
  challenges = delete i t.challenges;
}

-- The update that activates an account, if it found one.
abbrev Updates : ℕ → World → Result Error (Unit {0}) × World → Type 0
Updates i w r =
    r.0 ≡ ok tt
    → (u : User) × (lookup i w.tables.users ≡ some u)
      × (r.1.tables ≡ record w.tables {
        users = insert i (record u { status = active; updated_at = w.now }) w.tables.users;
      })
      × (r.1.now ≡ w.now)

set_status-Updates : (i : ℕ) (w : World) → Updates i w (set_status i active w)
unfolding set_status update_user
set_status-Updates i w =
    statement-cases (Updates i w)
      (λ w. update_user i (λ u. record u { status = active; updated_at = w.now }) w) w
      (λ rest e. absurd (ground arith)) (λ rest. go rest (lookup i w.tables.users) refl)
  where
    go :
        (rest : List Bool) (o : Option User)
        → lookup i w.tables.users ≡ o
        → Updates i w (elim o [
          | none ↦ (err Error.user_not_found, record w { faults = rest })
          | some u ↦ (
            ok tt,
            record w {
              faults = rest;
              tables = record w.tables {
                users = insert i (record u { status = active; updated_at = w.now }) w.tables.users;
              };
            },
          )
        ])
    go rest none at e = absurd (ground arith)
    go rest (some u) at e = (u, at, refl, refl)

abbrev Removes : ℕ → World → Result Error (Unit {0}) × World → Type 0
Removes i w r =
    r.0 ≡ ok tt
    → (r.1.tables ≡ record w.tables { challenges = delete i w.tables.challenges })
      × (r.1.now ≡ w.now)

remove-Removes : (i : ℕ) (w : World) → Removes i w (Verifications.remove i w)
unfolding Verifications.remove Verifications.delete_challenge
remove-Removes i w =
    statement-cases (Removes i w) (Verifications.delete_challenge i) w
      (λ rest e. absurd (ground arith)) (λ rest. go rest (has_key i w.tables.challenges))
  where
    go :
        (rest : List Bool) (there : Bool)
        → Removes i w (
            if there
            then (
              ok tt,
              record w {
                faults = rest;
                tables = record w.tables { challenges = delete i w.tables.challenges };
              },
            )
            else (err Error.verification_not_found, record w { faults = rest }))
    go rest true e = (refl, refl)
    go rest false e = absurd (ground arith)

pub read_clock-now : (w : World) → (read_clock w).0 ≡ ok (read_clock w).1.now
unfolding read_clock
read_clock-now w = ground arith

-- An account is activated: its row changes, its challenge goes.
abbrev pub Activates : ℕ → Tables → World → Type 0
Activates i t w' = (u : User) × (lookup i t.users ≡ some u) × (w'.tables ≡ activated i u w'.now t)

abbrev Done : ℕ → World → World → Type 0
Done i w w' = Activates i w.tables w' × (w'.now ≡ w.now)

module _ (crypto : Crypto) (policy : RegistrationPolicy) where
  removed-Activates :
      (i : ℕ) (w : World) (r : Result Error (Unit {0}) × World)
      → Updates i w r
      → (continue r.0 (λ _. Verifications.remove i >>= λ _. pure {A = Outcome} (ok tt)) r.1).0
        ≡ ok (ok tt)
      → Done i w
          (continue r.0 (λ _. Verifications.remove i >>= λ _. pure {A = Outcome} (ok tt)) r.1).1
  removed-Activates i w (err x, w') h e = absurd (ground arith)
  removed-Activates i w (ok _, w') h e = go (Verifications.remove i w') (remove-Removes i w') e
    where
      go :
          (r : Result Error (Unit {0}) × World)
          → Removes i w' r
          → (continue r.0 (λ _. pure {A = Outcome} (ok tt)) r.1).0 ≡ ok (ok tt)
          → Done i w (continue r.0 (λ _. pure {A = Outcome} (ok tt)) r.1).1
      go (err x, w'') g e = absurd (ground arith)
      go (ok _, w'') g e =
          let (u, at, t, n) = h refl in
          let (t', n') = g refl in rw (t', t, n', n) ((u, at, refl), refl)

  activate-Activates :
      (i : ℕ) (w : World)
      → (activate crypto policy i w).0 ≡ ok (ok tt)
      → Done i w (activate crypto policy i w).1
  unfolding activate
  activate-Activates i w = removed-Activates i w (set_status i active w) (set_status-Updates i w)

  -- What a success of the closure rests on, and what it does.
  abbrev pub Accepted : Bytes → ℕ → Verification → Tables → World → Type 0
  Accepted pin i v t w' =
      (lookup i t.challenges ≡ some v)
      × (v.attempts < policy.max_verify_attempts)
      × (w'.now < v.expires_at)
      × (Pin.verify crypto.compare v.pin_hash pin ≡ ok tt)
      × Activates i t w'

  pub judged-Accepted :
      (i : ℕ) (w : World) (accepted : Result Pin.Error (Unit {0}))
      → (judged crypto policy i accepted w).0 ≡ ok (ok tt)
      → (accepted ≡ ok tt) × Done i w (judged crypto policy i accepted w).1
  unfolding judged count_attempt
  judged-Accepted i w (ok _) e = (refl, activate-Activates i w e)
  judged-Accepted i w (err x) e = absurd (go (Verifications.increment_attempts i w) e)
    where
      go :
          (r : Result Error ℕ × World)
          → (continue r.0 (λ _. pure {A = Outcome} (err Error.verify_invalid)) r.1).0 ≡ ok (ok tt)
          → ⊥
      go (ok n, w') e = ground arith
      go (err x, w') e = ground arith
