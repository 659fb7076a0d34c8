-- ===== src/Account/Verifications.antt =====
-- internal/persistence/verification_repo.go: the statements on the table `email_verification`.
use blabby.Prelude.{
  ℕ, [], ◌∷◌, ◌+◌, Option, none, some, Bool, true, ◌&&◌, leb, ltb, if◌then◌else◌, ok, err,
}
use blabby.Text.{Bytes}
use blabby.Map.{lookup, insert, delete, has_key}
use blabby.Account.World.{
  Verification, Tables, World, verification_not_found, rate_limited, database, Action, pure, raise,
  statement,
}
use blabby.Account.Users.{fresh_challenge}

pub record CreateParams : Type 0 where
  pub user_id : ℕ
  pub pin_hash : Bytes
  pub expires_at : ℕ
  pub sent_at : ℕ

abbrev pub put : ℕ → Verification → World → World
put i v w = record w { tables = record w.tables { challenges = insert i v w.tables.challenges } }

-- `createSQL`
unfoldable pub insert_challenge : ℕ → Verification → Action (Unit {0})
unfolding lookup insert
insert_challenge i v w =
    if has_key i w.tables.challenges then (err database, w) else (ok tt, put i v w)

-- `Create`
unfoldable pub create : CreateParams → Action (Unit {0})
unfolding statement insert_challenge
create params = statement (
    insert_challenge params.user_id
      (fresh_challenge params.pin_hash params.expires_at params.sent_at))

abbrev pub or_not_found : Option Verification → Action Verification
or_not_found none = raise verification_not_found
or_not_found (some v) = pure v

-- `FindByUser`
unfoldable pub find_by_user : ℕ → Action Verification
unfolding statement lookup
find_by_user i = statement (λ w. or_not_found (lookup i w.tables.challenges) w)

abbrev pub attempted : ℕ → Verification → Verification
attempted n v = record v { attempts = v.attempts + n }

-- The failed attempts of other processes, which they commit.
unfoldable pub add_attempts : ℕ → ℕ → Tables → Tables
unfolding lookup insert
add_attempts i n t = elim (lookup i t.challenges) [
  | none ↦ t
  | some v ↦ record t { challenges = insert i (attempted n v) t.challenges }
]

unfoldable pub overtake : ℕ → World → World
unfolding add_attempts
overtake i w = elim w.rivals [
  | [] ↦ w
  | n ∷ rest ↦ record w {
    committed = add_attempts i n w.committed;
    tables = add_attempts i n w.tables;
    rivals = rest;
  }
]

-- The UPDATE of `incrementAttemptsSQL`
unfoldable pub count_one : ℕ → Action ℕ
unfolding lookup insert
count_one i w = elim (lookup i w.tables.challenges) [
  | none ↦ (err verification_not_found, w)
  | some v ↦ (ok (v.attempts + 1), put i (attempted 1 v) w)
]

-- `IncrementAttempts`, after what other processes commit since the row was read.
unfoldable pub increment_attempts : ℕ → Action ℕ
unfolding statement overtake count_one
increment_attempts i = statement (λ w. count_one i (overtake i w))

pub record ResendParams : Type 0 where
  pub user_id : ℕ
  pub pin_hash : Bytes
  pub expires_at : ℕ
  pub sent_at : ℕ

pub record ResendPolicy : Type 0 where
  pub previous_sent_before : ℕ
  pub max_resend_count : ℕ

abbrev sent_before : ℕ → Option ℕ → Bool
sent_before bound none = true
sent_before bound (some sent_at) = leb sent_at bound

-- The WHERE of the UPDATE, beyond the key.
abbrev pub may_resend : ResendPolicy → Verification → Bool
may_resend policy v =
    sent_before policy.previous_sent_before v.last_sent_at
    && ltb v.resend_count policy.max_resend_count

abbrev pub resent : ResendParams → Verification → Verification
resent params v = record {
  pin_hash = params.pin_hash;
  expires_at = params.expires_at;
  attempts = 0;
  resend_count = v.resend_count + 1;
  last_sent_at = some params.sent_at;
}

-- `Resend`: `resendSQL`, and what its two flags mean.
unfoldable pub resend : ResendParams → ResendPolicy → Action (Unit {0})
unfolding statement lookup insert
resend params policy = statement (λ w. elim (lookup params.user_id w.tables.challenges) [
  | none ↦ (err verification_not_found, w)
  | some v ↦
      if may_resend policy v
      then (ok tt, put params.user_id (resent params v) w)
      else (err rate_limited, w)
])

-- `deleteSQL`, and whether it found a row
unfoldable pub delete_challenge : ℕ → Action (Unit {0})
unfolding lookup delete
delete_challenge i w =
    if has_key i w.tables.challenges
    then (
      ok tt,
      record w { tables = record w.tables { challenges = delete i w.tables.challenges } },
    )
    else (err verification_not_found, w)

-- `Delete`
unfoldable pub remove : ℕ → Action (Unit {0})
unfolding statement delete_challenge
remove i = statement (delete_challenge i)
