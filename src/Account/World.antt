-- ===== src/Account/World.antt =====
-- internal/persistence/user.go, verification.go and postgres/transactor.go: the rows of `service_user`
-- and `email_verification`, what the process reads of its environment, and transactions. Instants and
-- durations count nanoseconds from Go's zero time.
use blabby.Prelude.{
  ℕ, ◌+◌, List, [], ◌∷◌, Option, none, some, Bool, true, false, Result, ok, err, ℤ, leb,
}
use blabby.Text.{Bytes}
use blabby.Domain.User.{UserStatus}
use blabby.Id.{new_id}
use blabby.Id

-- An account without its id, which keys the table. Every column holds a parsed value.
pub record User : Type 0 where
  pub public_code : Bytes
  pub mail_address : Bytes
  pub handle : Bytes
  pub display_name : Bytes
  pub password_hash : Bytes
  pub status : UserStatus
  pub created_at : ℕ
  pub updated_at : ℕ

abbrev pub Account : Type 0
Account = ℕ × User

-- A challenge without the id of its user, which keys the table.
pub record Verification : Type 0 where
  pub pin_hash : Bytes
  pub expires_at : ℕ
  pub attempts : ℕ
  pub resend_count : ℕ
  pub last_sent_at : Option ℕ

-- `Expired`
abbrev pub expired : Verification → ℕ → Bool
expired v now = leb v.expires_at now

pub record Tables : Type 0 where
  pub users : List Account
  pub challenges : List (ℕ × Verification)

-- A registration that another process commits between two statements of this one.
pub record Arrival : Type 0 where
  pub id : ℕ
  pub user : User
  pub pin_hash : Bytes
  pub expires_at : ℕ
  pub sent_at : ℕ

-- A PIN on its way to an address.
pub record Delivery : Type 0 where
  pub to : Bytes
  pub pin : Bytes

-- `tables` is what the open transaction sees, `committed` what a rollback leaves. The tapes hold what
-- the environment answers: how far the clock moves before a reading, which statements fail, the id
-- source, the random bytes of a public code, the draws of `rand.Int`, the salts of bcrypt, and the
-- registrations that commit right before an INSERT, and how many failed attempts other processes commit
-- right before an UPDATE counts one, since READ COMMITTED lets them. `outbox` lists the PINs handed to the sender.
pub record World : Type 0 where
  pub now : ℕ
  pub committed : Tables
  pub tables : Tables
  pub ticks : List ℕ
  pub faults : List Bool
  pub mints : List (Option ℤ)
  pub code_bytes : List (Option Bytes)
  pub draws : List (Option ℕ)
  pub salts : List (Option ℕ)
  pub arrivals : List (Option Arrival)
  pub rivals : List ℕ
  pub outbox : List Delivery

-- The sentinels that callers tell apart; `database` stands for every other failure.
-- `mail_race` is the chain of `errMailAddressInsertRace` and `ErrMailAddressTaken`.
pub data Error : Type 0 where
  user_not_found verification_not_found rate_limited : Error
  mail_taken mail_race handle_taken code_collision : Error
  verify_invalid hash_password generate_pin mint database : Error

abbrev pub Action : Type 0 → Type 0
Action A = World → Result Error A × World

abbrev pub continue : {A B : Type 0} → Result Error A → (A → Action B) → Action B
continue (ok a) f w = f a w
continue (err e) f w = (err e, w)

infixl 5 ◌>>=◌ ◌>>◌
abbrev pub ◌>>=◌ : {A B : Type 0} → Action A → (A → Action B) → Action B
◌>>=◌ m f w = let (r, w') = m w in continue r f w'

abbrev pub ◌>>◌ : {B : Type 0} → Action (Unit {0}) → Action B → Action B
m >> k = m >>= λ _. k

abbrev pub pure : {A : Type 0} → A → Action A
pure a w = (ok a, w)

abbrev pub raise : {A : Type 0} → Error → Action A
raise e w = (err e, w)

-- One statement, which runs unless it is due to fail.
unfoldable pub statement : {A : Type 0} → Action A → Action A
statement run w = elim w.faults [
  | [] ↦ run w
  | fails ∷ rest ↦ elim fails [
    | true ↦ (err database, record w { faults = rest })
    | false ↦ run (record w { faults = rest })
  ]
]

abbrev pub commit : {A : Type 0} → A → Action A
commit a w = (ok a, record w { committed = w.tables })

abbrev pub rollback : {A : Type 0} → Error → Action A
rollback e w = (err e, record w { tables = w.committed })

abbrev pub finish_commit : {A : Type 0} → Result Error A × World → Result Error A × World
finish_commit (ok a, w) = (ok a, w)
finish_commit (err e, w) = rollback e w

-- The commit, whose answer may be lost once the commit has been done.
unfoldable pub answered_commit : {A : Type 0} → A → Action A
unfolding statement
answered_commit a = do b ← statement (commit a); statement (pure b)

unfoldable pub end_tx : {A : Type 0} → Result Error A × World → Result Error A × World
unfolding answered_commit
end_tx (ok a, w) = finish_commit (answered_commit a w)
end_tx (err e, w) = rollback e w

-- `WithinTx`
unfoldable pub within_tx : {A : Type 0} → Action A → Action A
unfolding end_tx
within_tx body = do statement (pure tt); λ w. end_tx (body w)

-- `time.Now`
unfoldable pub read_clock : Action ℕ
read_clock w = elim w.ticks [
  | [] ↦ (ok w.now, w)
  | tick ∷ rest ↦ (ok (w.now + tick), record w { now = w.now + tick; ticks = rest })
]

abbrev to_error : {A : Type 0} → Result Id.Error A → Result Error A
to_error (ok a) = ok a
to_error (err e) = err mint

-- `UserIDSource.Next`, and `id.NewUserID` of its value.
unfoldable pub mint_user_id : Action ℕ
mint_user_id w = elim w.mints [
  | [] ↦ (err mint, w)
  | next ∷ rest ↦ elim next [
    | none ↦ (err mint, record w { mints = rest })
    | some v ↦ (to_error (new_id v), record w { mints = rest })
  ]
]
