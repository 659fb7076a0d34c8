-- ===== src/Account/System.antt =====
-- Any sequence of registrations, verifications, re-sendings and sweeps, with the passage of time and
-- what else the environment does between them.
use blabby.Prelude.{ℕ, Bool, [], ◌≡◌, refl, arith}
use blabby.Text.{Bytes}
use blabby.Auth.Password.{Crypto}
use blabby.Account.World.{Tables, World}
use blabby.Account.Registration.{RegistrationPolicy, RegisterParams, register}
use blabby.Account.Verify
use blabby.Account.Sweep.{sweep}
use blabby.Account.Sound.{IsSound}
use blabby.Account.Triples.{At, Both, Same}
use blabby.Account.Transactions.{Inv}
use blabby.Account.Registering.{register-Sound, resend-Sound}
use blabby.Account.Checked.{verify-Sound}
use blabby.Account.Swept.{sweep-Sound}

pub data Transition (crypto : Crypto) (policy : RegistrationPolicy) (grace : ℕ)
    : World → World → Type 0 where
  registers :
      (w : World) (params : RegisterParams)
      → Transition crypto policy grace w (register crypto policy params w).1
  verifies :
      (w : World) (mail pin : Bytes)
      → Transition crypto policy grace w (Verify.verify crypto policy mail pin w).1
  resends :
      (w : World) (mail : Bytes)
      → Transition crypto policy grace w (Verify.resend crypto policy mail w).1
  sweeps :
      (w : World) (locked : Bool) (now : ℕ)
      → Transition crypto policy grace w (sweep grace locked now w).1
  environment : (w w' : World) → Same w w' → Transition crypto policy grace w w'

pub data Reaches (crypto : Crypto) (policy : RegistrationPolicy) (grace : ℕ)
    : World → World → Type 0 where
  done : (w : World) → Reaches crypto policy grace w w
  further :
      (w w' w'' : World)
      → Transition crypto policy grace w w'
      → Reaches crypto policy grace w' w''
      → Reaches crypto policy grace w w''

abbrev pub no_tables : Tables
no_tables = record { users = []; challenges = [] }

no_tables-IsSound : (max_resends : ℕ) → IsSound max_resends no_tables
unfolding blabby.Map.lookup
no_tables-IsSound max_resends = record {
  distinct = tt;
  paired = λ i. refl;
  bounded = λ i v e. absurd (ground arith);
}

module _ (crypto : Crypto) (policy : RegistrationPolicy) (grace : ℕ) where
  Transition-Sound :
      (w w' : World)
      → Transition crypto policy grace w w'
      → At (Both (Inv crypto policy)) w
      → At (Both (Inv crypto policy)) w'
  Transition-Sound _ _ (registers w params) h = register-Sound crypto policy params w h
  Transition-Sound _ _ (verifies w mail pin) h = verify-Sound crypto policy mail pin w h
  Transition-Sound _ _ (resends w mail) h = resend-Sound crypto policy mail w h
  Transition-Sound _ _ (sweeps w locked now) h = sweep-Sound _ grace locked now w h
  Transition-Sound _ _ (environment w w' (c, t)) h = rw (c, t) h

  pub reaches-Sound :
      (w w' : World)
      → Reaches crypto policy grace w w'
      → At (Both (Inv crypto policy)) w
      → At (Both (Inv crypto policy)) w'
  reaches-Sound _ _ (done w) h = h
  reaches-Sound _ _ (further w w' w'' step rest) h =
      reaches-Sound w' w'' rest (Transition-Sound w w' step h)

-- From empty tables, whatever registrations, verifications, re-sendings and sweeps, one after another, with
-- any failures of statements and lost answers of commits, while other processes commit registrations right
-- before an INSERT and failed attempts right before a count of one: the ids are distinct, an id has a
-- challenge exactly while its account is pending, and every challenge has had at most `max_resend_count`
-- re-sendings.
pub reached-IsSound :
    (crypto : Crypto) (policy : RegistrationPolicy) (grace : ℕ) (w w' : World)
    → w.committed ≡ no_tables
    → w.tables ≡ no_tables
    → Reaches crypto policy grace w w'
    → IsSound policy.max_resend_count w'.committed
reached-IsSound crypto policy grace w w' c t run =
    let sound = no_tables-IsSound policy.max_resend_count in
    (reaches-Sound crypto policy grace w w' run (rw (c, t) (sound, sound))).0
