-- ===== src/WorkerLease/Manager.antt =====
-- internal/persistence/workerlease/manager.go: one manager, over the table. The clocks of the processes
-- and of the database advance alike, and all instants are on one time line.
use blabby.Prelude.{
  ℕ, zero, suc, ◌+◌, ◌-◌, List, Option, none, some, Bool, true, false, leb, if◌then◌else◌, Result,
  ok, err, ℤ, pos, negsuc,
}
use blabby.Snowflake
use blabby.Snowflake.{Generator, Outcome, new_generator}
use blabby.WorkerLease.Repo
use blabby.WorkerLease.Repo.{Table, Lease, Attempt, StoreError, release_sql}

pub data CadenceError : Type 0 where
  ttl_not_positive margin_negative ttl_below_margin interval_not_positive interval_too_long :
      CadenceError

-- `Manager` less what it is injected with; `new_manager` is the only way to one.
pub record Manager : Type 0 where
  pub ttl : ℕ
  pub margin : ℕ
  pub renew_interval : ℕ

-- `NewManager` with `validateCadence`, which checks in this order.
unfoldable pub new_manager : ℤ → ℤ → ℤ → Result CadenceError Manager
new_manager (negsuc t) margin interval = err ttl_not_positive
new_manager (pos zero) margin interval = err ttl_not_positive
new_manager (pos (suc t)) (negsuc m) interval = err margin_negative
new_manager (pos (suc t)) (pos m) interval =
    if leb (suc t) m then err ttl_below_margin else elim interval [
      | negsuc i ↦ err interval_not_positive
      | pos i ↦
          if leb i 0
          then err interval_not_positive
          else if leb (suc t - m) i
          then err interval_too_long
          else ok (record { ttl = suc t; margin = m; renew_interval = i })
    ]

pub record Session : Type 0 where
  pub lease : Lease
  pub gen : Generator

pub data ManagerError : Type 0 where
  not_started already_started : ManagerError
  store : StoreError → ManagerError
  build_generator : Snowflake.Error → ManagerError
  minting : Snowflake.Error → ManagerError

-- A call of the store: when the process read its clock for it, and when the database ran it.
pub record Call : Type 0 where
  pub send_at : ℕ
  pub ran_at : ℕ

-- `sendAt.Add(m.ttl - m.margin)`
abbrev pub deadline : Manager → Call → ℕ
deadline m call = call.send_at + (m.ttl - m.margin)

abbrev pub built :
    Manager
    → Call
    → Lease
    → Table
    → Result Snowflake.Error Generator
    → Result ManagerError Session × Table
built m call lease table (err e) = (err (build_generator e), release_sql lease table)
built m call lease table (ok gen) =
    (ok (record { lease = lease; gen = Snowflake.renew gen (deadline m call) }), table)

-- `acquire`, from the answer of the store on
abbrev pub leased :
    Manager → ℕ → Call → Result StoreError Lease × Table → Result ManagerError Session × Table
leased m epoch call (err e, table) = (err (store e), table)
leased m epoch call (ok lease, table) =
    built m call lease table (new_generator (pos lease.worker_id) epoch)

-- `acquire`
unfoldable pub acquire :
    Manager → ℕ → Call → List Attempt → Table → Result ManagerError Session × Table
unfolding Repo.acquire new_generator release_sql Snowflake.renew
acquire m epoch call attempts table =
    leased m epoch call (Repo.acquire call.ran_at m.ttl attempts table)

abbrev pub publish : Option Session → Result ManagerError Session × Table → Option Session × Table
publish cur (err e, table) = (cur, table)
publish cur (ok s, table) = (some s, table)

abbrev pub started :
    Result ManagerError Session × Table → Result ManagerError (Unit {0}) × Option Session × Table
started (err e, table) = (err e, none, table)
started (ok s, table) = (ok tt, some s, table)

-- `Start`
unfoldable pub start :
    Manager
    → ℕ
    → Call
    → List Attempt
    → Option Session
    → Table
    → Result ManagerError (Unit {0}) × Option Session × Table
unfolding acquire
start m epoch call attempts (some s) table = (err already_started, some s, table)
start m epoch call attempts none table = started (acquire m epoch call attempts table)

-- The session with a new deadline; a zero one halts the minting.
abbrev pub renew_to : Session → ℕ → Session
renew_to s d = record { lease = s.lease; gen = Snowflake.renew s.gen d }

-- `handleLoss`
unfoldable pub handle_loss :
    Manager → ℕ → Call → List Attempt → Session → Table → Option Session × Table
unfolding acquire Snowflake.renew
handle_loss m epoch call attempts lost table =
    publish (some (renew_to lost 0)) (acquire m epoch call attempts table)

abbrev pub on_renewal :
    Manager
    → ℕ
    → Call
    → Call
    → List Attempt
    → Session
    → Result StoreError Bool × Table
    → Option Session × Table
on_renewal m epoch call again attempts s (err e, table) = (some s, table)
on_renewal m epoch call again attempts s (ok false, table) =
    handle_loss m epoch again attempts s table
on_renewal m epoch call again attempts s (ok true, table) =
    (some (renew_to s (deadline m call)), table)

-- `beat`: the renewal, and the call `again` that follows a loss.
unfoldable pub beat :
    Manager
    → ℕ
    → Call
    → Bool
    → Call
    → List Attempt
    → Option Session
    → Table
    → Option Session × Table
unfolding handle_loss Repo.renew Snowflake.renew
beat m epoch call answered again attempts none table = (none, table)
beat m epoch call answered again attempts (some s) table =
    on_renewal m epoch call again attempts s (Repo.renew call.ran_at s.lease m.ttl answered table)

-- `releaseAndClear`, whose release may never reach the database
unfoldable pub release_and_clear : Bool → Option Session → Table → Option Session × Table
unfolding release_sql
release_and_clear reached none table = (none, table)
release_and_clear reached (some s) table =
    (none, (if reached then release_sql s.lease table else table))

abbrev pub minted :
    Lease → Option (Outcome × List ℕ) → Option (Result ManagerError ℕ × Option Session × List ℕ)
minted lease none = none
minted lease (some ((ok id, gen), tape)) =
    some (ok id, some (record { lease = lease; gen = gen }), tape)
minted lease (some ((err e, gen), tape)) =
    some (err (minting e), some (record { lease = lease; gen = gen }), tape)

-- `Next`, with the clock's tape
unfoldable pub next :
    Option Session → List ℕ → Option (Result ManagerError ℕ × Option Session × List ℕ)
unfolding Snowflake.next
next none tape = some (err not_started, none, tape)
next (some s) tape = minted s.lease (Snowflake.next s.gen tape)
