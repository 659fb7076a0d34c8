-- ===== src/WorkerLease/System.antt =====
-- Many managers on one table: their calls, in any order, with the passage of time between them.
use blabby.Prelude.{
  ℕ, ◌+◌, ◌≤◌, List, Option, none, some, Bool, ◌==◌, if◌then◌else◌, Result, ◌≡◌, ◌≢◌,
}
use blabby.WorkerLease.Repo.{Table, Attempt}
use blabby.WorkerLease.Manager.{
  Manager, Session, ManagerError, Call, start, beat, release_and_clear, next,
}
use blabby.WorkerLease.Rows.{Tokens}

-- The time, the table, and the session that each manager publishes.
pub record System : Type 0 where
  pub now : ℕ
  pub table : Table
  pub managers : ℕ → Option Session

-- The processes before any of them has started.
abbrev pub idle : ℕ → Table → System
idle now table = record { now = now; table = table; managers = λ _. none }

abbrev pub set : ℕ → Option Session → (ℕ → Option Session) → ℕ → Option Session
set i cur managers j = if j == i then cur else managers j

-- What manager `i` publishes and what it made of the table, at the time of its last call.
abbrev pub after : System → ℕ → ℕ → Option Session × Table → System
after σ i now (cur, table) = record { now = now; table = table; managers = set i cur σ.managers }

abbrev pub without_error :
    Result ManagerError (Unit {0}) × Option Session × Table → Option Session × Table
without_error (result, cur, table) = (cur, table)

-- A token that no session holds, as a random one is.
abbrev pub Unused : System → ℕ → Type 0
Unused σ token = (j : ℕ) (t : Session) → σ.managers j ≡ some t → t.lease.token ≢ token

-- A call is sent before the database runs it.
abbrev pub Sent : Call → Type 0
Sent call = call.send_at ≤ call.ran_at

pub data Transition (config : ℕ → Manager) (epoch : ℕ) : System → System → Type 0 where
  passes : (σ : System) (d : ℕ) → Transition config epoch σ (record σ { now = σ.now + d })
  starts :
      (σ : System) (i : ℕ) (call : Call) (attempts : List Attempt)
      → Sent call
      → σ.now ≤ call.ran_at
      → Tokens (Unused σ) attempts
      → Transition config epoch σ (
          after σ i call.ran_at
            (without_error (start (config i) epoch call attempts (σ.managers i) σ.table)))
  beats :
      (σ : System) (i : ℕ) (call again : Call) (answered : Bool) (attempts : List Attempt)
      → Sent call
      → σ.now ≤ call.ran_at
      → Sent again
      → call.ran_at ≤ again.ran_at
      → Tokens (Unused σ) attempts
      → Transition config epoch σ (
          after σ i again.ran_at
            (beat (config i) epoch call answered again attempts (σ.managers i) σ.table))
  stops :
      (σ : System) (i : ℕ) (reached : Bool)
      → Transition config epoch σ
          (after σ i σ.now (release_and_clear reached (σ.managers i) σ.table))
  mints :
      (σ : System) (i : ℕ) (tape rest : List ℕ) (result : Result ManagerError ℕ)
      (cur : Option Session)
      → next (σ.managers i) tape ≡ some (result, cur, rest)
      → Transition config epoch σ (after σ i σ.now (cur, σ.table))

pub data Reaches (config : ℕ → Manager) (epoch : ℕ) : System → System → Type 0 where
  done : (σ : System) → Reaches config epoch σ σ
  further :
      (σ τ υ : System)
      → Transition config epoch σ τ
      → Reaches config epoch τ υ
      → Reaches config epoch σ υ
