-- ===== src/WorkerLease/Leases.antt =====
-- What each operation of a manager leaves of the table, and of the sessions of the other managers.
use blabby.Prelude.{ℕ, ◌+◌, ◌≤◌, ◌<◌, List, false, ltb, Result, ok, err, ◌≡◌, refl, arith, pos}
use blabby.Snowflake
use blabby.Snowflake.{Generator, new_generator, Outcome}
use blabby.WorkerLease.Repo
use blabby.WorkerLease.Repo.{Row, Table, Lease, Attempt, StoreError, renew_sql, release_sql}
use blabby.WorkerLease.Manager.{Manager, Session, ManagerError, Call, acquire, leased, built}
use blabby.WorkerLease.Rows.{Tokens, Grants, acquire-Grants}
use blabby.WorkerLease.Touches.{Touches, Expired, Holds}

-- An acquisition that was sent in time: a new session's deadline is within its row's expiry.
abbrev pub Leases : ℕ → ℕ → (ℕ → Type 0) → Table → Result ManagerError Session × Table → Type 0
Leases now ttl P t (err e, t') = Touches (Expired now) t t'
Leases now ttl P t (ok s, t') =
    Touches (Expired now) t t'
    × Holds s.gen.lease_deadline s.lease t'
    × (s.gen.lease_deadline ≤ now + ttl)
    × P s.lease.token

new_generator-ok :
    (worker epoch : ℕ) → worker < 1024 → (g : Generator) × (new_generator (pos worker) epoch ≡ ok g)
unfolding new_generator
new_generator-ok worker epoch h = rw (fits) (_, refl)
  where
    fits : ltb 1023 worker ≡ false
    fits = ground arith

built-Leases :
    (m : Manager) (call : Call) (P : ℕ → Type 0) (t t' : Table) (lease : Lease)
    (r : Result Snowflake.Error Generator) (g : Generator)
    → r ≡ ok g
    → call.send_at ≤ call.ran_at
    → Grants call.ran_at m.ttl P t (ok lease, t')
    → Leases call.ran_at m.ttl P t (built m call lease t' r)
unfolding Snowflake.renew
built-Leases m call P t t' lease (err e) g e' sent h = cc
built-Leases m call P t t' lease (ok gen) g e sent (f, at, small, p) =
    (f, (_, at, refl, omega arith), omega arith, p)

leased-Leases :
    (m : Manager) (epoch : ℕ) (call : Call) (P : ℕ → Type 0) (t : Table)
    (x : Result StoreError Lease × Table)
    → call.send_at ≤ call.ran_at
    → Grants call.ran_at m.ttl P t x
    → Leases call.ran_at m.ttl P t (leased m epoch call x)
leased-Leases m epoch call P t (err e, t') sent h = h
leased-Leases m epoch call P t (ok lease, t') sent (f, at, small, p) =
    let (g, e) = new_generator-ok lease.worker_id epoch small in
    built-Leases m call P t t' lease (new_generator (pos lease.worker_id) epoch) g e sent
      (f, at, small, p)

pub acquire-Leases :
    (m : Manager) (epoch : ℕ) (call : Call) (P : ℕ → Type 0) (attempts : List Attempt) (t : Table)
    → call.send_at ≤ call.ran_at
    → Tokens P attempts
    → Leases call.ran_at m.ttl P t (acquire m epoch call attempts t)
unfolding acquire
acquire-Leases m epoch call P attempts t sent h =
    leased-Leases m epoch call P t (Repo.acquire call.ran_at m.ttl attempts t) sent
      (acquire-Grants call.ran_at m.ttl P attempts t h)
