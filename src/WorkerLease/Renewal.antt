-- ===== src/WorkerLease/Renewal.antt =====
-- What a manager whose cadence is valid can rely on, and which id an acquisition claims.
use blabby.Prelude.{
  ℕ, zero, suc, ◌+◌, ◌≤◌, ◌<◌, List, some, true, ok, ◌≡◌, refl, arith, ℤ, pos, negsuc,
}
use blabby.Snowflake
use blabby.WorkerLease.Repo
use blabby.WorkerLease.Repo.{
  Row, Table, Lease, Attempt, StoreError, no_capacity, is_free, is_held, lowest_free, claim,
  acquire_sql, acquire_from, acquire, acquire_attempts, renew_sql,
}
use blabby.WorkerLease.Manager.{Manager, new_manager, Session, Call, deadline, renew_to, beat}
use blabby.WorkerLease.Rows.{renew_sql-held}
use blabby.WorkerLease.Touches.{Holds}

-- `NewManager` accepts durations only if a lease outlasts its margin, and if a beat falls between a
-- renewal and the deadline that it sets.
pub new_manager-bounds :
    (ttl margin interval : ℤ) (m : Manager)
    → new_manager ttl margin interval ≡ ok m
    → (ttl ≡ pos m.ttl)
      × (margin ≡ pos m.margin)
      × (interval ≡ pos m.renew_interval)
      × (0 < m.renew_interval)
      × (m.renew_interval + m.margin < m.ttl)
unfolding new_manager
new_manager-bounds (negsuc t) margin interval m e = cc
new_manager-bounds (pos zero) margin interval m e = cc
new_manager-bounds (pos (suc t)) (negsuc k) interval m e = cc
new_manager-bounds (pos (suc t)) (pos k) (negsuc i) m e = ground arith
new_manager-bounds (pos (suc t)) (pos k) (pos i) m e = ground arith

renew_sql-finds :
    (now ttl : ℕ) (lease : Lease) (t : Table) (d : ℕ)
    → Holds d lease t
    → now < d
    → (renew_sql now lease ttl t).0 ≡ true
unfolding renew_sql
renew_sql-finds now ttl lease t d (row, at, own, le) h = rw (at, finds) refl
  where
    finds : is_held now lease (some row) ≡ true
    finds = ground (arith, own, le, h)

-- A beat that the database runs before the deadline, on a row that is held, and that is answered,
-- renews: the session keeps its lease, its new deadline is a lease less the margin after the sending,
-- past the time of the next beat, and its row outlasts that.
pub timely_beat_renews :
    (ttl margin interval : ℤ) (m : Manager) (epoch : ℕ) (call again : Call)
    (attempts : List Attempt) (s : Session) (t : Table)
    → new_manager ttl margin interval ≡ ok m
    → Holds s.gen.lease_deadline s.lease t
    → call.send_at ≤ call.ran_at
    → call.ran_at < s.gen.lease_deadline
    → let renewed = renew_to s (deadline m call) in
      ((beat m epoch call true again attempts (some s) t).0 ≡ some renewed)
      × Holds renewed.gen.lease_deadline s.lease
          (beat m epoch call true again attempts (some s) t).1
      × (call.send_at + m.renew_interval < renewed.gen.lease_deadline)
unfolding beat Repo.renew Snowflake.renew
timely_beat_renews ttl margin interval m epoch call again attempts s t valid holds sent timely =
    let (_, _, _, _, room) = new_manager-bounds ttl margin interval m valid in
    let found = renew_sql-finds call.ran_at m.ttl s.lease t s.gen.lease_deadline holds timely in
    rw found
      (refl, (_, renew_sql-held call.ran_at m.ttl s.lease t found, refl, omega arith), omega arith)
