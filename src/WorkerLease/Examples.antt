-- ===== src/WorkerLease/Examples.antt =====
-- The theorems on worker leases at two processes that take worker 0 in turn.
use blabby.Prelude.{
  ℕ, suc, zero, ◌+◌, ◌<◌, ◌≤◌, List, [], ◌∷◌, Option, none, some, Bool, true, false, Result, ok,
  err, ◌≡◌, ◌≢◌, ◌⊎◌, inl, inr, refl, sym, ap, ◌∙◌, arith, Bool-cases, pos, ◌==◌, leb,
}
use blabby.Map.{lookup, insert}
use blabby.Snowflake.{Generator, lease_expired}
use blabby.WorkerLease.Repo.{Row, Table, Lease, Attempt, no_capacity, acquire, acquire_sql, is_free}
use blabby.WorkerLease.Manager.{
  Manager, ManagerError, release_and_clear, Session, Call, new_manager, start, next, minting, beat,
  deadline, renew_to,
}
use blabby.WorkerLease.System.{
  System, idle, after, without_error, Unused, Transition, starts, passes, Reaches, done, further,
}
use blabby.WorkerLease.Touches.{Holds}
use blabby.WorkerLease.Invariant.{set-cases}
use blabby.WorkerLease.Fencing.{one_minter_per_worker, live_lease_is_kept}
use blabby.WorkerLease.Renewal.{timely_beat_renews}
use blabby.WorkerLease.Capacity.{acquire-lowest, Crowded}

abbrev manager : Manager
manager = record { ttl = 30; margin = 5; renew_interval = 10 }

abbrev config : ℕ → Manager
config i = manager

abbrev with_token : ℕ → List Attempt
with_token token = record { token = some token; snapshot = []; answered = true } ∷ []

abbrev lease : ℕ → Lease
lease token = record { worker_id = 0; token = token }

abbrev session : ℕ → ℕ → Session
session token until = record {
  lease = lease token;
  gen = record {
    worker_id = 0;
    epoch = 0;
    last_millis = blabby.Prelude.negsuc 0;
    sequence = 0;
    lease_deadline = until;
  };
}

abbrev row : ℕ → ℕ → Row
row token until = record { lease_token = token; expires_at = until }

abbrev first : System
first = after (idle 0 []) 0 1 (some (session 11 25), (0, row 11 31) ∷ [])

abbrev second : System
second = after (record first { now = 41 }) 1 42 (some (session 22 66), (0, row 22 72) ∷ [])

first_step : Transition config 0 (idle 0 []) first
unfolding start blabby.WorkerLease.Manager.acquire acquire blabby.WorkerLease.Repo.acquire_from
    acquire_sql blabby.WorkerLease.Repo.lowest_free lookup insert blabby.Snowflake.new_generator
    blabby.Snowflake.renew
first_step =
    starts (idle 0 []) 0 (record { send_at = 0; ran_at = 1 }) (with_token 11) (omega arith)
      (omega arith) ((λ token e j t at. cc), tt)

first-Unused : (token : ℕ) → some 22 ≡ some token → Unused (record first { now = 41 }) token
first-Unused token e j t at = elim (set-cases 0 j (some (session 11 25)) (λ _. none) t at) [
  | inl (same, here) ↦ λ eq. absurd (ground (arith, ap (λ o. token_of o) here, e, eq))
  | inr (other, there) ↦ cc
]
  where
    token_of : Option Session → ℕ
    token_of none = 0
    token_of (some s) = s.lease.token

second_step : Transition config 0 (record first { now = 41 }) second
unfolding start blabby.WorkerLease.Manager.acquire acquire blabby.WorkerLease.Repo.acquire_from
    acquire_sql blabby.WorkerLease.Repo.lowest_free lookup insert blabby.Snowflake.new_generator
    blabby.Snowflake.renew
second_step =
    starts (record first { now = 41 }) 1 (record { send_at = 41; ran_at = 42 }) (with_token 22)
      (omega arith) (omega arith) (first-Unused, tt)

history : Reaches config 0 (idle 0 []) second
history = further (idle 0 []) first second first_step (
    further first (record first { now = 41 }) second (passes first 40)
      (further (record first { now = 41 }) second second second_step (done second)))

one_minter_per_worker_example :
    (next (second.managers 0) (42 ∷ [])
      ≡ some (err (minting lease_expired), some (session 11 25), []))
    ⊎ (next (second.managers 1) (42 ∷ [])
        ≡ some (err (minting lease_expired), some (session 22 66), []))
one_minter_per_worker_example =
    one_minter_per_worker config 0 0 [] second 0 1 (session 11 25) (session 22 66) [] history
      (λ e. absurd (ground arith)) refl refl refl

live_lease_is_kept_example : (acquire_sql 42 33 30 [] second.table).0 ≢ some 0
live_lease_is_kept_example =
    live_lease_is_kept config 0 0 [] second 1 (session 22 66) [] 33 30 history refl (omega arith)

manager_valid : new_manager (pos 30) (pos 5) (pos 10) ≡ ok manager
unfolding new_manager
manager_valid = refl

abbrev beat_call : Call
beat_call = record { send_at = 10; ran_at = 12 }

abbrev table : Table
table = (0, row 11 31) ∷ []

session-Holds : Holds 25 (lease 11) table
unfolding lookup
session-Holds = (row 11 31, refl, refl, omega arith)

timely_beat_renews_example :
    ((beat manager 0 beat_call true beat_call [] (some (session 11 25)) table).0
      ≡ some (renew_to (session 11 25) (deadline manager beat_call)))
    × Holds
        (renew_to (session 11 25) (deadline manager beat_call)).gen.lease_deadline
        (lease 11)
        (beat manager 0 beat_call true beat_call [] (some (session 11 25)) table).1
    × (10 + manager.renew_interval
        < (renew_to (session 11 25) (deadline manager beat_call)).gen.lease_deadline)
timely_beat_renews_example =
    timely_beat_renews (pos 30) (pos 5) (pos 10) manager 0 beat_call beat_call [] (session 11 25)
      table manager_valid session-Holds (omega arith) (omega arith)

first_busy : (k : ℕ) → k < 1 → is_free 20 (lookup k table) ≡ false
unfolding lookup
first_busy k h = ground arith

acquire-lowest_example :
    acquire 20 30 (record { token = some 44; snapshot = table; answered = true } ∷ []) table ≡ (
      ok (record { worker_id = 1; token = 44 }),
      insert 1 (record { lease_token = 44; expires_at = 20 + 30 }) table,
    )
acquire-lowest_example =
    acquire-lowest 20 30 44 1 [] table (omega arith) (unfold lookup in refl) first_busy

-- Every id below `count` held until 100.
abbrev crowd : ℕ → Table
crowd zero = []
crowd (suc count) = (count, row count 100) ∷ crowd count

crowd-busy : (count k : ℕ) → k < count → is_free 20 (lookup k (crowd count)) ≡ false
unfolding lookup
crowd-busy zero k h = absurd (omega arith)
crowd-busy (suc count) k h = elim (Bool-cases (count == k)) [
  | inl here ↦ rw here refl
  | inr other ↦ rw other (crowd-busy count k (ground arith))
]

abbrev attempt : Attempt
attempt = record { token = some 55; snapshot = crowd 1024; answered = true }

attempt-Crowded : Crowded 20 attempt
attempt-Crowded = ((55, refl), refl, crowd-busy 1024)

-- A process that leases, mints and stops, and another that leases the id at once: within one
-- millisecond both mint the same id, the one of millisecond 5000 of worker 0.
abbrev seconds : Manager
seconds = record { ttl = 30000000000; margin = 5000000000; renew_interval = 10000000000 }

abbrev id_of : Option (Result ManagerError ℕ × Option Session × List ℕ) → ℕ
id_of (some (ok id, cur, tape)) = id
id_of _ = 0

abbrev started_at : ℕ → ℕ → Table → Option Session × Table
started_at send token table =
    without_error (
      start seconds 0 (record { send_at = send; ran_at = send + 100 }) (with_token token) none
        table)

abbrev earlier : Option Session × Table
earlier = started_at 5000000000 11 []

abbrev later : Option Session × Table
later = started_at 5000400000 22 (release_and_clear true earlier.0 earlier.1).1

reused_in_a_millisecond :
    (id_of (next earlier.0 (5000300000 ∷ [])) ≡ 20971520000)
    × (id_of (next later.0 (5000600000 ∷ [])) ≡ 20971520000)
unfolding start blabby.WorkerLease.Manager.acquire acquire blabby.WorkerLease.Repo.acquire_from
    acquire_sql blabby.WorkerLease.Repo.lowest_free lookup insert blabby.Snowflake.new_generator
    blabby.Snowflake.renew release_and_clear blabby.WorkerLease.Repo.release_sql blabby.Map.delete
    next blabby.Snowflake.next blabby.Snowflake.resolve blabby.Snowflake.mint
    blabby.Snowflake.compose blabby.Snowflake.same_millis blabby.Snowflake.after_spin
    blabby.Snowflake.millis_since_epoch
reused_in_a_millisecond = (refl, refl)
