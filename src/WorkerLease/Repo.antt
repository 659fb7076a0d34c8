-- ===== src/WorkerLease/Repo.antt =====
-- internal/persistence/workerlease/repo.go: the statements on the table `worker_lease`, and the calls
-- that run them. Instants and durations count nanoseconds. A statement sees one `now()`.
use blabby.Prelude.{
  ℕ, zero, suc, ◌+◌, List, [], ◌∷◌, Option, none, some, Bool, true, false, leb, ltb, ◌==◌, ◌&&◌,
  if◌then◌else◌, Result, ok, err,
}
use blabby.Map.{lookup, insert, delete}

-- The columns that the statements read, but for the key.
pub record Row : Type 0 where
  pub lease_token : ℕ
  pub expires_at : ℕ

abbrev pub Table : Type 0
Table = List (ℕ × Row)

pub record Lease : Type 0 where
  pub worker_id : ℕ
  pub token : ℕ

abbrev pub acquire_attempts : ℕ
acquire_attempts = 8

-- `expires_at <= now()`, or no row at all
abbrev pub is_free : ℕ → Option Row → Bool
is_free now none = true
is_free now (some row) = leb row.expires_at now

-- The least free id of `count` ids from `gs` on.
unfoldable pub lowest_free : ℕ → Table → ℕ → ℕ → Option ℕ
unfolding lookup
lowest_free now table zero gs = none
lowest_free now table (suc count) gs =
    let rest = lowest_free now table count (suc gs) in
    if is_free now (lookup gs table) then some gs else rest

abbrev pub claim : ℕ → ℕ → ℕ → Table → Option ℕ → Option ℕ × Table
claim now token ttl table none = (none, table)
claim now token ttl table (some gs) =
    if is_free now (lookup gs table)
    then (some gs, insert gs (record { lease_token = token; expires_at = now + ttl }) table)
    else (none, table)

-- `acquireSQL`: the SELECT reads a snapshot, which concurrent acquirers may have overtaken, and the
-- ON CONFLICT reads the row itself.
unfoldable pub acquire_sql : ℕ → ℕ → ℕ → Table → Table → Option ℕ × Table
unfolding lowest_free insert
acquire_sql now token ttl snapshot table =
    claim now token ttl table (lowest_free now snapshot 1024 0)

abbrev pub is_held : ℕ → Lease → Option Row → Bool
is_held now lease none = false
is_held now lease (some row) = row.lease_token == lease.token && ltb now row.expires_at

-- `renewSQL`, and whether it found the row
unfoldable pub renew_sql : ℕ → Lease → ℕ → Table → Bool × Table
unfolding lookup insert
renew_sql now lease ttl table =
    if is_held now lease (lookup lease.worker_id table)
    then (
      true,
      insert lease.worker_id (record { lease_token = lease.token; expires_at = now + ttl }) table,
    )
    else (false, table)

abbrev pub has_token : Lease → Option Row → Bool
has_token lease none = false
has_token lease (some row) = row.lease_token == lease.token

-- `releaseSQL`
unfoldable pub release_sql : Lease → Table → Table
unfolding lookup delete
release_sql lease table =
    if has_token lease (lookup lease.worker_id table) then delete lease.worker_id table else table

-- What the environment decides at one attempt: the token, or none where the randomness fails; the
-- snapshot; and whether the answer of the statement, once it ran, reaches the process.
pub record Attempt : Type 0 where
  pub token : Option ℕ
  pub snapshot : Table
  pub answered : Bool

pub data StoreError : Type 0 where
  no_capacity generate_token database : StoreError

abbrev pub answer : Bool → Option ℕ → ℕ → Result StoreError Lease → Result StoreError Lease
answer false claimed token later = err database
answer true none token later = later
answer true (some worker) token later = ok (record { worker_id = worker; token = token })

abbrev pub is_retry : Bool → Option ℕ → Bool
is_retry true none = true
is_retry _ _ = false

-- `Acquire` from the attempt `n` on; a list that ends is a database that stops answering.
unfoldable pub acquire_from : ℕ → ℕ → ℕ → List Attempt → Table → Result StoreError Lease × Table
unfolding acquire_sql
acquire_from zero now ttl attempts table = (err no_capacity, table)
acquire_from (suc n) now ttl [] table = (err database, table)
acquire_from (suc n) now ttl (a ∷ attempts) table = elim a.token [
  | none ↦ (err generate_token, table)
  | some token ↦
      let (claimed, table') = acquire_sql now token ttl a.snapshot table in
      let (later, table'') = acquire_from n now ttl attempts table' in
      if is_retry a.answered claimed
      then (later, table'')
      else (answer a.answered claimed token later, table')
]

-- `Acquire`
unfoldable pub acquire : ℕ → ℕ → List Attempt → Table → Result StoreError Lease × Table
unfolding acquire_from
acquire now ttl attempts table = acquire_from acquire_attempts now ttl attempts table

-- `Renew`, whose answer may be lost
unfoldable pub renew : ℕ → Lease → ℕ → Bool → Table → Result StoreError Bool × Table
unfolding renew_sql
renew now lease ttl answered table =
    let (held, table') = renew_sql now lease ttl table in
    (if answered then ok held else err database, table')
