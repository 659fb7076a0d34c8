-- ===== src/WorkerLease/Capacity.antt =====
-- Which id an acquisition claims, and when it gives up.
use blabby.Prelude.{
  ℕ, zero, suc, ◌+◌, ◌≤◌, ◌<◌, List, [], ◌∷◌, none, some, true, false, ◌==◌, ok, err, ◌≡◌, inl, inr,
  refl, ap, ◌∙◌, arith, Bool-cases, length, All,
}
use blabby.Map.{lookup, insert}
use blabby.WorkerLease.Repo.{
  Table, Attempt, no_capacity, is_free, lowest_free, acquire_sql, acquire_from, acquire,
  acquire_attempts,
}

same : (a b : ℕ) → (a == b) ≡ true → a ≡ b
same a b e = ground arith

lowest_free-first :
    (now : ℕ) (t : Table) (count gs worker : ℕ)
    → gs ≤ worker
    → worker < gs + count
    → is_free now (lookup worker t) ≡ true
    → ((k : ℕ) → k < worker → is_free now (lookup k t) ≡ false)
    → lowest_free now t count gs ≡ some worker
unfolding lowest_free
lowest_free-first now t zero gs worker above below free busy = absurd (omega arith)
lowest_free-first now t (suc count) gs worker above below free busy =
    elim (Bool-cases (gs == worker)) [
      | inl here ↦
          rw (ap (λ k. is_free now (lookup k t)) (same gs worker here) ∙ free) (ground arith)
      | inr later ↦
          rw (busy gs (ground arith))
            (lowest_free-first now t count (suc gs) worker (ground arith) (omega arith) free busy)
    ]

abbrev pub Full : ℕ → Table → Type 0
Full now t = (k : ℕ) → k < 1024 → is_free now (lookup k t) ≡ false

lowest_free-Full :
    (now : ℕ) (t : Table) (count gs : ℕ)
    → gs + count ≤ 1024
    → Full now t
    → lowest_free now t count gs ≡ none
unfolding lowest_free
lowest_free-Full now t zero gs bound full = refl
lowest_free-Full now t (suc count) gs bound full =
    rw (full gs (omega arith)) (lowest_free-Full now t count (suc gs) (omega arith) full)

-- An acquisition whose snapshot is current claims the lowest id of 0 to 1023 that has no row or an
-- expired one, under its token, for `ttl` from now, and changes no other row.
pub acquire-lowest :
    (now ttl token worker : ℕ) (more : List Attempt) (t : Table)
    → worker < 1024
    → is_free now (lookup worker t) ≡ true
    → ((k : ℕ) → k < worker → is_free now (lookup k t) ≡ false)
    → acquire now ttl (record { token = some token; snapshot = t; answered = true } ∷ more) t ≡ (
      ok (record { worker_id = worker; token = token }),
      insert worker (record { lease_token = token; expires_at = now + ttl }) t,
    )
unfolding acquire acquire_from acquire_sql
acquire-lowest now ttl token worker more t small free busy =
    rw (lowest_free-first now t 1024 0 worker (omega arith) (omega arith) free busy, free) refl

-- An attempt that runs, on a snapshot in which every id is held.
abbrev pub Crowded : ℕ → Attempt → Type 0
Crowded now a = ((token : ℕ) × (a.token ≡ some token)) × (a.answered ≡ true) × Full now a.snapshot

acquire_from-Crowded :
    (n now ttl : ℕ) (attempts : List Attempt) (t : Table)
    → n ≤ length attempts
    → All (Crowded now) attempts
    → acquire_from n now ttl attempts t ≡ (err no_capacity, t)
unfolding acquire_from acquire_sql
acquire_from-Crowded zero now ttl attempts t long h = refl
acquire_from-Crowded (suc n) now ttl [] t long h = absurd (omega arith)
acquire_from-Crowded (suc n) now ttl (a ∷ attempts) t long (((token, e), answered, full), h) =
    rw (e, answered, lowest_free-Full now a.snapshot 1024 0 (omega arith) full)
      (acquire_from-Crowded n now ttl attempts t (omega arith) h)

-- Where every attempt runs and sees every id held, eight of them end with `ErrNoCapacity`, and the
-- table is as it was.
pub acquire-Crowded :
    (now ttl : ℕ) (attempts : List Attempt) (t : Table)
    → acquire_attempts ≤ length attempts
    → All (Crowded now) attempts
    → acquire now ttl attempts t ≡ (err no_capacity, t)
unfolding acquire
acquire-Crowded now ttl attempts t long h =
    acquire_from-Crowded acquire_attempts now ttl attempts t long h
