-- ===== src/WorkerLease/Operations.antt =====
-- The operations of one manager spare the sessions of the others, and publish a sound session.
use blabby.Prelude.{
  ℕ, ◌+◌, ◌≤◌, List, Option, none, some, Result, ok, err, ◌≡◌, inl, inr, refl, sym, ◌∙◌, arith,
  Bool-cases, subst,
}
use blabby.WorkerLease.Repo.{Table, Attempt, renew_sql}
use blabby.WorkerLease.Manager.{
  Manager, Session, ManagerError, Call, acquire, start, started, publish,
}
use blabby.WorkerLease.Rows.{Tokens, renew_sql-held, renew_sql-lost}
use blabby.WorkerLease.Touches.{Touches, Touches-refl, Expired, Owned, Safe, Safe-Touches}
use blabby.WorkerLease.Leases.{Leases, acquire-Leases}
use blabby.WorkerLease.System.{System, without_error, Unused, Sent}
use blabby.WorkerLease.Invariant.{Fenced, Safe-later, Spares, Apart, Sound, Publishes, some_inj}

module _ (config : ℕ → Manager) (σ : System) (f : Fenced config σ) (i : ℕ) where
  -- Rows that had expired, or were this manager's own, are none that another session relies on.
  pub Expired-Spares :
      (now : ℕ) (t : Table) → σ.now ≤ now → Touches (Expired now) σ.table t → Spares σ i now t
  Expired-Spares now t h touched j s other at =
      Safe-Touches (Expired now) now s.gen.lease_deadline s.lease σ.table t
        (λ row gone own le. omega arith) touched
        (Safe-later σ.now now s.gen.lease_deadline s.lease σ.table h (f.safe j s at))

  pub Owned-Spares :
      (cur : Session) (now : ℕ) (t : Table)
      → σ.managers i ≡ some cur
      → σ.now ≤ now
      → Touches (Owned cur.lease.token) σ.table t
      → Spares σ i now t
  Owned-Spares cur now t held h touched j s other at =
      Safe-Touches (Owned cur.lease.token) now s.gen.lease_deadline s.lease σ.table t
        (λ row mine own le. absurd (f.distinct j i s cur at held other (sym own ∙ mine))) touched
        (Safe-later σ.now now s.gen.lease_deadline s.lease σ.table h (f.safe j s at))

  pub all-Spares : (now : ℕ) → σ.now ≤ now → Spares σ i now σ.table
  all-Spares now h = Expired-Spares now σ.table h (Touches-refl (Expired now) σ.table)

  pub own-Apart : (s : Session) → σ.managers i ≡ some s → Apart σ i s
  own-Apart s at j t other at' = f.distinct j i t s at' at other

  -- Publishing one session, and publishing none.
  pub one-Publishes :
      (ttl now : ℕ) (s : Session) (t : Table)
      → Spares σ i now t
      → Sound ttl σ i now t s
      → Publishes ttl σ i now (some s, t)
  one-Publishes ttl now s t spares sound =
      (spares, λ s' e. subst (Sound ttl σ i now t) (some_inj s s' e) sound)

  pub none-Publishes :
      (ttl now : ℕ) (t : Table) → Spares σ i now t → Publishes ttl σ i now (none, t)
  none-Publishes ttl now t spares = (spares, λ s e. cc)

  -- What an acquisition publishes: its session, or what was there where it fails.
  pub acquire-Publishes :
      (m : Manager) (epoch : ℕ) (call : Call) (attempts : List Attempt) (cur : Option Session)
      → Sent call
      → σ.now ≤ call.ran_at
      → Tokens (Unused σ) attempts
      → ((s : Session) → cur ≡ some s → (s.gen.lease_deadline ≤ call.ran_at) × Apart σ i s)
      → Publishes m.ttl σ i call.ran_at (publish cur (acquire m epoch call attempts σ.table))
  acquire-Publishes m epoch call attempts cur sent h fresh halted =
      go (acquire m epoch call attempts σ.table)
        (acquire-Leases m epoch call (Unused σ) attempts σ.table sent fresh)
    where
      go :
          (x : Result ManagerError Session × Table)
          → Leases call.ran_at m.ttl (Unused σ) σ.table x
          → Publishes m.ttl σ i call.ran_at (publish cur x)
      go (err e, t) touched = (
        Expired-Spares call.ran_at t h touched,
        λ s e. (inl (halted s e).0, omega (arith, (halted s e).0), (halted s e).1),
      )
      go (ok s, t) (touched, held, bound, unused) =
          one-Publishes m.ttl call.ran_at s t (Expired-Spares call.ran_at t h touched)
            (inr held, bound, λ j u other at. unused j u at)

  -- A session that stays as it is.
  pub stays-Sound :
      (now : ℕ) (s : Session)
      → σ.managers i ≡ some s
      → σ.now ≤ now
      → Sound (config i).ttl σ i now σ.table s
  stays-Sound now s at h = (
    Safe-later σ.now now _ s.lease σ.table h (f.safe i s at),
    omega (arith, f.within i s at),
    own-Apart s at,
  )

  pub start-Publishes :
      (epoch : ℕ) (call : Call) (attempts : List Attempt) (cur : Option Session)
      → σ.managers i ≡ cur
      → Sent call
      → σ.now ≤ call.ran_at
      → Tokens (Unused σ) attempts
      → Publishes
          (config i).ttl
          σ
          i
          call.ran_at
          (without_error (start (config i) epoch call attempts cur σ.table))
  unfolding start
  start-Publishes epoch call attempts (some s) at sent h fresh =
      one-Publishes (config i).ttl call.ran_at s σ.table (all-Spares call.ran_at h)
        (stays-Sound call.ran_at s at h)
  start-Publishes epoch call attempts none at sent h fresh =
      same (acquire (config i) epoch call attempts σ.table)
        (acquire-Publishes (config i) epoch call attempts none sent h fresh (λ s e. cc))
    where
      same :
          (x : Result ManagerError Session × Table)
          → Publishes (config i).ttl σ i call.ran_at (publish none x)
          → Publishes (config i).ttl σ i call.ran_at (without_error (started x))
      same (err e, t) p = p
      same (ok s, t) p = p

  -- A session over its row after a renewal that nobody answered, or that had no row to renew.
  pub renewed-Safe :
      (m : Manager) (now : ℕ) (s : Session) (d : ℕ)
      → d ≤ now + m.ttl
      → Safe now d s.lease σ.table
      → Safe now d s.lease (renew_sql now s.lease m.ttl σ.table).1
  renewed-Safe m now s d bound safe = elim (Bool-cases (renew_sql now s.lease m.ttl σ.table).0) [
    | inl held ↦ inr (_, renew_sql-held now m.ttl s.lease σ.table held, refl, bound)
    | inr lost ↦
        subst (Safe now d s.lease) (sym (renew_sql-lost now m.ttl s.lease σ.table lost)) safe
  ]
