-- ===== src/WorkerLease/Fencing.antt =====
-- No two managers may mint under one worker id at one time.
use blabby.Prelude.{
  ℕ, ◌+◌, ◌≤◌, ◌<◌, List, ◌∷◌, some, err, ◌≡◌, ◌≢◌, ◌⊎◌, inl, inr, refl, sym, ap, ◌∙◌, arith,
}
use blabby.Map.{lookup}
use blabby.Snowflake.{lease_expired}
use blabby.Snowflake.Fencing.{next_past_deadline}
use blabby.WorkerLease.Repo.{Row, Table, acquire_sql}
use blabby.WorkerLease.Manager.{Manager, Session, minting, start, next, minted}
use blabby.WorkerLease.Rows.{acquire_sql-busy}
use blabby.WorkerLease.System.{
  System, idle, Transition, passes, starts, beats, stops, mints, Reaches, done, further,
}
use blabby.WorkerLease.Invariant.{Fenced, Safe-later, after-Fenced}
use blabby.WorkerLease.Operations.{start-Publishes}
use blabby.WorkerLease.Beats.{beat-Publishes, release-Publishes, mints-Publishes}

same_row : (row row' : Row) → some row ≡ some row' → row ≡ row'
same_row row row' e = cc

module _ (config : ℕ → Manager) (epoch : ℕ) where
  step-Fenced : (σ τ : System) → Transition config epoch σ τ → Fenced config σ → Fenced config τ
  step-Fenced _ _ (passes σ d) f = record {
    safe = λ i s e. Safe-later σ.now (σ.now + d) _ s.lease σ.table (omega arith) (f.safe i s e);
    within = λ i s e. omega (arith, f.within i s e);
    distinct = f.distinct;
  }
  step-Fenced _ _ (starts σ i call attempts sent h fresh) f =
      after-Fenced config σ i call.ran_at _ h f
        (start-Publishes config σ f i epoch call attempts (σ.managers i) refl sent h fresh)
  step-Fenced _ _ (beats σ i call again answered attempts sent h sent' h' fresh) f =
      after-Fenced config σ i again.ran_at _ (omega arith) f (
        beat-Publishes config σ f i epoch call again answered attempts (σ.managers i) refl sent h
          sent' h' fresh)
  step-Fenced _ _ (stops σ i reached) f =
      after-Fenced config σ i σ.now _ (omega arith) f
        (release-Publishes config σ f i reached (σ.managers i) refl)
  step-Fenced _ _ (mints σ i tape rest result cur e) f =
      after-Fenced config σ i σ.now _ (omega arith) f
        (mints-Publishes config σ f i tape rest result cur (σ.managers i) refl e)

  reaches-Fenced : (σ τ : System) → Reaches config epoch σ τ → Fenced config σ → Fenced config τ
  reaches-Fenced _ _ (done σ) f = f
  reaches-Fenced _ _ (further σ τ υ step more) f = reaches-Fenced τ υ more (step-Fenced σ τ step f)

  idle-Fenced : (now : ℕ) (t : Table) → Fenced config (idle now t)
  idle-Fenced now t = record {
    safe = λ i s e. cc;
    within = λ i s e. cc;
    distinct = λ i j s u e e' differ. cc;
  }

  fenced :
      (now : ℕ) (t : Table) (σ : System) → Reaches config epoch (idle now t) σ → Fenced config σ
  fenced now t σ r = reaches-Fenced (idle now t) σ r (idle-Fenced now t)

  -- Two sessions of one worker id do not both hold its row, so one of them has lapsed.
  one_lapsed :
      (σ : System)
      → Fenced config σ
      → (i j : ℕ) (s u : Session) → i ≢ j
      → σ.managers i ≡ some s
      → σ.managers j ≡ some u
      → s.lease.worker_id ≡ u.lease.worker_id
      → (s.gen.lease_deadline ≤ σ.now) ⊎ (u.gen.lease_deadline ≤ σ.now)
  one_lapsed σ f i j s u differ at at' same = elim (f.safe i s at) [
    | inl past ↦ inl past
    | inr (row, held, own, le) ↦ elim (f.safe j u at') [
      | inl past ↦ inr past
      | inr (row', held', own', le') ↦ absurd (
          f.distinct i j s u at at' differ (
            sym own
            ∙ ap (λ r. r.lease_token)
                (same_row row row' (sym held ∙ ap (λ w. lookup w σ.table) same ∙ held'))
            ∙ own'))
    ]
  ]

  refused_when_lapsed :
      (s : Session) (now : ℕ) (tape : List ℕ)
      → s.gen.lease_deadline ≤ now
      → next (some s) (now ∷ tape) ≡ some (err (minting lease_expired), some s, tape)
  unfolding next
  refused_when_lapsed s now tape h = ap (minted s.lease) (next_past_deadline s.gen now tape h)

  -- Any number of managers start, renew, lose, release and mint, in any order, over one table, with
  -- calls that fail before or after the database ran them, as long as a new token is one that no
  -- session holds and the clocks agree. Then of two managers that publish sessions with the same worker
  -- id, one is refused by `Next` with `lease_expired` at the present time.
  pub one_minter_per_worker :
      (start : ℕ) (t : Table) (σ : System) (i j : ℕ) (s u : Session) (tape : List ℕ)
      → Reaches config epoch (idle start t) σ
      → i ≢ j
      → σ.managers i ≡ some s
      → σ.managers j ≡ some u
      → s.lease.worker_id ≡ u.lease.worker_id
      → (next (σ.managers i) (σ.now ∷ tape) ≡ some (err (minting lease_expired), some s, tape))
        ⊎ (next (σ.managers j) (σ.now ∷ tape) ≡ some (err (minting lease_expired), some u, tape))
  one_minter_per_worker start t σ i j s u tape r differ at at' same =
      elim (one_lapsed σ (fenced start t σ r) i j s u differ at at' same) [
        | inl past ↦
            inl (ap (λ o. next o (σ.now ∷ tape)) at ∙ refused_when_lapsed s σ.now tape past)
        | inr past ↦
            inr (ap (λ o. next o (σ.now ∷ tape)) at' ∙ refused_when_lapsed u σ.now tape past)
      ]

  -- In such a system a worker id whose session may still mint is not given away: no acquisition, with
  -- whatever snapshot, token and duration, claims it.
  pub live_lease_is_kept :
      (start : ℕ) (t : Table) (σ : System) (i : ℕ) (s : Session) (snapshot : Table) (token ttl : ℕ)
      → Reaches config epoch (idle start t) σ
      → σ.managers i ≡ some s
      → σ.now < s.gen.lease_deadline
      → (acquire_sql σ.now token ttl snapshot σ.table).0 ≢ some s.lease.worker_id
  live_lease_is_kept start t σ i s snapshot token ttl r at live =
      elim ((fenced start t σ r).safe i s at) [
        | inl past ↦ absurd (omega arith)
        | inr (row, held, own, le) ↦
            acquire_sql-busy σ.now token ttl snapshot σ.table s.lease.worker_id row held
              (omega arith)
      ]
